-- ===== src/Exemptions/Store/Members.antt =====
-- Which matchers the store of exemption-store.ts holds, in terms of the exemptions in force.
use uds_core.Prelude.{
  String, true, false, Option, none, some, List, [], ◌∷◌, ◌==◌, ite, ◌≡◌, refl, arith, eq_refl, inl,
  inr, Any, Any-append_left, Any-append_right, Any-append, Any-of_filter, if◌then◌else◌, ◌↔◌,
}
use uds_core.Crd.Exemption.{Policy, Policy-discrete, Matcher, ExemptionElement, Exemption}
use uds_core.Exemptions.Store.{StoredMatcher, get_by_policy, init, run, stored, WatchPhase}
use uds_core.Exemptions.Store.Adding.{owned, policies_matchers, elements_matchers, wanted}
use uds_core.Exemptions.Store.Refinement.{in_force, run-in_force}

-- The exemption element names the policy, and its matcher has the property.
abbrev pub Names : (String → String → Type 0) → Policy → ExemptionElement → Type 0
Names P q e = Any (λ p. p ≡ q) e.policies × P e.matcher.name e.matcher.namespace

module _ (P : String → String → Type 0) where
  abbrev Holds : StoredMatcher → Type 0
  Holds m = P m.name m.namespace

  owned-Any : (ms : List StoredMatcher) → Any Holds ms → (o : String) × Any Holds (owned o ms)
  owned-Any [] h = elim h [ ]
  owned-Any (m ∷ ms) (inl p) = (m.owner, rw (eq_refl m.owner) (inl p))
  owned-Any (m ∷ ms) (inr h) =
      let (o, k) = owned-Any ms h in
      (
        o,
        elim (m.owner == o) as (λ b. Any Holds (if b then m ∷ owned o ms else owned o ms)) [
          | true ↦ inr k
          | false ↦ k
        ],
      )

  chosen :
      {p q : Policy} (d : Dec (p ≡ q)) (m : StoredMatcher)
      → Any Holds (ite d (m ∷ []) [])
      → (p ≡ q) × Holds m
  chosen (yes e) m (inl k) = (e, k)
  chosen (yes e) m (inr h) = elim h [ ]
  chosen (no ne) m h = elim h [ ]

  policies-Any :
      (m : Matcher) (o : String) (q : Policy) (ps : List Policy)
      → Any Holds (policies_matchers m o q ps)
      → Any (λ p. p ≡ q) ps × P m.name m.namespace
  policies-Any m o q [] h = elim h [ ]
  policies-Any m o q (p ∷ ps) h =
      elim (Any-append Holds (ite (Policy-discrete p q) (stored m o ∷ []) [])
        (policies_matchers m o q ps) h) [
          | inl l ↦ let (e, k) = chosen (Policy-discrete p q) (stored m o) l in (inl e, k)
          | inr r ↦ let (n, k) = policies-Any m o q ps r in (inr n, k)
        ]

  policies-Any_of :
      (m : Matcher) (o : String) (q : Policy) (ps : List Policy)
      → Any (λ p. p ≡ q) ps
      → P m.name m.namespace
      → Any Holds (policies_matchers m o q ps)
  policies-Any_of m o q [] h k = elim h [ ]
  policies-Any_of m o q (p ∷ ps) (inl e) k = ground arith
  policies-Any_of m o q (p ∷ ps) (inr h) k =
      Any-append_right Holds (ite (Policy-discrete p q) (stored m o ∷ []) [])
        (policies_matchers m o q ps) (policies-Any_of m o q ps h k)

  elements-Any :
      (o : String) (q : Policy) (es : List ExemptionElement)
      → Any Holds (elements_matchers o q es)
      → Any (Names P q) es
  elements-Any o q [] h = elim h [ ]
  elements-Any o q (e ∷ es) h =
      elim (Any-append Holds (policies_matchers e.matcher o q e.policies) (elements_matchers o q es)
        h) [
          | inl l ↦ inl (policies-Any e.matcher o q e.policies l)
          | inr r ↦ inr (elements-Any o q es r)
        ]

  elements-Any_of :
      (o : String) (q : Policy) (es : List ExemptionElement)
      → Any (Names P q) es
      → Any Holds (elements_matchers o q es)
  elements-Any_of o q [] h = elim h [ ]
  elements-Any_of o q (e ∷ es) (inl (n, p)) =
      Any-append_left Holds (policies_matchers e.matcher o q e.policies) (elements_matchers o q es)
        (policies-Any_of e.matcher o q e.policies n p)
  elements-Any_of o q (e ∷ es) (inr h) =
      Any-append_right Holds (policies_matchers e.matcher o q e.policies) (elements_matchers o q es)
        (elements-Any_of o q es h)

  -- Some exemption in force has an element that names the policy and has the property.
  abbrev pub InForce : List (Exemption × WatchPhase) → Policy → Type 0
  InForce events q =
      (o : String) × (ex : Exemption) × (in_force o none events ≡ some ex)
      × Any (Names P q) ex.exemptions

  wanted-Any :
      (events : List (Exemption × WatchPhase)) (o : String) (q : Policy) (ex : Option Exemption)
      → in_force o none events ≡ ex
      → Any Holds (wanted o q ex)
      → InForce events q
  wanted-Any events o q none e h = elim h [ ]
  wanted-Any events o q (some ex) e h = (o, ex, e, elements-Any o q ex.exemptions h)

  pub run-Any :
      (events : List (Exemption × WatchPhase)) (q : Policy)
      → Any Holds (get_by_policy (run init events) q) ↔ InForce events q
  run-Any events q = (
    λ h.
        let (o, k) = owned-Any (get_by_policy (run init events) q) h in
        wanted-Any events o q (in_force o none events) refl (rw (run-in_force events o q) at k),
    λ (o, ex, e, h).
        Any-of_filter Holds (λ m. m.owner == o) (get_by_policy (run init events) q)
          (rw (run-in_force events o q) (rw e (elements-Any_of o q ex.exemptions h))),
  )
