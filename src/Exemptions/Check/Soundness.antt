-- ===== src/Exemptions/Check/Soundness.antt =====
-- When a resource is exempt, in terms of the exemptions that are in force.
use uds_core.Prelude.{
  String, Bool, true, false, Option, none, some, List, [], ◌∷◌, ◌==◌, ok, ◌≡◌, ◌⊎◌, inl, inr, ◌↔◌,
  refl, arith, eq_iff, eq_refl, All, Any, Dict, Bool-cases, Option-cases, ap,
}
use uds_core.Crd.Exemption.{Policy, Exemption}
use uds_core.Exemptions.Store.{StoredMatcher, Store, init, run, get_by_policy, WatchPhase}
use uds_core.Exemptions.Store.Members.{InForce, run-Any}
use uds_core.Exemptions.Store.Patterns.{AllPatterns, run-init-AllStored}
use uds_core.Exemptions.Check.{Metadata, resource_name, match_name, exempt_from, is_exempt}

module _ (compile : String → Option (String → Bool)) where
  -- A pattern and a namespace name a resource.
  pub record Covers (name : Option String) (ns : Option String) (pattern space : String)
      : Type 0 where
    pub text : String
    pub named : name ≡ some text
    pub within : ns ≡ some space
    pub test : String → Bool
    pub compiled : compile pattern ≡ some test
    pub matched : test text ≡ true

  abbrev pub IsValidPattern : String → Type 0
  IsValidPattern pattern = (test : String → Bool) × (compile pattern ≡ some test)

  abbrev pub CoversStored : Option String → Option String → StoredMatcher → Type 0
  CoversStored name ns m = Covers name ns m.name m.namespace

  exempt_from_sound :
      (name ns : Option String) (ms : List StoredMatcher)
      → exempt_from compile name ns ms ≡ ok true
      → Any (CoversStored name ns) ms
  unfolding exempt_from match_name
  exempt_from_sound name ns [] h = cc
  exempt_from_sound none ns (m ∷ ms) h = inr (exempt_from_sound none ns ms (ground arith))
  exempt_from_sound (some n) none (m ∷ ms) h =
      inr (exempt_from_sound (some n) none ms (ground arith))
  exempt_from_sound (some n) (some s) (m ∷ ms) h = elim (Bool-cases (s == m.namespace)) [
    | inr other ↦ inr (exempt_from_sound (some n) (some s) ms (ground arith))
    | inl same ↦ elim (Option-cases (compile m.name)) [
      | inl bad ↦ absurd (ground arith)
      | inr (test, good) ↦ elim (Bool-cases (test n)) [
        | inr miss ↦ inr (exempt_from_sound (some n) (some s) ms (ground arith))
        | inl hit ↦ inl (record {
          text = n;
          named = refl;
          within = ap some ((eq_iff s m.namespace).0 same);
          test = test;
          compiled = good;
          matched = hit;
        })
      ]
    ]
  ]

  -- With valid patterns the loop never throws.
  exempt_from_total :
      (name ns : Option String) (ms : List StoredMatcher)
      → All (λ m. IsValidPattern m.name) ms
      → (exempt_from compile name ns ms ≡ ok true) ⊎ (exempt_from compile name ns ms ≡ ok false)
  unfolding exempt_from match_name
  exempt_from_total name ns [] h = inr refl
  exempt_from_total name ns (m ∷ ms) ((test, good), h) =
      ground (arith, good, exempt_from_total name ns ms h)

  exempt_from_complete :
      (name ns : Option String) (ms : List StoredMatcher)
      → All (λ m. IsValidPattern m.name) ms
      → Any (CoversStored name ns) ms
      → exempt_from compile name ns ms ≡ ok true
  unfolding exempt_from match_name
  exempt_from_complete name ns [] v h = elim h [ ]
  exempt_from_complete name ns (m ∷ ms) v (inl c) =
      ground (arith, c.named, c.within, c.compiled, c.matched, eq_refl m.namespace)
  exempt_from_complete name ns (m ∷ ms) ((test, good), v) (inr h) =
      ground (arith, good, exempt_from_complete name ns ms v h)

  abbrev pub HasValidPatterns : List (Exemption × WatchPhase) → Type 0
  HasValidPatterns events = All (λ e. AllPatterns IsValidPattern e.0) events

  -- After any history of watch events whose patterns are valid, `isExempt` answers without
  -- throwing, and it answers true exactly when some exemption that the history left in force has
  -- an element that lists the policy and whose matcher has the resource's namespace and a pattern
  -- that matches the resource's name (or its generateName, if it has no name).
  pub is_exempt_iff :
      (events : List (Exemption × WatchPhase)) (md : Metadata) (q : Policy)
      → HasValidPatterns events
      → ((is_exempt compile (run init events) md q ≡ ok true)
          ⊎ (is_exempt compile (run init events) md q ≡ ok false))
        × ((is_exempt compile (run init events) md q ≡ ok true)
            ↔ InForce (Covers (resource_name md) md.namespace) events q)
  unfolding is_exempt
  is_exempt_iff events md q v =
      let name = resource_name md in
      let ms = get_by_policy (run init events) q in
      let valid = run-init-AllStored IsValidPattern events v q in
      let members = run-Any (Covers name md.namespace) events q in
      (
        exempt_from_total name md.namespace ms valid,
        (
          λ h. members.0 (exempt_from_sound name md.namespace ms h),
          λ h. exempt_from_complete name md.namespace ms valid (members.1 h),
        ),
      )

-- The test reads neither the annotations nor the labels.
pub is_exempt-annotations :
    (compile : String → Option (String → Bool)) (s : Store) (md : Metadata) (a : Dict String)
    (q : Policy)
    → is_exempt compile s (record md { annotations = a }) q ≡ is_exempt compile s md q
unfolding is_exempt
is_exempt-annotations compile s md a q = refl

-- An empty store exempts nothing.
pub is_exempt-init :
    (compile : String → Option (String → Bool)) (md : Metadata) (q : Policy)
    → is_exempt compile init md q ≡ ok false
unfolding is_exempt exempt_from get_by_policy
is_exempt-init compile md q = refl
