-- ===== src/Exemptions/Admission.antt =====
-- The admission of exemptions (exempt-validator.ts), the store that the watch fills
-- (exemptions.ts, exemption-store.ts) and the policies' test (exemptions/index.ts) together.
use uds_core.Prelude.{
  String, Bool, true, false, Option, none, some, List, [], ◌∷◌, ok, ◌≡◌, ◌⊎◌, inl, inr, refl, arith,
  All, Any, sym, ◌∙◌,
}
use uds_core.Crd.Exemption.{Policy, ExemptionElement, Exemption}
use uds_core.Exemptions.Store.{init, run, WatchPhase}
use uds_core.Exemptions.Store.Refinement.{in_force, after}
use uds_core.Exemptions.Store.Members.{Names}
use uds_core.Exemptions.Check.{Metadata, resource_name, is_exempt}
use uds_core.Exemptions.Check.Soundness.{Covers, IsValidPattern, HasValidPatterns, is_exempt_iff}
use uds_core.Exemptions.Validator.{valid_ns, exempt_validator}
use uds_core.Exemptions.Validator.Laws.{IsAdmissible, exempt_validator_iff}

after_cases :
    (o : String) (cur : Option Exemption) (ex : Exemption) (phase : WatchPhase)
    → (after o cur ex phase ≡ cur)
      ⊎ (after o cur ex phase ≡ some ex)
      ⊎ (after o cur ex phase ≡ none)
after_cases o cur ex WatchPhase.added = ground arith
after_cases o cur ex WatchPhase.modified = ground arith
after_cases o cur ex WatchPhase.deleted = ground arith
after_cases o cur ex _ = inl refl

module _ {P : Exemption → Type 0} where
  -- What holds of every exemption of the history holds of those in force.
  in_force-P :
      (o : String) (cur : Option Exemption) (events : List (Exemption × WatchPhase))
      {ex : Exemption}
      → ((x : Exemption) → cur ≡ some x → P x)
      → All (λ e. P e.0) events
      → in_force o cur events ≡ some ex
      → P ex
  in_force-P o cur [] {ex} h v e = h ex e
  in_force-P o cur ((x, phase) ∷ events) h (p, v) e =
      in_force-P o (after o cur x phase) events
        (λ y q. elim (after_cases o cur x phase) [
          | inl same ↦ h y (sym same ∙ q)
          | inr (inl new) ↦ let eq : x ≡ y = ground arith in rw (← eq) p
          | inr (inr gone) ↦ absurd (ground arith)
        ])
        v e

module _ (compile : String → Option (String → Bool)) (allow_all : Bool) where
  abbrev pub IsAdmitted : Exemption → Type 0
  IsAdmitted ex = exempt_validator compile allow_all ex ≡ ok tt

  IsAdmissible-patterns :
      (es : List ExemptionElement)
      → All (IsAdmissible compile) es
      → All (λ e. IsValidPattern compile e.matcher.name) es
  IsAdmissible-patterns [] h = tt
  IsAdmissible-patterns (e ∷ es) (a, h) = ((a.test, a.compiled), IsAdmissible-patterns es h)

  IsAdmitted-patterns :
      (events : List (Exemption × WatchPhase))
      → All (λ e. IsAdmitted e.0) events
      → HasValidPatterns compile events
  IsAdmitted-patterns [] h = tt
  IsAdmitted-patterns ((ex, phase) ∷ events) (a, h) = (
    IsAdmissible-patterns ex.exemptions ((exempt_validator_iff compile allow_all ex).0 a).1,
    IsAdmitted-patterns events h,
  )

  -- If the validator approved every exemption of a history of watch events, `isExempt` never
  -- throws; and a resource that it finds exempt is covered by an element of an exemption in force
  -- that lists the policy, where every element of that exemption is admissible and the exemption
  -- lives in the reserved namespace unless all namespaces are allowed.
  pub admitted-is_exempt :
      (events : List (Exemption × WatchPhase)) (md : Metadata) (q : Policy)
      → All (λ e. IsAdmitted e.0) events
      → ((b : Bool) × (is_exempt compile (run init events) md q ≡ ok b))
        × (is_exempt compile (run init events) md q ≡ ok true
            → (o : String) × (ex : Exemption) × (in_force o none events ≡ some ex)
              × Any (Names (Covers compile (resource_name md) md.namespace) q) ex.exemptions
              × All (IsAdmissible compile) ex.exemptions
              × ((allow_all ≡ true) ⊎ (ex.namespace ≡ some valid_ns)))
  admitted-is_exempt events md q v =
      let (answers, (to, from)) =
        is_exempt_iff compile events md q (IsAdmitted-patterns events v) in
      (
        elim answers [ inl t ↦ (true, t) | inr f ↦ (false, f) ],
        λ h.
            let (o, ex, e, covered) = to h in
            let admitted : IsAdmitted ex =
              in_force-P {P = IsAdmitted} o none events (λ x p. cc) v e in
            let (place, admissible) = (exempt_validator_iff compile allow_all ex).0 admitted in
            (o, ex, e, covered, admissible, place),
      )
