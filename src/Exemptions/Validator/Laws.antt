-- ===== src/Exemptions/Validator/Laws.antt =====
-- What the admission of an exemption establishes.
use uds_core.Prelude.{
  String, Bool, true, false, not, Option, none, some, List, [], ◌∷◌, opt_eq, ok, err, ◌≡◌, ◌⊎◌, inl,
  inr, ◌↔◌, refl, arith, eq_iff, All, ◌>>◌, Option-cases, ◌&&◌,
}
use uds_core.Crd.Exemption.{Kind, Policy, Matcher, ExemptionElement, Exemption}
use uds_core.Exemptions.Validator.{
  valid_ns, kind_allows, allowed, check_for_slashes, check_policies, check_kinds, check_name,
  check_names, exempt_validator, deny_if, Refusal, Verdict, invalid_namespace,
}

module _ (compile : String → Option (String → Bool)) where
  placed :
      (allow_all : Bool) (ns : Option String) (r : Refusal)
      → (deny_if (not allow_all && not (opt_eq ns valid_ns)) r ≡ ok tt)
        ↔ ((allow_all ≡ true) ⊎ (ns ≡ some valid_ns))
  placed true ns r = (λ h. inl refl, λ h. refl)
  placed false none r = (λ h. cc, λ h. absurd (ground arith))
  placed false (some s) r = ground (arith, eq_iff s valid_ns)

  -- An element that may be stored: a known kind that fits each of its policies, and a pattern
  -- that compiles and is not written between slashes.
  pub record IsAdmissible (e : ExemptionElement) : Type 0 where
    pub fits :
        All (λ p. (k : Kind) × (e.matcher.kind ≡ some k) × (kind_allows k p ≡ true)) e.policies
    pub bare : check_for_slashes e.matcher.name ≡ false
    pub test : String → Bool
    pub compiled : compile e.matcher.name ≡ some test

  abbrev Fits : Matcher → Policy → Type 0
  Fits m p = (k : Kind) × (m.kind ≡ some k) × (kind_allows k p ≡ true)

  allowed_iff :
      (m : Matcher) (k : Option Kind) (p : Policy)
      → (allowed m k p ≡ ok tt) ↔ ((x : Kind) × (k ≡ some x) × (kind_allows x p ≡ true))
  allowed_iff m none p = (λ h. cc, λ f. absurd (ground arith))
  allowed_iff m (some k) p = (λ h. (k, refl, ground arith), λ f. ground arith)

  >>-eq-ok : (v w : Verdict) → ((v >> w) ≡ ok tt) ↔ ((v ≡ ok tt) × (w ≡ ok tt))
  >>-eq-ok (ok u) w = ground arith
  >>-eq-ok (err r) w = ground arith

  check_policies_iff :
      (m : Matcher) (ps : List Policy) → (check_policies m ps ≡ ok tt) ↔ All (Fits m) ps
  unfolding check_policies
  check_policies_iff m [] = (λ h. tt, λ h. refl)
  check_policies_iff m (p ∷ ps) =
      let (to, from) = >>-eq-ok (allowed m m.kind p) (check_policies m ps) in
      let (ih, hi) = check_policies_iff m ps in
      let (f, g) = allowed_iff m m.kind p in
      (λ h. (f (to h).0, ih (to h).1), λ (a, b). from (g a, hi b))

  check_kinds_iff :
      (es : List ExemptionElement)
      → (check_kinds es ≡ ok tt) ↔ All (λ e. All (Fits e.matcher) e.policies) es
  unfolding check_kinds
  check_kinds_iff [] = (λ h. tt, λ h. refl)
  check_kinds_iff (e ∷ es) =
      let (to, from) = >>-eq-ok (check_policies e.matcher e.policies) (check_kinds es) in
      let (ih, hi) = check_kinds_iff es in
      let (f, g) = check_policies_iff e.matcher e.policies in
      (λ h. (f (to h).0, ih (to h).1), λ (a, b). from (g a, hi b))

  abbrev HasGoodName : ExemptionElement → Type 0
  HasGoodName e =
      (check_for_slashes e.matcher.name ≡ false)
      × (test : String → Bool) × (compile e.matcher.name ≡ some test)

  check_name_iff :
      (e : ExemptionElement) → (check_name compile e.matcher.name ≡ ok tt) ↔ HasGoodName e
  unfolding check_name
  check_name_iff e = elim (Option-cases (compile e.matcher.name)) [
    | inl bad ↦ (λ h. absurd (ground arith), λ (b, test, good). ground (arith, bad, good))
    | inr (test, good) ↦ (λ h. (ground arith, test, good), λ (b, _, _). ground arith)
  ]

  check_names_iff :
      (es : List ExemptionElement) → (check_names compile es ≡ ok tt) ↔ All HasGoodName es
  unfolding check_names
  check_names_iff [] = (λ h. tt, λ h. refl)
  check_names_iff (e ∷ es) =
      let (to, from) = >>-eq-ok (check_name compile e.matcher.name) (check_names compile es) in
      let (ih, hi) = check_names_iff es in
      let (f, g) = check_name_iff e in (λ h. (f (to h).0, ih (to h).1), λ (a, b). from (g a, hi b))

  All-IsAdmissible :
      (es : List ExemptionElement)
      → All IsAdmissible es ↔ (All (λ e. All (Fits e.matcher) e.policies) es × All HasGoodName es)
  All-IsAdmissible [] = (λ h. (tt, tt), λ h. tt)
  All-IsAdmissible (e ∷ es) =
      let (ih, hi) = All-IsAdmissible es in
      (
        λ (a, h). ((a.fits, (ih h).0), ((a.bare, a.test, a.compiled), (ih h).1)),
        λ ((f, fs), ((b, t, c), ns)).
            (record { fits = f; bare = b; test = t; compiled = c }, hi (fs, ns)),
      )

  -- The validator approves an exemption exactly when it lives in the namespace reserved for
  -- exemptions, or exemptions are allowed in every namespace, and each of its elements has a kind
  -- that fits its policies (or no policy at all) and a valid pattern not written between slashes.
  pub exempt_validator_iff :
      (allow_all : Bool) (ex : Exemption)
      → (exempt_validator compile allow_all ex ≡ ok tt)
        ↔ (((allow_all ≡ true) ⊎ (ex.namespace ≡ some valid_ns)) × All IsAdmissible ex.exemptions)
  unfolding exempt_validator
  exempt_validator_iff allow_all ex =
      let in_place = not allow_all && not (opt_eq ex.namespace valid_ns) in
      let first = deny_if in_place (invalid_namespace ex.namespace) in
      let (to, from) =
        >>-eq-ok (first >> check_kinds ex.exemptions) (check_names compile ex.exemptions) in
      let (to', from') = >>-eq-ok first (check_kinds ex.exemptions) in
      let (k, k') = check_kinds_iff ex.exemptions in
      let (n, n') = check_names_iff ex.exemptions in
      let (a, a') = All-IsAdmissible ex.exemptions in
      let (s, s') = placed allow_all ex.namespace (invalid_namespace ex.namespace) in
      (
        λ h. let (l, r) = to h in let (l', r') = to' l in (s l', a' (k r', n r)),
        λ (p, h). from (from' (s' p, k' (a h).0), n' (a h).1),
      )
