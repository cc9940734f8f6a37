-- ===== src/Validator/Guards.antt =====
-- Chains of tests that deny, and names that must differ.
use uds_core.Prelude.{
  Option, none, some, opt_eq, String, Bool, true, false, ◌==◌, List, [], ◌∷◌, ◌++◌, nat_eq_iff,
  includes, Result, ok, err, ◌>>◌, ◌≡◌, ◌≢◌, ◌↔◌, refl, arith, eq_iff, All, any-false_iff,
}
use uds_core.Names.{Text}
use uds_core.Names.Generated.{text_eq}
use uds_core.Validator.{Refusal, Verdict, Guards, deny_first, has_text}

abbrev pub NoneHolds : Guards → Type 0
NoneHolds gs = All (λ (g : Bool × Refusal). g.0 ≡ false) gs

pub deny_first_iff : (gs : Guards) → (deny_first gs ≡ ok tt) ↔ NoneHolds gs
unfolding deny_first
deny_first_iff [] = (λ h. tt, λ h. refl)
deny_first_iff ((true, r) ∷ gs) = (λ h. cc, λ (e, k). absurd (ground arith))
deny_first_iff ((false, r) ∷ gs) =
    let (to, from) = deny_first_iff gs in (λ h. (refl, to h), λ (e, k). from k)

-- A chain before another computation.
pub >>-eq-ok {ℓ} :
    {A : Type ℓ} (v : Verdict) (w : Result A Refusal) (a : A)
    → ((v >> w) ≡ ok a) ↔ ((v ≡ ok tt) × (w ≡ ok a))
>>-eq-ok (ok tt) w a = (λ h. (refl, h), λ h. h.1)
>>-eq-ok (err r) w a = (λ h. cc, λ h. cc)

pub NoneHolds-append : (gs hs : Guards) → NoneHolds (gs ++ hs) ↔ (NoneHolds gs × NoneHolds hs)
NoneHolds-append [] hs = (λ h. (tt, h), λ h. h.1)
NoneHolds-append (g ∷ gs) hs =
    let (to, from) = NoneHolds-append gs hs in
    (λ (e, h). ((e, (to h).0), (to h).1), λ ((e, h), k). (e, from (h, k)))

pub text_eq_iff : (s t : Text) → (text_eq s t ≡ true) ↔ (s ≡ t)
text_eq_iff [] [] = (λ h. refl, λ h. refl)
text_eq_iff [] (d ∷ ds) = (λ h. absurd (ground arith), λ h. absurd (ground arith))
text_eq_iff (c ∷ cs) [] = (λ h. absurd (ground arith), λ h. absurd (ground arith))
text_eq_iff (c ∷ cs) (d ∷ ds) =
    let (to, from) = text_eq_iff cs ds in
    (λ h. ground (arith, nat_eq_iff c d, to), λ h. ground (arith, nat_eq_iff c d, from))

pub opt_eq_iff : (o : Option String) (s : String) → (opt_eq o s ≡ true) ↔ (o ≡ some s)
opt_eq_iff none s = (λ h. absurd (ground arith), λ h. absurd (ground arith))
opt_eq_iff (some t) s = ground (arith, eq_iff t s)

-- `!set.has(name)`
pub has_text-false :
    (seen : List Text) (t : Text) → (has_text seen t ≡ false) ↔ All (λ s. s ≢ t) seen
has_text-false seen t = any-false_iff text_eq text_eq_iff seen t

pub includes-false :
    (seen : List String) (s : String) → (includes seen s ≡ false) ↔ All (λ t. t ≢ s) seen
includes-false seen s = any-false_iff (λ a b. a == b) eq_iff seen s

-- A loop comes to its end without a denial.
abbrev pub Passes {ℓ} : {A : Type ℓ} → Result A Refusal → Type ℓ
Passes {A = A} r = (a : A) × (r ≡ ok a)

pub Passes->> {ℓ} :
    {A : Type ℓ} (gs : Guards) (w : Result A Refusal)
    → Passes (deny_first gs >> w) ↔ (NoneHolds gs × Passes w)
Passes->> gs w =
    let (to, from) = deny_first_iff gs in
    (
      λ (a, h). let (v, k) = (>>-eq-ok (deny_first gs) w a).0 h in (to v, (a, k)),
      λ (n, (a, k)). (a, (>>-eq-ok (deny_first gs) w a).1 (from n, k)),
    )
