-- ===== src/Prelude/Distinct.antt =====
-- Lists without repetition, and the loops that keep a set of what they have seen.
use mathlib.Core.Path.{◌≡◌, refl}
use mathlib.Core.Logic.{◌≢◌, ◌↔◌}
use mathlib.Core.Bool.{Bool, true, false}
use mathlib.Core.List.{List, [], ◌∷◌}
use native.Mathlib.Omega.{arith}
use uds_core.Prelude.Lists.{any, All}

module _ {ℓ} {A : Type ℓ} where
  abbrev pub IsDistinct : List A → Type ℓ
  IsDistinct [] = Unit
  IsDistinct (x ∷ xs) = All (λ y. x ≢ y) xs × IsDistinct xs

  -- `if (set.has(x)) ...; set.add(x)`, for each member.
  abbrev pub IsFresh : List A → List A → Type ℓ
  IsFresh seen [] = Unit
  IsFresh seen (x ∷ xs) = All (λ y. y ≢ x) seen × IsFresh (x ∷ seen) xs

  apart_from : (x : A) (seen xs : List A) → IsFresh seen xs → All (λ y. All (λ z. z ≢ y) seen) xs
  apart_from x seen [] h = tt
  apart_from x seen (y ∷ xs) (h, k) = (h, weaken xs (apart_from x (y ∷ seen) xs k))
    where
      weaken :
          (ys : List A)
          → All (λ w. All (λ z. z ≢ w) (y ∷ seen)) ys
          → All (λ w. All (λ z. z ≢ w) seen) ys
      weaken [] h = tt
      weaken (w ∷ ys) ((e, h), k) = (h, weaken ys k)

  heads :
      (y : A) (seen xs : List A) → All (λ w. All (λ z. z ≢ w) (y ∷ seen)) xs → All (λ w. y ≢ w) xs
  heads y seen [] h = tt
  heads y seen (w ∷ xs) ((e, h), k) = (e, heads y seen xs k)

  pub IsFresh-IsDistinct : (seen xs : List A) → IsFresh seen xs → IsDistinct xs
  IsFresh-IsDistinct seen [] h = tt
  IsFresh-IsDistinct seen (x ∷ xs) (h, k) =
      (heads x seen xs (apart_from x (x ∷ seen) xs k), IsFresh-IsDistinct (x ∷ seen) xs k)

  join_heads :
      (y : A) (seen xs : List A)
      → All (λ w. y ≢ w) xs
      → All (λ w. All (λ z. z ≢ w) seen) xs
      → All (λ w. All (λ z. z ≢ w) (y ∷ seen)) xs
  join_heads y seen [] h k = tt
  join_heads y seen (w ∷ xs) (e, h) (l, k) = ((e, l), join_heads y seen xs h k)

  IsFresh-of :
      (seen xs : List A) → IsDistinct xs → All (λ w. All (λ z. z ≢ w) seen) xs → IsFresh seen xs
  IsFresh-of seen [] d h = tt
  IsFresh-of seen (x ∷ xs) (a, d) (h, k) =
      (h, IsFresh-of (x ∷ seen) xs d (join_heads x seen xs a k))

  nothing : (xs : List A) → All (λ w. All (λ z. z ≢ w) []) xs
  nothing [] = tt
  nothing (x ∷ xs) = (tt, nothing xs)

  -- A loop that starts with the empty set sees nothing twice.
  pub IsFresh-iff : (xs : List A) → IsFresh [] xs ↔ IsDistinct xs
  IsFresh-iff xs = (IsFresh-IsDistinct [] xs, λ d. IsFresh-of [] xs d (nothing xs))

  pub any-false_iff :
      (eq : A → A → Bool)
      → ((x y : A) → (eq x y ≡ true) ↔ (x ≡ y))
      → (seen : List A) (x : A) → (any (λ y. eq y x) seen ≡ false) ↔ All (λ y. y ≢ x) seen
  any-false_iff eq e [] x = (λ h. tt, λ h. refl)
  any-false_iff eq e (y ∷ ys) x =
      let (to, from) = any-false_iff eq e ys x in
      (
        λ h. (λ q. absurd (ground (arith, (e y x).1 q)), to (ground arith)),
        λ (q, k). ground (arith, from k, (e y x).0, q),
      )
