-- ===== src/Prelude/Lists.antt =====
-- Lists: the Boolean `filter`, `any` and `all` of arrays, and predicates by recursion.
use Prim.Native.Nat.{ℕ, suc}
use mathlib.Core.Path.{◌≡◌, refl}
use mathlib.Core.Logic.{◌⊎◌, ◌↔◌, inl, inr}
use mathlib.Core.Bool.{Bool, true, false, ◌&&◌, ◌||◌}
use mathlib.Core.List.{List, [], ◌∷◌, ◌++◌, map}
use native.Mathlib.Omega.{arith}
use uds_core.Prelude.Tests.{if◌then◌else◌}

module _ {ℓ} {A : Type ℓ} where
  abbrev pub length : List A → ℕ
  length [] = 0
  length (x ∷ xs) = suc (length xs)

  abbrev pub filter : (A → Bool) → List A → List A
  filter p [] = []
  filter p (x ∷ xs) = let rest = filter p xs in if p x then x ∷ rest else rest

  abbrev pub any : (A → Bool) → List A → Bool
  any p [] = false
  any p (x ∷ xs) = p x || any p xs

  abbrev pub all : (A → Bool) → List A → Bool
  all p [] = true
  all p (x ∷ xs) = p x && all p xs

module _ {ℓ κ} {A : Type ℓ} (P : A → Type κ) where
  abbrev pub All : List A → Type κ
  All [] = Unit
  All (x ∷ xs) = P x × All xs

module _ {ℓ} {A : Type ℓ} (P : A → Type 0) where
  abbrev pub Any : List A → Type 0
  Any [] = ⊥
  Any (x ∷ xs) = P x ⊎ Any xs

module _ {ℓ κ} {A : Type ℓ} (P : A → Type κ) where
  pub All-append : (xs ys : List A) → All P xs → All P ys → All P (xs ++ ys)
  All-append [] ys h k = k
  All-append (x ∷ xs) ys (p, h) k = (p, All-append xs ys h k)

  pub All-filter : (t : A → Bool) (xs : List A) → All P xs → All P (filter t xs)
  All-filter t [] h = tt
  All-filter t (x ∷ xs) (p, h) =
      elim (t x) as (λ b. All P (if b then x ∷ filter t xs else filter t xs)) [
        | true ↦ (p, All-filter t xs h)
        | false ↦ All-filter t xs h
      ]

module _ {ℓ} {A : Type ℓ} (P : A → Type 0) where
  pub Any-append_left : (xs ys : List A) → Any P xs → Any P (xs ++ ys)
  Any-append_left [] ys h = elim h [ ]
  Any-append_left (x ∷ xs) ys (inl p) = inl p
  Any-append_left (x ∷ xs) ys (inr h) = inr (Any-append_left xs ys h)

  pub Any-append_right : (xs ys : List A) → Any P ys → Any P (xs ++ ys)
  Any-append_right [] ys h = h
  Any-append_right (x ∷ xs) ys h = inr (Any-append_right xs ys h)

  pub Any-append : (xs ys : List A) → Any P (xs ++ ys) → Any P xs ⊎ Any P ys
  Any-append [] ys h = inr h
  Any-append (x ∷ xs) ys (inl p) = inl (inl p)
  Any-append (x ∷ xs) ys (inr h) = elim (Any-append xs ys h) [ inl l ↦ inl (inr l) | inr r ↦ inr r ]

module _ {ℓ} {A : Type ℓ} {P Q : A → Type 0} where
  pub Any-map : ((x : A) → P x → Q x) → (xs : List A) → Any P xs → Any Q xs
  Any-map f [] h = elim h [ ]
  Any-map f (x ∷ xs) (inl p) = inl (f x p)
  Any-map f (x ∷ xs) (inr h) = inr (Any-map f xs h)

  -- A member of the list that passes the test is in the filtered list.
  pub Any-filter :
      (t : A → Bool) (xs : List A)
      → ((x : A) → P x → Q x × (t x ≡ true))
      → Any P xs
      → Any Q (filter t xs)
  Any-filter t [] f h = elim h [ ]
  Any-filter t (x ∷ xs) f (inl p) = rw (f x p).1 (inl (f x p).0)
  Any-filter t (x ∷ xs) f (inr h) =
      elim (t x) as (λ b. Any Q (if b then x ∷ filter t xs else filter t xs)) [
        | true ↦ inr (Any-filter t xs f h)
        | false ↦ Any-filter t xs f h
      ]

module _ {ℓ} {A : Type ℓ} (P : A → Type 0) where
  pub Any-of_filter : (t : A → Bool) (xs : List A) → Any P (filter t xs) → Any P xs
  Any-of_filter t [] h = elim h [ ]
  Any-of_filter t (x ∷ xs) h = split (t x) (Any-of_filter t xs) h
    where
      split :
          (b : Bool)
          → (Any P (filter t xs) → Any P xs)
          → Any P (if b then x ∷ filter t xs else filter t xs)
          → P x ⊎ Any P xs
      split true ih (inl p) = inl p
      split true ih (inr k) = inr (ih k)
      split false ih k = inr (ih k)

  -- The member itself, for a proof that needs it.
  pub member : (xs : List A) → Any P xs → (x : A) × P x
  member [] h = elim h [ ]
  member (x ∷ xs) (inl p) = (x, p)
  member (x ∷ xs) (inr h) = member xs h

module _ {ℓ} {A : Type ℓ} where
  -- One round of a filter that finds nothing.
  pub keep-eq-nil :
      (b : Bool) (x : A) (rest : List A)
      → ((if b then x ∷ rest else rest) ≡ []) ↔ ((b ≡ false) × (rest ≡ []))
  keep-eq-nil true x rest = (λ h. absurd (ground arith), λ h. cc)
  keep-eq-nil false x rest = (λ h. (refl, h), λ h. h.1)

  pub filter-eq-nil : (t : A → Bool) (xs : List A) → (filter t xs ≡ []) ↔ All (λ x. t x ≡ false) xs
  filter-eq-nil t [] = (λ h. tt, λ h. refl)
  filter-eq-nil t (x ∷ xs) =
      let (to, from) = keep-eq-nil (t x) x (filter t xs) in
      let (f, g) = filter-eq-nil t xs in (λ h. ((to h).0, f (to h).1), λ (e, k). from (e, g k))

pub All-map_iff {ℓ κ} :
    {A : Type ℓ} {B : Type κ} (P : B → Type 0) (f : A → B) (xs : List A)
    → All P (map f xs) ↔ All (λ x. P (f x)) xs
All-map_iff P f [] = (λ h. tt, λ h. tt)
All-map_iff P f (x ∷ xs) =
    let (to, from) = All-map_iff P f xs in (λ (p, h). (p, to h), λ (p, h). (p, from h))

pub All-filter_iff {ℓ} :
    {A : Type ℓ} (P : A → Type 0) (t : A → Bool) (xs : List A)
    → All P (filter t xs) ↔ All (λ x. t x ≡ true → P x) xs
All-filter_iff P t [] = (λ h. tt, λ h. tt)
All-filter_iff P t (x ∷ xs) =
    let (to, from) = All-filter_iff P t xs in
    elim (t x)
      as (λ b.
        All P (if b then x ∷ filter t xs else filter t xs)
        ↔ ((b ≡ true → P x) × All (λ y. t y ≡ true → P y) xs)) [
          | true ↦ (λ (p, h). (λ e. p, to h), λ (k, h). (k refl, from h))
          | false ↦ (λ h. (λ e. absurd (ground arith), to h), λ (k, h). from h)
        ]

pub All-iff {ℓ} :
    {A : Type ℓ} {P Q : A → Type 0} (e : (x : A) → P x ↔ Q x) (xs : List A) → All P xs ↔ All Q xs
All-iff e [] = (λ h. tt, λ h. tt)
All-iff e (x ∷ xs) =
    let (to, from) = All-iff e xs in (λ (p, h). ((e x).0 p, to h), λ (q, h). ((e x).1 q, from h))

module _ {ℓ} {A : Type ℓ} where
  pub any-eq-false : (t : A → Bool) (xs : List A) → (any t xs ≡ false) ↔ All (λ x. t x ≡ false) xs
  any-eq-false t [] = (λ h. tt, λ h. refl)
  any-eq-false t (x ∷ xs) =
      let (to, from) = any-eq-false t xs in
      (λ h. (ground arith, to (ground arith)), λ (e, k). ground (arith, from k))

  pub any-eq-true : (t : A → Bool) (xs : List A) → (any t xs ≡ true) ↔ Any (λ x. t x ≡ true) xs
  any-eq-true t [] = (λ h. absurd (ground arith), λ h. elim h [ ])
  any-eq-true t (x ∷ xs) =
      let (to, from) = any-eq-true t xs in
      (λ h. ground (arith, to), λ h. elim h [ inl e ↦ rw e | inr k ↦ ground (arith, from k) ])

  pub all-eq-true : (t : A → Bool) (xs : List A) → (all t xs ≡ true) ↔ All (λ x. t x ≡ true) xs
  all-eq-true t [] = (λ h. tt, λ h. refl)
  all-eq-true t (x ∷ xs) =
      let (to, from) = all-eq-true t xs in
      (λ h. (ground arith, to (ground arith)), λ (e, k). ground (arith, from k))
