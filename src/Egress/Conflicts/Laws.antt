-- ===== src/Egress/Conflicts/Laws.antt =====
-- What the two protocol checks decide: whether the packages agree on the protocol of a key.
pub mod Recorded
pub mod Decision
use uds_core.Prelude.{
  String, Bool, true, false, Option, none, some, List, [], ◌∷◌, ◌++◌, ◌==◌, if◌then◌else◌, Any,
  Any-append, Any-append_left, Any-append_right, Dict, lookup, insert, delete, Result, ok, err, ◌≡◌,
  ◌≢◌, ◌↔◌, ◌⊎◌, inl, inr, refl, sym, ap, ◌∙◌, arith, eq_iff, eq_refl, lookup-insert, lookup-delete,
  Bool-cases, Option-cases,
}
use mathlib.Core.Path.{subst}
use uds_core.Crd.Package.{RemoteProtocol}
use uds_core.Egress.Resources.{Failure, same_protocol}
use uds_core.Egress.Conflicts.{Claim, Existing}

-- One of the claims has this key and this protocol.
abbrev pub Has : String → RemoteProtocol → List Claim → Type 0
Has k p cs = Any (λ (c : Claim). (c.key ≡ k) × (c.protocol ≡ p)) cs

-- No claim of one list has the key of a claim of the other list with another protocol.
abbrev pub Agree : List Claim → List Claim → Type 0
Agree cs ds = (k : String) (p q : RemoteProtocol) → Has k p cs → Has k q ds → p ≡ q

-- The keys of a dictionary are distinct.
abbrev pub Distinct {ℓ} : {V : Type ℓ} → Dict V → Type ℓ
Distinct [] = Unit
Distinct ((k, v) ∷ d) = (lookup k d ≡ none) × Distinct d

module _ {V : Type 0} where
  pub Distinct-insert : (k : String) (v : V) (d : Dict V) → Distinct d → Distinct (insert k v d)
  Distinct-insert k v [] h = (refl, tt)
  Distinct-insert k v ((j, w) ∷ d) (f, h) = elim (Bool-cases (j == k)) [
    | inl e ↦ rw e (f, h)
    | inr e ↦ rw e (
      ground (arith, lookup-insert k j v d, eq_iff j k, eq_iff k j, e, f),
      Distinct-insert k v d h,
    )
  ]

  pub Distinct-delete : (k : String) (d : Dict V) → Distinct d → Distinct (delete k d)
  Distinct-delete k [] h = tt
  Distinct-delete k ((j, w) ∷ d) (f, h) = elim (Bool-cases (j == k)) [
    | inl e ↦ rw e (Distinct-delete k d h)
    | inr e ↦ rw e (ground (arith, lookup-delete k j d, f), Distinct-delete k d h)
  ]

module _ {V : Type 0} (claims_of : V → List Claim) where
  -- A map from packages to what they ask for in which no two packages, and no package with
  -- itself, want different protocols for one key.
  pub record Agreed (m : Dict V) : Type 0 where
    pub distinct : Distinct m
    pub agree :
        (i j : String) (a b : V)
        → lookup i m ≡ some a
        → lookup j m ≡ some b
        → Agree (claims_of a) (claims_of b)

  -- The claims of all packages but one.
  abbrev pub others : String → Dict V → List Claim
  others id [] = []
  others id ((j, v) ∷ m) = let rest = others id m in if j == id then rest else claims_of v ++ rest

  pub others-of_lookup :
      (id j : String) (v : V) (m : Dict V) (k : String) (p : RemoteProtocol)
      → lookup j m ≡ some v
      → (j == id) ≡ false
      → Has k p (claims_of v)
      → Has k p (others id m)
  others-of_lookup id j v [] k p e ne h = absurd (ground arith)
  others-of_lookup id j v ((i, w) ∷ m) k p e ne h = elim (Bool-cases (i == id)) [
    | inl same ↦
        let apart : (i == j) ≡ false = ground (arith, same, ne, eq_iff i id, eq_iff i j) in
        rw same (others-of_lookup id j v m k p (sym (rw apart refl) ∙ e) ne h)
    | inr other ↦ rw other (elim (Bool-cases (i == j)) [
      | inl found ↦
          let eq : v ≡ w = ground (arith, e, found) in
          Any-append_left (λ (c : Claim). (c.key ≡ k) × (c.protocol ≡ p)) (claims_of w)
            (others id m) (rw⁻¹ eq h)
      | inr apart ↦
          Any-append_right (λ (c : Claim). (c.key ≡ k) × (c.protocol ≡ p)) (claims_of w)
            (others id m) (others-of_lookup id j v m k p (sym (rw apart refl) ∙ e) ne h)
    ])
  ]

  -- A package other than one makes the claim.
  abbrev pub Owned : String → Dict V → String → RemoteProtocol → Type 0
  Owned id m k p =
      (j : String) × (v : V) × ((j == id) ≡ false) × (lookup j m ≡ some v) × Has k p (claims_of v)

  lookup-later :
      (i j : String) (w v : V) (m : Dict V)
      → lookup i m ≡ none
      → lookup j m ≡ some v
      → lookup j ((i, w) ∷ m) ≡ some v
  lookup-later i j w v m f e = ground (arith, eq_iff i j, e, f)

  Owned-later :
      (id i : String) (w : V) (m : Dict V) (k : String) (p : RemoteProtocol)
      → lookup i m ≡ none
      → Owned id m k p
      → Owned id ((i, w) ∷ m) k p
  Owned-later id i w m k p f (j, v, ne, e, h) = (j, v, ne, lookup-later i j w v m f e, h)

  pub lookup-of_others :
      (id : String) (m : Dict V) (k : String) (p : RemoteProtocol)
      → Distinct m
      → Has k p (others id m)
      → Owned id m k p
  lookup-of_others id [] k p d h = elim h [ ]
  lookup-of_others id ((i, w) ∷ m) k p (f, d) h =
      split (lookup-of_others id m k p d) (Bool-cases (i == id)) h
    where
      split :
          (Has k p (others id m) → Owned id m k p)
          → ((i == id) ≡ true) ⊎ ((i == id) ≡ false)
          → Has k p (others id ((i, w) ∷ m))
          → Owned id ((i, w) ∷ m) k p
      split ih (inl same) h' = Owned-later id i w m k p f (
          ih (subst (λ b. Has k p (if b then others id m else claims_of w ++ others id m)) same h'))
      split ih (inr other) h' =
          elim (Any-append (λ (c : Claim). (c.key ≡ k) × (c.protocol ≡ p)) (claims_of w)
            (others id m)
            (subst (λ b. Has k p (if b then others id m else claims_of w ++ others id m)) other
              h')) [
                | inl mine ↦ (i, w, other, rw (eq_refl i) refl, mine)
                | inr later ↦ Owned-later id i w m k p f (ih later)
              ]

  lookup-of_insert :
      (id : String) (new : V) (m : Dict V) (i : String) (a : V)
      → lookup i (insert id new m) ≡ some a
      → (a ≡ new) ⊎ (((i == id) ≡ false) × (lookup i m ≡ some a))
  lookup-of_insert id new m i a e = elim (Bool-cases (i == id)) [
    | inl same ↦ inl (ground (arith, same, e, eq_iff i id, eq_refl id, lookup-insert id i new m))
    | inr other ↦
        inr (other, ground (arith, other, e, eq_iff i id, eq_iff id i, lookup-insert id i new m))
  ]

  -- A map stays agreed when the claims of an updated package fit to those of the others.
  pub Agreed-insert :
      (id : String) (new : V) (m : Dict V)
      → Agreed m
      → Agree (claims_of new) (claims_of new)
      → Agree (claims_of new) (others id m)
      → Agreed (insert id new m)
  Agreed-insert id new m g self fit = record {
    distinct = Distinct-insert id new m g.distinct;
    agree = λ i j a b ea eb k p q c d.
        fits i j a b (lookup-of_insert id new m i a ea) (lookup-of_insert id new m j b eb) k p q c
          d;
  }
    where
      fits :
          (i j : String) (a b : V)
          → (a ≡ new) ⊎ (((i == id) ≡ false) × (lookup i m ≡ some a))
          → (b ≡ new) ⊎ (((j == id) ≡ false) × (lookup j m ≡ some b))
          → Agree (claims_of a) (claims_of b)
      fits i j a b (inl e) (inl e') k p q c d = self k p q (rw⁻¹ e c) (rw⁻¹ e' d)
      fits i j a b (inl e) (inr (ne, l)) k p q c d =
          fit k p q (rw⁻¹ e c) (others-of_lookup id j b m k q l ne d)
      fits i j a b (inr (ne, l)) (inl e) k p q c d =
          sym (fit k q p (rw⁻¹ e d) (others-of_lookup id i a m k p l ne c))
      fits i j a b (inr (_, l)) (inr (_, l')) k p q c d = g.agree i j a b l l' k p q c d

  pub Agreed-delete : (id : String) (m : Dict V) → Agreed m → Agreed (delete id m)
  Agreed-delete id m g = record {
    distinct = Distinct-delete id m g.distinct;
    agree = λ i j a b ea eb. g.agree i j a b (lookup-of_delete i a ea) (lookup-of_delete j b eb);
  }
    where
      lookup-of_delete :
          (i : String) (a : V) → lookup i (delete id m) ≡ some a → lookup i m ≡ some a
      lookup-of_delete i a e = ground (arith, lookup-delete id i m, e)

  pub others-Agree : (id : String) (m : Dict V) → Agreed m → Agree (others id m) (others id m)
  others-Agree id m g k p q c d =
      let (i, a, _, ea, ha) = lookup-of_others id m k p g.distinct c in
      let (j, b, _, eb, hb) = lookup-of_others id m k q g.distinct d in
      g.agree i j a b ea eb k p q ha hb

  -- An updated package fits to the others when the map with it is agreed.
  pub Agree-of_insert :
      (id : String) (new : V) (m : Dict V)
      → Distinct m
      → Agreed (insert id new m)
      → Agree (claims_of new) (others id m)
  Agree-of_insert id new m d g k p q c o =
      let (j, b, ne, eb, hb) = lookup-of_others id m k q d o in
      g.agree id j new b (ground (arith, lookup-insert id id new m, eq_refl id))
        (ground (arith, lookup-insert id j new m, eq_iff id j, ne, eq_refl id, eb)) k p q c hb
