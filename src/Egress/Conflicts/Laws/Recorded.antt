-- ===== src/Egress/Conflicts/Laws/Recorded.antt =====
-- What the loops over the other packages record.
use uds_core.Prelude.{
  String, Bool, true, false, some, List, [], ◌∷◌, ◌++◌, ◌==◌, if◌then◌else◌, Any-append,
  Any-append_left, Any-append_right, Dict, lookup, insert, ◌≡◌, inl, inr, refl, arith, eq_iff,
  lookup-insert, Bool-cases,
}
use uds_core.Crd.Package.{RemoteProtocol}
use uds_core.Egress.Conflicts.{Claim, Existing, record_claims, record_others}
use uds_core.Egress.Conflicts.Laws.{Has, others}

-- Every recorded protocol is one that the predicate allows for its key.
abbrev pub Comes : (String → RemoteProtocol → Type 0) → Dict Existing → Type 0
Comes P known = (k : String) (e : Existing) → lookup k known ≡ some e → P k e.protocol

-- Some protocol is recorded for the key.
abbrev pub Covered : String → Dict Existing → Type 0
Covered k known = (e : Existing) × (lookup k known ≡ some e)

Comes-insert :
    (P : String → RemoteProtocol → Type 0) (key : String) (x : Existing) (known : Dict Existing)
    → Comes P known
    → P key x.protocol
    → Comes P (insert key x known)
Comes-insert P key x known h px k e l = elim (Bool-cases (key == k)) [
  | inl same ↦
      let at : x ≡ e = ground (arith, same, l, lookup-insert key k x known) in
      rw⁻¹ ((eq_iff key k).0 same) (rw⁻¹ at px)
  | inr other ↦ h k e (ground (arith, other, l, lookup-insert key k x known))
]

Covered-insert :
    (key : String) (x : Existing) (known : Dict Existing) (k : String)
    → Covered k known
    → Covered k (insert key x known)
Covered-insert key x known k (e, l) = elim (Bool-cases (key == k)) [
  | inl same ↦ (x, ground (arith, same, lookup-insert key k x known))
  | inr other ↦ (e, ground (arith, other, l, lookup-insert key k x known))
]

record_claims-Comes :
    (P : String → RemoteProtocol → Type 0) (id : String) (cs : List Claim) (known : Dict Existing)
    → Comes P known
    → ((k : String) (p : RemoteProtocol) → Has k p cs → P k p)
    → Comes P (record_claims id cs known)
unfolding record_claims
record_claims-Comes P id [] known h g = h
record_claims-Comes P id (c ∷ cs) known h g =
    record_claims-Comes P id cs
      (insert c.key (record { protocol = c.protocol; package_id = id }) known)
      (Comes-insert P c.key (record { protocol = c.protocol; package_id = id }) known h
        (g c.key c.protocol (inl (refl, refl))))
      (λ k p m. g k p (inr m))

record_claims-keeps :
    (id : String) (cs : List Claim) (known : Dict Existing) (k : String)
    → Covered k known
    → Covered k (record_claims id cs known)
unfolding record_claims
record_claims-keeps id [] known k h = h
record_claims-keeps id (c ∷ cs) known k h =
    record_claims-keeps id cs
      (insert c.key (record { protocol = c.protocol; package_id = id }) known) k
      (Covered-insert c.key (record { protocol = c.protocol; package_id = id }) known k h)

record_claims-Covered :
    (id : String) (cs : List Claim) (known : Dict Existing) (k : String) (p : RemoteProtocol)
    → Has k p cs
    → Covered k (record_claims id cs known)
unfolding record_claims
record_claims-Covered id [] known k p h = elim h [ ]
record_claims-Covered id (c ∷ cs) known k p (inl (e, _)) =
    record_claims-keeps id cs
      (insert c.key (record { protocol = c.protocol; package_id = id }) known) k
      (
        record { protocol = c.protocol; package_id = id },
        ground (
          arith,
          e,
          eq_iff c.key k,
          lookup-insert c.key k (record { protocol = c.protocol; package_id = id }) known,
        ),
      )
record_claims-Covered id (c ∷ cs) known k p (inr h) =
    record_claims-Covered id cs
      (insert c.key (record { protocol = c.protocol; package_id = id }) known) k p h

module _ {V : Type 0} (claims_of : V → List Claim) where
  record_others-keeps :
      (id : String) (m : Dict V) (known : Dict Existing) (k : String)
      → Covered k known
      → Covered k (record_others claims_of id m known)
  unfolding record_others
  record_others-keeps id [] known k h = h
  record_others-keeps id ((other, v) ∷ m) known k h =
      record_others-keeps id m
        (if other == id then known else record_claims other (claims_of v) known) k
        (elim (other == id)
          as (λ b. Covered k (if b then known else record_claims other (claims_of v) known)) [
            | true ↦ h
            | false ↦ record_claims-keeps other (claims_of v) known k h
          ])

  pub record_others-Covered :
      (id : String) (m : Dict V) (known : Dict Existing) (k : String) (p : RemoteProtocol)
      → Has k p (others claims_of id m)
      → Covered k (record_others claims_of id m known)
  unfolding record_others
  record_others-Covered id [] known k p h = elim h [ ]
  record_others-Covered id ((other, v) ∷ m) known k p h =
      pick (other == id) (λ n. record_others-Covered id m n k p) (λ n. record_others-keeps id m n k)
        h
    where
      pick :
          (b : Bool)
          → ((n : Dict Existing)
              → Has k p (others claims_of id m)
              → Covered k (record_others claims_of id m n))
          → ((n : Dict Existing) → Covered k n → Covered k (record_others claims_of id m n))
          → Has k p (if b then others claims_of id m else claims_of v ++ others claims_of id m)
          → Covered k (
              record_others claims_of id m
                (if b then known else record_claims other (claims_of v) known))
      pick true later keep h' = later known h'
      pick false later keep h' =
          elim (Any-append (λ (c : Claim). (c.key ≡ k) × (c.protocol ≡ p)) (claims_of v)
            (others claims_of id m) h') [
              | inl mine ↦ keep _ (record_claims-Covered other (claims_of v) known k p mine)
              | inr rest ↦ later _ rest
            ]

  pub record_others-Comes :
      (P : String → RemoteProtocol → Type 0) (id : String) (m : Dict V) (known : Dict Existing)
      → Comes P known
      → ((k : String) (p : RemoteProtocol) → Has k p (others claims_of id m) → P k p)
      → Comes P (record_others claims_of id m known)
  unfolding record_others
  record_others-Comes P id [] known h g = h
  record_others-Comes P id ((other, v) ∷ m) known h g =
      pick (other == id) (λ n. record_others-Comes P id m n) g
    where
      pick :
          (b : Bool)
          → ((n : Dict Existing)
              → Comes P n
              → ((k : String) (p : RemoteProtocol) → Has k p (others claims_of id m) → P k p)
              → Comes P (record_others claims_of id m n))
          → ((k : String) (p : RemoteProtocol)
              → Has k p (if b then others claims_of id m else claims_of v ++ others claims_of id m)
              → P k p)
          → Comes P (
              record_others claims_of id m
                (if b then known else record_claims other (claims_of v) known))
      pick true ih g' = ih known h g'
      pick false ih g' =
          ih _
            (record_claims-Comes P other (claims_of v) known h (λ k p c. g' k p (
              Any-append_left (λ (d : Claim). (d.key ≡ k) × (d.protocol ≡ p)) (claims_of v)
                (others claims_of id m) c)))
            (λ k p c. g' k p (
              Any-append_right (λ (d : Claim). (d.key ≡ k) × (d.protocol ≡ p)) (claims_of v)
                (others claims_of id m) c))
