-- ===== src/Egress/Conflicts/Laws/Decision.antt =====
-- When the loop over the claims of the updated package finds no conflict.
use uds_core.Prelude.{
  String, true, false, Option, none, some, List, [], ◌∷◌, All, Dict, lookup, insert, ok, ◌≡◌, ◌↔◌,
  inl, inr, refl, sym, ap, ◌∙◌, arith, Bool-cases, some_injective,
}
use uds_core.Crd.Package.{RemoteProtocol}
use uds_core.Egress.Resources.{same_protocol}
use uds_core.Egress.Conflicts.{
  Claim, Existing, passed, differs, check_claims, record_others, validate,
}
use uds_core.Egress.Conflicts.Laws.{Has, Agree, Agreed, others}
use uds_core.Egress.Conflicts.Laws.Recorded.{Comes, record_others-Covered, record_others-Comes}
use uds_core.Egress.Conflicts.Laws.{others-Agree, Agreed-insert, Agree-of_insert}

same_protocol_iff : (p q : RemoteProtocol) → (same_protocol p q ≡ true) ↔ (p ≡ q)
same_protocol_iff p q = (eq p q, λ e. rw e (same q))
  where
    eq : (p q : RemoteProtocol) → same_protocol p q ≡ true → p ≡ q
    eq RemoteProtocol.http RemoteProtocol.http h = refl
    eq RemoteProtocol.tcp RemoteProtocol.tcp h = refl
    eq RemoteProtocol.tls RemoteProtocol.tls h = refl
    eq RemoteProtocol.udp RemoteProtocol.udp h = refl
    eq RemoteProtocol.http RemoteProtocol.tcp h = absurd (ground arith)
    eq RemoteProtocol.http RemoteProtocol.tls h = absurd (ground arith)
    eq RemoteProtocol.http RemoteProtocol.udp h = absurd (ground arith)
    eq RemoteProtocol.tcp RemoteProtocol.http h = absurd (ground arith)
    eq RemoteProtocol.tcp RemoteProtocol.tls h = absurd (ground arith)
    eq RemoteProtocol.tcp RemoteProtocol.udp h = absurd (ground arith)
    eq RemoteProtocol.tls RemoteProtocol.http h = absurd (ground arith)
    eq RemoteProtocol.tls RemoteProtocol.tcp h = absurd (ground arith)
    eq RemoteProtocol.tls RemoteProtocol.udp h = absurd (ground arith)
    eq RemoteProtocol.udp RemoteProtocol.http h = absurd (ground arith)
    eq RemoteProtocol.udp RemoteProtocol.tcp h = absurd (ground arith)
    eq RemoteProtocol.udp RemoteProtocol.tls h = absurd (ground arith)

    same : (p : RemoteProtocol) → same_protocol p p ≡ true
    same RemoteProtocol.http = refl
    same RemoteProtocol.tcp = refl
    same RemoteProtocol.tls = refl
    same RemoteProtocol.udp = refl

differs-eq-false :
    (p : RemoteProtocol) (o : Option Existing)
    → (differs p o ≡ false) ↔ ((e : Existing) → o ≡ some e → e.protocol ≡ p)
differs-eq-false p none = (λ _ e h. absurd (ground arith), λ _. refl)
differs-eq-false p (some x) = (
  λ h e same. elim (Bool-cases (same_protocol x.protocol p)) [
    | inl eq ↦
        ap (λ (y : Existing). y.protocol) (sym (some_injective same))
        ∙ (same_protocol_iff x.protocol p).0 eq
    | inr ne ↦ absurd (ground (arith, h, ne))
  ],
  λ h. ground (arith, (same_protocol_iff x.protocol p).1 (h x refl)),
)

-- The loop finds no conflict for a claim with this key and this protocol.
abbrev Passes : Dict Existing → String → RemoteProtocol → Type 0
Passes known k p = differs p (lookup k known) ≡ false

check_claims_iff :
    (id : String) (known : Dict Existing) (cs : List Claim)
    → (check_claims id known cs ≡ ok passed)
      ↔ All (λ (c : Claim). differs c.protocol (lookup c.key known) ≡ false) cs
unfolding check_claims
check_claims_iff id known [] = (λ _. tt, λ _. refl)
check_claims_iff id known (c ∷ cs) =
    let (to, from) = check_claims_iff id known cs in
    (
      λ h. elim (Bool-cases (differs c.protocol (lookup c.key known))) [
        | inl e ↦ absurd (ground (arith, e, h))
        | inr e ↦ (e, to (ground (arith, e, h)))
      ],
      λ (e, h). rw e (from h),
    )

Passes-Has :
    (known : Dict Existing) (cs : List Claim) (k : String) (p : RemoteProtocol)
    → All (λ (c : Claim). Passes known c.key c.protocol) cs
    → Has k p cs
    → Passes known k p
Passes-Has known [] k p a h = elim h [ ]
Passes-Has known (c ∷ cs) k p (e, a) (inl (ek, ep)) = rw⁻¹ ek (rw⁻¹ ep e)
Passes-Has known (c ∷ cs) k p (e, a) (inr h) = Passes-Has known cs k p a h

All-Passes :
    (known : Dict Existing) (cs : List Claim)
    → ((k : String) (p : RemoteProtocol) → Has k p cs → Passes known k p)
    → All (λ (c : Claim). Passes known c.key c.protocol) cs
All-Passes known [] g = tt
All-Passes known (c ∷ cs) g =
    (g c.key c.protocol (inl (refl, refl)), All-Passes known cs (λ k p h. g k p (inr h)))

module _ {V : Type 0} (claims_of : V → List Claim) (m : Dict V) (new : V) (id : String) where
  abbrev known : Dict Existing
  known = record_others claims_of id m []

  known-Comes : Comes (λ k p. Has k p (others claims_of id m)) known
  known-Comes =
      record_others-Comes claims_of (λ k p. Has k p (others claims_of id m)) id m []
        (λ k e h. absurd (ground arith)) (λ k p h. h)

  validate-Agree :
      Agree (others claims_of id m) (others claims_of id m)
      → (validate claims_of m new id ≡ ok passed) ↔ Agree (claims_of new) (others claims_of id m)
  unfolding validate
  validate-Agree g = (
    λ h k p q c d.
        let (e, l) = record_others-Covered claims_of id m [] k q d in
        let passes =
          Passes-Has known (claims_of new) k p ((check_claims_iff id known (claims_of new)).0 h)
            c in
        sym ((differs-eq-false p (lookup k known)).0 passes e l)
        ∙ g k e.protocol q (known-Comes k e l) d,
    λ h. (check_claims_iff id known (claims_of new)).1 (
        All-Passes known (claims_of new) (λ k p c.
          (differs-eq-false p (lookup k known)).1
            (λ e l. sym (h k p e.protocol c (known-Comes k e l))))),
  )

  -- In a map where the packages agree on protocols, a package that agrees with itself passes the
  -- check exactly when the packages of the map with it in it agree.
  pub validate_iff :
      Agreed claims_of m
      → Agree (claims_of new) (claims_of new)
      → (validate claims_of m new id ≡ ok passed) ↔ Agreed claims_of (insert id new m)
  validate_iff g self =
      let (to, from) = validate-Agree (others-Agree claims_of id m g) in
      (
        λ h. Agreed-insert claims_of id new m g self (to h),
        λ h. from (Agree-of_insert claims_of id new m g.distinct h),
      )
