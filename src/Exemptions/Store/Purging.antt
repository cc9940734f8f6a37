-- ===== src/Exemptions/Store/Purging.antt =====
-- What the loops of `remove` take out of the store's arrays, from exemption-store.ts.
use uds_core.Prelude.{
  String, false, List, [], ◌∷◌, ◌++◌, ◌==◌, filter, ◌≡◌, refl, arith, eq_iff, ◌⊎◌, inl, inr, ◌∙◌,
}
use uds_core.Crd.Exemption.{Policy, Policy-discrete, Matcher, ExemptionElement}
use uds_core.Exemptions.Store.{
  StoredMatcher, Store, get_by_policy, not_owned, purge_policy, purge_policies, purge_elements,
}
use uds_core.Exemptions.Store.Adding.{
  owned, policies_matchers, elements_matchers, IsPresent, set_by_policy-IsPresent,
  get-set_by_policy,
}

pub purge_policies-IsPresent :
    (s : Store) (o : String) (ps : List Policy) → IsPresent s → IsPresent (purge_policies s o ps)
unfolding purge_policies
purge_policies-IsPresent s o [] h = h
purge_policies-IsPresent s o (p ∷ ps) h =
    purge_policies-IsPresent (purge_policy s o p) o ps (set_by_policy-IsPresent s p _ h)

pub purge_elements-IsPresent :
    (s : Store) (o : String) (es : List ExemptionElement)
    → IsPresent s
    → IsPresent (purge_elements s o es)
unfolding purge_elements
purge_elements-IsPresent s o [] h = h
purge_elements-IsPresent s o (e ∷ es) h =
    purge_elements-IsPresent (purge_policies s o e.policies) o es
      (purge_policies-IsPresent s o e.policies h)

-- The matchers of another owner pass the filter of `remove`.
pub owned-not_owned_other :
    (o o' : String) (ms : List StoredMatcher)
    → (o == o') ≡ false
    → owned o' (filter (not_owned o) ms) ≡ owned o' ms
owned-not_owned_other o o' [] h = refl
owned-not_owned_other o o' (m ∷ ms) h =
    ground
      (arith, owned-not_owned_other o o' ms h, eq_iff m.owner o, eq_iff m.owner o', eq_iff o o')

pub owned-not_owned_self :
    (o : String) (ms : List StoredMatcher) → owned o (filter (not_owned o) ms) ≡ []
owned-not_owned_self o [] = refl
owned-not_owned_self o (m ∷ ms) = ground (arith, owned-not_owned_self o ms)

pub owned-purge_policies_other :
    (s : Store) (o o' : String) (ps : List Policy) (q : Policy)
    → (o == o') ≡ false
    → owned o' (get_by_policy (purge_policies s o ps) q) ≡ owned o' (get_by_policy s q)
unfolding purge_policies
owned-purge_policies_other s o o' [] q h = refl
owned-purge_policies_other s o o' (p ∷ ps) q h =
    owned-purge_policies_other (purge_policy s o p) o o' ps q h
    ∙ ground (
      arith,
      get-set_by_policy s p q (filter (not_owned o) (get_by_policy s p)),
      owned-not_owned_other o o' (get_by_policy s p) h,
    )

pub owned-purge_elements_other :
    (s : Store) (o o' : String) (es : List ExemptionElement) (q : Policy)
    → (o == o') ≡ false
    → owned o' (get_by_policy (purge_elements s o es) q) ≡ owned o' (get_by_policy s q)
unfolding purge_elements
owned-purge_elements_other s o o' [] q h = refl
owned-purge_elements_other s o o' (e ∷ es) q h =
    owned-purge_elements_other (purge_policies s o e.policies) o o' es q h
    ∙ owned-purge_policies_other s o o' e.policies q h

-- What `remove` leaves of the owner: nothing, wherever the purged list names the policy.
pub owned-purge_policies_nil :
    (s : Store) (o : String) (ps : List Policy) (q : Policy)
    → owned o (get_by_policy s q) ≡ []
    → owned o (get_by_policy (purge_policies s o ps) q) ≡ []
unfolding purge_policies
owned-purge_policies_nil s o [] q h = h
owned-purge_policies_nil s o (p ∷ ps) q h = owned-purge_policies_nil (purge_policy s o p) o ps q (
    ground (
      arith,
      get-set_by_policy s p q (filter (not_owned o) (get_by_policy s p)),
      owned-not_owned_self o (get_by_policy s p),
    ))

pub owned-purge_elements_nil :
    (s : Store) (o : String) (es : List ExemptionElement) (q : Policy)
    → owned o (get_by_policy s q) ≡ []
    → owned o (get_by_policy (purge_elements s o es) q) ≡ []
unfolding purge_elements
owned-purge_elements_nil s o [] q h = h
owned-purge_elements_nil s o (e ∷ es) q h =
    owned-purge_elements_nil (purge_policies s o e.policies) o es q
      (owned-purge_policies_nil s o e.policies q h)

pub owned-purge_policies :
    (s : Store) (m : Matcher) (o : String) (ps : List Policy) (q : Policy)
    (rest : List StoredMatcher)
    → owned o (get_by_policy s q) ≡ policies_matchers m o q ps ++ rest
    → (owned o (get_by_policy (purge_policies s o ps) q) ≡ [])
      ⊎ (owned o (get_by_policy (purge_policies s o ps) q) ≡ rest)
unfolding purge_policies
owned-purge_policies s m o [] q rest h = inr h
owned-purge_policies s m o (p ∷ ps) q rest h = elim (Policy-discrete p q) [
  | yes e ↦ inl (
      owned-purge_policies_nil (purge_policy s o p) o ps q (
        ground (
          arith,
          get-set_by_policy s p q (filter (not_owned o) (get_by_policy s p)),
          owned-not_owned_self o (get_by_policy s p),
        )))
  | no ne ↦
      owned-purge_policies (purge_policy s o p) m o ps q rest
        (ground (arith, get-set_by_policy s p q (filter (not_owned o) (get_by_policy s p))))
]

pub owned-purge_elements :
    (s : Store) (o : String) (es : List ExemptionElement) (q : Policy)
    → owned o (get_by_policy s q) ≡ elements_matchers o q es
    → owned o (get_by_policy (purge_elements s o es) q) ≡ []
unfolding purge_elements
owned-purge_elements s o [] q h = h
owned-purge_elements s o (e ∷ es) q h =
    elim (owned-purge_policies s e.matcher o e.policies q (elements_matchers o q es) h) [
      | inl gone ↦ owned-purge_elements_nil (purge_policies s o e.policies) o es q gone
      | inr left ↦ owned-purge_elements (purge_policies s o e.policies) o es q left
    ]
