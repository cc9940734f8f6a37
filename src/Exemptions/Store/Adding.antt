-- ===== src/Exemptions/Store/Adding.antt =====
-- What `add` puts into the store's arrays, from exemption-store.ts.
use uds_core.Prelude.{
  String, true, Option, none, some, List, [], ◌∷◌, ◌++◌, ◌==◌, filter, get_or, ite, ◌≡◌, arith,
  eq_iff, refl, if◌then◌else◌, is_some, append-nil, append_assoc, sym, ◌∙◌,
}
use uds_core.Crd.Exemption.{Policy, Policy-discrete, Matcher, ExemptionElement, Exemption}
use uds_core.Exemptions.Store.{
  StoredMatcher, Store, get_by_policy, set_by_policy, stored, add_matcher, add_policies,
  add_elements,
}

abbrev pub owned : String → List StoredMatcher → List StoredMatcher
owned o = filter (λ m. m.owner == o)

-- The matchers that an exemption asks for under a policy.
abbrev pub policies_matchers : Matcher → String → Policy → List Policy → List StoredMatcher
policies_matchers m o q [] = []
policies_matchers m o q (p ∷ ps) =
    ite (Policy-discrete p q) (stored m o ∷ []) [] ++ policies_matchers m o q ps

abbrev pub elements_matchers : String → Policy → List ExemptionElement → List StoredMatcher
elements_matchers o q [] = []
elements_matchers o q (e ∷ es) =
    policies_matchers e.matcher o q e.policies ++ elements_matchers o q es

abbrev pub wanted : String → Policy → Option Exemption → List StoredMatcher
wanted o q none = []
wanted o q (some ex) = elements_matchers o q ex.exemptions

-- Every policy has its array.
abbrev pub IsPresent : Store → Type 0
IsPresent s = (p : Policy) → is_some (s.policy_map p) ≡ true

pub set_by_policy-IsPresent :
    (s : Store) (p : Policy) (ms : List StoredMatcher)
    → IsPresent s
    → IsPresent (set_by_policy s p ms)
set_by_policy-IsPresent s p ms h q = ground (arith, h q)

pub get-set_by_policy :
    (s : Store) (p q : Policy) (ms : List StoredMatcher)
    → get_by_policy (set_by_policy s p ms) q ≡ ite (Policy-discrete p q) ms (get_by_policy s q)
unfolding get_by_policy
get-set_by_policy s p q ms = ground arith

pub add_matcher-IsPresent :
    (s : Store) (m : Matcher) (p : Policy) (o : String)
    → IsPresent s
    → IsPresent (add_matcher s m p o)
unfolding add_matcher
add_matcher-IsPresent s m p o h q = ground (arith, h q)

pub get-add_matcher :
    (s : Store) (m : Matcher) (p q : Policy) (o : String)
    → IsPresent s
    → get_by_policy (add_matcher s m p o) q
      ≡ get_by_policy s q ++ ite (Policy-discrete p q) (stored m o ∷ []) []
unfolding add_matcher get_by_policy
get-add_matcher s m p q o h = ground (arith, h p, h q, append-nil (get_or (s.policy_map q) []))

pub add_policies-IsPresent :
    (s : Store) (m : Matcher) (o : String) (ps : List Policy)
    → IsPresent s
    → IsPresent (add_policies s m o ps)
unfolding add_policies
add_policies-IsPresent s m o [] h = h
add_policies-IsPresent s m o (p ∷ ps) h =
    add_policies-IsPresent (add_matcher s m p o) m o ps (add_matcher-IsPresent s m p o h)

pub get-add_policies :
    (s : Store) (m : Matcher) (o : String) (ps : List Policy) (q : Policy)
    → IsPresent s
    → get_by_policy (add_policies s m o ps) q ≡ get_by_policy s q ++ policies_matchers m o q ps
unfolding add_policies
get-add_policies s m o [] q h = sym (append-nil _)
get-add_policies s m o (p ∷ ps) q h =
    get-add_policies (add_matcher s m p o) m o ps q (add_matcher-IsPresent s m p o h)
    ∙ simp (get-add_matcher s m p q o h, append_assoc)

pub add_elements-IsPresent :
    (s : Store) (o : String) (es : List ExemptionElement)
    → IsPresent s
    → IsPresent (add_elements s o es)
unfolding add_elements
add_elements-IsPresent s o [] h = h
add_elements-IsPresent s o (e ∷ es) h =
    add_elements-IsPresent (add_policies s e.matcher o e.policies) o es
      (add_policies-IsPresent s e.matcher o e.policies h)

pub get-add_elements :
    (s : Store) (o : String) (es : List ExemptionElement) (q : Policy)
    → IsPresent s
    → get_by_policy (add_elements s o es) q ≡ get_by_policy s q ++ elements_matchers o q es
unfolding add_elements
get-add_elements s o [] q h = sym (append-nil _)
get-add_elements s o (e ∷ es) q h =
    get-add_elements (add_policies s e.matcher o e.policies) o es q
      (add_policies-IsPresent s e.matcher o e.policies h)
    ∙ simp (get-add_policies s e.matcher o e.policies q h, append_assoc)

pub owned-append :
    (o : String) (xs ys : List StoredMatcher) → owned o (xs ++ ys) ≡ owned o xs ++ owned o ys
owned-append o [] ys = refl
owned-append o (x ∷ xs) ys = ground (arith, owned-append o xs ys)

-- What an exemption asks for is owned by it, and by no other.
owned-policies_matchers :
    (m : Matcher) (o o' : String) (q : Policy) (ps : List Policy)
    → owned o' (policies_matchers m o q ps) ≡ (if o == o' then policies_matchers m o q ps else [])
owned-policies_matchers m o o' q [] = ground arith
owned-policies_matchers m o o' q (p ∷ ps) =
    ground (arith, owned-policies_matchers m o o' q ps, eq_iff o o')

pub owned-elements_matchers :
    (o o' : String) (q : Policy) (es : List ExemptionElement)
    → owned o' (elements_matchers o q es) ≡ (if o == o' then elements_matchers o q es else [])
owned-elements_matchers o o' q [] = ground arith
owned-elements_matchers o o' q (e ∷ es) = ground (
  arith,
  owned-elements_matchers o o' q es,
  owned-policies_matchers e.matcher o o' q e.policies,
  owned-append o' (policies_matchers e.matcher o q e.policies) (elements_matchers o q es),
)
