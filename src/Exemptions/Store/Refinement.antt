-- ===== src/Exemptions/Store/Refinement.antt =====
-- The contract of the exemption store: an exemption for each owner, and its matchers.
use uds_core.Prelude.{
  String, Option, none, some, List, [], ◌∷◌, ◌==◌, if◌then◌else◌, Bool-cases, ◌≡◌, refl, arith,
  eq_iff, inl, inr, append-nil, ap, ◌∙◌,
}
use uds_core.Crd.Exemption.{Policy, Matcher, ExemptionElement, Exemption}
use uds_core.Exemptions.Store.{
  Store, init, get_by_policy, add_matcher, add_policies, add_elements, purge_policy, purge_policies,
  purge_elements, set_owner, owner_of, remove_owner, remove, add, WatchPhase, process_exemptions,
  run,
}
use uds_core.Exemptions.Store.Adding.{
  owned, elements_matchers, wanted, IsPresent, add_elements-IsPresent, get-add_elements,
  owned-append, owned-elements_matchers,
}
use uds_core.Exemptions.Store.Purging.{
  purge_elements-IsPresent, owned-purge_elements_other, owned-purge_elements,
}

pub record Refines (s : Store) : Type 0 where
  pub present : IsPresent s
  pub holds : (o : String) (q : Policy) → owned o (get_by_policy s q) ≡ wanted o q (s.owner_map o)

owner_map-purge_policies :
    (s : Store) (o : String) (ps : List Policy) → (purge_policies s o ps).owner_map ≡ s.owner_map
unfolding purge_policies
owner_map-purge_policies s o [] = refl
owner_map-purge_policies s o (p ∷ ps) = owner_map-purge_policies (purge_policy s o p) o ps

owner_map-purge_elements :
    (s : Store) (o : String) (es : List ExemptionElement)
    → (purge_elements s o es).owner_map ≡ s.owner_map
unfolding purge_elements
owner_map-purge_elements s o [] = refl
owner_map-purge_elements s o (e ∷ es) =
    owner_map-purge_elements (purge_policies s o e.policies) o es
    ∙ owner_map-purge_policies s o e.policies

owner_map-add_policies :
    (s : Store) (m : Matcher) (o : String) (ps : List Policy)
    → (add_policies s m o ps).owner_map ≡ s.owner_map
unfolding add_policies add_matcher
owner_map-add_policies s m o [] = refl
owner_map-add_policies s m o (p ∷ ps) =
    owner_map-add_policies (add_matcher s m p o) m o ps ∙ ground arith

owner_map-add_elements :
    (s : Store) (o : String) (es : List ExemptionElement)
    → (add_elements s o es).owner_map ≡ s.owner_map
unfolding add_elements
owner_map-add_elements s o [] = refl
owner_map-add_elements s o (e ∷ es) =
    owner_map-add_elements (add_policies s e.matcher o e.policies) o es
    ∙ owner_map-add_policies s e.matcher o e.policies

get-set_owner :
    (s : Store) (o : String) (ex : Option Exemption) (q : Policy)
    → get_by_policy (set_owner s o ex) q ≡ get_by_policy s q
unfolding get_by_policy
get-set_owner s o ex q = refl

remove_owner-Refines :
    (s : Store) (o : String) (prev : Option Exemption)
    → Refines s
    → s.owner_map o ≡ prev
    → Refines (remove_owner s o prev)
unfolding remove_owner
remove_owner-Refines s o none r e = r
remove_owner-Refines s o (some prev) r e = record {
  present = purge_elements-IsPresent s o prev.exemptions r.present;
  holds = λ o' q. elim (Bool-cases (o == o')) [
    | inl same ↦ ground (
      arith,
      eq_iff o o',
      owned-purge_elements s o prev.exemptions q,
      r.holds o q,
      get-set_owner (purge_elements s o prev.exemptions) o none q,
    )
    | inr other ↦ ground (
      arith,
      eq_iff o o',
      owned-purge_elements_other s o o' prev.exemptions q,
      r.holds o' q,
      get-set_owner (purge_elements s o prev.exemptions) o none q,
      owner_map-purge_elements s o prev.exemptions,
    )
  ];
}

pub remove-Refines : (s : Store) (ex : Exemption) → Refines s → Refines (remove s ex)
unfolding remove
remove-Refines s ex r = remove_owner-Refines s (owner_of ex) (s.owner_map (owner_of ex)) r refl

remove_owner-owner_map :
    (s : Store) (o : String) (prev : Option Exemption) (o' : String)
    → s.owner_map o ≡ prev
    → (remove_owner s o prev).owner_map o' ≡ (if o == o' then none else s.owner_map o')
unfolding remove_owner
remove_owner-owner_map s o none o' e = ground (arith, eq_iff o o')
remove_owner-owner_map s o (some prev) o' e =
    ground (arith, owner_map-purge_elements s o prev.exemptions)

pub owner_map-remove :
    (s : Store) (ex : Exemption) (o : String)
    → (remove s ex).owner_map o ≡ (if owner_of ex == o then none else s.owner_map o)
unfolding remove
owner_map-remove s ex o = remove_owner-owner_map s (owner_of ex) (s.owner_map (owner_of ex)) o refl

pub owner_map-add :
    (s : Store) (ex : Exemption) (o : String)
    → (add s ex).owner_map o ≡ (if owner_of ex == o then some ex else s.owner_map o)
unfolding add
owner_map-add s ex o = ground (
  arith,
  owner_map-remove s ex o,
  owner_map-add_elements (set_owner (remove s ex) (owner_of ex) (some ex)) (owner_of ex)
      ex.exemptions,
)

pub add-Refines : (s : Store) (ex : Exemption) → Refines s → Refines (add s ex)
unfolding add
add-Refines s ex r =
    let o = owner_of ex in
    let before = set_owner (remove s ex) o (some ex) in
    let gone = remove-Refines s ex r in
    record {
      present = add_elements-IsPresent before o ex.exemptions gone.present;
      holds = λ o' q. ground (
        arith,
        eq_iff o o',
        eq_iff o o,
        get-add_elements before o ex.exemptions q gone.present,
        get-set_owner (remove s ex) o (some ex) q,
        owner_map-add_elements before o ex.exemptions,
        owned-append o' (get_by_policy (remove s ex) q) (elements_matchers o q ex.exemptions),
        owned-elements_matchers o o' q ex.exemptions,
        gone.holds o' q,
        owner_map-remove s ex o',
        append-nil (wanted o' q (s.owner_map o')),
      );
    }

pub process-Refines :
    (s : Store) (ex : Exemption) (phase : WatchPhase)
    → Refines s
    → Refines (process_exemptions s ex phase)
unfolding process_exemptions
process-Refines s ex WatchPhase.added r = add-Refines s ex r
process-Refines s ex WatchPhase.modified r = add-Refines s ex r
process-Refines s ex WatchPhase.deleted r = remove-Refines s ex r
process-Refines s ex _ r = r

pub init-Refines : Refines init
unfolding get_by_policy
init-Refines = record { present = λ p. refl; holds = λ o q. refl }

run-Refines :
    (s : Store) (events : List (Exemption × WatchPhase)) → Refines s → Refines (run s events)
unfolding run
run-Refines s [] r = r
run-Refines s ((ex, phase) ∷ events) r =
    run-Refines (process_exemptions s ex phase) events (process-Refines s ex phase r)

-- The exemption in force for an owner after one event, and after a history.
abbrev pub after : String → Option Exemption → Exemption → WatchPhase → Option Exemption
after o cur ex WatchPhase.added = if owner_of ex == o then some ex else cur
after o cur ex WatchPhase.modified = if owner_of ex == o then some ex else cur
after o cur ex WatchPhase.deleted = if owner_of ex == o then none else cur
after o cur ex _ = cur

abbrev pub in_force : String → Option Exemption → List (Exemption × WatchPhase) → Option Exemption
in_force o cur [] = cur
in_force o cur ((ex, phase) ∷ events) = in_force o (after o cur ex phase) events

owner_map-process :
    (s : Store) (ex : Exemption) (phase : WatchPhase) (o : String)
    → (process_exemptions s ex phase).owner_map o ≡ after o (s.owner_map o) ex phase
unfolding process_exemptions
owner_map-process s ex WatchPhase.added o = owner_map-add s ex o
owner_map-process s ex WatchPhase.modified o = owner_map-add s ex o
owner_map-process s ex WatchPhase.deleted o = owner_map-remove s ex o
owner_map-process s ex _ o = refl

owner_map-run :
    (s : Store) (events : List (Exemption × WatchPhase)) (o : String)
    → (run s events).owner_map o ≡ in_force o (s.owner_map o) events
unfolding run
owner_map-run s [] o = refl
owner_map-run s ((ex, phase) ∷ events) o =
    owner_map-run (process_exemptions s ex phase) events o
    ∙ ap (λ cur. in_force o cur events) (owner_map-process s ex phase o)

-- After any history of watch events, the matchers that the store holds for a policy and an owner
-- are exactly those, in order, of the exemption that the history left in force for that owner
-- (none, if it was deleted or never added).
pub run-in_force :
    (events : List (Exemption × WatchPhase)) (o : String) (q : Policy)
    → owned o (get_by_policy (run init events) q) ≡ wanted o q (in_force o none events)
run-in_force events o q =
    (run-Refines init events init-Refines).holds o q ∙ ap (wanted o q) (owner_map-run init events o)
