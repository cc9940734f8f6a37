-- ===== src/Exemptions/Store.antt =====
-- pepr/operator/controllers/exemptions/exemption-store.ts and exemptions.ts. The two module
-- variables are the fields of `Store`; the maps are functions, since the code never iterates over
-- them. Logging is left out.
pub mod Adding
mod Purging
pub mod Refinement
pub mod Members
pub mod Patterns
use uds_core.Prelude.{
  String, Bool, not, Option, none, some, List, [], ◌∷◌, ◌++◌, ◌==◌, filter, get_or, if◌then◌else◌,
  ite,
}
use uds_core.Crd.Exemption.{Kind, Policy, Policy-discrete, Matcher, ExemptionElement, Exemption}

-- `StoredMatcher`: a matcher with the uid of the exemption that it comes from.
pub record StoredMatcher : Type 0 where
  pub kind : Option Kind
  pub name : String
  pub namespace : String
  pub owner : String

pub record Store : Type 0 where
  pub policy_map : Policy → Option (List StoredMatcher)
  pub owner_map : String → Option Exemption

-- `Object.values(Policy)` has every policy.
abbrev pub init : Store
init = record { policy_map = λ p. some []; owner_map = λ o. none }

unfoldable pub get_by_policy : Store → Policy → List StoredMatcher
get_by_policy s p = get_or (s.policy_map p) []

abbrev pub set_by_policy : Store → Policy → List StoredMatcher → Store
set_by_policy s p ms = record s {
  policy_map = λ q. ite (Policy-discrete p q) (some ms) (s.policy_map q);
}

abbrev pub stored : Matcher → String → StoredMatcher
stored m owner = record { kind = m.kind; name = m.name; namespace = m.namespace; owner = owner }

-- `push` on the array of the map; where the map has no array for the policy, `push` goes to a
-- fresh array that nothing keeps.
push_matcher : Store → Policy → StoredMatcher → Option (List StoredMatcher) → Store
push_matcher s p m none = s
push_matcher s p m (some ms) = set_by_policy s p (ms ++ m ∷ [])

pub add_matcher : Store → Matcher → Policy → String → Store
unfolding push_matcher
add_matcher s m p owner = push_matcher s p (stored m owner) (s.policy_map p)

pub add_policies : Store → Matcher → String → List Policy → Store
add_policies s m owner [] = s
add_policies s m owner (p ∷ ps) = add_policies (add_matcher s m p owner) m owner ps

pub add_elements : Store → String → List ExemptionElement → Store
add_elements s owner [] = s
add_elements s owner (e ∷ es) = add_elements (add_policies s e.matcher owner e.policies) owner es

-- The filter of `remove`.
abbrev pub not_owned : String → StoredMatcher → Bool
not_owned owner m = not (m.owner == owner)

-- One policy of `remove`: the matchers of the owner go.
abbrev pub purge_policy : Store → String → Policy → Store
purge_policy s owner p = set_by_policy s p (filter (not_owned owner) (get_by_policy s p))

pub purge_policies : Store → String → List Policy → Store
purge_policies s owner [] = s
purge_policies s owner (p ∷ ps) = purge_policies (purge_policy s owner p) owner ps

pub purge_elements : Store → String → List ExemptionElement → Store
purge_elements s owner [] = s
purge_elements s owner (e ∷ es) = purge_elements (purge_policies s owner e.policies) owner es

abbrev pub set_owner : Store → String → Option Exemption → Store
set_owner s owner ex = record s { owner_map = λ o. if owner == o then ex else s.owner_map o }

-- `exemption.metadata?.uid || ""`
abbrev pub owner_of : Exemption → String
owner_of ex = get_or ex.uid ""

remove_owner : Store → String → Option Exemption → Store
remove_owner s owner none = s
remove_owner s owner (some prev) = set_owner (purge_elements s owner prev.exemptions) owner none

pub remove : Store → Exemption → Store
unfolding remove_owner
remove s ex = remove_owner s (owner_of ex) (s.owner_map (owner_of ex))

pub add : Store → Exemption → Store
add s ex =
    let owner = owner_of ex in
    add_elements (set_owner (remove s ex) owner (some ex)) owner ex.exemptions

-- exemptions.ts
pub data WatchPhase : Type 0 where
  added modified deleted bookmark error : WatchPhase

pub process_exemptions : Store → Exemption → WatchPhase → Store
process_exemptions s ex WatchPhase.added = add s ex
process_exemptions s ex WatchPhase.modified = add s ex
process_exemptions s ex WatchPhase.deleted = remove s ex
process_exemptions s ex _ = s

-- A history of watch events.
unfoldable pub run : Store → List (Exemption × WatchPhase) → Store
run s [] = s
run s ((ex, phase) ∷ events) = run (process_exemptions s ex phase) events
