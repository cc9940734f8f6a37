-- ===== src/Exemptions/Store/Patterns.antt =====
-- The patterns that the store of exemption-store.ts holds come from the exemptions added to it.
use uds_core.Prelude.{
  String, some, List, [], ◌∷◌, ◌++◌, filter, ite, inl, inr, All, All-append, All-filter,
  Option-cases,
}
use uds_core.Crd.Exemption.{Policy, Policy-discrete, Matcher, ExemptionElement, Exemption}
use uds_core.Exemptions.Store.{
  StoredMatcher, get_by_policy, init, run, stored, WatchPhase, Store, remove, remove_owner, add,
  owner_of, set_owner, not_owned, purge_policy, purge_policies, purge_elements, process_exemptions,
}
use uds_core.Exemptions.Store.Adding.{
  policies_matchers, elements_matchers, get-set_by_policy, get-add_elements,
}
use uds_core.Exemptions.Store.Refinement.{Refines, remove-Refines, process-Refines, init-Refines}

-- Whatever holds of every pattern of the exemptions in the history holds of every stored one.
module _ (P : String → Type 0) where
  abbrev pub AllPatterns : Exemption → Type 0
  AllPatterns ex = All (λ e. P e.matcher.name) ex.exemptions

  abbrev pub AllStored : Store → Type 0
  AllStored s = (q : Policy) → All (λ m. P m.name) (get_by_policy s q)

  policies_matchers-All :
      (m : Matcher) (o : String) (q : Policy) (ps : List Policy)
      → P m.name
      → All (λ m. P m.name) (policies_matchers m o q ps)
  policies_matchers-All m o q [] h = tt
  policies_matchers-All m o q (p ∷ ps) h =
      elim (Policy-discrete p q)
        as (λ d. All (λ m. P m.name) (ite d (stored m o ∷ []) [] ++ policies_matchers m o q ps)) [
          | yes e ↦ (h, policies_matchers-All m o q ps h)
          | no ne ↦ policies_matchers-All m o q ps h
        ]

  elements_matchers-All :
      (o : String) (q : Policy) (es : List ExemptionElement)
      → All (λ e. P e.matcher.name) es
      → All (λ m. P m.name) (elements_matchers o q es)
  elements_matchers-All o q [] h = tt
  elements_matchers-All o q (e ∷ es) (p, h) =
      All-append (λ (m : StoredMatcher). P m.name) (policies_matchers e.matcher o q e.policies)
        (elements_matchers o q es) (policies_matchers-All e.matcher o q e.policies p)
        (elements_matchers-All o q es h)

  purge_policies-All :
      (s : Store) (o : String) (ps : List Policy) → AllStored s → AllStored (purge_policies s o ps)
  unfolding purge_policies
  purge_policies-All s o [] h = h
  purge_policies-All s o (p ∷ ps) h = purge_policies-All (purge_policy s o p) o ps λ q.
      rw (get-set_by_policy s p q (filter (not_owned o) (get_by_policy s p)))
        (elim (Policy-discrete p q)
          as (λ d.
            All (λ m. P m.name)
              (ite d (filter (not_owned o) (get_by_policy s p)) (get_by_policy s q))) [
                | yes e ↦
                    All-filter (λ (m : StoredMatcher). P m.name) (not_owned o) (get_by_policy s p)
                      (h p)
                | no ne ↦ h q
              ])

  purge_elements-All :
      (s : Store) (o : String) (es : List ExemptionElement)
      → AllStored s
      → AllStored (purge_elements s o es)
  unfolding purge_elements
  purge_elements-All s o [] h = h
  purge_elements-All s o (e ∷ es) h =
      purge_elements-All (purge_policies s o e.policies) o es (purge_policies-All s o e.policies h)

  remove-All : (s : Store) (ex : Exemption) → AllStored s → AllStored (remove s ex)
  unfolding remove remove_owner get_by_policy
  remove-All s ex h = elim (Option-cases (s.owner_map (owner_of ex))) [
    | inl absent ↦ rw (absent, remove_owner) h
    | inr (prev, present) ↦
        rw (present, remove_owner) (purge_elements-All s (owner_of ex) prev.exemptions h)
  ]

  add-All :
      (s : Store) (ex : Exemption) → Refines s → AllPatterns ex → AllStored s → AllStored (add s ex)
  unfolding add get_by_policy
  add-All s ex r v h q =
      let before = set_owner (remove s ex) (owner_of ex) (some ex) in
      rw (get-add_elements before (owner_of ex) ex.exemptions q (remove-Refines s ex r).present) (
        All-append (λ (m : StoredMatcher). P m.name) (get_by_policy before q)
          (elements_matchers (owner_of ex) q ex.exemptions) (remove-All s ex h q)
          (elements_matchers-All (owner_of ex) q ex.exemptions v))

  process-All :
      (s : Store) (ex : Exemption) (phase : WatchPhase)
      → Refines s
      → AllPatterns ex
      → AllStored s
      → AllStored (process_exemptions s ex phase)
  unfolding process_exemptions
  process-All s ex WatchPhase.added r v h = add-All s ex r v h
  process-All s ex WatchPhase.modified r v h = add-All s ex r v h
  process-All s ex WatchPhase.deleted r v h = remove-All s ex h
  process-All s ex _ r v h = h

  pub run-AllStored :
      (s : Store) (events : List (Exemption × WatchPhase))
      → Refines s
      → AllStored s
      → All (λ e. AllPatterns e.0) events
      → AllStored (run s events)
  unfolding run
  run-AllStored s [] r h v = h
  run-AllStored s ((ex, phase) ∷ events) r h (v, vs) =
      run-AllStored (process_exemptions s ex phase) events (process-Refines s ex phase r)
        (process-All s ex phase r v h) vs

  init-AllStored : AllStored init
  unfolding get_by_policy
  init-AllStored q = tt

  pub run-init-AllStored :
      (events : List (Exemption × WatchPhase))
      → All (λ e. AllPatterns e.0) events
      → AllStored (run init events)
  run-init-AllStored events v = run-AllStored init events init-Refines init-AllStored v
