-- ===== src/Policies/Forged.antt =====
-- The early return of the mutating handlers of pepr/policies/security.ts, when the annotation that
-- marks an exemption comes with the request.
use uds_core.Prelude.{Bool, true, false, none, ok, List, [], ◌∷◌, map, filter, ◌≡◌, refl, ◌∙◌, All}
use uds_core.Crd.Exemption.{Policy}
use uds_core.Exemptions.Check.{exemption_key}
use uds_core.Policies.Image.{Text}
use uds_core.Policies.Pod.{Container, Request, approve, has_annotation}
use uds_core.Policies.Common.{security_context_containers, looked_at, to_ctx}
use uds_core.Policies.Handlers.{Env, exempt}
use uds_core.Policies.Handlers.Laws.{mutate-not_exempt, validate-not_exempt}
use uds_core.Policies.Privileged.{
  privileged_mutate, privileged_validate, validate_privilege_escalation,
}
use uds_core.Policies.NonRoot.{non_root_mutate, non_root_validate, is_root_security_context}
use uds_core.Policies.Capabilities.{
  drop_all_mutate, drop_all_validate, find_containers_without_drop,
}

nothing_looked_at :
    (zarf : Text) (r : Request) (exclude : Bool) (cs : List Container)
    → All (λ c. c.security_context ≡ none) cs
    → map to_ctx (filter (looked_at zarf r exclude) cs) ≡ []
nothing_looked_at zarf r exclude [] h = refl
nothing_looked_at zarf r exclude (c ∷ cs) (e, h) = rw e (nothing_looked_at zarf r exclude cs h)

-- What the exemption annotations make of a request, if its author sets them.
abbrev pub IsForged : Env → Request → Policy → Type 0
IsForged env r p =
    (exempt env r.metadata p ≡ ok false) × (has_annotation (exemption_key p) r ≡ true)

module _ (env : Env) where
  no_contexts :
      (r : Request) (exclude : Bool)
      → All (λ c. c.security_context ≡ none) (env.sdk.containers r.spec)
      → security_context_containers env.zarf env.sdk r exclude ≡ []
  unfolding security_context_containers
  no_contexts r exclude h = nothing_looked_at env.zarf r exclude (env.sdk.containers r.spec) h

  -- A pod that is not exempt from DisallowPrivileged, DropAllCapabilities and RequireNonRootUser,
  -- whose author sets the three exemption annotations, and which has no security context in the
  -- pod and in its containers, passes all three policies unchanged: the mutating handlers return
  -- early, and the validating handlers find no container to look at.
  pub forged_annotations-approved :
      (r : Request)
      → IsForged env r Policy.disallow_privileged
      → IsForged env r Policy.drop_all_capabilities
      → IsForged env r Policy.require_non_root_user
      → r.spec.security_context ≡ none
      → All (λ c. c.security_context ≡ none) (env.sdk.containers r.spec)
      → (privileged_mutate env r ≡ ok r)
        × (privileged_validate env r ≡ ok approve)
        × (drop_all_mutate env r ≡ ok r)
        × (drop_all_validate env r ≡ ok approve)
        × (non_root_mutate env r ≡ ok r)
        × (non_root_validate env r ≡ ok approve)
  unfolding privileged_mutate privileged_validate drop_all_mutate drop_all_validate non_root_mutate
      non_root_validate validate_privilege_escalation find_containers_without_drop
      is_root_security_context
  forged_annotations-approved r (e, a) (f, b) (g, c) pod cs = (
    mutate-not_exempt env Policy.disallow_privileged _ r e ∙ rw a,
    validate-not_exempt env Policy.disallow_privileged r.metadata _ e ∙ rw (no_contexts r false cs),
    mutate-not_exempt env Policy.drop_all_capabilities _ r f ∙ rw b,
    validate-not_exempt env Policy.drop_all_capabilities r.metadata _ f
        ∙ rw (no_contexts r false cs),
    mutate-not_exempt env Policy.require_non_root_user _ r g ∙ rw c,
    validate-not_exempt env Policy.require_non_root_user r.metadata _ g
        ∙ rw (no_contexts r true cs, pod),
  )
