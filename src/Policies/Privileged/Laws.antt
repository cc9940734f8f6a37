-- ===== src/Policies/Privileged/Laws.antt =====
-- DisallowPrivileged: what the mutation repairs and what the validation then refuses.
use uds_core.Prelude.{
  Bool, true, false, some, ok, List, [], ◌∷◌, map, ◌≡◌, ◌≢◌, ◌⊎◌, ◌↔◌, inl, inr, refl, arith, ap,
  ◌∙◌, sym, filter, includes, get_or, All, Bool-cases, ok_injective, keep-eq-nil,
}
use uds_core.Crd.Exemption.{Policy}
use uds_core.Exemptions.Check.{Thrown, exemption_key}
use uds_core.Policies.Image.{Text}
use uds_core.Policies.Pod.{Container, empty_context, Request, Ctx, ctx_of, approve, has_annotation}
use uds_core.Policies.Common.{security_context_containers, mutated_key, looked_at, to_ctx}
use uds_core.Policies.Handlers.{Env, exempt}
use uds_core.Policies.Handlers.Laws.{
  mutate-not_exempt, validate-not_exempt, exempt-set_annotation, annotate_mutation-eq-ok,
  deny_any-eq-approve,
}
use uds_core.Policies.Privileged.{
  added, set_escalation, was_mutated, may_escalate, validate_privilege_escalation,
  set_privilege_escalation, privileged_mutate, privileged_validate,
}

-- The container does not ask for privileges: neither flag is set to true, and either escalation
-- is switched off explicitly or CAP_SYS_ADMIN is not added.
abbrev pub IsBenign : Container → Type 0
IsBenign c =
    let sc = get_or c.security_context empty_context in
    (sc.allow_privilege_escalation ≢ some true)
    × (sc.privileged ≢ some true)
    × ((sc.allow_privilege_escalation ≡ some false) ⊎ (includes (added sc) "CAP_SYS_ADMIN" ≡ false))

Bool-ne_true : (b : Bool) → (b ≡ false) ↔ (b ≢ true)
Bool-ne_true true = (λ h e. cc, λ h. absurd (h refl))
Bool-ne_true false = (λ h e. cc, λ h. refl)

set-may_escalate :
    (c : Container) → (may_escalate (ctx_of (to_ctx (set_escalation c))) ≡ false) ↔ IsBenign c
unfolding set_escalation may_escalate
set-may_escalate c = ground arith

-- The validator finds nothing in what the mutation leaves exactly when every container is benign.
set-validate :
    (zarf : Text) (r : Request) (cs : List Container)
    → (validate_privilege_escalation
          (map to_ctx (filter (looked_at zarf r false) (map set_escalation cs)))
        ≡ [])
      ↔ All IsBenign cs
unfolding validate_privilege_escalation set_escalation
set-validate zarf r [] = (λ h. tt, λ h. refl)
set-validate zarf r (c ∷ cs) =
    let (to, from) = set-validate zarf r cs in
    let (f, g) = set-may_escalate c in
    let rest = map to_ctx (filter (looked_at zarf r false) (map set_escalation cs)) in
    let found : List Ctx = filter (λ x. may_escalate (ctx_of x)) rest in
    let (k, k') =
      keep-eq-nil (may_escalate (ctx_of (to_ctx (set_escalation c)))) (to_ctx (set_escalation c))
        found in
    (λ h. let (e, n) = k h in (f e, to n), λ (b, bs). k' (g b, from bs))

module _ (env : Env) where
  -- Whether or not a mutation is recorded, the pod's containers are the repaired ones, and the
  -- exemptions see the same resource.
  set_privilege_escalation-eq-ok :
      (r r' : Request)
      → set_privilege_escalation env r ≡ ok r'
      → (r'.spec ≡ env.sdk.update set_escalation r.spec)
        × ((p : Policy) → exempt env r'.metadata p ≡ exempt env r.metadata p)
  unfolding set_privilege_escalation
  set_privilege_escalation-eq-ok r r' h =
      elim (Bool-cases (was_mutated (env.sdk.containers r.spec))) [
        | inl some_set ↦
            let (value, same) =
              annotate_mutation-eq-ok env.json Policy.disallow_privileged
                (record r { spec = env.sdk.update set_escalation r.spec }) r' (rw some_set at h) in
            rw same (refl, λ p. exempt-set_annotation env p mutated_key value r)
        | inr none_set ↦
            let same : record r { spec = env.sdk.update set_escalation r.spec } ≡ r' =
              ok_injective {E = Thrown} (rw none_set at h) in
            rw (← same) (refl, λ p. refl)
      ]

  -- A pod that is not exempt and does not already bear the exemption annotation, once mutated,
  -- is approved exactly when each container of the incoming pod is benign: neither
  -- allowPrivilegeEscalation nor privileged is true, and escalation is switched off explicitly or
  -- CAP_SYS_ADMIN is not added.
  pub privileged_admission :
      (r r' : Request)
      → exempt env r.metadata Policy.disallow_privileged ≡ ok false
      → has_annotation (exemption_key Policy.disallow_privileged) r ≡ false
      → privileged_mutate env r ≡ ok r'
      → (privileged_validate env r' ≡ ok approve) ↔ All IsBenign (env.sdk.containers r.spec)
  unfolding privileged_mutate privileged_validate security_context_containers
  privileged_admission r r' e a m =
      let body = set_privilege_escalation env in
      let p : Policy = Policy.disallow_privileged in
      let before = sym (mutate-not_exempt env p body r e) ∙ m in
      let (spec, exempts) = set_privilege_escalation-eq-ok r r' (rw a at before) in
      let cs = env.sdk.containers r.spec in
      let same : env.sdk.containers r'.spec ≡ map set_escalation cs =
        ap env.sdk.containers spec ∙ env.sdk.containers-update set_escalation r.spec in
      let (to, from) = set-validate env.zarf r' cs in
      rw (validate-not_exempt env p r'.metadata _ (exempts p ∙ e), same)
        (
          λ h. to ((deny_any-eq-approve _ _ _).0 (ok_injective {E = Thrown} h)),
          λ h. ap ok ((deny_any-eq-approve _ _ _).1 (from h)),
        )
