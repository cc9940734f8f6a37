-- ===== src/Policies/Privileged.antt =====
-- pepr/policies/security.ts, the policy DisallowPrivileged.
pub mod Laws
use uds_core.Prelude.{
  String, Bool, true, false, not, ◌&&◌, ◌||◌, Option, none, some, List, [], ◌∷◌, if◌then◌else◌,
  filter, map, get_or, is_some, includes, Result, ok, any,
}
use uds_core.Crd.Exemption.{Policy}
use uds_core.Exemptions.Check.{Thrown}
use uds_core.Policies.Pod.{
  Container, SecurityContext, Capabilities, empty_context, Request, Ctx, ctx_of, Answer,
}
use uds_core.Policies.Common.{security_context_containers, annotate_mutation}
use uds_core.Policies.Handlers.{Env, mutate_unless_marked, unless_exempt, deny_any}

abbrev pub added : SecurityContext → List String
added c = elim c.capabilities [ none ↦ [] | some cap ↦ get_or cap.add [] ]

-- shouldSetPrivilegeEscalation
abbrev pub should_set : SecurityContext → Bool
should_set c =
    not (is_some c.allow_privilege_escalation)
    && not (get_or c.privileged false)
    && not (includes (added c) "CAP_SYS_ADMIN")

-- One round of the loop of `setPrivilegeEscalation`.
unfoldable pub set_escalation : Container → Container
set_escalation c =
    let sc = get_or c.security_context empty_context in
    record c {
      security_context =
          some
            (if should_set sc then record sc { allow_privilege_escalation = some false } else sc);
    }

-- wasMutated
abbrev pub was_mutated : List Container → Bool
was_mutated cs = any (λ (c : Container). should_set (get_or c.security_context empty_context)) cs

-- `(allowPrivilegeEscalation ?? true) || privileged`
unfoldable pub may_escalate : SecurityContext → Bool
may_escalate c = get_or c.allow_privilege_escalation true || get_or c.privileged false

unfoldable pub validate_privilege_escalation : List Ctx → List Ctx
unfolding may_escalate
validate_privilege_escalation = filter (λ c. may_escalate (ctx_of c))

module _ (env : Env) where
  set_privilege_escalation : Request → Result Request Thrown
  set_privilege_escalation r =
      let r' = record r { spec = env.sdk.update set_escalation r.spec } in
      if was_mutated (env.sdk.containers r.spec)
      then annotate_mutation env.json Policy.disallow_privileged r'
      else ok r'

  unfoldable pub privileged_mutate : Request → Result Request Thrown
  unfolding set_privilege_escalation
  privileged_mutate = mutate_unless_marked env Policy.disallow_privileged set_privilege_escalation

  unfoldable pub privileged_validate : Request → Result Answer Thrown
  privileged_validate r = unless_exempt env Policy.disallow_privileged r.metadata (
      deny_any "Privilege escalation is disallowed"
        (some "allowPrivilegeEscalation = false" ∷ some "privileged = false" ∷ [])
        (validate_privilege_escalation (security_context_containers env.zarf env.sdk r false)))
