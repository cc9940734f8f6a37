-- ===== src/Policies/Capabilities.antt =====
-- pepr/policies/security.ts, the policies DropAllCapabilities and RestrictCapabilities.
pub mod Laws
use uds_core.Prelude.{
  String, Bool, true, false, not, ◌&&◌, ◌||◌, Option, none, some, List, [], ◌∷◌, if◌then◌else◌,
  filter, map, all, get_or, includes, Result, ok, truthy,
}
use uds_core.Crd.Exemption.{Policy}
use uds_core.Exemptions.Check.{Thrown}
use uds_core.Policies.Pod.{
  Capabilities, Container, SecurityContext, empty_context, Request, Ctx, ctx, ctx_of, Answer,
}
use uds_core.Policies.Common.{security_context_containers, annotate_mutation}
use uds_core.Policies.Handlers.{Env, mutate_unless_marked, unless_exempt, deny_any}
use uds_core.Policies.Privileged.{added}

abbrev no_capabilities : Capabilities
no_capabilities = record { add = none; drop = none }

-- One round of the loop of `setAllContainersDropAllCapabilities`.
unfoldable pub drop_all : Container → Container
drop_all c =
    let sc = get_or c.security_context empty_context in
    let cap = get_or sc.capabilities no_capabilities in
    record c {
      security_context =
          some (record sc { capabilities = some (record cap { drop = some ("ALL" ∷ []) }) });
    }

-- `capabilities?.drop`, absent as empty
abbrev pub dropped : SecurityContext → List String
dropped c = elim c.capabilities [ none ↦ [] | some cap ↦ get_or cap.drop [] ]

unfoldable pub find_containers_without_drop : List Ctx → String → List Ctx
find_containers_without_drop cs required =
    filter (λ c. not (includes (dropped (ctx_of c)) required)) cs

-- `add` is not empty, and some capability in it is not allowed.
abbrev pub adds_more : List String → SecurityContext → Bool
adds_more allowed c = not (all (includes allowed) (added c))

-- The reported context has the added capabilities alone.
abbrev pub report : Ctx → Ctx
report (ctx name c) =
    ctx (if truthy name then name else "unnamed")
      (record empty_context { capabilities = some (record { add = some (added c); drop = none }) })

unfoldable pub validate_container_capabilities : List Ctx → List String → List Ctx
validate_container_capabilities cs allowed = map report (
    filter (λ c. adds_more allowed (ctx_of c))
      (filter (λ c. not (all (λ a. false) (added (ctx_of c)))) cs))

abbrev pub allowed_capabilities : List String
allowed_capabilities = "NET_BIND_SERVICE" ∷ []

module _ (env : Env) where
  drop_all_capabilities : Request → Result Request Thrown
  drop_all_capabilities r =
      annotate_mutation env.json Policy.drop_all_capabilities
        (record r { spec = env.sdk.update drop_all r.spec })

  unfoldable pub drop_all_mutate : Request → Result Request Thrown
  unfolding drop_all_capabilities
  drop_all_mutate = mutate_unless_marked env Policy.drop_all_capabilities drop_all_capabilities

  unfoldable pub drop_all_validate : Request → Result Answer Thrown
  drop_all_validate r = unless_exempt env Policy.drop_all_capabilities r.metadata (
      deny_any "Unauthorized container DROP capabilities in securityContext.capabilities.drop"
        (some "ALL" ∷ [])
        (find_containers_without_drop (security_context_containers env.zarf env.sdk r false) "ALL"))

  unfoldable pub capabilities_validate : Request → Result Answer Thrown
  capabilities_validate r = unless_exempt env Policy.restrict_capabilities r.metadata (
      deny_any "Unauthorized container capabilities in securityContext.capabilities.add"
        (some "NET_BIND_SERVICE" ∷ [])
        (validate_container_capabilities (security_context_containers env.zarf env.sdk r true)
          allowed_capabilities))
