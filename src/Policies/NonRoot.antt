-- ===== src/Policies/NonRoot.antt =====
-- pepr/policies/security.ts, the policy RequireNonRootUser.
pub mod Laws
use uds_core.Prelude.{
  String, Bool, true, false, not, ◌&&◌, ◌||◌, Option, none, some, List, [], ◌∷◌, if◌then◌else◌,
  filter, get_or, is_some, Result, ok, any, lookup, given, ◌>>=◌, Dict,
}
use uds_core.Crd.Exemption.{Policy}
use uds_core.Exemptions.Check.{Thrown}
use uds_core.Policies.Numbers.{number_is, opt_number_is, parse_int}
use uds_core.Policies.Pod.{
  Number, nat, PodSpec, SecurityContext, empty_context, Request, Ctx, ctx_of, Answer, approve, deny,
}
use uds_core.Policies.Common.{security_context_containers, annotate_mutation}
use uds_core.Policies.Handlers.{Env, mutate_unless_marked, unless_exempt, deny_any}

-- `if (label) field = parseInt(label)`
abbrev pub from_label : Option String → Option Number → Option Number
from_label none field = field
from_label (some s) field = if given (some s) then some (parse_int s) else field

-- `if (field === undefined) field = d`
abbrev pub default {ℓ} : {A : Type ℓ} → A → Option A → Option A
default d none = some d
default d (some a) = some a

-- setNonRootUserSettings, as it changes the security context of the pod.
unfoldable pub non_root_context : Dict String → SecurityContext → SecurityContext
non_root_context labels c = record c {
  run_as_user = default (nat 1000) (from_label (lookup "uds/user" labels) c.run_as_user);
  run_as_group = default (nat 1000) (from_label (lookup "uds/group" labels) c.run_as_group);
  fs_group = from_label (lookup "uds/fsgroup" labels) c.fs_group;
  run_as_non_root = default true c.run_as_non_root;
}

abbrev pub pod_context : Request → SecurityContext
pod_context r = get_or r.spec.security_context empty_context

abbrev pub set_non_root_user_settings : Request → Request
set_non_root_user_settings r = record r {
  spec = record r.spec {
    security_context = some (non_root_context r.metadata.labels (pod_context r));
  };
}

unfoldable pub is_root_security_context : SecurityContext → Bool
is_root_security_context c =
    not (get_or c.run_as_non_root true)
    || opt_number_is 0 c.run_as_user
    || any (number_is 0) c.supplemental_groups

module _ (env : Env) where
  unfoldable pub non_root_mutate : Request → Result Request Thrown
  non_root_mutate =
      mutate_unless_marked env Policy.require_non_root_user
        λ r. annotate_mutation env.json Policy.require_non_root_user (set_non_root_user_settings r)

  non_root_answer : Request → Answer
  non_root_answer r =
      if is_root_security_context (pod_context r)
      then deny "Pod level securityContext does not meet the non-root user requirement." [] []
      else deny_any
          "Unauthorized container securityContext. Containers must not run as root or have root-level supplemental groups"
          (some "runAsNonRoot = true"
            ∷ some "runAsUser > 0"
            ∷ some "supplementalGroups must not include 0"
            ∷ [])
          (filter (λ c. is_root_security_context (ctx_of c))
            (security_context_containers env.zarf env.sdk r true))

  unfoldable pub non_root_validate : Request → Result Answer Thrown
  unfolding non_root_answer
  non_root_validate r =
      unless_exempt env Policy.require_non_root_user r.metadata (non_root_answer r)
