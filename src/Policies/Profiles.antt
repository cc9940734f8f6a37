-- ===== src/Policies/Profiles.antt =====
-- pepr/policies/security.ts, the policies on values of a security context that are set against a
-- list: RestrictProcMount, RestrictSeccomp, DisallowSELinuxOptions and RestrictSELinuxType.
pub mod Laws
use uds_core.Prelude.{
  String, Bool, true, false, not, ◌&&◌, ◌||◌, Option, none, some, List, [], ◌∷◌, if◌then◌else◌,
  filter, get_or, Result, ok, any, given, ◌==◌, ◌>>=◌,
}
use uds_core.Crd.Exemption.{Policy}
use uds_core.Exemptions.Check.{Thrown}
use uds_core.Policies.Pod.{
  SecurityContext, empty_context, Request, Ctx, ctx, ctx_of, Answer, approve, deny,
}
use uds_core.Policies.Common.{security_context_containers}
use uds_core.Policies.Handlers.{Env, unless_exempt, deny_any}

abbrev pub same : Option String → Option String → Bool
same none none = true
same (some s) (some t) = s == t
same _ _ = false

-- `allowedTypes.includes(x)`, where `undefined` may be in the list.
abbrev pub allows : List (Option String) → Option String → Bool
allows xs x = any (λ y. same y x) xs

-- `{ violations, isPodViolation }`
pub record Found : Type 0 where
  pub violations : List Ctx
  pub is_pod_violation : Bool

abbrev pub pod_violation : Option SecurityContext → Found
pod_violation pod = record {
  violations = ctx "pod" (get_or pod empty_context) ∷ [];
  is_pod_violation = true;
}

abbrev pub containers_violating : (SecurityContext → Bool) → List Ctx → Found
containers_violating bad cs = record {
  violations = filter (λ c. bad (ctx_of c)) cs;
  is_pod_violation = false;
}

unfoldable pub validate_proc_mount : List Ctx → List (Option String) → Found
validate_proc_mount cs allowed =
    containers_violating (λ c. given c.proc_mount && not (allows allowed c.proc_mount)) cs

abbrev pub context_of : Option SecurityContext → SecurityContext
context_of pod = get_or pod empty_context

unfoldable pub validate_seccomp_profile :
    Option SecurityContext → List Ctx → List (Option String) → Found
validate_seccomp_profile pod cs allowed =
    if not (allows allowed (context_of pod).seccomp_type)
    then pod_violation pod
    else containers_violating (λ c. not (allows allowed c.seccomp_type)) cs

abbrev pub has_options : SecurityContext → Bool
has_options c = given c.selinux_user || given c.selinux_role

unfoldable pub validate_selinux_options : Option SecurityContext → List Ctx → Found
validate_selinux_options pod cs =
    if has_options (context_of pod) then pod_violation pod else containers_violating has_options cs

unfoldable pub validate_selinux_types :
    Option SecurityContext → List Ctx → List (Option String) → Found
validate_selinux_types pod cs authorized =
    if not (allows authorized (context_of pod).selinux_type)
    then pod_violation pod
    else containers_violating (λ c. not (allows authorized c.selinux_type)) cs

abbrev pub proc_mounts : List (Option String)
proc_mounts = none ∷ some "Default" ∷ []

abbrev pub seccomp_types : List (Option String)
seccomp_types = none ∷ some "RuntimeDefault" ∷ some "Localhost" ∷ []

abbrev pub selinux_types : List (Option String)
selinux_types = none ∷ some "container_t" ∷ some "container_init_t" ∷ some "container_kvm_t" ∷ []

abbrev pub selinux_options : List (Option String)
selinux_options = some "user: undefined" ∷ some "role: undefined" ∷ []

-- The message names the pod or the container.
abbrev pub found_answer : String → String → List (Option String) → Found → Answer
found_answer of_pod of_container authorized f =
    deny_any (if f.is_pod_violation then of_pod else of_container) authorized f.violations

module _ (env : Env) where
  abbrev pub all_contexts : Request → List Ctx
  all_contexts r = security_context_containers env.zarf env.sdk r false

  unfoldable pub proc_mount_validate : Request → Result Answer Thrown
  proc_mount_validate r = unless_exempt env Policy.restrict_proc_mount r.metadata (
      deny_any "Unauthorized procMount type" proc_mounts
        (validate_proc_mount (all_contexts r) proc_mounts).violations)

  unfoldable pub seccomp_validate : Request → Result Answer Thrown
  seccomp_validate r = unless_exempt env Policy.restrict_seccomp r.metadata (
      found_answer "Unauthorized pod seccomp profile type"
        "Unauthorized container seccomp profile type" seccomp_types
        (validate_seccomp_profile r.spec.security_context (all_contexts r) seccomp_types))

  unfoldable pub selinux_options_validate : Request → Result Answer Thrown
  selinux_options_validate r = unless_exempt env Policy.disallow_selinux_options r.metadata (
      found_answer "Unauthorized pod SELinux Options" "Unauthorized container SELinux Options"
        selinux_options (validate_selinux_options r.spec.security_context (all_contexts r)))

  unfoldable pub selinux_type_validate : Request → Result Answer Thrown
  selinux_type_validate r = unless_exempt env Policy.restrict_selinux_type r.metadata (
      found_answer "Unauthorized pod SELinux type" "Unauthorized container SELinux type"
        selinux_types
        (validate_selinux_types r.spec.security_context (all_contexts r) selinux_types))
