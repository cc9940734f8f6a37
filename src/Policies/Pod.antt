-- ===== src/Policies/Pod.antt =====
-- The parts of a pod that the policies of pepr/policies read or write, as the Kubernetes client
-- types them. A field that is read through `?.` or `|| []` only is stored as the value read.
use uds_core.Prelude.{ℕ, String, Bool, Option, none, List, [], is_some, lookup, insert, map, ◌≡◌}
use uds_core.Exemptions.Check.{Metadata}

-- A JavaScript number that comes from a label or a manifest; `neg n` is -(n + 1).
pub data Number : Type 0 where
  nat : ℕ → Number
  neg : ℕ → Number
  nan : Number

pub record Capabilities : Type 0 where
  pub add : Option (List String)
  pub drop : Option (List String)

-- V1SecurityContext and V1PodSecurityContext, whose fields the code reads alike.
pub record SecurityContext : Type 0 where
  pub allow_privilege_escalation : Option Bool
  pub privileged : Option Bool
  pub run_as_non_root : Option Bool
  pub run_as_user : Option Number
  pub run_as_group : Option Number
  pub fs_group : Option Number
  pub supplemental_groups : List Number
  pub proc_mount : Option String
  pub seccomp_type : Option String
  pub selinux_user : Option String
  pub selinux_role : Option String
  pub selinux_type : Option String
  pub capabilities : Option Capabilities

-- `{}`
abbrev pub empty_context : SecurityContext
empty_context = record {
  allow_privilege_escalation = none;
  privileged = none;
  run_as_non_root = none;
  run_as_user = none;
  run_as_group = none;
  fs_group = none;
  supplemental_groups = [];
  proc_mount = none;
  seccomp_type = none;
  selinux_user = none;
  selinux_role = none;
  selinux_type = none;
  capabilities = none;
}

pub record Port : Type 0 where
  pub name : Option String
  pub host_port : Option ℕ

pub record Mount : Type 0 where
  pub name : String
  pub read_only : Option Bool

pub record Container : Type 0 where
  pub name : String
  pub image : Option String
  pub args : List String
  pub command : Option (List String)
  pub ports : List Port
  pub volume_mounts : List Mount
  pub security_context : Option SecurityContext

-- `keys` is `Object.keys(volume)`; `host_path` says whether the volume has a hostPath.
pub record Volume : Type 0 where
  pub name : String
  pub keys : List String
  pub host_path : Bool

pub record PodSpec : Type 0 where
  pub containers : List Container
  pub init_containers : List Container
  pub ephemeral_containers : List Container
  pub security_context : Option SecurityContext
  pub host_network : Option Bool
  pub host_ipc : Option Bool
  pub host_pid : Option Bool
  pub volumes : List Volume

-- A PeprMutateRequest or PeprValidateRequest of a pod.
pub record Request : Type 0 where
  pub metadata : Metadata
  pub spec : PodSpec

abbrev pub has_annotation : String → Request → Bool
has_annotation key r = is_some (lookup key r.metadata.annotations)

abbrev pub set_annotation : String → String → Request → Request
set_annotation key value r = record r {
  metadata = record r.metadata { annotations = insert key value r.metadata.annotations };
}

-- `containers` of Pepr's SDK: all containers of a pod, which the handlers change in place. An
-- update through the list is seen by every later call of `containers`.
pub record Sdk : Type 0 where
  pub containers : PodSpec → List Container
  pub update : (Container → Container) → PodSpec → PodSpec
  pub containers-update :
      (f : Container → Container) (spec : PodSpec)
      → containers (update f spec) ≡ map f (containers spec)

-- `JSON.parse` of a list of names, which fails on any other text, and `JSON.stringify`.
pub record Json : Type 0 where
  pub parse : String → Option (List String)
  pub stringify : List String → String

-- The answer of a validating handler, with what its message shows.
pub data Ctx : Type 0 where
  ctx : String → SecurityContext → Ctx

abbrev pub ctx_of : Ctx → SecurityContext
ctx_of (ctx name c) = c

pub data Answer : Type 0 where
  approve : Answer
  deny : String → List (Option String) → List Ctx → Answer
