-- ===== src/Policies/Networking.antt =====
-- pepr/policies/networking.ts: host namespaces, host ports, and the types of services.
pub mod Laws
use uds_core.Prelude.{
  ℕ, String, Bool, true, false, not, ◌&&◌, ◌||◌, Option, none, some, List, [], ◌∷◌, ◌++◌,
  if◌then◌else◌, any, get_or, Result, opt_eq, nat_eq,
}
use uds_core.Crd.Exemption.{Policy}
use uds_core.Exemptions.Check.{Metadata, Thrown}
use uds_core.Policies.Pod.{Container, Port, PodSpec, Request, Answer, approve, deny}
use uds_core.Policies.Handlers.{Env, unless_exempt}

unfoldable pub check_no_host_namespaces : PodSpec → Bool
check_no_host_namespaces pod =
    if get_or pod.host_network false || get_or pod.host_ipc false || get_or pod.host_pid false
    then false
    else true

abbrev pub all_ports : List Container → List Port
all_ports [] = []
all_ports (c ∷ cs) = c.ports ++ all_ports cs

-- The host port 0 is falsy.
abbrev pub uses_host_port : Port → Bool
uses_host_port p = not (nat_eq (get_or p.host_port 0) 0)

unfoldable pub check_no_host_ports : List Container → Bool
check_no_host_ports cs = not (any uses_host_port (all_ports cs))

-- A Service: its metadata and `spec?.type`.
pub record ServiceRequest : Type 0 where
  pub metadata : Metadata
  pub type : Option String

unfoldable pub check_not_external_name_service : Option String → Bool
check_not_external_name_service type = not (opt_eq type "ExternalName")

unfoldable pub check_not_node_port_service : Option String → Bool
check_not_node_port_service type = not (opt_eq type "NodePort")

abbrev pub answer_if : Bool → String → Answer
answer_if valid msg = if valid then approve else deny msg [] []

module _ (env : Env) where
  unfoldable pub host_namespaces_validate : Request → Result Answer Thrown
  host_namespaces_validate r = unless_exempt env Policy.disallow_host_namespaces r.metadata (
      answer_if (check_no_host_namespaces r.spec)
        "Sharing the host namespaces is disallowed. The fields spec.hostNetwork, spec.hostIPC, and spec.hostPID must not be set to true.")

  unfoldable pub host_ports_validate : Request → Result Answer Thrown
  host_ports_validate r =
      unless_exempt env Policy.restrict_host_ports r.metadata
        (answer_if (check_no_host_ports (env.sdk.containers r.spec)) "Host ports are not allowed.")

  unfoldable pub external_names_validate : ServiceRequest → Result Answer Thrown
  external_names_validate r =
      unless_exempt env Policy.restrict_external_names r.metadata (
        answer_if (check_not_external_name_service r.type) "ExternalName services are not allowed.")

  unfoldable pub node_port_validate : ServiceRequest → Result Answer Thrown
  node_port_validate r =
      unless_exempt env Policy.disallow_node_port_services r.metadata
        (answer_if (check_not_node_port_service r.type) "NodePort services are not allowed.")
