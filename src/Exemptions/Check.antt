-- ===== src/Exemptions/Check.antt =====
-- pepr/policies/exemptions/index.ts: the test of a resource against the stored exemptions, and
-- the mark that the mutating handlers leave. `compile` stands for `new RegExp(pattern)`, which
-- gives the test `match` or, for an invalid pattern, throws.
pub mod Soundness
use uds_core.Prelude.{
  String, Bool, true, false, not, Option, none, some, List, [], ◌∷◌, opt_eq, or_else, if◌then◌else◌,
  Result, ok, err, ◌>>=◌, Dict, insert, concat,
}
use uds_core.Crd.Exemption.{Policy}
use uds_core.Exemptions.Store.{StoredMatcher, Store, get_by_policy}

-- `request.Raw.metadata`
pub record Metadata : Type 0 where
  pub name : Option String
  pub generate_name : Option String
  pub namespace : Option String
  pub annotations : Dict String
  pub labels : Dict String

pub data Thrown : Type 0 where
  invalid_pattern invalid_json : String → Thrown

abbrev pub resource_name : Metadata → Option String
resource_name md = or_else md.name md.generate_name

-- The key `${exemptionAnnotationPrefix}.${policy}`.
abbrev pub policy_value : Policy → String
policy_value Policy.disallow_host_namespaces = "DisallowHostNamespaces"
policy_value Policy.disallow_node_port_services = "DisallowNodePortServices"
policy_value Policy.disallow_privileged = "DisallowPrivileged"
policy_value Policy.disallow_selinux_options = "DisallowSELinuxOptions"
policy_value Policy.drop_all_capabilities = "DropAllCapabilities"
policy_value Policy.require_non_root_user = "RequireNonRootUser"
policy_value Policy.restrict_capabilities = "RestrictCapabilities"
policy_value Policy.restrict_external_names = "RestrictExternalNames"
policy_value Policy.restrict_host_path_write = "RestrictHostPathWrite"
policy_value Policy.restrict_host_ports = "RestrictHostPorts"
policy_value Policy.restrict_istio_ambient_overrides = "RestrictIstioAmbientOverrides"
policy_value Policy.restrict_istio_sidecar_overrides = "RestrictIstioSidecarOverrides"
policy_value Policy.restrict_istio_traffic_overrides = "RestrictIstioTrafficOverrides"
policy_value Policy.restrict_istio_user = "RestrictIstioUser"
policy_value Policy.restrict_proc_mount = "RestrictProcMount"
policy_value Policy.restrict_selinux_type = "RestrictSELinuxType"
policy_value Policy.restrict_seccomp = "RestrictSeccomp"
policy_value Policy.restrict_volume_types = "RestrictVolumeTypes"

module _ (compile : String → Option (String → Bool)) where
  -- `resourceName?.match(exempt.name)` as a condition.
  pub match_name : Option String → String → Result Bool Thrown
  match_name none pattern = ok false
  match_name (some n) pattern = elim (compile pattern) [
    | none ↦ err (invalid_pattern pattern)
    | some test ↦ ok (test n)
  ]

  -- The loop of `isExempt`.
  pub exempt_from : Option String → Option String → List StoredMatcher → Result Bool Thrown
  exempt_from name ns [] = ok false
  exempt_from name ns (m ∷ ms) =
      let rest = exempt_from name ns ms in
      if not (opt_eq ns m.namespace)
      then rest
      else match_name name m.name >>= λ matched. if matched then ok true else rest

  pub is_exempt : Store → Metadata → Policy → Result Bool Thrown
  is_exempt s md p = exempt_from (resource_name md) md.namespace (get_by_policy s p)

abbrev pub exemption_key : Policy → String
exemption_key p = concat ("uds-core.pepr.dev/uds-core-policies." ∷ policy_value p ∷ [])

module _ (compile : String → Option (String → Bool)) where
  unfoldable pub mark_exemption : Store → Policy → Metadata → Result Metadata Thrown
  mark_exemption s p md = is_exempt compile s md p >>= λ exempt. ok (
      if exempt
      then record md { annotations = insert (exemption_key p) "exempted" md.annotations }
      else md)
