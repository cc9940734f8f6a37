-- ===== src/Crd/Exemption.antt =====
-- pepr/operator/crd/generated/exemption-v1alpha1.ts: the UDSExemption resource. Titles and
-- descriptions are not modelled, since the code never reads them.
use uds_core.Prelude.{String, Option, List}

pub data Kind : Type 0 where
  pod service : Kind

pub data Policy : Type 0 where
  disallow_host_namespaces disallow_node_port_services disallow_privileged : Policy
  disallow_selinux_options drop_all_capabilities require_non_root_user : Policy
  restrict_capabilities restrict_external_names restrict_host_path_write : Policy
  restrict_host_ports restrict_istio_ambient_overrides restrict_istio_sidecar_overrides : Policy
  restrict_istio_traffic_overrides restrict_istio_user restrict_proc_mount : Policy
  restrict_selinux_type restrict_seccomp restrict_volume_types : Policy

unfoldable pub Policy-discrete : Discrete Policy
Policy-discrete = hlevel

pub record Matcher : Type 0 where
  pub kind : Option Kind
  pub name : String
  pub namespace : String

pub record ExemptionElement : Type 0 where
  pub matcher : Matcher
  pub policies : List Policy

-- `exemptions` is `spec?.exemptions ?? []`; the other fields are those of `metadata`.
pub record Exemption : Type 0 where
  pub name : Option String
  pub namespace : Option String
  pub uid : Option String
  pub exemptions : List ExemptionElement
