-- ===== src/Egress/Types.antt =====
-- pepr/operator/controllers/istio/types.ts.
use uds_core.Prelude.{ℕ, String, Option, List, Dict}
use uds_core.Crd.Package.{RemoteProtocol}

pub record PortProtocol : Type 0 where
  pub port : ℕ
  pub protocol : RemoteProtocol

pub record HostResource : Type 0 where
  pub port_protocol : List PortProtocol

abbrev pub HostResourceMap : Type 0
HostResourceMap = Dict HostResource

abbrev pub PackageHostMap : Type 0
PackageHostMap = Dict HostResourceMap

pub record HostPortsProtocol : Type 0 where
  pub host : String
  pub ports : List ℕ
  pub protocol : RemoteProtocol

-- The two interfaces `AmbientRemoteHostRule` and `AmbientAnywhereRule`, told apart by `kind`.
pub data AmbientEgressRule : Type 0 where
  host_rule : String → List ℕ → RemoteProtocol → Option String → AmbientEgressRule
  anywhere_rule : Option (List ℕ) → Option String → AmbientEgressRule

pub record AmbientPackageEntry : Type 0 where
  pub name : String
  pub namespace : String
  pub rules : List AmbientEgressRule

abbrev pub AmbientPackageMap : Type 0
AmbientPackageMap = Dict AmbientPackageEntry

pub data PackageAction : Type 0 where
  add_or_update remove : PackageAction
