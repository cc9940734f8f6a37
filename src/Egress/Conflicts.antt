-- ===== src/Egress/Conflicts.antt =====
-- pepr/operator/controllers/istio/egress.ts: `validateProtocolConflicts` and
-- `validateAmbientProtocolConflicts`, which run the same two loops over different maps. The
-- claims of a map are the keys and protocols that its loops go through. The error keeps the key
-- and the two packages of its message.
pub mod Laws
use uds_core.Prelude.{
  ℕ, String, Bool, true, false, Option, none, some, List, [], ◌∷◌, ◌++◌, ◌==◌, if◌then◌else◌, map,
  concat, show, Dict, lookup, insert, Result, ok, err,
}
use uds_core.Crd.Package.{RemoteProtocol}
use uds_core.Egress.Types.{
  PortProtocol, HostResource, HostResourceMap, AmbientEgressRule, AmbientPackageEntry,
  PackageHostMap, AmbientPackageMap, host_rule, anywhere_rule,
}
use uds_core.Egress.Resources.{Failure, protocol_conflict, same_protocol}

pub record Claim : Type 0 where
  pub key : String
  pub protocol : RemoteProtocol

-- The result of a check that throws nothing.
pub data Passed : Type 0 where
  passed : Passed

pub record Existing : Type 0 where
  pub protocol : RemoteProtocol
  pub package_id : String

abbrev pub key_of : String → ℕ → String
key_of host port = concat (host ∷ ":" ∷ show port ∷ [])

abbrev pub resource_claims : HostResourceMap → List Claim
resource_claims [] = []
resource_claims ((host, r) ∷ m) =
    map (λ (pp : PortProtocol). record { key = key_of host pp.port; protocol = pp.protocol })
      r.port_protocol
    ++ resource_claims m

abbrev pub rule_claims : AmbientEgressRule → List Claim
rule_claims (host_rule host ports protocol account) =
    map (λ (port : ℕ). record { key = key_of host port; protocol = protocol }) ports
rule_claims (anywhere_rule ports account) = []

abbrev pub rules_claims : List AmbientEgressRule → List Claim
rules_claims [] = []
rules_claims (r ∷ rs) = rule_claims r ++ rules_claims rs

abbrev pub entry_claims : AmbientPackageEntry → List Claim
entry_claims e = rules_claims e.rules

-- `existingHostPortProtocols[key] = …` for the claims of one package.
unfoldable pub record_claims : String → List Claim → Dict Existing → Dict Existing
record_claims id [] known = known
record_claims id (c ∷ cs) known =
    record_claims id cs (insert c.key (record { protocol = c.protocol; package_id = id }) known)

-- `existing && existing.protocol !== desiredProtocol`
abbrev pub differs : RemoteProtocol → Option Existing → Bool
differs p none = false
differs p (some e) = if same_protocol e.protocol p then false else true

abbrev pub holder : Option Existing → String
holder none = ""
holder (some e) = e.package_id

unfoldable pub check_claims : String → Dict Existing → List Claim → Result Passed Failure
check_claims id known [] = ok passed
check_claims id known (c ∷ cs) =
    let rest = check_claims id known cs in
    if differs c.protocol (lookup c.key known)
    then err (protocol_conflict c.key (holder (lookup c.key known)) id)
    else rest

module _ {V : Type 0} (claims_of : V → List Claim) where
  -- The claims of every package except the one that is updated.
  unfoldable pub record_others : String → Dict V → Dict Existing → Dict Existing
  record_others id [] known = known
  record_others id ((other, v) ∷ m) known =
      record_others id m (if other == id then known else record_claims other (claims_of v) known)

  unfoldable pub validate : Dict V → V → String → Result Passed Failure
  validate m new id = check_claims id (record_others id m []) (claims_of new)

unfoldable pub validate_protocol_conflicts :
    PackageHostMap → HostResourceMap → String → Result Passed Failure
validate_protocol_conflicts m new id = validate resource_claims m new id

unfoldable pub validate_ambient_protocol_conflicts :
    AmbientPackageMap → AmbientPackageEntry → String → Result Passed Failure
validate_ambient_protocol_conflicts m new id = validate entry_claims m new id
