-- ===== src/Egress/Resources.antt =====
-- pepr/operator/controllers/istio/egress.ts: what a package asks for.
use uds_core.Prelude.{
  ℕ, String, Bool, true, false, ◌&&◌, Option, none, some, List, [], ◌∷◌, ◌++◌, if◌then◌else◌,
  nat_eq, get_or, given, any, lookup, insert, Result, ok, err, filter,
}
use uds_core.Crd.Package.{Allow, Direction, RemoteGenerated, RemoteProtocol, Package}
use uds_core.Egress.Types.{
  PortProtocol, HostResource, HostResourceMap, HostPortsProtocol, AmbientEgressRule,
  AmbientPackageEntry, host_rule, anywhere_rule,
}
use uds_core.Egress.Ports.{get_allowed_ports, get_ports_for_host_allow}

pub data Failure : Type 0 where
  missing_name_or_namespace : Failure
  protocol_conflict : (key holder wanted_by : String) → Failure

abbrev pub same_protocol : RemoteProtocol → RemoteProtocol → Bool
same_protocol RemoteProtocol.http RemoteProtocol.http = true
same_protocol RemoteProtocol.tcp RemoteProtocol.tcp = true
same_protocol RemoteProtocol.tls RemoteProtocol.tls = true
same_protocol RemoteProtocol.udp RemoteProtocol.udp = true
same_protocol p q = false

-- `allow.remoteProtocol ?? RemoteProtocol.TLS`
abbrev pub protocol_of : Allow → RemoteProtocol
protocol_of allow = get_or allow.remote_protocol RemoteProtocol.tls

unfoldable pub get_host_ports_protocol : Allow → Option HostPortsProtocol
get_host_ports_protocol allow =
    if given allow.remote_host
    then some (record {
      host = get_or allow.remote_host "";
      ports = get_ports_for_host_allow allow.ports allow.port (protocol_of allow);
      protocol = protocol_of allow;
    })
    else none

abbrev pub push_port : RemoteProtocol → ℕ → List PortProtocol → List PortProtocol
push_port protocol port pps =
    if any (λ (pp : PortProtocol). nat_eq pp.port port && same_protocol pp.protocol protocol) pps
    then pps
    else pps ++ (record { port = port; protocol = protocol }) ∷ []

-- The loop over the ports of one rule.
unfoldable pub push_ports : RemoteProtocol → List ℕ → List PortProtocol → List PortProtocol
push_ports protocol [] pps = pps
push_ports protocol (port ∷ ports) pps = push_ports protocol ports (push_port protocol port pps)

abbrev pub port_protocol_of : Option HostResource → List PortProtocol
port_protocol_of none = []
port_protocol_of (some r) = r.port_protocol

abbrev pub add_host : Option HostPortsProtocol → HostResourceMap → HostResourceMap
add_host none m = m
add_host (some h) m =
    insert h.host
      (record {
        port_protocol = push_ports h.protocol h.ports (port_protocol_of (lookup h.host m));
      })
      m

unfoldable pub add_allows : List Allow → HostResourceMap → HostResourceMap
add_allows [] m = m
add_allows (allow ∷ allows) m = add_allows allows (add_host (get_host_ports_protocol allow) m)

abbrev pub unless_empty : HostResourceMap → Option HostResourceMap
unless_empty [] = none
unless_empty (e ∷ es) = some (e ∷ es)

unfoldable pub create_host_resource_map : Package → Option HostResourceMap
create_host_resource_map pkg = unless_empty (add_allows pkg.allow [])

unfoldable pub egress_requested_from_network : List Allow → List Allow
egress_requested_from_network allows = filter (λ (a : Allow). given a.remote_host) allows

abbrev pub is_egress : Direction → Bool
is_egress Direction.egress = true
is_egress Direction.ingress = false

abbrev pub is_anywhere : Option RemoteGenerated → Bool
is_anywhere (some RemoteGenerated.anywhere) = true
is_anywhere o = false

abbrev pub is_udp : Option RemoteProtocol → Bool
is_udp (some RemoteProtocol.udp) = true
is_udp o = false

abbrev pub anywhere_rules : Allow → List AmbientEgressRule
anywhere_rules allow =
    if is_udp allow.remote_protocol
    then []
    else anywhere_rule (get_allowed_ports allow.ports allow.port) allow.service_account ∷ []

abbrev pub host_rules : Allow → List AmbientEgressRule
host_rules allow =
    if given allow.remote_host
    then host_rule (get_or allow.remote_host "")
        (get_ports_for_host_allow allow.ports allow.port (protocol_of allow)) (protocol_of allow)
        allow.service_account
      ∷ []
    else []

-- The rules that one round of the loop of `createAmbientPackageEntry` pushes.
abbrev pub rules_of : Allow → List AmbientEgressRule
rules_of allow =
    if is_egress allow.direction
    then if is_anywhere allow.remote_generated then anywhere_rules allow else host_rules allow
    else []

abbrev pub all_rules : List Allow → List AmbientEgressRule
all_rules [] = []
all_rules (allow ∷ allows) = rules_of allow ++ all_rules allows

unfoldable pub create_ambient_package_entry : Package → Result AmbientPackageEntry Failure
create_ambient_package_entry pkg =
    if given pkg.name && given pkg.namespace
    then ok (record {
      name = get_or pkg.name "";
      namespace = get_or pkg.namespace "";
      rules = all_rules pkg.allow;
    })
    else err missing_name_or_namespace
