-- ===== src/Network.antt =====
-- pepr/operator/controllers/network/generate.ts and its generators: the network policy of an allow
-- rule. The peers that kubeAPI.ts and kubeNodes.ts keep are a parameter.
pub mod Laws
pub mod Tests
use uds_core.Prelude.{
  ℕ, String, Bool, true, false, not, ◌||◌, ◌==◌, nat_eq, Option, none, some, List, [], ◌∷◌, ◌++◌,
  map, get_or, given, is_some, if◌then◌else◌, Dict, insert,
}
use uds_core.Crd.Package.{Allow, Direction, Mode, RemoteGenerated, RemoteProtocol}
use uds_core.Names.Generated.{generate_name, generated_value}

pub record IpBlock : Type 0 where
  pub cidr : String
  pub except : List String

-- A selector; without labels it matches everything.
pub record LabelSelector : Type 0 where
  pub match_labels : Option (Dict String)

pub record Peer : Type 0 where
  pub ip_block : Option IpBlock
  pub namespace_selector : Option LabelSelector
  pub pod_selector : Option LabelSelector

pub record Port : Type 0 where
  pub port : ℕ
  pub protocol : RemoteProtocol

-- A rule of ingress or of egress.
pub record Rule : Type 0 where
  pub peers : List Peer
  pub ports : List Port

pub record NetworkPolicy : Type 0 where
  pub name : String
  pub namespace : String
  pub labels : Dict String
  pub annotations : Option (Dict String)
  pub policy_types : List Direction
  pub pod_selector : LabelSelector
  pub ingress : Option (List Rule)
  pub egress : Option (List Rule)

abbrev pub labelled : String → String → LabelSelector
labelled key value = record { match_labels = some ((key, value) ∷ []) }

abbrev pub everything : LabelSelector
everything = record { match_labels = none }

abbrev pub meta_ip : String
meta_ip = "169.254.169.254/32"

abbrev pub block : String → List String → Peer
block cidr except = record {
  ip_block = some (record { cidr = cidr; except = except });
  namespace_selector = none;
  pod_selector = none;
}

abbrev pub selected : Option LabelSelector → Option LabelSelector → Peer
selected namespaces pods = record {
  ip_block = none;
  namespace_selector = namespaces;
  pod_selector = pods;
}

abbrev pub anywhere : Peer
anywhere = block "0.0.0.0/0" (meta_ip ∷ [])

abbrev pub anywhere_in_cluster : Peer
anywhere_in_cluster = selected (some everything) none

abbrev pub cloud_metadata : List Peer
cloud_metadata = block meta_ip [] ∷ []

abbrev pub intra_namespace : Peer
intra_namespace = selected none (some (record { match_labels = some [] }))

abbrev pub egress_gateway : Peer
egress_gateway =
    selected (some (labelled "kubernetes.io/metadata.name" "istio-egress-gateway"))
      (some (labelled "app" "egressgateway"))

abbrev pub egress_waypoint : Peer
egress_waypoint =
    selected (some (labelled "kubernetes.io/metadata.name" "istio-egress-ambient"))
      (some (labelled "gateway.networking.k8s.io/gateway-name" "egress-waypoint"))

-- `apiServerPeers`, once known, and the peers of the known nodes.
pub record KnownPeers : Type 0 where
  pub api_server : Option (List Peer)
  pub nodes : List Peer

abbrev pub kube_api : KnownPeers → List Peer
kube_api known = get_or known.api_server (anywhere ∷ [])

abbrev or_anywhere : List Peer → List Peer
or_anywhere [] = anywhere ∷ []
or_anywhere (p ∷ ps) = p ∷ ps

abbrev pub kube_nodes : KnownPeers → List Peer
kube_nodes known = or_anywhere known.nodes

abbrev pub generated_peers : KnownPeers → RemoteGenerated → List Peer
generated_peers known RemoteGenerated.kube_api = kube_api known
generated_peers known RemoteGenerated.kube_nodes = kube_nodes known
generated_peers known RemoteGenerated.cloud_metadata = cloud_metadata
generated_peers known RemoteGenerated.intra_namespace = intra_namespace ∷ []
generated_peers known RemoteGenerated.anywhere = anywhere ∷ anywhere_in_cluster ∷ []

abbrev is_wildcard_namespace : String → Bool
is_wildcard_namespace ns = ns == "" || ns == "*"

abbrev pub namespace_peer : Option String → Option LabelSelector
namespace_peer none = none
namespace_peer (some ns) =
    if is_wildcard_namespace ns
    then some everything
    else some (labelled "kubernetes.io/metadata.name" ns)

abbrev pub pod_peer : Option (Dict String) → Option LabelSelector
pod_peer none = none
pod_peer (some ls) = some (record { match_labels = some ls })

abbrev host_peers : Option Mode → List Peer
host_peers (some Mode.ambient) = egress_waypoint ∷ []
host_peers (some Mode.sidecar) = egress_gateway ∷ []
host_peers none = egress_gateway ∷ []

abbrev other_peers : Allow → Option Mode → Option String → List Peer
other_peers a mode (some cidr) = block cidr [] ∷ []
other_peers a mode none = if given a.remote_host then host_peers mode else []

abbrev custom_peers : Allow → Option Mode → List Peer
custom_peers a mode =
    if is_some a.remote_namespace || is_some a.remote_selector
    then selected (namespace_peer a.remote_namespace) (pod_peer a.remote_selector) ∷ []
    else other_peers a mode a.remote_cidr

abbrev peers_by : KnownPeers → Allow → Option Mode → Option RemoteGenerated → List Peer
peers_by known a mode (some g) = generated_peers known g
peers_by known a mode none = custom_peers a mode

unfoldable pub get_peers : KnownPeers → Allow → Option Mode → List Peer
get_peers known a mode = peers_by known a mode a.remote_generated

-- UDP and TCP stay, anything else is TCP.
abbrev pub l4_protocol : Option RemoteProtocol → RemoteProtocol
l4_protocol (some RemoteProtocol.udp) = RemoteProtocol.udp
l4_protocol _ = RemoteProtocol.tcp

abbrev to_port : Allow → ℕ → Port
to_port a port = record { port = port; protocol = l4_protocol a.remote_protocol }

abbrev single_port : Allow → Option ℕ → List Port
single_port a none = []
single_port a (some port) = to_port a port ∷ []

unfoldable pub ports_of : Allow → List Port
ports_of a = map (to_port a) (get_or a.ports []) ++ single_port a a.port

abbrev generated_label : Option RemoteGenerated → Dict String → Dict String
generated_label none ls = ls
generated_label (some g) ls = insert "uds/generated" (generated_value g) ls

abbrev described : Option String → Option (Dict String)
described description =
    if given description then some (("uds/description", get_or description "") ∷ []) else none

-- The rule stands in the direction of the policy.
abbrev pub in_direction : Direction → Direction → Rule → Option (List Rule)
in_direction Direction.ingress Direction.ingress r = some (r ∷ [])
in_direction Direction.egress Direction.egress r = some (r ∷ [])
in_direction Direction.ingress Direction.egress r = none
in_direction Direction.egress Direction.ingress r = none

unfoldable pub generate : KnownPeers → String → Allow → Option Mode → NetworkPolicy
generate known namespace a mode =
    let rule : Rule = record { peers = get_peers known a mode; ports = ports_of a } in
    record {
      name = generate_name a;
      namespace = namespace;
      labels = generated_label a.remote_generated (get_or a.labels []);
      annotations = described a.description;
      policy_types = a.direction ∷ [];
      pod_selector = record { match_labels = a.selector };
      ingress = in_direction Direction.ingress a.direction rule;
      egress = in_direction Direction.egress a.direction rule;
    }
