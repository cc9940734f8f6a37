-- ===== src/Crd/Package.antt =====
-- pepr/operator/crd/generated/package-v1alpha1.ts: the UDSPackage resource, with the fields that
-- the modelled code reads. An object of labels is a dictionary.
use uds_core.Prelude.{ℕ, String, Bool, Option, none, List, [], Dict}

pub data Mode : Type 0 where
  ambient sidecar : Mode

pub data ExposeProtocol : Type 0 where
  http udp : ExposeProtocol

pub data Direction : Type 0 where
  egress ingress : Direction

pub data RemoteGenerated : Type 0 where
  anywhere cloud_metadata intra_namespace kube_api kube_nodes : RemoteGenerated

pub data RemoteProtocol : Type 0 where
  http tcp tls udp : RemoteProtocol

pub data SsoProtocol : Type 0 where
  openid_connect saml : SsoProtocol

pub data MonitorKind : Type 0 where
  pod_monitor service_monitor : MonitorKind

pub data Phase : Type 0 where
  failed pending ready removal_failed removing retrying : Phase

-- AdvancedHTTPMatch and ExposeMatch.
pub record HttpMatch : Type 0 where
  pub name : Option String

-- `direct_response` and `redirect` say whether the field is there.
pub record AdvancedHttp : Type 0 where
  pub direct_response : Bool
  pub redirect : Bool
  pub match : Option (List HttpMatch)

-- `checks?.paths`
pub record Uptime : Type 0 where
  pub paths : Option (List String)

pub record Expose : Type 0 where
  pub advanced_http : Option AdvancedHttp
  pub description : Option String
  pub domain : Option String
  pub gateway : Option String
  pub host : Option String
  pub match : Option (List HttpMatch)
  pub pod_labels : Option (Dict String)
  pub port : Option ℕ
  pub protocol : Option ExposeProtocol
  pub selector : Option (Dict String)
  pub service : Option String
  pub target_port : Option ℕ
  pub uptime : Option Uptime

pub record Allow : Type 0 where
  pub description : Option String
  pub direction : Direction
  pub labels : Option (Dict String)
  pub pod_labels : Option (Dict String)
  pub port : Option ℕ
  pub ports : Option (List ℕ)
  pub remote_cidr : Option String
  pub remote_generated : Option RemoteGenerated
  pub remote_host : Option String
  pub remote_namespace : Option String
  pub remote_pod_labels : Option (Dict String)
  pub remote_protocol : Option RemoteProtocol
  pub remote_selector : Option (Dict String)
  pub selector : Option (Dict String)
  pub service_account : Option String

pub record SecretConfig : Type 0 where
  pub annotations : Option (Dict String)
  pub labels : Option (Dict String)
  pub name : Option String
  pub template : Option (Dict String)

pub record Sso : Type 0 where
  pub attributes : Option (Dict String)
  pub client_id : String
  pub enable_authservice_selector : Option (Dict String)
  pub protocol : Option SsoProtocol
  pub public_client : Option Bool
  pub redirect_uris : Option (List String)
  pub secret : Option String
  pub secret_annotations : Option (Dict String)
  pub secret_config : Option SecretConfig
  pub secret_labels : Option (Dict String)
  pub secret_name : Option String
  pub secret_template : Option (Dict String)
  pub service_accounts_enabled : Option Bool
  pub standard_flow_enabled : Option Bool

pub record Monitor : Type 0 where
  pub description : Option String
  pub kind : Option MonitorKind
  pub port_name : String
  pub selector : Dict String

pub record AuthserviceClient : Type 0 where
  pub client_id : String
  pub selector : Option (Dict String)

-- `authserviceClients`: the client ids that older versions wrote, or objects.
pub data AuthserviceClients : Type 0 where
  legacy : List String → AuthserviceClients
  objects : List AuthserviceClient → AuthserviceClients

pub record Status : Type 0 where
  pub authservice_clients : Option AuthserviceClients
  pub observed_generation : Option ℕ
  pub phase : Option Phase
  pub retry_attempt : Option ℕ

-- `name`, `namespace`, `deletion_timestamp`, `generation` and `uid` are those of `metadata`; a list
-- that is absent is read as empty.
pub record Package : Type 0 where
  pub name : Option String
  pub namespace : Option String
  pub deletion_timestamp : Option String
  pub generation : Option ℕ
  pub uid : Option String
  pub sso : List Sso
  pub expose : List Expose
  pub allow : List Allow
  pub monitor : List Monitor
  pub mode : Option Mode
  pub status : Option Status

-- Entries with the required fields alone.
abbrev pub bare_expose : Expose
bare_expose = record {
  advanced_http = none;
  description = none;
  domain = none;
  gateway = none;
  host = none;
  match = none;
  pod_labels = none;
  port = none;
  protocol = none;
  selector = none;
  service = none;
  target_port = none;
  uptime = none;
}

abbrev pub bare_allow : Direction → Allow
bare_allow direction = record {
  description = none;
  direction = direction;
  labels = none;
  pod_labels = none;
  port = none;
  ports = none;
  remote_cidr = none;
  remote_generated = none;
  remote_host = none;
  remote_namespace = none;
  remote_pod_labels = none;
  remote_protocol = none;
  remote_selector = none;
  selector = none;
  service_account = none;
}

abbrev pub bare_sso : String → Sso
bare_sso client_id = record {
  attributes = none;
  client_id = client_id;
  enable_authservice_selector = none;
  protocol = none;
  public_client = none;
  redirect_uris = none;
  secret = none;
  secret_annotations = none;
  secret_config = none;
  secret_labels = none;
  secret_name = none;
  secret_template = none;
  service_accounts_enabled = none;
  standard_flow_enabled = none;
}

abbrev pub bare_package : Option String → Option String → Package
bare_package name namespace = record {
  name = name;
  namespace = namespace;
  deletion_timestamp = none;
  generation = none;
  uid = none;
  sso = [];
  expose = [];
  allow = [];
  monitor = [];
  mode = none;
  status = none;
}
