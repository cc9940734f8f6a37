-- ===== src/Names/Generated.antt =====
-- The names of generated resources: generateVSName (pepr/operator/controllers/istio/
-- virtual-service.ts), generateMonitorName (monitoring/common.ts), generateName
-- (network/generate.ts) and getFqdn (domain-utils.ts). A name is a text of code points.
use uds_core.Prelude.{
  String, Bool, true, false, ◌||◌, ◌==◌, nat_eq, ◌&&◌, Option, none, some, List, [], ◌∷◌, ◌++◌, map,
  get_or, given, if◌then◌else◌, or_else, Dict, concat, join, codes, contains, printed, printed_nat,
  opt_eq, truthy, filter,
}
use uds_core.Crd.Package.{
  Expose, HttpMatch, AdvancedHttp, Allow, Direction, RemoteGenerated, RemoteProtocol, Monitor,
}
use uds_core.Names.{Text, sanitize_resource_name}

-- Equality of texts.
abbrev pub text_eq : Text → Text → Bool
text_eq [] [] = true
text_eq [] (d ∷ ds) = false
text_eq (c ∷ cs) [] = false
text_eq (c ∷ cs) (d ∷ ds) = nat_eq c d && text_eq cs ds

-- `Object.values(d)`
abbrev values : Dict String → List String
values d = map (λ (e : String × String). e.1) d

abbrev match_names : Option (List HttpMatch) → List String
match_names none = []
match_names (some ms) = map (λ (m : HttpMatch). get_or m.name "") ms

abbrev matches_of : Option AdvancedHttp → Option (List HttpMatch)
matches_of none = none
matches_of (some a) = a.match

abbrev sanitized_host : Option String → String
sanitized_host host = if opt_eq host "." then "root-domain" else printed host

unfoldable pub vs_suffix : Expose → String
vs_suffix e = concat (
    sanitized_host e.host
    ∷ "-"
    ∷ printed_nat e.port
    ∷ "-"
    ∷ printed e.service
    ∷ "-"
    ∷ join "-" (match_names (matches_of e.advanced_http))
    ∷ [])

-- `description || suffix`
abbrev described : Option String → String → String
described description suffix = get_or (or_else description (some suffix)) ""

abbrev pub gateway_of : Expose → String
gateway_of e = get_or e.gateway "tenant"

abbrev pub direction_value : Direction → String
direction_value Direction.egress = "Egress"
direction_value Direction.ingress = "Ingress"

abbrev pub generated_value : RemoteGenerated → String
generated_value RemoteGenerated.anywhere = "Anywhere"
generated_value RemoteGenerated.cloud_metadata = "CloudMetadata"
generated_value RemoteGenerated.intra_namespace = "IntraNamespace"
generated_value RemoteGenerated.kube_api = "KubeAPI"
generated_value RemoteGenerated.kube_nodes = "KubeNodes"

abbrev l4_name : Option RemoteProtocol → String
l4_name (some RemoteProtocol.udp) = "UDP"
l4_name _ = "TCP"

-- `Object.values(selector || ["all pods"])`
abbrev pods : Option (Dict String) → List String
pods none = "all pods" ∷ []
pods (some ls) = values ls

-- The inner array of a remote is joined by commas, and counts as true even if it is empty.
abbrev remote_parts : Allow → Option RemoteGenerated → List String
remote_parts a (some g) = generated_value g ∷ []
remote_parts a none =
    filter truthy (get_or a.remote_namespace "" ∷ []) ++ join "," (pods a.remote_selector) ∷ []

unfoldable pub name_parts : Allow → List String
name_parts a =
    filter truthy (pods a.selector)
    ++ remote_parts a a.remote_generated
    ++ l4_name a.remote_protocol ∷ []

-- generateName
unfoldable pub generate_name : Allow → String
generate_name a =
    concat
      (direction_value a.direction ∷ "-" ∷ described a.description (join "-" (name_parts a)) ∷ [])

module _ (lower : Text → Text) where
  abbrev pub sanitize : String → Text
  sanitize s = sanitize_resource_name lower (codes s)

  -- generateVSName
  unfoldable pub generate_vs_name : String → Expose → Text
  generate_vs_name pkg_name e =
      sanitize
        (concat (pkg_name ∷ "-" ∷ gateway_of e ∷ "-" ∷ described e.description (vs_suffix e) ∷ []))

  -- generateMonitorName
  unfoldable pub generate_monitor_name : String → Monitor → Text
  generate_monitor_name pkg_name m =
      let suffix = concat (join "," (values m.selector) ∷ "-" ∷ m.port_name ∷ []) in
      sanitize (concat (pkg_name ∷ "-" ∷ described m.description suffix ∷ []))

-- The fields of UDSConfig that names and the validator read.
pub record Config : Type 0 where
  pub domain : String
  pub admin_domain : String
  pub allow_public_clients : Bool

-- `domain` of getFqdn
abbrev pub domain_of : Config → Expose → String
domain_of config e =
    if given e.domain
    then get_or e.domain ""
    else if gateway_of e == "admin" || contains (codes (gateway_of e)) (codes "admin")
    then config.admin_domain
    else config.domain

unfoldable pub get_fqdn : Config → Expose → String
get_fqdn config e =
    if opt_eq e.host "."
    then domain_of config e
    else concat (printed e.host ∷ "." ∷ domain_of config e ∷ [])
