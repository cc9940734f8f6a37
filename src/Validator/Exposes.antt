-- ===== src/Validator/Exposes.antt =====
-- The loop of the package validator over `spec.network.expose`.
pub mod Laws
use uds_core.Prelude.{
  ℕ, String, Bool, true, false, not, ◌&&◌, ◌||◌, ◌==◌, nat_eq, Option, none, some, List, [], ◌∷◌,
  ◌++◌, map, given, get_or, is_some, opt_eq, if◌then◌else◌, includes, codes, contains, starts_with,
  concat, printed_nat, Result, ok, err, ◌>>=◌, ◌>>◌,
}
use uds_core.Crd.Package.{Expose, ExposeProtocol, AdvancedHttp, Uptime}
use uds_core.Names.{Text}
use uds_core.Names.Generated.{text_eq, sanitize, generate_vs_name, Config, get_fqdn}
use uds_core.Packages.Index.{find}
use uds_core.Packages.Store.{Store, udp_gateway_name, udp_gateway_port_key}
use uds_core.Validator.{Refusal, Guards, deny_first, has_text}

-- virtualServiceNames, udpRouteNames, udpGatewayPortKeys and uptimeFqdns
pub record Seen : Type 0 where
  pub services : List Text
  pub routes : List Text
  pub ports : List String
  pub fqdns : List String

abbrev pub nothing_seen : Seen
nothing_seen = record { services = []; routes = []; ports = []; fqdns = [] }

abbrev standard_gateways : List String
standard_gateways = "tenant" ∷ "admin" ∷ "passthrough" ∷ []

-- isStandardGateway, of a gateway that is given
abbrev pub is_standard : Option String → Bool
is_standard none = false
is_standard (some g) = includes standard_gateways g

-- `expose.gateway === "passthrough" || expose.gateway?.includes("passthrough")`
abbrev pub is_passthrough : Option String → Bool
is_passthrough none = false
is_passthrough (some g) = g == "passthrough" || contains (codes g) (codes "passthrough")

abbrev pub is_udp : Option ExposeProtocol → Bool
is_udp (some ExposeProtocol.udp) = true
is_udp _ = false

abbrev pub is_http : Option ExposeProtocol → Bool
is_http (some ExposeProtocol.http) = true
is_http _ = false

-- `expose.port` as a condition: 0 is falsy.
abbrev nonzero : Option ℕ → Bool
nonzero none = false
nonzero (some n) = not (nat_eq n 0)

abbrev pub has_direct_response : Option AdvancedHttp → Bool
has_direct_response none = false
has_direct_response (some a) = a.direct_response

-- The paths of the uptime check; none if the check is not enabled.
abbrev pub paths_of : Option Uptime → List String
paths_of none = []
paths_of (some u) = get_or u.paths []

abbrev pub nonempty {ℓ} : {A : Type ℓ} → List A → Bool
nonempty [] = false
nonempty (x ∷ xs) = true

-- getUDPGatewayPortKey, of a port that may be absent
abbrev pub port_key : Option String → Option ℕ → String
port_key gateway none = concat (udp_gateway_name gateway ∷ ":undefined" ∷ [])
port_key gateway (some port) = udp_gateway_port_key gateway port

-- In use by other namespaces only.
abbrev pub taken : List String → String → Bool
taken namespaces ns = nonempty namespaces && not (includes namespaces ns)

-- `description ?? port`
abbrev route_suffix : Expose → String
route_suffix e = get_or e.description (printed_nat e.port)

abbrev path_guards : List String → Guards
path_guards paths = map (λ p. (not (starts_with (codes p) (codes "/")), Refusal.bad_path p)) paths

abbrev uptime_guards : Config → Seen → Expose → Guards
uptime_guards config seen e =
    path_guards (paths_of e.uptime)
    ++ (
      nonempty (paths_of e.uptime) && includes seen.fqdns (get_fqdn config e),
      Refusal.duplicate_fqdn (get_fqdn config e),
    )
      ∷ []

-- `exposeHadMatch[index]`, beyond the end of the list undefined.
abbrev pub head_or_false : List Bool → Bool
head_or_false [] = false
head_or_false (b ∷ bs) = b

abbrev pub tail : List Bool → List Bool
tail [] = []
tail (b ∷ bs) = bs

module _ (lower : Text → Text) where
  abbrev gateway_guards : Expose → Guards
  gateway_guards e =
      let g = get_or e.gateway "" in
      (
        given e.gateway
            && not (is_standard e.gateway)
            && not (text_eq (sanitize lower g) (codes g)),
        Refusal.bad_gateway_name e.gateway,
      )
      ∷ []

  abbrev pub route_name : String → Expose → Text
  route_name pkg_name e = sanitize lower (concat (pkg_name ∷ "-udp-" ∷ route_suffix e ∷ []))

  abbrev udp_guards : Store → String → String → Bool → Seen → Expose → Guards
  udp_guards store pkg_name ns had_match seen e =
      (is_some e.host, Refusal.udp_host)
      ∷ (is_some e.domain, Refusal.udp_domain)
      ∷ (had_match, Refusal.udp_match)
      ∷ (is_some e.advanced_http, Refusal.udp_advanced)
      ∷ (is_some e.uptime, Refusal.udp_uptime)
      ∷ (is_some e.pod_labels, Refusal.udp_pod_labels)
      ∷ (
        has_text seen.routes (route_name pkg_name e),
        Refusal.duplicate_route (route_name pkg_name e),
      )
      ∷ (includes seen.ports (port_key e.gateway e.port), Refusal.duplicate_port e.port e.gateway)
      ∷ (
        taken (find store.udp_index (port_key e.gateway e.port)) ns,
        Refusal.used_port e.port e.gateway,
      )
      ∷ []

  abbrev http_guards : String → Seen → Expose → Guards
  http_guards pkg_name seen e =
      (is_http e.protocol && not (given e.host), Refusal.http_without_host)
      ∷ (not (is_some e.protocol) && not (given e.host), Refusal.without_host)
      ∷ (given e.gateway && is_standard e.gateway && given e.domain, Refusal.standard_domain)
      ∷ (is_passthrough e.gateway && is_some e.advanced_http, Refusal.passthrough_advanced)
      ∷ (
        has_direct_response e.advanced_http
            && (given e.service || is_some e.selector || nonzero e.port || nonzero e.target_port),
        Refusal.direct_response_target,
      )
      ∷ (
        has_text seen.services (generate_vs_name lower pkg_name e),
        Refusal.duplicate_service (generate_vs_name lower pkg_name e),
      )
      ∷ []

  -- The tests of one entry, in their order, and what they leave in the sets.
  unfoldable pub expose_guards : Config → Store → String → String → Bool → Seen → Expose → Guards
  expose_guards config store pkg_name ns had_match seen e =
      gateway_guards e
      ++ (if is_udp e.protocol
          then udp_guards store pkg_name ns had_match seen e
          else http_guards pkg_name seen e ++ uptime_guards config seen e)

  unfoldable pub note_expose : Config → String → Seen → Expose → Seen
  note_expose config pkg_name seen e =
      if is_udp e.protocol
      then (record seen {
        routes = route_name pkg_name e ∷ seen.routes;
        ports = port_key e.gateway e.port ∷ seen.ports;
      })
      else (record seen {
        services = generate_vs_name lower pkg_name e ∷ seen.services;
        fqdns = if nonempty (paths_of e.uptime) then get_fqdn config e ∷ seen.fqdns else seen.fqdns;
      })

  unfoldable pub check_exposes :
      Config → Store → String → String → List Bool → Seen → List Expose → Result Seen Refusal
  check_exposes config store pkg_name ns had_match seen [] = ok seen
  check_exposes config store pkg_name ns had_match seen (e ∷ es) =
      deny_first (expose_guards config store pkg_name ns (head_or_false had_match) seen e)
      >> check_exposes config store pkg_name ns (tail had_match)
          (note_expose config pkg_name seen e) es
