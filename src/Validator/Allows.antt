-- ===== src/Validator/Allows.antt =====
-- The loop of the package validator over `spec.network.allow`.
pub mod Laws
use uds_core.Prelude.{
  ℕ, String, Bool, true, false, not, ◌&&◌, ◌||◌, Option, none, some, List, [], ◌∷◌, ◌++◌, get_or,
  given, is_some, codes, contains, concat, printed, Result, ok, err, ◌>>◌,
}
use uds_core.Crd.Package.{Allow, Direction, Mode, RemoteGenerated, RemoteProtocol}
use uds_core.Names.{Text}
use uds_core.Names.Generated.{sanitize, generate_name}
use uds_core.Validator.{Refusal, Guards, deny_first, has_text}

abbrev pub is_l7 : Option RemoteProtocol → Bool
is_l7 (some RemoteProtocol.tls) = true
is_l7 (some RemoteProtocol.http) = true
is_l7 _ = false

abbrev pub is_tcp : Option RemoteProtocol → Bool
is_tcp (some RemoteProtocol.tcp) = true
is_tcp _ = false

abbrev pub is_udp : Option RemoteProtocol → Bool
is_udp (some RemoteProtocol.udp) = true
is_udp _ = false

-- KubeAPI, KubeNodes and CloudMetadata
abbrev pub is_tcp_only : Option RemoteGenerated → Bool
is_tcp_only (some RemoteGenerated.kube_api) = true
is_tcp_only (some RemoteGenerated.kube_nodes) = true
is_tcp_only (some RemoteGenerated.cloud_metadata) = true
is_tcp_only _ = false

abbrev pub is_anywhere : Option RemoteGenerated → Bool
is_anywhere (some RemoteGenerated.anywhere) = true
is_anywhere _ = false

abbrev pub is_egress : Direction → Bool
is_egress Direction.egress = true
is_egress Direction.ingress = false

abbrev pub is_ambient : Mode → Bool
is_ambient Mode.ambient = true
is_ambient Mode.sidecar = false

-- The four kinds of remote, as the conditions read them.
abbrev pub by_generated : Allow → Bool
by_generated a = is_some a.remote_generated

abbrev pub by_pods : Allow → Bool
by_pods a = is_some a.remote_namespace || is_some a.remote_selector

abbrev pub by_cidr : Allow → Bool
by_cidr a = given a.remote_cidr

abbrev pub by_host : Allow → Bool
by_host a = given a.remote_host

unfoldable pub remote_guards : Allow → Guards
remote_guards a =
    let l7 = is_l7 a.remote_protocol in
    (
      not (by_generated a)
          && not (is_some a.remote_namespace)
          && not (is_some a.remote_selector)
          && not (by_cidr a)
          && not (by_host a),
      Refusal.no_remote,
    )
    ∷ (
      by_generated a
          && (is_some a.remote_namespace
              || is_some a.remote_selector
              || by_cidr a
              || by_host a
              || l7),
      Refusal.generated_remote,
    )
    ∷ (by_pods a && (by_generated a || by_cidr a || by_host a || l7), Refusal.pod_remote)
    ∷ (
      by_cidr a
          && (by_generated a
              || is_some a.remote_namespace
              || is_some a.remote_selector
              || by_host a
              || l7),
      Refusal.cidr_remote,
    )
    ∷ []

unfoldable pub protocol_guards : Mode → Allow → Guards
protocol_guards mode a =
    let l7 = is_l7 a.remote_protocol in
    let egress = is_egress a.direction in
    let host_allowed = is_ambient mode && by_host a in
    let anywhere_allowed = is_ambient mode && is_anywhere a.remote_generated && egress in
    (is_udp a.remote_protocol && is_tcp_only a.remote_generated, Refusal.udp_generated)
    ∷ (is_tcp a.remote_protocol && by_host a, Refusal.tcp_host)
    ∷ (is_udp a.remote_protocol && by_host a, Refusal.udp_remote_host)
    ∷ ((by_host a || l7) && not egress, Refusal.host_ingress)
    ∷ (by_host a && contains (codes (get_or a.remote_host "")) (codes "*"), Refusal.wildcard_host)
    ∷ (given a.service_account && not host_allowed && not anywhere_allowed, Refusal.service_account)
    ∷ []

module _ (lower : Text → Text) where
  abbrev pub policy_name : Option String → Allow → Text
  policy_name pkg_name a =
      sanitize lower (concat ("allow-" ∷ printed pkg_name ∷ "-" ∷ generate_name a ∷ []))

  abbrev name_guards : Option String → List Text → Allow → Guards
  name_guards pkg_name seen a =
      (has_text seen (policy_name pkg_name a), Refusal.duplicate_policy (policy_name pkg_name a))
      ∷ []

  -- `seen` is networkPolicyNames.
  unfoldable pub check_allows :
      Mode → Option String → List Text → List Allow → Result (List Text) Refusal
  check_allows mode pkg_name seen [] = ok seen
  check_allows mode pkg_name seen (a ∷ rules) =
      deny_first (remote_guards a ++ (protocol_guards mode a ++ name_guards pkg_name seen a))
      >> check_allows mode pkg_name (policy_name pkg_name a ∷ seen) rules
