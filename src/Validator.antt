-- ===== src/Validator.antt =====
-- pepr/operator/crd/validators/package-validator.ts: the admission of UDSPackage resources. The
-- children hold its loops over `expose`, `allow`, `sso` and `monitor`.
pub mod Guards
pub mod Exposes
pub mod Allows
pub mod Clients
pub mod Monitors
pub mod Handler
pub mod Reachable
pub mod Tests
use uds_core.Prelude.{
  ℕ, String, Bool, true, false, Option, List, [], ◌∷◌, Result, ok, err, if◌then◌else◌, any,
}
use uds_core.Names.{Text}
use uds_core.Names.Generated.{text_eq}

-- The answers of `req.Deny`, with the arguments of their messages.
pub data Refusal : Type 0 where
  invalid_namespace length_changed : Refusal
  package_exists : Option String → String → Refusal
  bad_gateway_name : Option String → Refusal
  udp_host udp_domain udp_match udp_advanced udp_uptime udp_pod_labels : Refusal
  duplicate_route : Text → Refusal
  duplicate_port used_port : Option ℕ → Option String → Refusal
  http_without_host without_host : Refusal
  standard_domain passthrough_advanced direct_response_target : Refusal
  duplicate_service : Text → Refusal
  bad_path duplicate_fqdn : String → Refusal
  no_remote generated_remote pod_remote cidr_remote : Refusal
  udp_generated tcp_host udp_remote_host host_ingress wildcard_host service_account : Refusal
  duplicate_policy : Text → Refusal
  duplicate_client used_client bad_secret_name without_redirects : String → Refusal
  public_disabled public_saml public_accounts public_secret public_authservice : String → Refusal
  public_pkce public_device accounts_with_flow authservice_colon : String → Refusal
  bad_attribute bad_redirect : String → String → Refusal
  root_redirect : String → Refusal
  duplicate_pod_monitor duplicate_service_monitor : Text → Refusal

abbrev pub Verdict : Type 0
Verdict = Result (Unit {0}) Refusal

-- A chain of `if (...) return req.Deny(...)`: the first test that holds answers.
abbrev pub Guards : Type 0
Guards = List (Bool × Refusal)

unfoldable pub deny_first : Guards → Verdict
deny_first [] = ok tt
deny_first ((holds, r) ∷ gs) = let later = deny_first gs in if holds then err r else later

-- `set.has(name)`
abbrev pub has_text : List Text → Text → Bool
has_text seen name = any (λ t. text_eq t name) seen
