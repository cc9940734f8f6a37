-- ===== src/Validator/Clients.antt =====
-- The loop of the package validator over `spec.sso`. `parse_path` stands for
-- `new URL(uri).pathname`, with none where the constructor throws.
pub mod Laws
use uds_core.Prelude.{
  String, Bool, true, false, not, ◌&&◌, ◌||◌, ◌==◌, Option, none, some, List, [], ◌∷◌, ◌++◌, map,
  get_or, given, is_some, opt_eq, includes, keys, lookup, codes, contains, Dict, Result, ok, ◌>>◌,
  if◌then◌else◌,
}
use uds_core.Crd.Package.{Sso, SsoProtocol, SecretConfig}
use uds_core.Names.{Text}
use uds_core.Names.Generated.{text_eq, sanitize, Config}
use uds_core.Packages.Store.{Store, find_packages_with_sso_client_id}
use uds_core.Validator.{Refusal, Guards, deny_first}
use uds_core.Validator.Exposes.{nonempty, taken}

-- allowedClientAttributes
abbrev pub allowed_attributes : List String
allowed_attributes =
    "access.token.lifespan" ∷ "backchannel.logout.revoke.offline.tokens"
    ∷ "backchannel.logout.session.required" ∷ "client.session.idle.timeout"
    ∷ "client.session.max.lifespan" ∷ "logout.confirmation.enabled"
    ∷ "oauth2.device.authorization.grant.enabled" ∷ "oidc.ciba.grant.enabled"
    ∷ "pkce.code.challenge.method" ∷ "post.logout.redirect.uris" ∷ "saml.assertion.signature"
    ∷ "saml.client.signature" ∷ "saml.encrypt" ∷ "saml.signing.certificate"
    ∷ "saml_assertion_consumer_url_post" ∷ "saml_assertion_consumer_url_redirect"
    ∷ "saml_idp_initiated_sso_url_name" ∷ "saml_name_id_format"
    ∷ "saml_single_logout_service_url_post" ∷ "saml_single_logout_service_url_redirect"
    ∷ "use.refresh.tokens" ∷ []

-- `flag` as a condition, and `flag !== false`
abbrev pub is_on : Option Bool → Bool
is_on none = false
is_on (some b) = b

abbrev pub not_off : Option Bool → Bool
not_off none = true
not_off (some b) = b

abbrev pub is_saml : Option SsoProtocol → Bool
is_saml (some SsoProtocol.saml) = true
is_saml _ = false

-- `attributes?.[key]`
abbrev pub attribute : Option (Dict String) → String → Option String
attribute none key = none
attribute (some d) key = lookup key d

-- `secretConfig?.name` and `secretConfig?.template`
abbrev pub secret_name_of : Option SecretConfig → Option String
secret_name_of none = none
secret_name_of (some c) = c.name

abbrev secret_template_of : Option SecretConfig → Option (Dict String)
secret_template_of none = none
secret_template_of (some c) = c.template

-- A secret, or a configuration of one.
abbrev pub has_secret : Sso → Bool
has_secret c =
    is_some c.secret
    || is_some (secret_name_of c.secret_config)
    || is_some (secret_template_of c.secret_config)

abbrev pub is_device_flow_only : Sso → Bool
is_device_flow_only c =
    not (not_off c.standard_flow_enabled)
    && opt_eq (attribute c.attributes "oauth2.device.authorization.grant.enabled") "true"

unfoldable pub public_guards : Config → Sso → Guards
public_guards config c =
    let id = c.client_id in
    let open_flow = is_on c.public_client && not (is_device_flow_only c) in
    (open_flow && not config.allow_public_clients, Refusal.public_disabled id)
    ∷ (open_flow && is_saml c.protocol, Refusal.public_saml id)
    ∷ (open_flow && is_on c.service_accounts_enabled, Refusal.public_accounts id)
    ∷ (open_flow && has_secret c, Refusal.public_secret id)
    ∷ (open_flow && is_some c.enable_authservice_selector, Refusal.public_authservice id)
    ∷ (
      open_flow && not (opt_eq (attribute c.attributes "pkce.code.challenge.method") "S256"),
      Refusal.public_pkce id,
    )
    ∷ (
      is_on c.public_client
          && is_device_flow_only c
          && (is_on c.service_accounts_enabled
              || has_secret c
              || is_some c.enable_authservice_selector
              || is_saml c.protocol),
      Refusal.public_device id,
    )
    ∷ (
      not (is_on c.public_client)
          && is_on c.service_accounts_enabled
          && is_on c.standard_flow_enabled,
      Refusal.accounts_with_flow id,
    )
    ∷ []

unfoldable pub attribute_guards : Sso → Guards
attribute_guards c =
    map (λ k. (not (includes allowed_attributes k), Refusal.bad_attribute c.client_id k))
      (keys (get_or c.attributes []))

-- `redirectUris?.length`
abbrev pub redirects : Sso → List String
redirects c = get_or c.redirect_uris []

module _ (lower : Text → Text) where
  unfoldable pub id_guards : Store → String → List String → Sso → Guards
  id_guards store ns seen c =
      let id = c.client_id in
      let secret_name = get_or (secret_name_of c.secret_config) "" in
      (includes seen id, Refusal.duplicate_client id)
      ∷ (taken (find_packages_with_sso_client_id store id) ns, Refusal.used_client id)
      ∷ (
        given (secret_name_of c.secret_config)
            && not (text_eq (codes secret_name) (sanitize lower secret_name)),
        Refusal.bad_secret_name id,
      )
      ∷ (
        not_off c.standard_flow_enabled && not (nonempty (redirects c)),
        Refusal.without_redirects id,
      )
      ∷ []

module _ (parse_path : String → Option String) where
  unfoldable pub redirect_guards : Sso → List String → Guards
  redirect_guards c [] = []
  redirect_guards c (uri ∷ uris) =
      (not (is_some (parse_path uri)), Refusal.bad_redirect c.client_id uri)
      ∷ (opt_eq (parse_path uri) "/", Refusal.root_redirect c.client_id)
      ∷ redirect_guards c uris

  unfoldable pub authservice_guards : Sso → Guards
  authservice_guards c =
      if is_some c.enable_authservice_selector
      then (contains (codes c.client_id) (codes ":"), Refusal.authservice_colon c.client_id)
        ∷ redirect_guards c (redirects c)
      else []

module _ (lower : Text → Text) (parse_path : String → Option String) where
  -- The tests of one client, in their order.
  unfoldable pub client_guards : Config → Store → String → List String → Sso → Guards
  client_guards config store ns seen c =
      id_guards lower store ns seen c
      ++ (public_guards config c ++ (attribute_guards c ++ authservice_guards parse_path c))

  -- `seen` is clientIDs.
  unfoldable pub check_clients :
      Config → Store → String → List String → List Sso → Result (List String) Refusal
  check_clients config store ns seen [] = ok seen
  check_clients config store ns seen (c ∷ cs) =
      deny_first (client_guards config store ns seen c)
      >> check_clients config store ns (c.client_id ∷ seen) cs
