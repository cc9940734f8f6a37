-- ===== src/Crd/Migrate.antt =====
-- pepr/operator/crd/migrate.ts: deprecated fields of a package are moved to those that replace
-- them. A list that is absent is read as empty.
pub mod Laws
use uds_core.Prelude.{
  String, Bool, true, false, not, ◌&&◌, ◌||◌, ◌==◌, Option, none, some, List, [], ◌∷◌, map, get_or,
  given, is_some, if◌then◌else◌, Dict,
}
use uds_core.Crd.Package.{
  AdvancedHttp, HttpMatch, Expose, Allow, SecretConfig, Sso, AuthserviceClient, AuthserviceClients,
  legacy, objects, Status, Package,
}

abbrev pub no_advanced : AdvancedHttp
no_advanced = record { direct_response = false; redirect = false; match = none }

abbrev with_match : Expose → Option (List HttpMatch) → Expose
with_match e none = e
with_match e (some ms) = record e {
  advanced_http = some (record (get_or e.advanced_http no_advanced) { match = some ms });
  match = none;
}

unfoldable pub migrate_expose : Expose → Expose
migrate_expose e = with_match e e.match

-- `podLabels`, then `remotePodLabels`.
abbrev with_selector : Allow → Option (Dict String) → Allow
with_selector a none = a
with_selector a (some ls) = record a { selector = some ls; pod_labels = none }

abbrev with_remote_selector : Allow → Option (Dict String) → Allow
with_remote_selector a none = a
with_remote_selector a (some ls) = record a { remote_selector = some ls; remote_pod_labels = none }

unfoldable pub migrate_allow : Allow → Allow
migrate_allow a = let b = with_selector a a.pod_labels in with_remote_selector b b.remote_pod_labels

abbrev pub no_config : SecretConfig
no_config = record { annotations = none; labels = none; name = none; template = none }

-- A deprecated field is given up whenever it counts as set; a new field that counts as set is kept.
abbrev newer_text : Option String → Option String → Option String
newer_text new old = if given old && not (given new) then old else new

abbrev left_text : Option String → Option String
left_text old = if given old then none else old

abbrev pub newer : Option (Dict String) → Option (Dict String) → Option (Dict String)
newer none old = old
newer (some new) old = some new

-- The moved fields of `secretConfig`, which is created if it is not there.
abbrev moved : Sso → SecretConfig → Sso
moved s c = record s {
  secret_config = some (record {
    annotations = newer c.annotations s.secret_annotations;
    labels = newer c.labels s.secret_labels;
    name = newer_text c.name s.secret_name;
    template = newer c.template s.secret_template;
  });
  secret_annotations = none;
  secret_labels = none;
  secret_name = left_text s.secret_name;
  secret_template = none;
}

abbrev pub is_deprecated : Sso → Bool
is_deprecated s =
    given s.secret_name
    || is_some s.secret_labels
    || is_some s.secret_annotations
    || is_some s.secret_template

unfoldable pub migrate_sso : Sso → Sso
migrate_sso s = if is_deprecated s then moved s (get_or s.secret_config no_config) else s

-- `ssoList.find(s => s.clientId === id)?.enableAuthserviceSelector || {}`
unfoldable pub selector_of : List Sso → String → Dict String
selector_of [] id = []
selector_of (s ∷ ss) id =
    let later = selector_of ss id in
    if s.client_id == id then get_or s.enable_authservice_selector [] else later

-- buildMigratedAuthserviceStatus
unfoldable pub migrated_clients :
    List Sso → Option AuthserviceClients → Option (List AuthserviceClient)
migrated_clients sso none = none
migrated_clients sso (some (legacy [])) = none
migrated_clients sso (some (legacy (id ∷ ids))) =
    some (map (λ i. record { client_id = i; selector = some (selector_of sso i) }) (id ∷ ids))
migrated_clients sso (some (objects [])) = none
migrated_clients sso (some (objects (c ∷ cs))) = some (c ∷ cs)

abbrev status_with : Status → Option (List AuthserviceClient) → Status
status_with st none = st
status_with st (some cs) = record st { authservice_clients = some (objects cs) }

-- migrateStatus, migrateAuthserviceStatus
unfoldable pub migrate_status : List Sso → Option Status → Option Status
migrate_status sso none = none
migrate_status sso (some st) = some (status_with st (migrated_clients sso st.authservice_clients))

unfoldable pub migrate : Package → Package
migrate pkg =
    let sso = map migrate_sso pkg.sso in
    record pkg {
      expose = map migrate_expose pkg.expose;
      allow = map migrate_allow pkg.allow;
      sso = sso;
      status = migrate_status sso pkg.status;
    }
