-- ===== src/Authservice.antt =====
-- pepr/operator/controllers/keycloak/authservice: authservice.ts (buildChain, buildConfig,
-- updateConfig) and config.ts (the configuration in memory and its rollback). A configuration
-- refers to its default settings by an address, since configurations share that object.
pub mod Chains
pub mod Rollback
pub mod Tests
use uds_core.Prelude.{
  ℕ, suc, String, Bool, true, false, not, ◌==◌, nat_eq, Option, none, some, List, [], ◌∷◌, ◌++◌,
  filter, get_or, given, concat, if◌then◌else◌, Result, ok, err,
}

pub record Client : Type 0 where
  pub client_id : String
  pub secret : Option String
  pub redirect_uris : List String

-- A chain, with the fields of its one filter.
pub record Chain : Type 0 where
  pub name : String
  pub prefix : String
  pub authorization_uri : String
  pub token_uri : String
  pub callback_uri : String
  pub client_id : String
  pub client_secret : Option String
  pub logout_uri : String
  pub cookie_name_prefix : String

pub data Action : Type 0 where
  add_client remove_client update_global_config : Action

pub record Event : Type 0 where
  pub name : String
  pub action : Action
  pub client : Option Client
  pub redis_uri : Option String
  pub trusted_ca : Option String

-- The default settings: the two fields that events change, and the rest.
pub record Defaults : Type 0 where
  pub redis_uri : Option String
  pub trusted_ca : Option String
  pub others : List (String × String)

-- A configuration; `others` are its fields that no event changes.
pub record Config : Type 0 where
  pub defaults : ℕ
  pub chains : List Chain
  pub others : List (String × String)

-- The objects of default settings that there are; `next` is the first address that is free.
pub record Heap : Type 0 where
  pub at : ℕ → Defaults
  pub next : ℕ

abbrev pub store : ℕ → Defaults → Heap → Heap
store a d h = record h { at = λ b. if nat_eq b a then d else h.at b }

abbrev pub allocate : Defaults → Heap → Heap
allocate d h = record { at = λ b. if nat_eq b h.next then d else h.at b; next = suc h.next }

-- What the code throws, here or in the calls that it makes.
pub data Failure : Type 0 where
  type_error : Failure
  invalid_url : String → Failure
  cluster_error : Failure

-- `https://sso.${domain}/realms/${realm}/protocol/openid-connect/${end}`
abbrev pub endpoint : String → String → String
endpoint domain end =
    concat ("https://sso." ∷ domain ∷ "/realms/uds/protocol/openid-connect/" ∷ end ∷ [])

-- A URI that is given only if the value counts as true.
abbrev pub truthy_only : Option String → Option String
truthy_only o = if given o then o else none

abbrev pub set_defaults : Event → Defaults → Defaults
set_defaults e d = record d {
  redis_uri = truthy_only e.redis_uri;
  trusted_ca = truthy_only e.trusted_ca;
}

abbrev pub without : String → List Chain → List Chain
without name cs = filter (λ (c : Chain). not (c.name == name)) cs

module _ (hostname : String → Option String) (domain : String) where
  abbrev chain_at : Event → Client → String → Option String → Result Chain Failure
  chain_at e c uri none = err (invalid_url uri)
  chain_at e c uri (some host) = ok (record {
    name = e.name;
    prefix = host;
    authorization_uri = endpoint domain "auth";
    token_uri = endpoint domain "token";
    callback_uri = uri;
    client_id = c.client_id;
    client_secret = c.secret;
    logout_uri = endpoint domain "logout";
    cookie_name_prefix = c.client_id;
  })

  abbrev chain_for : Event → Client → List String → Result Chain Failure
  chain_for e c [] = err (invalid_url "undefined")
  chain_for e c (uri ∷ uris) = chain_at e c uri (hostname uri)

  abbrev chain_of : Event → Option Client → Result Chain Failure
  chain_of e none = err type_error
  chain_of e (some c) = chain_for e c c.redirect_uris

  unfoldable pub build_chain : Event → Result Chain Failure
  build_chain e = chain_of e e.client

  -- `sort` stands for `R.sortBy(R.prop("name"))`.
  module _ (sort : List Chain → List Chain) where
    abbrev with_chain :
        Event → Config → Heap → Result Chain Failure → Result (Heap × Config) Failure
    with_chain e config h (ok c) =
        ok (h, record config { chains = sort (without e.name config.chains ++ c ∷ []) })
    with_chain e config h (err x) = err x

    abbrev configured : Action → Event → Config → Heap → Result (Heap × Config) Failure
    configured Action.add_client e config h = with_chain e config h (build_chain e)
    configured Action.remove_client e config h =
        ok (h, record config { chains = without e.name config.chains })
    configured Action.update_global_config e config h =
        ok (store config.defaults (set_defaults e (h.at config.defaults)) h, config)

    unfoldable pub build_config : Event → Config → Heap → Result (Heap × Config) Failure
    build_config e config h = configured e.action e config h
