-- ===== src/Authservice/Tests.antt =====
-- Runs of the configuration of authservice.
use uds_core.Prelude.{
  String, Bool, Option, none, some, List, [], ◌∷◌, ok, err, ◌≡◌, refl, nat_eq, if◌then◌else◌,
}
use uds_core.Authservice.{
  Client, Chain, Action, Event, Defaults, Config, Heap, cluster_error, without, build_chain,
  build_config,
}
use uds_core.Authservice.Chains.{count, named, build_config-removed}
use uds_core.Authservice.Rollback.{
  State, Secret, get_authservice_config, update_config, write_ended, view, after_event,
  failed_write-view,
}

abbrev hostname : String → Option String
hostname uri = some "shop.uds.dev"

abbrev unsorted : List Chain → List Chain
unsorted cs = cs

abbrev defaults : Defaults
defaults = record { redis_uri = none; trusted_ca = some "ca"; others = [] }

abbrev heap : Heap
heap = record { at = λ a. defaults; next = 1 }

abbrev config : Config
config = record { defaults = 0; chains = []; others = [] }

abbrev login : Client
login = record {
  client_id = "shop-login";
  secret = some "secret";
  redirect_uris = "https://shop.uds.dev/login" ∷ [];
}

abbrev event : Action → Event
event a = record {
  name = "shop-login";
  action = a;
  client = some login;
  redis_uri = some "redis://cache";
  trusted_ca = none;
}

abbrev add : Event
add = event Action.add_client

abbrev remove : Event
remove = event Action.remove_client

added : (p : Heap × Config) × (build_config hostname "uds.dev" unsorted add config heap ≡ ok p)
unfolding build_config build_chain
added = (_, refl)

build_config-removed_example :
    (count (named "shop-login") added.0.1.chains ≡ 1)
    × (c2 : Config) × (build_config hostname "uds.dev" unsorted remove added.0.1 added.0.0
        ≡ ok (added.0.0, c2))
    × ((t : Chain → Bool) → count t c2.chains ≡ count t (without "shop-login" config.chains))
build_config-removed_example =
    build_config-removed hostname "uds.dev" unsorted (λ t cs. refl) add remove config added.0.1 heap
      added.0.0 refl refl refl added.1

abbrev secret : Secret
secret = record { defaults = defaults; chains = []; others = [] }

-- The secret has been read, and never written.
abbrev read_once : State
read_once = record { heap = heap; memory = some config; last = some config }

abbrev global : Event
global = event Action.update_global_config

changed :
    (p : State × Config) × (update_config hostname "uds.dev" unsorted (ok secret) global read_once
      ≡ ok p)
unfolding update_config get_authservice_config build_config
changed = (_, refl)

failed_write-view_example :
    ((write_ended (err cluster_error) (ok tt) changed.0.0).memory ≡ some config)
    × (view (write_ended (err cluster_error) (ok tt) changed.0.0).heap config
        ≡ (if nat_eq 0 0 then after_event global.action global (heap.at 0) else heap.at 0, []))
failed_write-view_example =
    failed_write-view hostname "uds.dev" unsorted (ok secret) global read_once changed.0.0 config
      config changed.0.1 cluster_error refl refl changed.1
