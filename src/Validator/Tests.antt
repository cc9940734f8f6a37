-- ===== src/Validator/Tests.antt =====
-- Runs of the package validator.
use uds_core.Prelude.{
  String, false, Option, some, [], ◌∷◌, ok, ◌≡◌, ◌↔◌, refl, arith, All, IsDistinct, show,
}
use uds_core.Crd.Package.{
  Package, ExposeProtocol, Direction, RemoteGenerated, Mode, bare_expose, bare_allow, bare_sso,
  bare_package,
}
use uds_core.Crd.Migrate.{migrate, migrate_expose, migrate_allow, migrate_sso, migrate_status}
use uds_core.Names.{Text, sanitize_resource_name, collapse, take, trim_front, trim_end}
use uds_core.Names.Generated.{Config, generate_vs_name, vs_suffix, generate_name, name_parts}
use uds_core.Packages.Store.{
  Store, init, add, has_key, get_pkg_name, find_packages_with_sso_client_id,
}
use uds_core.Packages.Watch.{WatchPhase}
use uds_core.Validator.{deny_first}
use uds_core.Validator.Guards.{Passes}
use uds_core.Validator.Exposes
use uds_core.Validator.Exposes.{check_exposes, expose_guards, note_expose}
use uds_core.Validator.Exposes.Laws.Keys.{
  AreExposed, routes, ports, services, fqdns, check_exposes_iff,
}
use uds_core.Validator.Allows.{check_allows, remote_guards, protocol_guards}
use uds_core.Validator.Allows.Laws.{IsAllowed, names, check_allows_iff}
use uds_core.Validator.Clients.{
  check_clients, client_guards, id_guards, public_guards, attribute_guards, authservice_guards,
  redirect_guards,
}
use uds_core.Validator.Clients.Laws.{IsClient, ids, check_clients_iff}
use uds_core.Validator.Monitors.{check_monitors}
use uds_core.Validator.Handler.{validator, package_guards}
use uds_core.Validator.Handler.Laws.{IsPlaced, HasGoodLists, validator_iff}
use uds_core.Validator.Reachable.{Reach, start, next, IsExclusive, IsApproved, IsKnown, IsCurrent}
use uds_core.Validator.Reachable.Steps.{Reach-IsExclusive}

abbrev pub plain : Text → Text
plain t = t

abbrev pub any_path : String → Option String
any_path uri = some "/login"

abbrev pub config : Config
config = record { domain = "uds.dev"; admin_domain = "admin.uds.dev"; allow_public_clients = false }

abbrev pub shop : Package
shop = record (bare_package (some "shop") (some "shop-ns")) {
  sso =
      record (bare_sso "shop-login") { redirect_uris = some ("https://shop.uds.dev/login" ∷ []) }
      ∷ [];
  expose =
      record bare_expose { port = some 5353; protocol = some ExposeProtocol.udp }
      ∷ record bare_expose { host = some "shop"; service = some "web"; port = some 80 }
      ∷ [];
  allow =
      record (bare_allow Direction.egress) { remote_generated = some RemoteGenerated.anywhere }
      ∷ [];
}

pub shop_approved : validator plain any_path config init shop ≡ ok tt
unfolding validator package_guards deny_first migrate migrate_expose migrate_allow migrate_sso
    migrate_status has_key get_pkg_name check_exposes expose_guards note_expose check_allows
    remote_guards protocol_guards check_clients client_guards id_guards public_guards
    attribute_guards authservice_guards redirect_guards check_monitors sanitize_resource_name
    collapse take trim_front trim_end generate_vs_name vs_suffix generate_name name_parts show
    find_packages_with_sso_client_id
shop_approved = refl

check_allows_iff_example : Passes (check_allows plain Mode.ambient (some "shop") [] shop.allow) ↔ (
    All (IsAllowed plain Mode.ambient (some "shop")) shop.allow
    × IsDistinct (names plain (some "shop") shop.allow))
check_allows_iff_example = check_allows_iff plain Mode.ambient (some "shop") shop.allow

check_clients_iff_example :
    Passes (check_clients plain any_path config init "shop-ns" [] shop.sso)
    ↔ (All (IsClient plain any_path config init "shop-ns") shop.sso × IsDistinct (ids shop.sso))
check_clients_iff_example = check_clients_iff plain any_path config init "shop-ns" shop.sso

check_exposes_iff_example :
    Passes (
      check_exposes plain config init "shop" "shop-ns"
        (false ∷ false ∷ [])
        Exposes.nothing_seen
        shop.expose)
    ↔ (AreExposed plain config init "shop" "shop-ns" (false ∷ false ∷ []) shop.expose
        × IsDistinct (routes plain "shop" shop.expose)
        × IsDistinct (ports shop.expose)
        × IsDistinct (services plain "shop" shop.expose)
        × IsDistinct (fqdns config shop.expose))
check_exposes_iff_example =
    check_exposes_iff plain config init "shop" "shop-ns" (false ∷ false ∷ []) shop.expose

validator_iff_example :
    (validator plain any_path config init shop ≡ ok tt)
    ↔ (IsPlaced init (migrate shop) × HasGoodLists plain any_path config init shop (migrate shop))
validator_iff_example = validator_iff plain any_path config init shop

added_facts : (s : Store) × (add shop init ≡ ok s)
unfolding add
added_facts = (_, refl)

abbrev stocked : Store
stocked = added_facts.0

-- A watch that reports the package of the shop when the store is empty.
pub data OneShop : Store → WatchPhase → Package → Type 0 where
  shop_added : OneShop init WatchPhase.added shop

OneShop-IsApproved : IsApproved plain any_path OneShop
OneShop-IsApproved s phase raw shop_added ph = (config, shop_approved)

OneShop-IsKnown : IsKnown OneShop
OneShop-IsKnown s phase raw shop_added ph going = absurd (ground arith)

not-OneShop-deleted :
    (s : Store) (phase : WatchPhase) (pkg : Package)
    → OneShop s phase pkg
    → phase ≡ WatchPhase.deleted
    → ⊥
not-OneShop-deleted s phase pkg shop_added e = ground arith

OneShop-IsCurrent : IsCurrent OneShop
OneShop-IsCurrent s pkg r = absurd (not-OneShop-deleted s WatchPhase.deleted pkg r refl)

stocked-Reach : Reach OneShop stocked
stocked-Reach = next start WatchPhase.added shop shop_added added_facts.1

Reach-IsExclusive_example : IsExclusive stocked
Reach-IsExclusive_example =
    Reach-IsExclusive plain any_path OneShop OneShop-IsApproved OneShop-IsKnown OneShop-IsCurrent
      stocked-Reach
