-- ===== src/Crd/Tests.antt =====
-- Runs of the migration.
use uds_core.Prelude.{none, some, [], ◌∷◌, ◌≡◌}
use uds_core.Crd.Package.{
  Package, legacy, bare_expose, bare_allow, bare_sso, bare_package, Direction,
}
use uds_core.Crd.Migrate.{migrate}
use uds_core.Crd.Migrate.Laws.{IsMigrated, migrate-migrate}

-- A package as an older version wrote it.
abbrev old_shop : Package
old_shop = record (bare_package (some "shop") (some "shop-ns")) {
  sso =
      record (bare_sso "shop-login") {
        secret_name = some "shop-secret";
        enable_authservice_selector = some (("app", "shop") ∷ []);
      }
      ∷ [];
  expose =
      record bare_expose { host = some "shop"; match = some (record { name = some "cart" } ∷ []) }
      ∷ [];
  allow = record (bare_allow Direction.egress) { pod_labels = some (("app", "shop") ∷ []) } ∷ [];
  status = some (record {
    authservice_clients = some (legacy ("shop-login" ∷ []));
    observed_generation = none;
    phase = none;
    retry_attempt = none;
  });
}

migrate-migrate_example :
    IsMigrated (migrate old_shop) × (migrate (migrate old_shop) ≡ migrate old_shop)
migrate-migrate_example = migrate-migrate old_shop
