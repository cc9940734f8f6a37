-- ===== src/Validator/Handler.antt =====
-- The whole package validator: the migration, the tests of the package and its four loops.
pub mod Laws
use uds_core.Prelude.{
  ℕ, String, Bool, true, false, not, ◌&&◌, nat_eq, Option, none, some, List, [], ◌∷◌, map, get_or,
  given, is_some, opt_eq, includes, length, ok, ◌>>◌,
}
use uds_core.Crd.Package.{Expose, Mode, Package}
use uds_core.Crd.Migrate.{migrate}
use uds_core.Names.{Text}
use uds_core.Names.Generated.{Config}
use uds_core.Packages.Store.{Store, has_key, get_pkg_name}
use uds_core.Validator.{Refusal, Guards, Verdict, deny_first}
use uds_core.Validator.Exposes
use uds_core.Validator.Exposes.{check_exposes}
use uds_core.Validator.Allows.{check_allows}
use uds_core.Validator.Clients.{check_clients}
use uds_core.Validator.Monitors
use uds_core.Validator.Monitors.{check_monitors}

abbrev pub invalid_namespaces : List String
invalid_namespaces = "kube-system" ∷ "kube-public" ∷ "_unknown_" ∷ "pepr-system" ∷ []

abbrev pub unknown : String
unknown = "_unknown_"

abbrev pub mode_of : Package → Mode
mode_of pkg = get_or pkg.mode Mode.ambient

-- The tests before the loops; `raw` is the package before its migration.
unfoldable pub package_guards : Store → Package → Package → Guards
package_guards store raw pkg =
    let ns = get_or pkg.namespace unknown in
    let existing = get_pkg_name store ns in
    (includes invalid_namespaces ns, Refusal.invalid_namespace)
    ∷ (
      has_key store ns
          && not (given pkg.deletion_timestamp)
          && not (opt_eq existing (get_or pkg.name unknown)),
      Refusal.package_exists existing ns,
    )
    ∷ (not (nat_eq (length raw.expose) (length pkg.expose)), Refusal.length_changed)
    ∷ []

abbrev pub had_match : Package → List Bool
had_match raw = map (λ (e : Expose). is_some e.match) raw.expose

module _ (lower : Text → Text) (parse_path : String → Option String) where
  -- The four loops, each of which starts with empty sets.
  abbrev check_lists : Config → Store → Package → Package → Verdict
  check_lists config store raw pkg =
      let name = get_or pkg.name unknown in
      let ns = get_or pkg.namespace unknown in
      check_exposes lower config store name ns (had_match raw) Exposes.nothing_seen pkg.expose
      >> check_allows lower (mode_of pkg) pkg.name [] pkg.allow
      >> check_clients lower parse_path config store ns [] pkg.sso
      >> check_monitors lower name Monitors.nothing_seen pkg.monitor
      >> ok tt

  unfoldable pub validator : Config → Store → Package → Verdict
  validator config store raw =
      let pkg = migrate raw in
      deny_first (package_guards store raw pkg) >> check_lists config store raw pkg
