-- ===== src/Validator/Handler/Laws.antt =====
-- Which packages the validator takes.
use uds_core.Prelude.{
  String, true, false, nat_eq_iff, Option, some, [], get_or, given, includes, length, IsDistinct,
  Result, ok, err, ◌>>◌, ◌≡◌, ◌↔◌, refl, arith, sym,
}
use uds_core.Crd.Package.{Package}
use uds_core.Crd.Migrate.{migrate}
use uds_core.Crd.Migrate.Laws.{migrate-keys}
use uds_core.Names.{Text}
use uds_core.Names.Generated.{Config}
use uds_core.Packages.Store.{Store, has_key, get_pkg_name}
use uds_core.Validator.{Refusal, deny_first}
use uds_core.Validator.Guards.{NoneHolds, Passes, >>-eq-ok, deny_first_iff, opt_eq_iff}
use uds_core.Validator.Exposes
use uds_core.Validator.Exposes.{check_exposes}
use uds_core.Validator.Allows.{check_allows}
use uds_core.Validator.Clients.{check_clients}
use uds_core.Validator.Monitors
use uds_core.Validator.Monitors.{check_monitors}
use uds_core.Validator.Monitors.Laws.{pod_names, service_names, check_monitors_iff}
use uds_core.Validator.Handler.{
  invalid_namespaces, unknown, mode_of, package_guards, had_match, check_lists, validator,
}

abbrev ns_of : Package → String
ns_of pkg = get_or pkg.namespace unknown

-- The namespace may hold packages, and has none of another name, unless the package is going away.
pub record IsPlaced (store : Store) (pkg : Package) : Type 0 where
  pub namespace : includes invalid_namespaces (ns_of pkg) ≡ false
  pub free :
      has_key store (ns_of pkg) ≡ true
      → given pkg.deletion_timestamp ≡ false
      → get_pkg_name store (ns_of pkg) ≡ some (get_or pkg.name unknown)

-- The lists of the package, after its migration.
pub record HasGoodLists (lower : Text → Text) (parse_path : String → Option String)
    (config : Config) (store : Store) (raw pkg : Package) : Type 0 where
  pub exposes : Passes (
      check_exposes lower config store
        (get_or pkg.name unknown)
        (ns_of pkg)
        (had_match raw)
        Exposes.nothing_seen
        pkg.expose)
  pub allows : Passes (check_allows lower (mode_of pkg) pkg.name [] pkg.allow)
  pub clients : Passes (check_clients lower parse_path config store (ns_of pkg) [] pkg.sso)
  pub pod_monitors : IsDistinct (pod_names lower (get_or pkg.name unknown) pkg.monitor)
  pub service_monitors : IsDistinct (service_names lower (get_or pkg.name unknown) pkg.monitor)

package_guards-IsPlaced :
    (store : Store) (raw : Package)
    → NoneHolds (package_guards store raw (migrate raw)) ↔ IsPlaced store (migrate raw)
unfolding package_guards
package_guards-IsPlaced store raw =
    let pkg = migrate raw in
    let (same, _, len) = migrate-keys raw in
    let (o, o') = opt_eq_iff (get_pkg_name store (ns_of pkg)) (get_or pkg.name unknown) in
    let (_, eq) = nat_eq_iff (length raw.expose) (length pkg.expose) in
    (
      λ (n, (f, (l, _))). record { namespace = n; free = λ a b. o (ground arith) },
      λ p.
          let f = p.free in
          (p.namespace, (ground (arith, f, o'), (ground (arith, eq (sym len)), tt))),
    )

-- A computation before another, of which only the end counts.
then_iff {ℓ κ} :
    {A : Type ℓ} {B : Type κ} (r : Result A Refusal) (w : Result B Refusal)
    → Passes (r >> w) ↔ (Passes r × Passes w)
then_iff (ok a) w = (λ h. ((a, refl), h), λ (_, h). h)
then_iff (err e) w = (λ (b, h). cc, λ ((a, h), _). cc)

module _ (lower : Text → Text) (parse_path : String → Option String) where
  lists_iff :
      (config : Config) (store : Store) (raw pkg : Package)
      → Passes (check_lists lower parse_path config store raw pkg)
        ↔ HasGoodLists lower parse_path config store raw pkg
  lists_iff config store raw pkg =
      let name = get_or pkg.name unknown in
      let e =
        check_exposes lower config store name (ns_of pkg) (had_match raw) Exposes.nothing_seen
          pkg.expose in
      let a = check_allows lower (mode_of pkg) pkg.name [] pkg.allow in
      let c = check_clients lower parse_path config store (ns_of pkg) [] pkg.sso in
      let m = check_monitors lower name Monitors.nothing_seen pkg.monitor in
      let (t1, f1) = then_iff (e >> a >> c >> m) (ok tt) in
      let (t2, f2) = then_iff (e >> a >> c) m in
      let (t3, f3) = then_iff (e >> a) c in
      let (t4, f4) = then_iff e a in
      let (t5, f5) = check_monitors_iff lower name pkg.monitor in
      (
        λ h.
            let (h1, _) = t1 h in
            let (h2, good_m) = t2 h1 in
            let (h3, good_c) = t3 h2 in
            let (good_e, good_a) = t4 h3 in
            let (pods, services) = t5 good_m in
            record {
              exposes = good_e;
              allows = good_a;
              clients = good_c;
              pod_monitors = pods;
              service_monitors = services;
            },
        λ g.
            let m_good = f5 (g.pod_monitors, g.service_monitors) in
            f1 (f2 (f3 (f4 (g.exposes, g.allows), g.clients), m_good), (tt, refl)),
      )

  -- The validator approves a package exactly when, after the migration, its namespace is not one
  -- of the reserved ones and has no package of another name (unless the package is being
  -- deleted), the loops over what it exposes, allows and signs in with come to their end without a
  -- denial, and the names of its pod monitors all differ, as do those of its service monitors.
  pub validator_iff :
      (config : Config) (store : Store) (raw : Package)
      → (validator lower parse_path config store raw ≡ ok tt) ↔ (
          IsPlaced store (migrate raw)
          × HasGoodLists lower parse_path config store raw (migrate raw))
  unfolding validator
  validator_iff config store raw =
      let tests = package_guards store raw (migrate raw) in
      let lists = check_lists lower parse_path config store raw (migrate raw) in
      let (to, from) = >>-eq-ok (deny_first tests) lists tt in
      let (d, d') = deny_first_iff tests in
      let (p, p') = package_guards-IsPlaced store raw in
      let (l, l') = lists_iff config store raw (migrate raw) in
      (λ h. let (a, b) = to h in (p (d a), l (tt, b)), λ (a, b). from (d' (p' a), (l' b).1))
