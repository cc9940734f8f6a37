-- ===== src/Validator/Reachable.antt =====
-- The package validator and the package store together: packages that the validator approves are
-- added, and packages that the store has are removed.
pub mod Free
pub mod Steps
use uds_core.Prelude.{
  String, Bool, true, false, not, ◌&&◌, ◌==◌, Option, none, some, List, [], ◌∷◌, ◌||◌, get_or,
  given, includes, if◌then◌else◌, Result, ok, ◌≡◌, ◌⊎◌, inl, inr, refl, arith, eq_iff, Bool-cases,
  ◌∙◌, sym,
}
use uds_core.Crd.Package.{Package}
use uds_core.Names.{Text}
use uds_core.Names.Generated.{Config}
use uds_core.Packages.Index.{Index, find, holds}
use uds_core.Packages.Store.{
  Store, init, sso_keys, udp_keys, get_package_by_namespace, get_pkg_name, is_valid, namespace_of,
  name_of, add, remove,
}
use uds_core.Packages.Store.Consistency.{Consistent, init-Consistent, uses}
use uds_core.Packages.Store.Adding.{add-Consistent, IsFree}
use uds_core.Packages.Store.Removing.{remove-Consistent}
use uds_core.Packages.Watch.{WatchPhase, process_packages}
use uds_core.Validator.Exposes.{taken}
use uds_core.Validator.Handler.{validator}
use uds_core.Validator.Reachable.Free.{approved_sso, approved_udp, approved-IsFree}

-- No key is used by the packages of two namespaces.
abbrev pub IsUnshared : (Package → List String) → (String → Option Package) → Type 0
IsUnshared keys held =
    (k m m' : String) → uses keys (held m) k ≡ true → uses keys (held m') k ≡ true → m ≡ m'

holder :
    (idx : Index) (k ns m : String)
    → taken (find idx k) ns ≡ false
    → holds idx k m ≡ true
    → holds idx k ns ≡ true
holder idx k ns m free has = some_holder (find idx k) ns m free has
  where
    some_holder :
        (xs : List String) (ns m : String)
        → taken xs ns ≡ false
        → includes xs m ≡ true
        → includes xs ns ≡ true
    some_holder [] ns m free has = absurd (ground arith)
    some_holder (x ∷ xs) ns m free has = ground arith

IsUnshared-added :
    (keys : Package → List String) (held held' : String → Option Package) (idx : Index)
    (pkg : Package) (ns : String)
    → ((k m : String) → holds idx k m ≡ uses keys (held m) k)
    → ((m : String) → held' m ≡ (if ns == m then some pkg else held m))
    → ((k : String) → includes (keys pkg) k ≡ true → taken (find idx k) ns ≡ false)
    → IsUnshared keys held
    → IsUnshared keys held'
IsUnshared-added keys held held' idx pkg ns h e free u k m m' a b =
    let own : (x : String) → (ns == x) ≡ true → ns ≡ x = λ x. (eq_iff ns x).0 in
    let now = e m in
    let now' = e m' in
    elim (Bool-cases (ns == m)) [
      | inl same ↦ elim (Bool-cases (ns == m')) [
        | inl same' ↦ sym (own m same) ∙ own m' same'
        | inr other' ↦
            let old : uses keys (held m') k ≡ true = ground arith in
            let new : includes (keys pkg) k ≡ true = ground arith in
            sym (own m same)
            ∙ u k ns m' (sym (h k ns) ∙ holder idx k ns m' (free k new) (h k m' ∙ old)) old
      ]
      | inr other ↦ elim (Bool-cases (ns == m')) [
        | inl same' ↦
            let old : uses keys (held m) k ≡ true = ground arith in
            let new : includes (keys pkg) k ≡ true = ground arith in
            u k m ns old (sym (h k ns) ∙ holder idx k ns m (free k new) (h k m ∙ old))
            ∙ own m' same'
        | inr other' ↦ u k m m' (ground arith) (ground arith)
      ]
    ]

IsUnshared-removed :
    (keys : Package → List String) (held held' : String → Option Package) (ns : String)
    → ((m : String) → held' m ≡ (if ns == m then none else held m))
    → IsUnshared keys held
    → IsUnshared keys held'
IsUnshared-removed keys held held' ns e u k m m' a b =
    let now = e m in let now' = e m' in u k m m' (ground arith) (ground arith)

-- The store is in step with its packages, and neither a client id nor a UDP port of a gateway is
-- used in two namespaces.
pub record IsExclusive (s : Store) : Type 0 where
  pub consistent : Consistent s
  pub sso : IsUnshared sso_keys (get_package_by_namespace s)
  pub udp : IsUnshared udp_keys (get_package_by_namespace s)

-- Which events a watch may report as the store stands: what happened, and the package.
abbrev pub Watch : Type 1
Watch = Store → WatchPhase → Package → Type 0

-- Every package that the watch reports as added or modified was approved by the validator as the
-- store stood.
abbrev pub IsApproved : (Text → Text) → (String → Option String) → Watch → Type 0
IsApproved lower parse_path Reports =
    (s : Store) (phase : WatchPhase) (raw : Package)
    → Reports s phase raw
    → (phase ≡ WatchPhase.added) ⊎ (phase ≡ WatchPhase.modified)
    → (config : Config) × (validator lower parse_path config s raw ≡ ok tt)

-- A package that is being deleted has the name of the one that the store has for its namespace.
abbrev pub IsKnown : Watch → Type 0
IsKnown Reports =
    (s : Store) (phase : WatchPhase) (raw : Package)
    → Reports s phase raw
    → (phase ≡ WatchPhase.added) ⊎ (phase ≡ WatchPhase.modified)
    → given raw.deletion_timestamp ≡ true
    → get_pkg_name s (namespace_of raw) ≡ some (name_of raw)

-- A deletion is reported with the package as the store has it.
abbrev pub IsCurrent : Watch → Type 0
IsCurrent Reports =
    (s : Store) (pkg : Package)
    → Reports s WatchPhase.deleted pkg
    → (ns : String) × (get_package_by_namespace s ns ≡ some pkg)

-- The stores that the events of a watch lead to.
pub data Reach (Reports : Watch) : Store → Type 0 where
  start : Reach Reports init
  next :
      {s s' : Store}
      → Reach Reports s
      → (phase : WatchPhase) (pkg : Package) → Reports s phase pkg
      → process_packages pkg phase s ≡ ok s'
      → Reach Reports s'
