-- ===== src/Packages/Store.antt =====
-- pepr/operator/controllers/packages/package-store.ts. The three module variables are the fields
-- of `Store`. Logging is left out.
pub mod Consistency
pub mod Adding
pub mod Removing
use uds_core.Prelude.{
  ℕ, String, Bool, true, false, not, ◌&&◌, ◌||◌, Option, none, some, List, [], ◌∷◌, ◌++◌,
  if◌then◌else◌, get_or, given, Dict, lookup, insert, delete, is_some, map, filter, Result, ok, err,
  show, concat, or_else,
}
use uds_core.Crd.Package.{Mode, ExposeProtocol, Expose, Sso, Package}
use uds_core.Packages.Index.{Index, index_add_all, index_remove_all, find}

pub data Invalid : Type 0 where
  missing_namespace_or_name : Invalid

pub record Store : Type 0 where
  pub packages : Dict (Dict Package)
  pub sso_index : Index
  pub udp_index : Index

abbrev pub init : Store
init = record { packages = []; sso_index = []; udp_index = [] }

-- envoy-gateway/constants.ts
abbrev pub udp_gateway_name : Option String → String
udp_gateway_name gateway = get_or (or_else gateway (some "envoy-default-gateway")) ""

abbrev pub udp_gateway_port_key : Option String → ℕ → String
udp_gateway_port_key gateway port = concat (udp_gateway_name gateway ∷ ":" ∷ show port ∷ [])

-- The keys that the loops over `spec.sso` and `spec.network.expose` go through.
abbrev pub sso_keys : Package → List String
sso_keys pkg = map (λ (c : Sso). c.client_id) pkg.sso

abbrev pub expose_keys : Expose → Option ExposeProtocol → Option ℕ → List String
expose_keys e (some ExposeProtocol.udp) (some port) = udp_gateway_port_key e.gateway port ∷ []
expose_keys e (some ExposeProtocol.udp) none = []
expose_keys e (some ExposeProtocol.http) port = []
expose_keys e none port = []

abbrev pub exposes_keys : List Expose → List String
exposes_keys [] = []
exposes_keys (e ∷ es) = expose_keys e e.protocol e.port ++ exposes_keys es

abbrev pub udp_keys : Package → List String
udp_keys pkg = exposes_keys pkg.expose

-- `metadata!.namespace!`
abbrev pub namespace_of : Package → String
namespace_of pkg = get_or pkg.namespace ""

abbrev pub name_of : Package → String
name_of pkg = get_or pkg.name ""

unfoldable pub add_indexes : Package → Store → Store
add_indexes pkg s = record s {
  sso_index = index_add_all (sso_keys pkg) (namespace_of pkg) s.sso_index;
  udp_index = index_add_all (udp_keys pkg) (namespace_of pkg) s.udp_index;
}

unfoldable pub remove_indexes : Package → Store → Store
remove_indexes pkg s = record s {
  sso_index = index_remove_all (sso_keys pkg) (namespace_of pkg) s.sso_index;
  udp_index = index_remove_all (udp_keys pkg) (namespace_of pkg) s.udp_index;
}

-- `if (existingPkg) removeIndexes(existingPkg)`
abbrev pub drop_existing : Option Package → Store → Store
drop_existing none s = s
drop_existing (some old) s = remove_indexes old s

abbrev pub is_valid : Package → Bool
is_valid pkg = given pkg.namespace && given pkg.name

-- The map of a namespace, created if it is not there.
abbrev pub namespace_map : Store → String → Dict Package
namespace_map s ns = get_or (lookup ns s.packages) []

unfoldable pub add : Package → Store → Result Store Invalid
add pkg s =
    if is_valid pkg
    then (let ns = namespace_of pkg in
        let cleaned = drop_existing (lookup (name_of pkg) (namespace_map s ns)) s in
        ok (
          add_indexes pkg (record cleaned {
            packages = insert ns (insert (name_of pkg) pkg (namespace_map s ns)) s.packages;
          })))
    else err missing_namespace_or_name

abbrev pub shrink : String → Dict (Dict Package) → Dict Package → Dict (Dict Package)
shrink ns ps [] = delete ns ps
shrink ns ps (e ∷ es) = insert ns (e ∷ es) ps

abbrev pub remove_known : Package → Store → Option (Dict Package) → Store
remove_known pkg s none = s
remove_known pkg s (some m) =
    remove_indexes pkg
      (record s { packages = shrink (namespace_of pkg) s.packages (delete (name_of pkg) m) })

unfoldable pub remove : Package → Store → Result Store Invalid
remove pkg s =
    if is_valid pkg
    then ok (remove_known pkg s (lookup (namespace_of pkg) s.packages))
    else err missing_namespace_or_name

unfoldable pub has_key : Store → String → Bool
has_key s ns = is_some (lookup ns s.packages)

abbrev pub first_entry : Option (Dict Package) → Option (String × Package)
first_entry none = none
first_entry (some []) = none
first_entry (some (e ∷ es)) = some e

unfoldable pub get_pkg_name : Store → String → Option String
get_pkg_name s ns = elim (first_entry (lookup ns s.packages)) [ none ↦ none | some e ↦ some e.0 ]

unfoldable pub get_package_by_namespace : Store → String → Option Package
get_package_by_namespace s ns = elim (first_entry (lookup ns s.packages)) [
  | none ↦ none
  | some e ↦ some e.1
]

unfoldable pub find_packages_with_sso_client_id : Store → String → List String
find_packages_with_sso_client_id s id = find s.sso_index id

unfoldable pub find_packages_with_udp_gateway_port : Store → Option String → ℕ → List String
find_packages_with_udp_gateway_port s gateway port =
    find s.udp_index (udp_gateway_port_key gateway port)

abbrev pub is_ambient : Option Mode → Bool
is_ambient none = true
is_ambient (some Mode.ambient) = true
is_ambient (some Mode.sidecar) = false

abbrev pub values : Dict Package → List Package
values m = map (λ (e : String × Package). e.1) m

unfoldable pub get_ambient_packages : Dict (Dict Package) → List Package
get_ambient_packages [] = []
get_ambient_packages ((ns, m) ∷ ps) =
    filter (λ (p : Package). is_ambient p.mode) (values m) ++ get_ambient_packages ps
