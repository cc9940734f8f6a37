-- ===== src/Packages/Tests.antt =====
-- Runs of the package store.
use uds_core.Prelude.{String, none, some, [], ◌∷◌, ok, ◌≡◌, inl, refl, if◌then◌else◌, ◌==◌}
use uds_core.Crd.Package.{ExposeProtocol, Package, bare_expose, bare_sso, bare_package}
use uds_core.Packages.Store.{Store, init, add, remove, get_package_by_namespace, get_pkg_name}
use uds_core.Packages.Store.Consistency.{Consistent, init-Consistent}
use uds_core.Packages.Store.Adding.{add-Consistent}
use uds_core.Packages.Store.Removing.{remove-Consistent}

abbrev shop : Package
shop = record (bare_package (some "shop") (some "shop-ns")) {
  sso = bare_sso "shop-login" ∷ [];
  expose = record bare_expose { port = some 5353; protocol = some ExposeProtocol.udp } ∷ [];
}

add-Consistent_example :
    (s' : Store) × (add shop init ≡ ok s')
    × Consistent s'
    × ((m : String)
        → get_package_by_namespace s' m
          ≡ (if "shop-ns" == m then some shop else get_package_by_namespace init m))
unfolding get_pkg_name
add-Consistent_example =
    add-Consistent init shop "shop-ns" "shop" init-Consistent refl refl refl (inl refl)

-- The store with the package in it.
stocked_facts :
    (s' : Store) × (add shop init ≡ ok s')
    × Consistent s'
    × ((m : String)
        → get_package_by_namespace s' m
          ≡ (if "shop-ns" == m then some shop else get_package_by_namespace init m))
unfolding get_pkg_name
stocked_facts = add-Consistent init shop "shop-ns" "shop" init-Consistent refl refl refl (inl refl)

abbrev stocked : Store
stocked = stocked_facts.0

stocked-has : get_package_by_namespace stocked "shop-ns" ≡ some shop
stocked-has = stocked_facts.3 "shop-ns"

remove-Consistent_example :
    (s' : Store) × (remove shop stocked ≡ ok s')
    × Consistent s'
    × ((m : String)
        → get_package_by_namespace s' m
          ≡ (if "shop-ns" == m then none else get_package_by_namespace stocked m))
remove-Consistent_example =
    remove-Consistent stocked shop "shop-ns" stocked_facts.2 stocked-has refl
