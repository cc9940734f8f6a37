-- ===== src/Packages/Store/Consistency.antt =====
-- When the indexes of the package store are in step with its packages.
use uds_core.Prelude.{
  String, Bool, false, Option, none, some, List, [], ◌∷◌, ◌==◌, if◌then◌else◌, Dict, lookup,
  includes, ◌≡◌, ◌⊎◌, inl, refl, arith, eq_iff,
}
use uds_core.Crd.Package.{Package}
use uds_core.Packages.Index.{
  Index, index_add_all, index_remove_all, holds, holds-index_add_all, holds-index_remove_all,
}
use uds_core.Packages.Store.{Store, init, sso_keys, udp_keys, get_package_by_namespace}

-- The package uses the key.
abbrev pub uses : (Package → List String) → Option Package → String → Bool
uses keys none k = false
uses keys (some p) k = includes (keys p) k

-- A namespace has no map, or a map with one package that is registered under its own names.
abbrev pub Slot : Option (Dict Package) → String → Type 0
Slot o ns =
    (o ≡ none)
    ⊎ ((n : String) × (p : Package) × (o ≡ some ((n, p) ∷ []))
        × (p.namespace ≡ some ns)
        × (p.name ≡ some n))

pub record Consistent (s : Store) : Type 0 where
  pub single : (ns : String) → Slot (lookup ns s.packages) ns
  pub sso : (k m : String) → holds s.sso_index k m ≡ uses sso_keys (get_package_by_namespace s m) k
  pub udp : (k m : String) → holds s.udp_index k m ≡ uses udp_keys (get_package_by_namespace s m) k

module _ (keys : Package → List String) where
  unfoldable pub dropped : Option Package → String → Index → Index
  dropped none ns idx = idx
  dropped (some p) ns idx = index_remove_all (keys p) ns idx

  -- An index after the package of one namespace has gone.
  pub index-dropped :
      (U : String → Option Package) (ns : String) (idx : Index)
      → ((k m : String) → holds idx k m ≡ uses keys (U m) k)
      → (old : Option Package) → U ns ≡ old
      → (k m : String)
      → holds (dropped old ns idx) k m ≡ uses keys (if ns == m then none else U m) k
  unfolding dropped
  index-dropped U ns idx h none e k m = ground (arith, h k m, eq_iff ns m)
  index-dropped U ns idx h (some p) e k m =
      ground (arith, h k m, eq_iff ns m, holds-index_remove_all (keys p) ns idx k m)

  -- An index after the package of one namespace has been replaced.
  pub index-replaced :
      (U : String → Option Package) (ns : String) (idx : Index)
      → ((k m : String) → holds idx k m ≡ uses keys (U m) k)
      → (old : Option Package) → U ns ≡ old
      → (pkg : Package) (k m : String)
      → holds (index_add_all (keys pkg) ns (dropped old ns idx)) k m
        ≡ uses keys (if ns == m then some pkg else U m) k
  index-replaced U ns idx h old e pkg k m = ground (
    arith,
    index-dropped U ns idx h old e k m,
    holds-index_add_all (keys pkg) ns (dropped old ns idx) k m,
  )

pub init-Consistent : Consistent init
unfolding get_package_by_namespace
init-Consistent = record { single = λ ns. inl refl; sso = λ k m. refl; udp = λ k m. refl }
