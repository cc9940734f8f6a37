-- ===== src/Egress/Maps/SharedIds.antt =====
-- Two packages with one id: `${name}-${namespace}` does not say where the name ends.
use Prim.Native.String
use Prim.Native.String.append.{nil, cons}
use uds_core.Prelude.{String, true, ◌&&◌, none, some, lookup, delete, given, ◌≡◌, refl}
use uds_core.Crd.Package.{Mode, Package}
use uds_core.Egress.Types.{remove}
use uds_core.Egress.Maps.{
  State, pkg_id, update_in_memory_package_map, update_in_memory_ambient_package_map, reconcile_maps,
}
use uds_core.Egress.Maps.Laws.{reconcile_pkg}
use uds_core.Egress.Maps.Modes.{lookup-deleted}

append_assoc : (x y z : String) → String.◌++◌ (String.◌++◌ x y) z ≡ String.◌++◌ x (String.◌++◌ y z)
append_assoc String.[] y z = simp (nil)
append_assoc (String.◌∷◌ c x) y z = simp (cons, append_assoc x y z)

abbrev pub dashed : String → String → String
dashed x y = String.◌++◌ x (String.◌++◌ "-" y)

same_id :
    (p q : Package) (x y z : String)
    → p.name ≡ some (dashed x y)
    → p.namespace ≡ some z
    → q.name ≡ some x
    → q.namespace ≡ some (dashed y z)
    → pkg_id p ≡ pkg_id q
same_id p q x y z pn ps qn qs = simp (pn, ps, qn, qs, append_assoc)

removed :
    (q : Package) (mode : Mode) (s : State)
    → (given q.name && given q.namespace) ≡ true
    → (reconcile_pkg q remove mode s).0
      ≡ record { sidecar = delete (pkg_id q) s.sidecar; ambient = delete (pkg_id q) s.ambient }
unfolding reconcile_maps update_in_memory_package_map update_in_memory_ambient_package_map
removed q Mode.ambient s v = rw v refl
removed q Mode.sidecar s v = rw v refl

-- A package with the name `x-y` in the namespace `z` has the same id as a package with the name
-- `x` in the namespace `y-z`. So a reconciliation that removes the second takes what the first
-- asked for out of both maps.
pub shared_id-lost :
    (p q : Package) (x y z : String) (mode : Mode) (s : State)
    → p.name ≡ some (dashed x y)
    → p.namespace ≡ some z
    → q.name ≡ some x
    → q.namespace ≡ some (dashed y z)
    → (given q.name && given q.namespace) ≡ true
    → (lookup (pkg_id p) (reconcile_pkg q remove mode s).0.sidecar ≡ none)
      × (lookup (pkg_id p) (reconcile_pkg q remove mode s).0.ambient ≡ none)
shared_id-lost p q x y z mode s pn ps qn qs v = rw (removed q mode s v) (
    rw (same_id p q x y z pn ps qn qs)
      (lookup-deleted (pkg_id q) s.sidecar, lookup-deleted (pkg_id q) s.ambient))
