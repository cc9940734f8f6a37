-- ===== src/Egress/Maps/Modes.antt =====
-- Where a package stands after its reconciliation.
use uds_core.Prelude.{
  String, ◌&&◌, none, some, given, Dict, lookup, insert, delete, Result, ok, err, ◌≡◌, inl, inr,
  refl, sym, ap, ◌∙◌, arith, eq_refl, lookup-insert, lookup-delete, Bool-cases, Result-cases,
  ok_injective,
}
use uds_core.Crd.Package.{Mode, Package}
use uds_core.Egress.Types.{
  PackageHostMap, AmbientPackageMap, AmbientPackageEntry, add_or_update, remove,
}
use uds_core.Egress.Resources.{Failure, create_host_resource_map, create_ambient_package_entry}
use uds_core.Egress.Maps.{
  State, Outcome, update_in_memory_package_map, update_in_memory_ambient_package_map, pkg_id,
  then_ambient, update_maps, reconcile_maps,
}
use uds_core.Egress.Maps.Laws.{sidecar-updated, ambient-updated, reconcile_pkg}

-- What the sidecar map has for a package after its update.
abbrev SidecarHas : State → Package → Type 0
SidecarHas s pkg = lookup (pkg_id pkg) s.sidecar ≡ create_host_resource_map pkg

abbrev AmbientHas : State → Package → Type 0
AmbientHas s pkg =
    (entry : AmbientPackageEntry) × (create_ambient_package_entry pkg ≡ ok entry)
    × (lookup (pkg_id pkg) s.ambient ≡ some entry)

-- The package stands in the map of its mode with what it asks for, and not in the other map.
abbrev pub StandsIn : Mode → State → Package → Type 0
StandsIn Mode.ambient s pkg = AmbientHas s pkg × (lookup (pkg_id pkg) s.sidecar ≡ none)
StandsIn Mode.sidecar s pkg = SidecarHas s pkg × (lookup (pkg_id pkg) s.ambient ≡ none)

pub lookup-deleted : {V : Type 0} (id : String) (m : Dict V) → lookup id (delete id m) ≡ none
lookup-deleted id m = ground (arith, lookup-delete id id m, eq_refl id)

lookup-inserted :
    {V : Type 0} (id : String) (v : V) (m : Dict V) → lookup id (insert id v m) ≡ some v
lookup-inserted id v m = ground (arith, lookup-insert id id v m, eq_refl id)

-- What an outcome without an error says of the two updates.
then_ambient-steps :
    (s : State) (r : Result PackageHostMap Failure)
    (next : State → Result AmbientPackageMap Failure) (s' : State)
    → then_ambient s r next ≡ (s', none)
    → (m : PackageHostMap) × (a : AmbientPackageMap) × (r ≡ ok m)
      × (next (record s { sidecar = m }) ≡ ok a)
      × (s' ≡ record { sidecar = m; ambient = a })
then_ambient-steps s (err e) next s' h = absurd (ground arith)
then_ambient-steps s (ok m) next s' h = elim (Result-cases (next (record s { sidecar = m }))) [
  | inl (a, e) ↦ (m, a, refl, e, sym (ap (λ (x : Outcome). x.0) (rw e at h)))
  | inr (f, e) ↦ absurd (ground (arith, rw e at h))
]

sidecar-removed :
    (pkg : Package) (m : PackageHostMap) (id : String) (m' : PackageHostMap)
    → update_in_memory_package_map m (create_host_resource_map pkg) id remove ≡ ok m'
    → lookup id m' ≡ none
sidecar-removed pkg m id m' h = elim (sidecar-updated pkg m id remove m' h) [
  | inl (e, _) ↦ rw e (lookup-deleted id m)
  | inr (new, _, _, _, e) ↦ absurd (ground (arith, e))
]

sidecar-added :
    (pkg : Package) (m : PackageHostMap) (id : String) (m' : PackageHostMap)
    → update_in_memory_package_map m (create_host_resource_map pkg) id add_or_update ≡ ok m'
    → lookup id m' ≡ create_host_resource_map pkg
sidecar-added pkg m id m' h = elim (sidecar-updated pkg m id add_or_update m' h) [
  | inl (e, inl e') ↦ absurd (ground (arith, e'))
  | inl (e, inr e') ↦ rw e (lookup-deleted id m ∙ sym e')
  | inr (new, e', _, e, _) ↦ rw e (lookup-inserted id new m ∙ sym e')
]

ambient-removed :
    (pkg : Package) (m : AmbientPackageMap) (id : String) (m' : AmbientPackageMap)
    → update_in_memory_ambient_package_map m pkg id remove ≡ ok m'
    → lookup id m' ≡ none
unfolding update_in_memory_ambient_package_map
ambient-removed pkg m id m' h = rw⁻¹ (ok_injective h) (lookup-deleted id m)

ambient-added :
    (pkg : Package) (m : AmbientPackageMap) (id : String) (m' : AmbientPackageMap)
    → update_in_memory_ambient_package_map m pkg id add_or_update ≡ ok m'
    → (entry : AmbientPackageEntry) × (create_ambient_package_entry pkg ≡ ok entry)
      × (lookup id m' ≡ some entry)
ambient-added pkg m id m' h = elim (ambient-updated pkg m id add_or_update m' h) [
  | inl (_, e) ↦ absurd (ground (arith, e))
  | inr (entry, e', _, e) ↦ (entry, e', rw e (lookup-inserted id entry m))
]

update-StandsIn :
    (mode : Mode) (pkg : Package) (s s' : State)
    → update_maps pkg (create_host_resource_map pkg) add_or_update mode s ≡ (s', none)
    → StandsIn mode s' pkg
update-StandsIn Mode.ambient pkg s s' h =
    let (m, a, one, two, e) = then_ambient-steps s _ _ s' h in
    rw e (
      ambient-added pkg s.ambient (pkg_id pkg) a two,
      sidecar-removed pkg s.sidecar (pkg_id pkg) m one,
    )
update-StandsIn Mode.sidecar pkg s s' h =
    let (m, a, one, two, e) = then_ambient-steps s _ _ s' h in
    rw e (
      sidecar-added pkg s.sidecar (pkg_id pkg) m one,
      ambient-removed pkg s.ambient (pkg_id pkg) a two,
    )

-- A reconciliation of a package that throws nothing leaves the package in the map of its mode
-- with exactly what it asks for now, and takes it out of the map of the other mode.
pub reconcile_pkg-StandsIn :
    (mode : Mode) (pkg : Package) (s s' : State)
    → reconcile_pkg pkg add_or_update mode s ≡ (s', none)
    → StandsIn mode s' pkg
unfolding reconcile_maps
reconcile_pkg-StandsIn mode pkg s s' h = elim (Bool-cases (given pkg.name && given pkg.namespace)) [
  | inl e ↦ update-StandsIn mode pkg s s' (rw e at h)
  | inr e ↦ absurd (ground (arith, rw e at h))
]
