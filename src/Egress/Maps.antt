-- ===== src/Egress/Maps.antt =====
-- pepr/operator/controllers/istio/egress.ts: the two maps in memory and their updates. A queue
-- of promises runs the updates of one map one after the other; an update that throws leaves its
-- map as it is. Logging is left out.
pub mod Laws
pub mod Modes
pub mod SharedIds
use uds_core.Prelude.{
  String, Bool, true, false, ◌&&◌, Option, none, some, List, [], ◌∷◌, if◌then◌else◌, get_or, given,
  concat, Dict, lookup, insert, delete, Result, ok, err, ◌>>=◌, ◌>>◌,
}
use uds_core.Crd.Package.{Mode, Package}
use uds_core.Egress.Types.{
  HostResourceMap, PackageHostMap, AmbientPackageMap, PackageAction, add_or_update, remove,
}
use uds_core.Egress.Resources.{
  Failure, missing_name_or_namespace, create_host_resource_map, create_ambient_package_entry,
}
use uds_core.Egress.Conflicts.{validate_protocol_conflicts, validate_ambient_protocol_conflicts}

pub record State : Type 0 where
  pub sidecar : PackageHostMap
  pub ambient : AmbientPackageMap

abbrev pub init : State
init = record { sidecar = []; ambient = [] }

abbrev pub remove_map_resources : PackageHostMap → String → PackageHostMap
remove_map_resources m id = delete id m

-- The branch of `AddOrUpdate`.
abbrev pub add_map_resources :
    PackageHostMap → Option HostResourceMap → String → Result PackageHostMap Failure
add_map_resources m (some new) id = do validate_protocol_conflicts m new id; ok (insert id new m)
add_map_resources m none id = ok (remove_map_resources m id)

unfoldable pub update_in_memory_package_map :
    PackageHostMap → Option HostResourceMap → String → PackageAction → Result PackageHostMap Failure
update_in_memory_package_map m resources id add_or_update = add_map_resources m resources id
update_in_memory_package_map m resources id remove = ok (remove_map_resources m id)

unfoldable pub update_in_memory_ambient_package_map :
    AmbientPackageMap → Package → String → PackageAction → Result AmbientPackageMap Failure
update_in_memory_ambient_package_map m pkg id add_or_update = do
  entry ← create_ambient_package_entry pkg
  validate_ambient_protocol_conflicts m entry id
  ok (insert id entry m)
update_in_memory_ambient_package_map m pkg id remove = ok (delete id m)

abbrev pub pkg_id : Package → String
pkg_id pkg = concat (get_or pkg.name "" ∷ "-" ∷ get_or pkg.namespace "" ∷ [])

-- The state that a reconciliation leaves, and the error that it throws.
abbrev pub Outcome : Type 0
Outcome = State × Option Failure

abbrev pub with_ambient : State → Result AmbientPackageMap Failure → Outcome
with_ambient s (ok m) = (record s { ambient = m }, none)
with_ambient s (err e) = (s, some e)

abbrev pub then_ambient :
    State → Result PackageHostMap Failure → (State → Result AmbientPackageMap Failure) → Outcome
then_ambient s (ok m) next =
    with_ambient (record s { sidecar = m }) (next (record s { sidecar = m }))
then_ambient s (err e) next = (s, some e)

abbrev pub update_maps : Package → Option HostResourceMap → PackageAction → Mode → State → Outcome
update_maps pkg resources action Mode.ambient s =
    then_ambient s (update_in_memory_package_map s.sidecar resources (pkg_id pkg) remove)
      (λ s'. update_in_memory_ambient_package_map s'.ambient pkg (pkg_id pkg) action)
update_maps pkg resources action Mode.sidecar s =
    then_ambient s (update_in_memory_package_map s.sidecar resources (pkg_id pkg) action)
      (λ s'. update_in_memory_ambient_package_map s'.ambient pkg (pkg_id pkg) remove)

-- `reconcileSharedEgressResources` up to the reconciliation with the cluster.
unfoldable pub reconcile_maps :
    Package → Option HostResourceMap → PackageAction → Mode → State → Outcome
reconcile_maps pkg resources action mode s =
    if given pkg.name && given pkg.namespace
    then update_maps pkg resources action mode s
    else (s, some missing_name_or_namespace)
