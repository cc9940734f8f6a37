-- ===== src/Egress/Maps/Laws.antt =====
-- What the updates of the two maps in memory keep and reach.
use uds_core.Prelude.{
  String, true, false, ◌&&◌, none, some, List, [], ◌∷◌, if◌then◌else◌, given, insert, delete,
  Result, ok, All, ◌≡◌, ◌⊎◌, inl, inr, refl, sym, arith, Option-cases, Result-cases, >>=-eq-ok,
  ok_injective,
}
use uds_core.Crd.Package.{Mode, Package}
use uds_core.Egress.Types.{
  HostResourceMap, PackageHostMap, AmbientPackageMap, AmbientPackageEntry, PackageAction,
  add_or_update, remove,
}
use uds_core.Egress.Resources.{
  Failure, missing_name_or_namespace, create_host_resource_map, create_ambient_package_entry,
}
use uds_core.Egress.Conflicts.{
  Claim, Passed, passed, resource_claims, entry_claims, validate, validate_protocol_conflicts,
  validate_ambient_protocol_conflicts,
}
use uds_core.Egress.Conflicts.Laws.{Agree, Agreed, Agreed-delete}
use uds_core.Egress.Conflicts.Laws.Decision.{validate_iff}
use uds_core.Egress.Maps.{
  State, init, Outcome, update_in_memory_package_map, update_in_memory_ambient_package_map, pkg_id,
  with_ambient, then_ambient, update_maps, reconcile_maps,
}

-- A package that wants one protocol for each host and port.
pub record IsUniform (pkg : Package) : Type 0 where
  pub resources :
      (new : HostResourceMap)
      → create_host_resource_map pkg ≡ some new
      → Agree (resource_claims new) (resource_claims new)
  pub rules :
      (entry : AmbientPackageEntry)
      → create_ambient_package_entry pkg ≡ ok entry
      → Agree (entry_claims entry) (entry_claims entry)

abbrev pub IsAgreed : State → Type 0
IsAgreed s = Agreed resource_claims s.sidecar × Agreed entry_claims s.ambient

passed_of : {x : Result Passed Failure} → {a : Passed} → x ≡ ok a → x ≡ ok passed
passed_of {a = passed} h = h

-- The maps after an update that throws nothing.
pub sidecar-updated :
    (pkg : Package) (m : PackageHostMap) (id : String) (action : PackageAction)
    (m' : PackageHostMap)
    → update_in_memory_package_map m (create_host_resource_map pkg) id action ≡ ok m'
    → ((m' ≡ delete id m) × ((action ≡ remove) ⊎ (create_host_resource_map pkg ≡ none)))
      ⊎ ((new : HostResourceMap) × (create_host_resource_map pkg ≡ some new)
          × (validate resource_claims m new id ≡ ok passed)
          × (m' ≡ insert id new m)
          × (action ≡ add_or_update))
unfolding update_in_memory_package_map validate_protocol_conflicts
sidecar-updated pkg m id remove m' h = inl (sym (ok_injective h), inl refl)
sidecar-updated pkg m id add_or_update m' h = elim (Option-cases (create_host_resource_map pkg)) [
  | inl e ↦ inl (sym (ok_injective (rw e at h)), inr e)
  | inr (new, e) ↦
      let (a, va, k) =
        >>=-eq-ok (validate resource_claims m new id) (λ _. ok (insert id new m)) (rw e at h) in
      inr (new, e, passed_of va, sym (ok_injective k), refl)
]

pub ambient-updated :
    (pkg : Package) (m : AmbientPackageMap) (id : String) (action : PackageAction)
    (m' : AmbientPackageMap)
    → update_in_memory_ambient_package_map m pkg id action ≡ ok m'
    → ((m' ≡ delete id m) × (action ≡ remove))
      ⊎ ((entry : AmbientPackageEntry) × (create_ambient_package_entry pkg ≡ ok entry)
          × (validate entry_claims m entry id ≡ ok passed)
          × (m' ≡ insert id entry m))
unfolding update_in_memory_ambient_package_map validate_ambient_protocol_conflicts
ambient-updated pkg m id remove m' h = inl (sym (ok_injective h), refl)
ambient-updated pkg m id add_or_update m' h =
    let (entry, e, k) = >>=-eq-ok (create_ambient_package_entry pkg) _ h in
    let (a, va, k') =
      >>=-eq-ok (validate entry_claims m entry id) (λ _. ok (insert id entry m)) k in
    inr (entry, e, passed_of va, sym (ok_injective k'))

sidecar-Agreed :
    (pkg : Package) (m : PackageHostMap) (id : String) (action : PackageAction)
    (m' : PackageHostMap)
    → IsUniform pkg
    → Agreed resource_claims m
    → update_in_memory_package_map m (create_host_resource_map pkg) id action ≡ ok m'
    → Agreed resource_claims m'
sidecar-Agreed pkg m id action m' u g h = elim (sidecar-updated pkg m id action m' h) [
  | inl (e, _) ↦ rw e (Agreed-delete resource_claims id m g)
  | inr (new, e, v, e', _) ↦
      rw e' ((validate_iff resource_claims m new id g (u.resources new e)).0 v)
]

ambient-Agreed :
    (pkg : Package) (m : AmbientPackageMap) (id : String) (action : PackageAction)
    (m' : AmbientPackageMap)
    → IsUniform pkg
    → Agreed entry_claims m
    → update_in_memory_ambient_package_map m pkg id action ≡ ok m'
    → Agreed entry_claims m'
ambient-Agreed pkg m id action m' u g h = elim (ambient-updated pkg m id action m' h) [
  | inl (e, _) ↦ rw e (Agreed-delete entry_claims id m g)
  | inr (entry, e, v, e') ↦ rw e' ((validate_iff entry_claims m entry id g (u.rules entry e)).0 v)
]

with_ambient-IsAgreed :
    (pkg : Package) (s : State) (id : String) (action : PackageAction)
    → IsUniform pkg
    → IsAgreed s
    → IsAgreed (with_ambient s (update_in_memory_ambient_package_map s.ambient pkg id action)).0
with_ambient-IsAgreed pkg s id action u (g, h) =
    elim (Result-cases (update_in_memory_ambient_package_map s.ambient pkg id action)) [
      | inl (m, e) ↦ rw e (g, ambient-Agreed pkg s.ambient id action m u h e)
      | inr (f, e) ↦ rw e (g, h)
    ]

-- One call of `reconcileSharedEgressResources` for the package.
abbrev pub reconcile_pkg : Package → PackageAction → Mode → State → Outcome
reconcile_pkg pkg action mode s = reconcile_maps pkg (create_host_resource_map pkg) action mode s

then_ambient-IsAgreed :
    (pkg : Package) (s : State) (one two : PackageAction)
    → IsUniform pkg
    → IsAgreed s
    → IsAgreed
        (then_ambient s
          (update_in_memory_package_map s.sidecar (create_host_resource_map pkg) (pkg_id pkg) one)
          (λ s'. update_in_memory_ambient_package_map s'.ambient pkg (pkg_id pkg) two)).0
then_ambient-IsAgreed pkg s one two u (g, h) =
    elim (Result-cases
      (update_in_memory_package_map s.sidecar (create_host_resource_map pkg) (pkg_id pkg) one)) [
        | inl (m, e) ↦ rw e (
            with_ambient-IsAgreed pkg (record s { sidecar = m }) (pkg_id pkg) two u
              (sidecar-Agreed pkg s.sidecar (pkg_id pkg) one m u g e, h))
        | inr (f, e) ↦ rw e (g, h)
      ]

reconcile_pkg-IsAgreed :
    (pkg : Package) (action : PackageAction) (mode : Mode) (s : State)
    → IsUniform pkg
    → IsAgreed s
    → IsAgreed (reconcile_pkg pkg action mode s).0
unfolding reconcile_maps
reconcile_pkg-IsAgreed pkg action mode s u g =
    elim (given pkg.name && given pkg.namespace)
      as (λ b.
        IsAgreed
          (if b
            then update_maps pkg (create_host_resource_map pkg) action mode s
            else (s, some missing_name_or_namespace)).0) [ true ↦ go mode | false ↦ g ]
  where
    go : (mode : Mode) → IsAgreed (update_maps pkg (create_host_resource_map pkg) action mode s).0
    go Mode.ambient = then_ambient-IsAgreed pkg s remove action u g
    go Mode.sidecar = then_ambient-IsAgreed pkg s action remove u g

abbrev pub Step : Type 0
Step = Package × PackageAction × Mode

-- A sequence of reconciliations, each of which may throw.
unfoldable pub reconcile_all : List Step → State → State
reconcile_all [] s = s
reconcile_all ((pkg, action, mode) ∷ steps) s =
    reconcile_all steps (reconcile_pkg pkg action mode s).0

reconcile_all-IsAgreed_from :
    (steps : List Step) (s : State)
    → All (λ (x : Step). IsUniform x.0) steps
    → IsAgreed s
    → IsAgreed (reconcile_all steps s)
unfolding reconcile_all
reconcile_all-IsAgreed_from [] s u g = g
reconcile_all-IsAgreed_from ((pkg, action, mode) ∷ steps) s (u, us) g =
    reconcile_all-IsAgreed_from steps (reconcile_pkg pkg action mode s).0 us
      (reconcile_pkg-IsAgreed pkg action mode s u g)

-- After any sequence of reconciliations from empty maps, failed ones included, of packages each
-- of which wants one protocol for each host and port, the packages in the sidecar map agree on
-- the protocol of each host and port, and so do the packages in the ambient map.
pub reconcile_all-IsAgreed :
    (steps : List Step)
    → All (λ (x : Step). IsUniform x.0) steps
    → IsAgreed (reconcile_all steps init)
reconcile_all-IsAgreed steps u = reconcile_all-IsAgreed_from steps init u (empty, empty)
  where
    empty : {V : Type 0} {c : V → List Claim} → Agreed c []
    empty = record { distinct = tt; agree = λ i j a b ea eb. absurd (ground arith) }
