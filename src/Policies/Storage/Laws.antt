-- ===== src/Policies/Storage/Laws.antt =====
-- Which pods the storage policies approve.
use uds_core.Prelude.{
  String, Bool, true, false, not, Option, none, some, ok, List, [], ◌∷◌, ◌++◌, ◌==◌, ◌≡◌, ◌↔◌, inl,
  inr, refl, arith, eq_iff, All, All-iff, Any, any-eq-false, filter, All-filter_iff, get_or,
  Bool-cases, includes,
}
use uds_core.Crd.Exemption.{Policy}
use uds_core.Policies.Pod.{Container, Mount, Volume, Request, approve}
use uds_core.Policies.Handlers.{Env}
use uds_core.Policies.Handlers.Laws.{Approved, unless_exempt-eq-approve}
use uds_core.Policies.Storage.{
  volume_type, allowed_volume_types, validate_volume_types, all_mounts, has_rw_mount,
  validate_host_path_volumes, volume_answer, host_path_answer, volume_types_validate,
  host_path_write_validate,
}

abbrev pub HasAllowedType : Volume → Type 0
HasAllowedType v = Any (λ t. t ≡ volume_type v.keys) allowed_volume_types

-- Every mount of the volume, in any container, is explicitly read-only.
abbrev pub IsReadOnly : List Container → Volume → Type 0
IsReadOnly cs v =
    v.host_path ≡ true
    → All (λ c. All (λ (m : Mount). m.name ≡ v.name → m.read_only ≡ some true) c.volume_mounts) cs

includes_iff : (xs : List String) (s : String) → (includes xs s ≡ true) ↔ Any (λ x. x ≡ s) xs
includes_iff [] s = (λ h. absurd (ground arith), λ h. elim h [ ])
includes_iff (x ∷ xs) s =
    let (to, from) = includes_iff xs s in
    let (f, g) = eq_iff x s in
    (λ h. ground (arith, to, f), λ h. elim h [ inl e ↦ rw (g e) | inr k ↦ ground (arith, from k) ])

volume_types_iff : (vs : List Volume) → (validate_volume_types vs ≡ none) ↔ All HasAllowedType vs
unfolding validate_volume_types
volume_types_iff [] = (λ h. tt, λ h. refl)
volume_types_iff (v ∷ vs) =
    let (to, from) = volume_types_iff vs in
    let (f, g) = includes_iff allowed_volume_types (volume_type v.keys) in
    elim (Bool-cases (includes allowed_volume_types (volume_type v.keys))) [
      | inl good ↦ rw good (λ h. (f good, to h), λ (a, h). from h)
      | inr bad ↦ rw bad (λ h. absurd (ground arith), λ (a, h). absurd (ground (arith, g a, bad)))
    ]

mount_iff : (m : Mount) → (not (get_or m.read_only false) ≡ false) ↔ (m.read_only ≡ some true)
mount_iff m = ground arith

mounts_append :
    (P : Mount → Type 0) (ms rest : List Mount) → All P (ms ++ rest) ↔ (All P ms × All P rest)
mounts_append P [] rest = (λ h. (tt, h), λ h. h.1)
mounts_append P (m ∷ ms) rest =
    let (to, from) = mounts_append P ms rest in
    (λ (a, h). ((a, (to h).0), (to h).1), λ ((a, h), k). (a, from (h, k)))

all_mounts_iff :
    (P : Mount → Type 0) (cs : List Container)
    → All P (all_mounts cs) ↔ All (λ c. All P c.volume_mounts) cs
all_mounts_iff P [] = (λ h. tt, λ h. tt)
all_mounts_iff P (c ∷ cs) =
    let (to, from) = all_mounts_iff P cs in
    let (f, g) = mounts_append P c.volume_mounts (all_mounts cs) in
    (λ h. ((f h).0, to (f h).1), λ (a, h). g (a, from h))

named_mount_iff :
    (name : String) (m : Mount)
    → ((m.name == name) ≡ true → not (get_or m.read_only false) ≡ false)
      ↔ (m.name ≡ name → m.read_only ≡ some true)
named_mount_iff name m =
    let (to, from) = eq_iff m.name name in
    let (f, g) = mount_iff m in (λ h e. f (h (from e)), λ h e. g (h (to e)))

rw_mount_iff :
    (cs : List Container) (name : String)
    → (has_rw_mount cs name ≡ false)
      ↔ All (λ c. All (λ (m : Mount). m.name ≡ name → m.read_only ≡ some true) c.volume_mounts) cs
rw_mount_iff cs name =
    let writes : Mount → Bool = λ m. not (get_or m.read_only false) in
    let is_named : Mount → Bool = λ m. m.name == name in
    let (a, a') = any-eq-false writes (filter is_named (all_mounts cs)) in
    let (b, b') = All-filter_iff (λ m. writes m ≡ false) is_named (all_mounts cs) in
    let (c, c') = All-iff (named_mount_iff name) (all_mounts cs) in
    let (d, d') = all_mounts_iff (λ (m : Mount). m.name ≡ name → m.read_only ≡ some true) cs in
    (λ h. d (c (b (a h))), λ h. a' (b' (c' (d' h))))

host_path_iff :
    (vs : List Volume) (cs : List Container)
    → (validate_host_path_volumes vs cs ≡ none) ↔ All (IsReadOnly cs) vs
unfolding validate_host_path_volumes
host_path_iff [] cs = (λ h. tt, λ h. refl)
host_path_iff (v ∷ vs) cs =
    let (to, from) = host_path_iff vs cs in
    let (f, g) = rw_mount_iff cs v.name in
    elim (Bool-cases v.host_path) [
      | inr plain ↦ (
        λ h. (λ e. absurd (ground (arith, e, plain)), to (ground (arith, h, plain))),
        λ (a, h). ground (arith, plain, from h),
      )
      | inl host ↦ elim (Bool-cases (has_rw_mount cs v.name)) [
        | inl writable ↦ (
          λ h. absurd (ground (arith, h, host, writable)),
          λ (a, h). absurd (ground (arith, g (a host), writable)),
        )
        | inr safe ↦ (
          λ h. (λ e. f safe, to (ground (arith, h, host, safe))),
          λ (a, h). ground (arith, host, safe, from h),
        )
      ]
    ]

volume_answer_iff :
    (o : Option (String × String)) (Good : Type 0)
    → (o ≡ none) ↔ Good
    → (volume_answer o ≡ approve) ↔ Good
volume_answer_iff none Good (to, from) = (λ h. to refl, λ h. refl)
volume_answer_iff (some x) Good (to, from) =
    (λ h. absurd (ground arith), λ h. absurd (ground (arith, from h)))

host_path_answer_iff :
    (o : Option String) (Good : Type 0) → (o ≡ none) ↔ Good → (host_path_answer o ≡ approve) ↔ Good
host_path_answer_iff none Good (to, from) = (λ h. to refl, λ h. refl)
host_path_answer_iff (some x) Good (to, from) =
    (λ h. absurd (ground arith), λ h. absurd (ground (arith, from h)))

module _ (env : Env) where
  -- Exempt pods aside, RestrictVolumeTypes approves exactly the pods all of whose volumes have an
  -- allowed type, and RestrictHostPathWrite exactly those in which every mount of a hostPath
  -- volume, in any container, sets readOnly to true.
  pub storage_admission :
      (r : Request)
      → ((volume_types_validate env r ≡ ok approve)
          ↔ Approved env Policy.restrict_volume_types r.metadata
              (All HasAllowedType r.spec.volumes))
        × ((host_path_write_validate env r ≡ ok approve)
            ↔ Approved env Policy.restrict_host_path_write r.metadata
                (All (IsReadOnly (env.sdk.containers r.spec)) r.spec.volumes))
  unfolding volume_types_validate host_path_write_validate
  storage_admission r = (
    unless_exempt-eq-approve env Policy.restrict_volume_types r.metadata _ _
        (volume_answer_iff _ _ (volume_types_iff r.spec.volumes)),
    unless_exempt-eq-approve env Policy.restrict_host_path_write r.metadata _ _
        (host_path_answer_iff _ _ (host_path_iff r.spec.volumes (env.sdk.containers r.spec))),
  )
