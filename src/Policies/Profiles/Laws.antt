-- ===== src/Policies/Profiles/Laws.antt =====
-- Which pods the policies on profiles and SELinux options approve.
use text.Mathlib.TextLemmas.{cons-ne-nil}
use uds_core.Prelude.{
  String, Bool, false, not, ◌&&◌, Option, none, some, ok, if◌then◌else◌, List, [], ◌∷◌, ◌≡◌, ◌⊎◌,
  ◌↔◌, inl, inr, refl, arith, eq_iff, given, All, All-iff, filter-eq-nil, Bool-cases, sym,
  some_injective,
}
use uds_core.Crd.Exemption.{Policy}
use uds_core.Policies.Pod.{SecurityContext, Request, Ctx, ctx_of, approve}
use uds_core.Policies.Handlers.{Env, deny_any}
use uds_core.Policies.Handlers.Laws.{Approved, unless_exempt-eq-approve, deny_any-eq-approve}
use uds_core.Policies.Profiles.{
  allows, containers_violating, pod_violation, context_of, validate_proc_mount,
  validate_seccomp_profile, validate_selinux_options, validate_selinux_types, proc_mounts,
  seccomp_types, selinux_types, all_contexts, has_options, proc_mount_validate, seccomp_validate,
  selinux_options_validate, selinux_type_validate,
}

abbrev Named : List String → Option String → Type 0
Named [] o = ⊥
Named (n ∷ ns) o = (o ≡ some n) ⊎ Named ns o

-- Absent or one of the names.
abbrev pub IsOneOf : List String → Option String → Type 0
IsOneOf names o = (o ≡ none) ⊎ Named names o

-- Absent or empty.
abbrev pub IsUnset : Option String → Type 0
IsUnset o = (o ≡ none) ⊎ (o ≡ some "")

abbrev pub GoodProc : SecurityContext → Type 0
GoodProc c = IsUnset c.proc_mount ⊎ (c.proc_mount ≡ some "Default")

abbrev pub GoodSeccomp : SecurityContext → Type 0
GoodSeccomp c = IsOneOf ("RuntimeDefault" ∷ "Localhost" ∷ []) c.seccomp_type

abbrev pub GoodOptions : SecurityContext → Type 0
GoodOptions c = IsUnset c.selinux_user × IsUnset c.selinux_role

abbrev pub GoodType : SecurityContext → Type 0
GoodType c = IsOneOf ("container_t" ∷ "container_init_t" ∷ "container_kvm_t" ∷ []) c.selinux_type

given-eq-false : (o : Option String) → (given o ≡ false) ↔ IsUnset o
given-eq-false none = ground arith
given-eq-false (some String.[]) = (λ h. inr refl, λ h. refl)
given-eq-false (some (String.◌∷◌ c s)) = (
  λ h. cc,
  elim [ inl e ↦ absurd (ground arith) | inr e ↦ absurd (cons-ne-nil c s (some_injective e)) ],
)

proc_iff :
    (o : Option String)
    → ((given o && not (allows proc_mounts o)) ≡ false) ↔ (IsUnset o ⊎ (o ≡ some "Default"))
proc_iff none = ground arith
proc_iff (some s) =
    let (to, from) = given-eq-false (some s) in
    let (f, g) = eq_iff "Default" s in
    (
      λ h. elim (Bool-cases (given (some s))) [
        | inr unset ↦ inl (to unset)
        | inl is_set ↦ inr (ground (arith, h, is_set, f))
      ],
      elim [ inl u ↦ rw (from u) | inr e ↦ ground (arith, g (sym (some_injective e))) ],
    )

seccomp_iff :
    (o : Option String)
    → (not (allows seccomp_types o) ≡ false) ↔ IsOneOf ("RuntimeDefault" ∷ "Localhost" ∷ []) o
seccomp_iff none = ground arith
seccomp_iff (some s) = ground (arith, eq_iff "RuntimeDefault" s, eq_iff "Localhost" s)

type_iff :
    (o : Option String)
    → (not (allows selinux_types o) ≡ false)
      ↔ IsOneOf ("container_t" ∷ "container_init_t" ∷ "container_kvm_t" ∷ []) o
type_iff none = ground arith
type_iff (some s) =
    ground (arith, eq_iff "container_t" s, eq_iff "container_init_t" s, eq_iff "container_kvm_t" s)

options_iff : (c : SecurityContext) → (has_options c ≡ false) ↔ GoodOptions c
options_iff c =
    let (f, g) = given-eq-false c.selinux_user in
    let (u, v) = given-eq-false c.selinux_role in
    (λ h. (f (ground arith), u (ground arith)), λ (a, b). ground (arith, g a, v b))

-- A list of contexts has no violation exactly when each context is good.
containers_iff :
    (bad : SecurityContext → Bool) (Good : SecurityContext → Type 0) (cs : List Ctx)
    → ((c : SecurityContext) → (bad c ≡ false) ↔ Good c)
    → ((containers_violating bad cs).violations ≡ []) ↔ All (λ c. Good (ctx_of c)) cs
containers_iff bad Good cs e =
    let (to, from) = filter-eq-nil (λ c. bad (ctx_of c)) cs in
    let (f, g) = All-iff (λ c. e (ctx_of c)) cs in (λ h. f (to h), λ h. from (g h))

-- Where the pod is tested first, its context has to be good too.
pod_then_containers :
    (bad : SecurityContext → Bool) (Good : SecurityContext → Type 0) (pod : Option SecurityContext)
    (cs : List Ctx)
    → ((c : SecurityContext) → (bad c ≡ false) ↔ Good c)
    → ((if bad (context_of pod) then pod_violation pod else containers_violating bad cs).violations
        ≡ [])
      ↔ (Good (context_of pod) × All (λ c. Good (ctx_of c)) cs)
pod_then_containers bad Good pod cs e =
    let (f, g) = e (context_of pod) in
    let (to, from) = containers_iff bad Good cs e in
    elim (Bool-cases (bad (context_of pod))) [
      | inl worse ↦
          rw worse (λ h. absurd (ground arith), λ (a, b). absurd (ground (arith, g a, worse)))
      | inr fine ↦ rw fine (λ h. (f fine, to h), λ (a, b). from b)
    ]

denied :
    (msg : String) (authorized : List (Option String)) (found : List Ctx) (Good : Type 0)
    → (found ≡ []) ↔ Good
    → (deny_any msg authorized found ≡ approve) ↔ Good
denied msg authorized found Good (to, from) =
    let (f, g) = deny_any-eq-approve msg authorized found in (λ h. to (f h), λ h. g (from h))

module _ (env : Env) where
  -- A pod's context and those of all its containers.
  abbrev pub Everywhere : (SecurityContext → Type 0) → Request → Type 0
  Everywhere Good r =
      Good (context_of r.spec.security_context) × All (λ c. Good (ctx_of c)) (all_contexts env r)

  -- The four policies approve exactly the exempt pods and those whose security contexts are good:
  -- procMount (of the containers alone) is unset or Default; the seccomp type is absent,
  -- RuntimeDefault or Localhost; SELinux user and role are unset; the SELinux type is absent or
  -- one of the three container types.
  pub profiles_admission :
      (r : Request)
      → ((proc_mount_validate env r ≡ ok approve)
          ↔ Approved env Policy.restrict_proc_mount r.metadata
              (All (λ c. GoodProc (ctx_of c)) (all_contexts env r)))
        × ((seccomp_validate env r ≡ ok approve)
            ↔ Approved env Policy.restrict_seccomp r.metadata (Everywhere GoodSeccomp r))
        × ((selinux_options_validate env r ≡ ok approve)
            ↔ Approved env Policy.disallow_selinux_options r.metadata (Everywhere GoodOptions r))
        × ((selinux_type_validate env r ≡ ok approve)
            ↔ Approved env Policy.restrict_selinux_type r.metadata (Everywhere GoodType r))
  unfolding proc_mount_validate seccomp_validate selinux_options_validate selinux_type_validate
      validate_proc_mount validate_seccomp_profile validate_selinux_options validate_selinux_types
  profiles_admission r =
      let pod = r.spec.security_context in
      let cs = all_contexts env r in
      (
        unless_exempt-eq-approve env Policy.restrict_proc_mount r.metadata _ _
            (denied _ _ _ _ (containers_iff _ GoodProc cs (λ c. proc_iff c.proc_mount))),
        unless_exempt-eq-approve env Policy.restrict_seccomp r.metadata _ _ (
            denied _ _ _ _ (
              pod_then_containers (λ c. not (allows seccomp_types c.seccomp_type)) GoodSeccomp pod
                cs (λ c. seccomp_iff c.seccomp_type))),
        unless_exempt-eq-approve env Policy.disallow_selinux_options r.metadata _ _
            (denied _ _ _ _ (pod_then_containers has_options GoodOptions pod cs options_iff)),
        unless_exempt-eq-approve env Policy.restrict_selinux_type r.metadata _ _ (
            denied _ _ _ _ (
              pod_then_containers (λ c. not (allows selinux_types c.selinux_type)) GoodType pod cs
                (λ c. type_iff c.selinux_type))),
      )
