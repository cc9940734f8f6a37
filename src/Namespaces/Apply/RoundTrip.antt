-- ===== src/Namespaces/Apply/RoundTrip.antt =====
-- The namespace of a package before the package comes and after it has gone.
use uds_core.Prelude.{
  String, Bool, true, false, not, Option, none, some, ◌==◌, if◌then◌else◌, any, keys, opt_eq, Dict,
  lookup, Result, ok, ◌≡◌, ◌∙◌, refl, sym, ap, arith, Bool-cases, inl, inr,
}
use uds_core.Crd.Package.{Package, Mode}
use uds_core.Packages.Store.{Invalid, is_valid}
use uds_core.Namespaces.{
  injection_label, ambient_label, istio_state_annotation, IstioState, is_sidecar,
  get_current_istio_state, get_istio_labels, Meta, target_state, pkg_key, enable_istio, is_pkg_key,
  cleanup_namespace,
}
use uds_core.Namespaces.Laws.{
  restart-labels, read_state-value, marked, labels_with, pkg_key-IsPkgKey,
}
use uds_core.Namespaces.Apply.{
  Server, over_claimed, patch_of, is_managed_annotation, values_changed, apply_namespace_updates,
  update_namespace,
}
use uds_core.Namespaces.Apply.Laws.{IsServerSide, lookup-pick_annotations}
use uds_core.Namespaces.Apply.Labels.{state-next, free_injection, free_ambient, other-next}
use uds_core.Namespaces.Apply.Annotations.{
  no_key, unmarked, lookup-unmarked_pkg, lookup-marked_pkg, lookup-state, lookup-pkg, alone,
  annotations-last,
}

-- `R.equals` tells dictionaries with different values apart.
abbrev pub Tells : (Dict String → Dict String → Bool) → Type 0
Tells equals = (a b : Dict String) → equals a b ≡ true → (k : String) → lookup k a ≡ lookup k b

target-not_off : (pkg : Package) → target_state pkg.mode ≡ IstioState.off → ⊥
target-not_off pkg = of_mode pkg.mode
  where
    of_mode : (m : Option Mode) → target_state m ≡ IstioState.off → ⊥
    of_mode (some Mode.sidecar) e = ground arith
    of_mode (some Mode.ambient) e = ground arith
    of_mode none e = ground arith

module _ {N : Type 0} {E : Type 0} (server : Server N E) (equals : Dict String → Dict String → Bool)
    (tells : Tells equals) (owns_label owns_annotation : N → String → Bool)
    (s : IsServerSide server owns_label owns_annotation) where
  -- One annotation that differs makes a change.
  changed_by :
      (new old : Meta) (k : String)
      → is_managed_annotation k ≡ true
      → (lookup k old.annotations ≡ lookup k new.annotations → ⊥)
      → values_changed server equals new old ≡ true
  changed_by new old k managed differ =
      elim (Bool-cases (equals (patch_of old).annotations (patch_of new).annotations)) [
        | inr e ↦ ground (arith, e)
        | inl e ↦ absurd (
            differ (
              sym (lookup-pick_annotations old.annotations k ∙ rw managed refl)
              ∙ tells (patch_of old).annotations (patch_of new).annotations e k
              ∙ lookup-pick_annotations new.annotations k
              ∙ rw managed refl))
      ]

  update_namespace-eq :
      (compute : Package → Meta → Result (Meta × Bool) Invalid) (pkg : Package) (n : N) (new : Meta)
      (restart : Bool)
      → compute pkg (server.meta n) ≡ ok (new, restart)
      → over_claimed (server.managed_fields n) ≡ false
      → values_changed server equals new (server.meta n) ≡ true
      → update_namespace server equals compute pkg n
        ≡ ((server.apply (patch_of new) n).0, ok restart)
  unfolding update_namespace apply_namespace_updates
  update_namespace-eq compute pkg n new restart e fine change =
      rw (e, update_namespace)
        (rw (fine, apply_namespace_updates)
          (rw (change, apply_namespace_updates) (rw (s.succeeds new n) refl)))

  module _ (pkg : Package) (n : N) where
    abbrev before : Meta
    before = server.meta n

    abbrev current : IstioState
    current = get_current_istio_state before.labels

    abbrev target : IstioState
    target = target_state pkg.mode

    abbrev on : Meta
    on = record { labels = labels_with pkg before; annotations = marked pkg before }

    abbrev during : N
    during = (server.apply (patch_of on) n).0

    abbrev between : Meta
    between = server.meta during

    abbrev off : Meta
    off = record {
      labels = (get_istio_labels between.labels current (get_current_istio_state between.labels)).0;
      annotations = unmarked pkg between.annotations;
    }

    abbrev after : N
    after = (server.apply (patch_of off) during).0

    -- The restart of the enabling.
    abbrev restart : Bool
    restart = (get_istio_labels before.labels target current).1

    enabled_during :
        is_valid pkg ≡ true
        → lookup istio_state_annotation before.annotations ≡ none
        → any is_pkg_key (keys before.annotations) ≡ false
        → over_claimed (server.managed_fields n) ≡ false
        → update_namespace server equals enable_istio pkg n ≡ (during, ok restart)
    unfolding enable_istio
    enabled_during v e h fine =
        update_namespace-eq enable_istio pkg n on restart (rw v (rw e refl)) fine (
          changed_by on before (pkg_key pkg) (ground (arith, pkg_key-IsPkgKey pkg)) (λ same.
            let was = no_key is_pkg_key before.annotations h (pkg_key pkg) (pkg_key-IsPkgKey pkg) in
            let now = lookup-marked_pkg pkg before in absurd (ground (arith, was, same, now))))

    abbrev IsOurs : Type 0
    IsOurs =
        is_sidecar target ≡ false
        → opt_eq (lookup injection_label before.labels) "enabled" ≡ true
        → owns_label n injection_label ≡ true

    state_during : IsOurs → get_current_istio_state between.labels ≡ target
    state_during ours =
        state-next server owns_label owns_annotation s n target current (marked pkg before) ours
          (λ e. absurd (target-not_off pkg e))

    state_after : get_current_istio_state (server.meta after).labels ≡ current
    state_after =
        state-next server owns_label owns_annotation s during current
          (get_current_istio_state between.labels) (unmarked pkg between.annotations)
          (free_injection server owns_label owns_annotation s n target current (marked pkg before))
          (free_ambient server owns_label owns_annotation s n target current (marked pkg before))

    same_restart :
        IsOurs
        → (get_istio_labels between.labels current (get_current_istio_state between.labels)).1
          ≡ restart
    same_restart ours =
        restart-labels between.labels current (get_current_istio_state between.labels)
        ∙ rw (state_during ours) (
            rw (restart-labels before.labels target current)
              (exclusive (is_sidecar current) (is_sidecar target)))
      where
        exclusive : (a b : Bool) → (if a then not b else b) ≡ (if b then not a else a)
        exclusive true true = refl
        exclusive true false = refl
        exclusive false true = refl
        exclusive false false = refl

    cleaned_after :
        is_valid pkg ≡ true
        → any is_pkg_key (keys before.annotations) ≡ false
        → IsOurs
        → update_namespace server equals cleanup_namespace pkg during ≡ (after, ok restart)
    unfolding cleanup_namespace
    cleaned_after v h ours =
        let remembered = lookup-state server owns_label owns_annotation s pkg n on.labels in
        let last = alone server owns_label owns_annotation s pkg n on.labels h in
        let had = lookup-pkg server owns_label owns_annotation s pkg n on.labels in
        update_namespace-eq cleanup_namespace pkg during off restart
          (rw v (
            rw last (
              rw remembered
                (rw (read_state-value current) (ap (λ r. ok (off, r)) (same_restart ours))))))
          (s.entry on n)
          (changed_by off between (pkg_key pkg) (ground (arith, pkg_key-IsPkgKey pkg)) (λ same.
            absurd (ground (arith, had, same, lookup-unmarked_pkg pkg between.annotations))))

    -- Suppose that the API server does a server-side apply as it is documented, and does not fail. A
    -- namespace has no package yet and remembers no earlier state, Pepr's entry in its managed
    -- fields does not claim too much, and if the package does not want the sidecar, a label that
    -- asks for it is Pepr's own (a label of another manager cannot be taken away). A valid package
    -- comes and goes again: enableIstio and cleanupNamespace up to the restart of pods. Both
    -- succeed; in between, the mesh state is the one that the package asks for; afterwards it is
    -- the state of before, every label but Istio's two and every annotation but the package's has
    -- the value of before, and the cleanup restarts the pods exactly if the enabling did.
    pub cleanup-enable :
        is_valid pkg ≡ true
        → lookup istio_state_annotation before.annotations ≡ none
        → any is_pkg_key (keys before.annotations) ≡ false
        → over_claimed (server.managed_fields n) ≡ false
        → (is_sidecar target ≡ false
            → opt_eq (lookup injection_label before.labels) "enabled" ≡ true
            → owns_label n injection_label ≡ true)
        → (n1 n2 : N) × (r : Bool) × (update_namespace server equals enable_istio pkg n
            ≡ (n1, ok r))
          × (update_namespace server equals cleanup_namespace pkg n1 ≡ (n2, ok r))
          × (get_current_istio_state (server.meta n1).labels ≡ target)
          × (get_current_istio_state (server.meta n2).labels ≡ current)
          × ((key : String)
              → (injection_label == key) ≡ false
              → (ambient_label == key) ≡ false
              → lookup key (server.meta n2).labels ≡ lookup key before.labels)
          × ((key : String)
              → (pkg_key pkg == key) ≡ false
              → lookup key (server.meta n2).annotations ≡ lookup key before.annotations)
    cleanup-enable v e h fine ours = (
      during,
      after,
      restart,
      enabled_during v e h fine,
      cleaned_after v h ours,
      state_during ours,
      state_after,
      λ key i a.
          other-next server owns_label owns_annotation s during current
            (get_current_istio_state between.labels) (unmarked pkg between.annotations)
            (s.entry on n) key i a
          ∙ other-next server owns_label owns_annotation s n target current (marked pkg before) fine
              key i a,
      λ key ne.
          annotations-last server owns_label owns_annotation s pkg n on.labels off.labels fine e h
            key ne,
    )
