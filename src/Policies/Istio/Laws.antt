-- ===== src/Policies/Istio/Laws.antt =====
-- Which pods the Istio policies approve.
use uds_core.Prelude.{
  String, Bool, true, false, ◌&&◌, ◌||◌, ok, if◌then◌else◌, List, [], ◌∷◌, ◌++◌, ◌==◌, ◌≡◌, ◌≢◌,
  ◌⊎◌, ◌↔◌, inl, inr, refl, arith, eq_iff, All, All-iff, filter, filter-eq-nil, map, keys, Dict,
  includes, sym, All-map_iff,
}
use mathlib.Core.List.{Perm as Permutation}
use mathlib.Core.List.Perm
use mathlib.Core.Path.{subst}
use uds_core.Crd.Exemption.{Policy}
use uds_core.Exemptions.Check.{Metadata}
use uds_core.Policies.Image.{Text}
use uds_core.Policies.Pod.{Container, Request, approve}
use uds_core.Policies.Handlers.{Env}
use uds_core.Policies.Handlers.Laws.{Approved, unless_exempt-eq-approve}
use uds_core.Policies.Istio.{
  Locale, inject, blocked_annotations, blocked_traffic_annotations, ambient_blocked_annotations,
  says_true, pod_namespace, is_waypoint_pod, annotation_violates, label_violates, named,
  check_istio_sidecar_overrides, check_istio_ambient_overrides,
  check_istio_traffic_interception_overrides, deny_listed, sidecar_overrides_validate,
  traffic_overrides_validate, ambient_overrides_validate,
}

sort-eq-nil : (locale : Locale) (xs : List String) → (locale.sort xs ≡ []) ↔ (xs ≡ [])
sort-eq-nil locale xs = (
  λ h. sym (Perm.nil-eq (subst (λ l. Permutation l xs) h (locale.sort-perm xs))),
  λ h. Perm.eq-nil (subst (λ l. Permutation (locale.sort xs) l) h (locale.sort-perm xs)),
)

deny_listed-eq-approve :
    (msg : String) (vs : List String) (Good : Type 0)
    → (vs ≡ []) ↔ Good
    → (deny_listed msg vs ≡ approve) ↔ Good
deny_listed-eq-approve msg [] Good (to, from) = (λ h. to refl, λ h. refl)
deny_listed-eq-approve msg (v ∷ vs) Good (to, from) =
    (λ h. absurd (ground arith), λ h. absurd (ground (arith, from h)))

map-eq-nil : {A : Type 0} (f : A → String) (xs : List A) → (map f xs ≡ []) ↔ (xs ≡ [])
map-eq-nil f [] = (λ h. refl, λ h. refl)
map-eq-nil f (x ∷ xs) = (λ h. absurd (ground arith), λ h. absurd (ground arith))

append-eq-nil : (xs ys : List String) → (xs ++ ys ≡ []) ↔ ((xs ≡ []) × (ys ≡ []))
append-eq-nil [] ys = (λ h. (refl, h), λ h. h.1)
append-eq-nil (x ∷ xs) ys = (λ h. absurd (ground arith), λ (h, k). absurd (ground arith))

-- An annotation that leaves the interception of traffic alone: it is not a blocked one, or it is
-- the injection switch, in istio-system or with the value true.
abbrev pub LeavesTraffic : Metadata → String × String → Type 0
LeavesTraffic md (key, value) =
    (includes blocked_traffic_annotations key ≡ false)
    ⊎ ((key ≡ inject) × ((pod_namespace md ≡ "istio-system") ⊎ (says_true value ≡ true)))

-- A label that does so: the same, or the pod is a waypoint of Istio.
abbrev pub LabelLeavesTraffic : Text → List Container → Metadata → String × String → Type 0
LabelLeavesTraffic zarf cs md (key, value) =
    (key ≢ inject)
    ⊎ (pod_namespace md ≡ "istio-system")
    ⊎ (says_true value ≡ true)
    ⊎ (is_waypoint_pod zarf cs ≡ true)

skip_iff :
    (a b c i : Bool)
    → ((if a && b || a && c then false else i) ≡ false)
      ↔ ((i ≡ false) ⊎ ((a ≡ true) × ((b ≡ true) ⊎ (c ≡ true))))
skip_iff a b c i = ground arith

annotation_iff :
    (zarf : Text) (md : Metadata) (e : String × String)
    → (annotation_violates zarf md e ≡ false) ↔ LeavesTraffic md e
annotation_iff zarf md (key, value) =
    let (a, a') = eq_iff key inject in
    let (b, b') = eq_iff (pod_namespace md) "istio-system" in
    let (to, from) =
      skip_iff (key == inject) (pod_namespace md == "istio-system") (says_true value)
        (includes blocked_traffic_annotations key) in
    (
      λ h. elim (to h) [
        | inl free ↦ inl free
        | inr (k, inl n) ↦ inr (a k, inl (b n))
        | inr (k, inr v) ↦ inr (a k, inr v)
      ],
      elim [
        | inl free ↦ from (inl free)
        | inr (k, inl n) ↦ from (inr (a' k, inl (b' n)))
        | inr (k, inr v) ↦ from (inr (a' k, inr v))
      ],
    )

label_iff :
    (zarf : Text) (cs : List Container) (md : Metadata) (e : String × String)
    → (label_violates zarf cs md e ≡ false) ↔ LabelLeavesTraffic zarf cs md e
label_iff zarf cs md (key, value) =
    ground (arith, eq_iff key inject, eq_iff inject key, eq_iff (pod_namespace md) "istio-system")

traffic_iff :
    (locale : Locale) (zarf : Text) (cs : List Container) (md : Metadata)
    → (check_istio_traffic_interception_overrides locale zarf cs md ≡ [])
      ↔ (All (LeavesTraffic md) md.annotations × All (LabelLeavesTraffic zarf cs md) md.labels)
unfolding check_istio_traffic_interception_overrides
traffic_iff locale zarf cs md =
    let bad = filter (annotation_violates zarf md) md.annotations in
    let worse = filter (label_violates zarf cs md) md.labels in
    let (a, a') =
      sort-eq-nil locale (map (named "annotation ") bad ++ map (named "label ") worse) in
    let (b, b') = append-eq-nil (map (named "annotation ") bad) (map (named "label ") worse) in
    let (c, c') = map-eq-nil (named "annotation ") bad in
    let (d, d') = map-eq-nil (named "label ") worse in
    let (e, e') = filter-eq-nil (annotation_violates zarf md) md.annotations in
    let (f, f') = filter-eq-nil (label_violates zarf cs md) md.labels in
    let (g, g') = All-iff (annotation_iff zarf md) md.annotations in
    let (k, k') = All-iff (label_iff zarf cs md) md.labels in
    (
      λ h. (g (e (c (b (a h)).0)), k (f (d (b (a h)).1))),
      λ (u, v). a' (b' (c' (e' (g' u)), d' (f' (k' v)))),
    )

keys_iff :
    (locale : Locale) (blocked : List String) (d : Dict String)
    → (locale.sort (filter (includes blocked) (keys d)) ≡ [])
      ↔ All (λ e. includes blocked e.0 ≡ false) d
keys_iff locale blocked d =
    let (a, a') = sort-eq-nil locale (filter (includes blocked) (keys d)) in
    let (b, b') = filter-eq-nil (includes blocked) (keys d) in
    let (c, c') = All-map_iff (λ k. includes blocked k ≡ false) (λ (e : String × String). e.0) d in
    (λ h. c (b (a h)), λ h. a' (b' (c' h)))

module _ (env : Env) (locale : Locale) where
  -- Exempt pods aside: RestrictIstioSidecarOverrides and RestrictIstioAmbientOverrides approve
  -- exactly the pods none of whose annotations is on their lists, and
  -- RestrictIstioTrafficOverrides exactly those whose annotations and labels leave the
  -- interception of traffic alone: the injection switch may appear only in istio-system or with
  -- the value true, or as a label of a waypoint pod.
  pub istio_overrides_admission :
      (r : Request)
      → ((sidecar_overrides_validate env locale r ≡ ok approve)
          ↔ Approved env Policy.restrict_istio_sidecar_overrides r.metadata
              (All (λ e. includes blocked_annotations e.0 ≡ false) r.metadata.annotations))
        × ((ambient_overrides_validate env locale r ≡ ok approve)
            ↔ Approved env Policy.restrict_istio_ambient_overrides r.metadata (
                All (λ e. includes ambient_blocked_annotations e.0 ≡ false) r.metadata.annotations))
        × ((traffic_overrides_validate env locale r ≡ ok approve)
            ↔ Approved env Policy.restrict_istio_traffic_overrides r.metadata (
                All (LeavesTraffic r.metadata) r.metadata.annotations
                × All
                    (LabelLeavesTraffic env.zarf (env.sdk.containers r.spec) r.metadata)
                    r.metadata.labels))
  unfolding sidecar_overrides_validate ambient_overrides_validate traffic_overrides_validate
      check_istio_sidecar_overrides check_istio_ambient_overrides
  istio_overrides_admission r = (
    unless_exempt-eq-approve env Policy.restrict_istio_sidecar_overrides r.metadata _ _
        (deny_listed-eq-approve _ _ _ (keys_iff locale blocked_annotations r.metadata.annotations)),
    unless_exempt-eq-approve env Policy.restrict_istio_ambient_overrides r.metadata _ _ (
        deny_listed-eq-approve _ _ _
          (keys_iff locale ambient_blocked_annotations r.metadata.annotations)),
    unless_exempt-eq-approve env Policy.restrict_istio_traffic_overrides r.metadata _ _ (
        deny_listed-eq-approve _ _ _
          (traffic_iff locale env.zarf (env.sdk.containers r.spec) r.metadata)),
  )
