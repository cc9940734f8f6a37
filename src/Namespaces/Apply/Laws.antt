-- ===== src/Namespaces/Apply/Laws.antt =====
-- What the API server documents of a server-side apply, and what it makes of the labels that the
-- mesh state stands in.
use uds_core.Prelude.{
  String, Bool, true, false, ◌==◌, Option, none, some, [], ◌∷◌, opt_eq, Dict, lookup, insert,
  delete, ok, if◌then◌else◌, ◌≡◌, refl, arith, eq_iff, lookup-insert, lookup-delete, Bool-cases,
  inl, inr,
}
use uds_core.Namespaces.{
  injection_label, ambient_label, IstioState, is_sidecar, get_istio_labels, Meta,
}
use uds_core.Namespaces.Apply.{
  Server, over_claimed, patch_of, with_label, pick_managed_labels, pick_managed_annotations,
  is_managed_annotation,
}

-- A field after an apply: the value that is applied; none, if it is not applied and was owned by
-- Pepr alone; and otherwise the value of before.
abbrev pub merged : Option String → Bool → Option String → Option String
merged (some v) owned old = some v
merged none true old = none
merged none false old = old

-- The documented behaviour of a server-side apply with `force`, for what Pepr applies. It is
-- supposed to succeed.
-- `owns_label` and `owns_annotation` say whether Pepr is the only owner of a field.
pub record IsServerSide {N : Type 0} {E : Type 0} (server : Server N E)
    (owns_label owns_annotation : N → String → Bool) : Type 0 where
  pub succeeds : (m : Meta) (n : N) → (server.apply (patch_of m) n).1 ≡ ok tt
  pub label :
      (m : Meta) (n : N) (k : String)
      → lookup k (server.meta (server.apply (patch_of m) n).0).labels
        ≡ merged (lookup k (patch_of m).labels) (owns_label n k) (lookup k (server.meta n).labels)
  pub annotation :
      (m : Meta) (n : N) (k : String)
      → lookup k (server.meta (server.apply (patch_of m) n).0).annotations
        ≡ merged
            (lookup k (patch_of m).annotations)
            (owns_annotation n k)
            (lookup k (server.meta n).annotations)
  -- A field that gets another value than it had is Pepr's alone.
  pub taken_label :
      (m : Meta) (n : N) (k v : String)
      → lookup k (patch_of m).labels ≡ some v
      → opt_eq (lookup k (server.meta n).labels) v ≡ false
      → owns_label (server.apply (patch_of m) n).0 k ≡ true
  pub taken_annotation :
      (m : Meta) (n : N) (k v : String)
      → lookup k (patch_of m).annotations ≡ some v
      → opt_eq (lookup k (server.meta n).annotations) v ≡ false
      → owns_annotation (server.apply (patch_of m) n).0 k ≡ true
  -- The entry of Pepr says what it owns, and after an apply it claims what was applied.
  pub claimed_label :
      (n : N) (k : String)
      → over_claimed (server.managed_fields n) ≡ false
      → (injection_label == k) ≡ false
      → (ambient_label == k) ≡ false
      → owns_label n k ≡ false
  pub claimed_annotation :
      (n : N) (k : String)
      → over_claimed (server.managed_fields n) ≡ false
      → is_managed_annotation k ≡ false
      → owns_annotation n k ≡ false
  pub entry :
      (m : Meta) (n : N)
      → over_claimed (server.managed_fields (server.apply (patch_of m) n).0) ≡ false

pub lookup-pick_labels :
    (labels : Dict String)
    → (lookup injection_label (pick_managed_labels labels) ≡ lookup injection_label labels)
      × (lookup ambient_label (pick_managed_labels labels) ≡ lookup ambient_label labels)
      × ((k : String)
          → (injection_label == k) ≡ false
          → (ambient_label == k) ≡ false
          → lookup k (pick_managed_labels labels) ≡ none)
unfolding pick_managed_labels
lookup-pick_labels labels = picked (lookup injection_label labels) (lookup ambient_label labels)
  where
    picked :
        (i a : Option String)
        → (lookup injection_label (with_label ambient_label a (with_label injection_label i []))
            ≡ i)
          × (lookup ambient_label (with_label ambient_label a (with_label injection_label i []))
              ≡ a)
          × ((k : String)
              → (injection_label == k) ≡ false
              → (ambient_label == k) ≡ false
              → lookup k (with_label ambient_label a (with_label injection_label i [])) ≡ none)
    picked none none = (refl, refl, λ k e f. refl)
    picked (some v) none = (refl, refl, λ k e f. rw e refl)
    picked none (some w) = (refl, refl, λ k e f. rw f refl)
    picked (some v) (some w) = (refl, refl, λ k e f. rw e (rw f refl))

pub lookup-pick_annotations :
    (annotations : Dict String) (k : String)
    → lookup k (pick_managed_annotations annotations)
      ≡ (if is_managed_annotation k then lookup k annotations else none)
unfolding pick_managed_annotations
lookup-pick_annotations [] k = ground arith
lookup-pick_annotations ((j, v) ∷ d) k = elim (Bool-cases (j == k)) [
  | inl same ↦ rw ((eq_iff j k).0 same) (ground (arith, same, lookup-pick_annotations d k))
  | inr other ↦ ground (arith, other, lookup-pick_annotations d k)
]

-- Istio's labels, when they are looked up for a state.
abbrev pub injection_of : IstioState → Option String
injection_of IstioState.sidecar = some "enabled"
injection_of IstioState.ambient = none
injection_of IstioState.off = none

abbrev pub ambient_of : IstioState → Option String
ambient_of IstioState.sidecar = none
ambient_of IstioState.ambient = some "ambient"
ambient_of IstioState.off = none

pub lookup-istio_labels :
    (labels : Dict String) (target current : IstioState)
    → (lookup injection_label (get_istio_labels labels target current).0 ≡ injection_of target)
      × (lookup ambient_label (get_istio_labels labels target current).0 ≡ ambient_of target)
unfolding get_istio_labels
lookup-istio_labels labels IstioState.sidecar current = (
  ground (
    arith,
    lookup-delete ambient_label injection_label (insert injection_label "enabled" labels),
    lookup-insert injection_label injection_label "enabled" labels,
  ),
  ground
      (arith, lookup-delete ambient_label ambient_label (insert injection_label "enabled" labels)),
)
lookup-istio_labels labels IstioState.ambient current = (
  ground (
    arith,
    lookup-delete injection_label injection_label (insert ambient_label "ambient" labels),
  ),
  ground (
    arith,
    lookup-delete injection_label ambient_label (insert ambient_label "ambient" labels),
    lookup-insert ambient_label ambient_label "ambient" labels,
  ),
)
lookup-istio_labels labels IstioState.off current = (
  ground (
    arith,
    lookup-delete ambient_label injection_label (delete injection_label labels),
    lookup-delete injection_label injection_label labels,
  ),
  ground (arith, lookup-delete ambient_label ambient_label (delete injection_label labels)),
)

-- The state that the values of the two labels say.
abbrev pub state_of : Option String → Option String → IstioState
state_of i a =
    if opt_eq i "enabled"
    then IstioState.sidecar
    else if opt_eq a "ambient"
    then IstioState.ambient
    else IstioState.off

-- After the labels of a state have been applied, the namespace is in it, if no injection label of
-- another manager is in the way.
pub state_of-merged :
    (t : IstioState) (i a : Option String) (own_i own_a : Bool)
    → (is_sidecar t ≡ false → opt_eq i "enabled" ≡ true → own_i ≡ true)
    → (t ≡ IstioState.off → opt_eq a "ambient" ≡ true → own_a ≡ true)
    → state_of (merged (injection_of t) own_i i) (merged (ambient_of t) own_a a) ≡ t
state_of-merged IstioState.sidecar i a own_i own_a h k = refl
state_of-merged IstioState.ambient i a true own_a h k = refl
state_of-merged IstioState.ambient i a false own_a h k = ground (arith, h refl)
state_of-merged IstioState.off i a true true h k = refl
state_of-merged IstioState.off i a true false h k = ground (arith, k refl)
state_of-merged IstioState.off i a false true h k = ground (arith, h refl)
state_of-merged IstioState.off i a false false h k = ground (arith, h refl, k refl)
