-- ===== src/Namespaces/Apply/Labels.antt =====
-- The labels of a namespace after a package has come, and after it has gone.
use uds_core.Prelude.{
  String, Bool, true, false, ◌==◌, Option, some, opt_eq, Dict, lookup, ◌≡◌, ◌∙◌, refl, sym, ap,
  arith,
}
use uds_core.Namespaces.{
  injection_label, ambient_label, IstioState, is_sidecar, get_current_istio_state, get_istio_labels,
  Meta,
}
use uds_core.Namespaces.Apply.{Server, over_claimed, patch_of}
use uds_core.Namespaces.Apply.Laws.{
  merged, IsServerSide, lookup-pick_labels, injection_of, ambient_of, lookup-istio_labels, state_of,
  state_of-merged,
}

not-enabled : (i a : Option String) → is_sidecar (state_of i a) ≡ false → opt_eq i "enabled" ≡ false
not-enabled i a h = ground arith

not-ambient : (i a : Option String) → state_of i a ≡ IstioState.off → opt_eq a "ambient" ≡ false
not-ambient i a h = ground arith

owns_injection :
    (t : IstioState) (i : Option String) (own own' : Bool)
    → (injection_of t ≡ some "enabled" → own' ≡ true)
    → opt_eq i "enabled" ≡ false
    → opt_eq (merged (injection_of t) own i) "enabled" ≡ true
    → own' ≡ true
owns_injection IstioState.sidecar i own own' f e h = f refl
owns_injection IstioState.ambient i true own' f e h = absurd (ground arith)
owns_injection IstioState.ambient i false own' f e h = absurd (ground (arith, e, h))
owns_injection IstioState.off i true own' f e h = absurd (ground arith)
owns_injection IstioState.off i false own' f e h = absurd (ground (arith, e, h))

owns_ambient :
    (t : IstioState) (a : Option String) (own own' : Bool)
    → (ambient_of t ≡ some "ambient" → own' ≡ true)
    → opt_eq a "ambient" ≡ false
    → opt_eq (merged (ambient_of t) own a) "ambient" ≡ true
    → own' ≡ true
owns_ambient IstioState.ambient a own own' f e h = f refl
owns_ambient IstioState.sidecar a true own' f e h = absurd (ground arith)
owns_ambient IstioState.sidecar a false own' f e h = absurd (ground (arith, e, h))
owns_ambient IstioState.off a true own' f e h = absurd (ground arith)
owns_ambient IstioState.off a false own' f e h = absurd (ground (arith, e, h))

module _ {N : Type 0} {E : Type 0} (server : Server N E)
    (owns_label owns_annotation : N → String → Bool)
    (s : IsServerSide server owns_label owns_annotation) where
  -- The metadata with the labels of a state, and a namespace to which it was applied.
  abbrev relabelled : Dict String → IstioState → IstioState → Dict String → Meta
  relabelled labels target current annotations = record {
    labels = (get_istio_labels labels target current).0;
    annotations = annotations;
  }

  module _ (n : N) (t c : IstioState) (annotations : Dict String) where
    abbrev now : Dict String
    now = (server.meta n).labels

    abbrev new : Meta
    new = relabelled now t c annotations

    abbrev pub next : N
    next = (server.apply (patch_of new) n).0

    abbrev later : Dict String
    later = (server.meta next).labels

    applied_injection : lookup injection_label (patch_of new).labels ≡ injection_of t
    applied_injection = (lookup-pick_labels new.labels).0 ∙ (lookup-istio_labels now t c).0

    applied_ambient : lookup ambient_label (patch_of new).labels ≡ ambient_of t
    applied_ambient = (lookup-pick_labels new.labels).1 ∙ (lookup-istio_labels now t c).1

    lookup-injection :
        lookup injection_label later
        ≡ merged (injection_of t) (owns_label n injection_label) (lookup injection_label now)
    lookup-injection =
        s.label new n injection_label
        ∙ ap (λ o. merged o (owns_label n injection_label) (lookup injection_label now))
            applied_injection

    lookup-ambient :
        lookup ambient_label later
        ≡ merged (ambient_of t) (owns_label n ambient_label) (lookup ambient_label now)
    lookup-ambient =
        s.label new n ambient_label
        ∙ ap (λ o. merged o (owns_label n ambient_label) (lookup ambient_label now)) applied_ambient

    pub state-next :
        (is_sidecar t ≡ false
          → opt_eq (lookup injection_label now) "enabled" ≡ true
          → owns_label n injection_label ≡ true)
        → (t ≡ IstioState.off
            → opt_eq (lookup ambient_label now) "ambient" ≡ true
            → owns_label n ambient_label ≡ true)
        → get_current_istio_state later ≡ t
    unfolding get_current_istio_state
    state-next h k =
        ap (λ i. state_of i (lookup ambient_label later)) lookup-injection
        ∙ ap
            (state_of
              (merged (injection_of t) (owns_label n injection_label) (lookup injection_label now)))
            lookup-ambient
        ∙ state_of-merged t _ _ _ _ h k

    -- A state that was not there before has been set by Pepr, which may take it back.
    pub free_injection :
        is_sidecar (get_current_istio_state now) ≡ false
        → opt_eq (lookup injection_label later) "enabled" ≡ true
        → owns_label next injection_label ≡ true
    unfolding get_current_istio_state
    free_injection e h =
        let was = not-enabled (lookup injection_label now) (lookup ambient_label now) e in
        owns_injection t (lookup injection_label now) (owns_label n injection_label) _
          (λ f. s.taken_label new n injection_label "enabled" (applied_injection ∙ f) was) was
          (sym (ap (λ o. opt_eq o "enabled") lookup-injection) ∙ h)

    pub free_ambient :
        get_current_istio_state now ≡ IstioState.off
        → opt_eq (lookup ambient_label later) "ambient" ≡ true
        → owns_label next ambient_label ≡ true
    unfolding get_current_istio_state
    free_ambient e h =
        let was = not-ambient (lookup injection_label now) (lookup ambient_label now) e in
        owns_ambient t (lookup ambient_label now) (owns_label n ambient_label) _
          (λ f. s.taken_label new n ambient_label "ambient" (applied_ambient ∙ f) was) was
          (sym (ap (λ o. opt_eq o "ambient") lookup-ambient) ∙ h)

    pub other-next :
        over_claimed (server.managed_fields n) ≡ false
        → (key : String) → (injection_label == key) ≡ false
        → (ambient_label == key) ≡ false
        → lookup key later ≡ lookup key now
    other-next fine key i a =
        s.label new n key
        ∙ rw ((lookup-pick_labels new.labels).2 key i a) (rw (s.claimed_label n key fine i a) refl)
