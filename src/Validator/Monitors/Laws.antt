-- ===== src/Validator/Monitors/Laws.antt =====
-- Which monitors the package validator takes.
use uds_core.Prelude.{
  String, Bool, true, false, List, [], ◌∷◌, if◌then◌else◌, ◌↔◌, refl, IsDistinct, IsFresh,
  IsFresh-iff,
}
use uds_core.Crd.Package.{Monitor}
use uds_core.Names.{Text}
use uds_core.Names.Generated.{generate_monitor_name}
use uds_core.Validator.Guards.{NoneHolds, Passes, Passes->>, has_text-false}
use uds_core.Validator.Monitors.{
  Seen, nothing_seen, is_pod_monitor, monitor_guards, note_monitor, check_monitors,
}

step_iff :
    (seen : Seen) (name : Text) (pod : Bool) (ps ss : List Text)
    → (NoneHolds (monitor_guards seen name pod)
        × (IsFresh (note_monitor seen name pod).pods ps
            × IsFresh (note_monitor seen name pod).services ss))
      ↔ (IsFresh seen.pods (if pod then name ∷ ps else ps)
          × IsFresh seen.services (if pod then ss else name ∷ ss))
step_iff seen name true ps ss =
    let (t, t') = has_text-false seen.pods name in
    (λ ((e, _), (p, s)). ((t e, p), s), λ ((n, p), s). ((t' n, tt), (p, s)))
step_iff seen name false ps ss =
    let (t, t') = has_text-false seen.services name in
    (λ ((e, _), (p, s)). (p, (t e, s)), λ (p, (n, s)). ((t' n, tt), (p, s)))

module _ (lower : Text → Text) (pkg_name : String) where
  -- The names of the pod monitors, and those of the service monitors.
  abbrev pub pod_names : List Monitor → List Text
  pod_names [] = []
  pod_names (m ∷ ms) =
      let rest = pod_names ms in
      if is_pod_monitor m.kind then generate_monitor_name lower pkg_name m ∷ rest else rest

  abbrev pub service_names : List Monitor → List Text
  service_names [] = []
  service_names (m ∷ ms) =
      let rest = service_names ms in
      if is_pod_monitor m.kind then rest else generate_monitor_name lower pkg_name m ∷ rest

  loop_iff :
      (seen : Seen) (ms : List Monitor)
      → Passes (check_monitors lower pkg_name seen ms)
        ↔ (IsFresh seen.pods (pod_names ms) × IsFresh seen.services (service_names ms))
  unfolding check_monitors
  loop_iff seen [] = (λ h. (tt, tt), λ h. (seen, refl))
  loop_iff seen (m ∷ ms) =
      let name = generate_monitor_name lower pkg_name m in
      let pod = is_pod_monitor m.kind in
      let next = note_monitor seen name pod in
      let (to, from) =
        Passes->> (monitor_guards seen name pod) (check_monitors lower pkg_name next ms) in
      let (ih, hi) = loop_iff next ms in
      let (s, s') = step_iff seen name pod (pod_names ms) (service_names ms) in
      (
        λ h. let (n, later) = to h in s (n, ih later),
        λ h. let (n, later) = s' h in from (n, hi later),
      )

  -- The validator takes a list of monitors exactly when the names of its pod monitors all differ,
  -- and those of its service monitors.
  pub check_monitors_iff :
      (ms : List Monitor)
      → Passes (check_monitors lower pkg_name nothing_seen ms)
        ↔ (IsDistinct (pod_names ms) × IsDistinct (service_names ms))
  check_monitors_iff ms =
      let (to, from) = loop_iff nothing_seen ms in
      let (p, p') = IsFresh-iff (pod_names ms) in
      let (s, s') = IsFresh-iff (service_names ms) in
      (λ h. let (a, b) = to h in (p a, s b), λ (a, b). from (p' a, s' b))
