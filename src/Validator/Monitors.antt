-- ===== src/Validator/Monitors.antt =====
-- The loop of the package validator over `spec.monitor`.
pub mod Laws
use uds_core.Prelude.{
  Bool, true, false, not, String, Option, none, some, List, [], ◌∷◌, if◌then◌else◌, Result, ok,
  ◌>>◌,
}
use uds_core.Crd.Package.{Monitor, MonitorKind}
use uds_core.Names.{Text}
use uds_core.Names.Generated.{generate_monitor_name}
use uds_core.Validator.{Refusal, Guards, deny_first, has_text}

abbrev pub is_pod_monitor : Option MonitorKind → Bool
is_pod_monitor (some MonitorKind.pod_monitor) = true
is_pod_monitor _ = false

-- podMonitorNames and svcMonitorNames
pub record Seen : Type 0 where
  pub pods : List Text
  pub services : List Text

abbrev pub nothing_seen : Seen
nothing_seen = record { pods = []; services = [] }

abbrev monitor_guards : Seen → Text → Bool → Guards
monitor_guards seen name true = (has_text seen.pods name, Refusal.duplicate_pod_monitor name) ∷ []
monitor_guards seen name false =
    (has_text seen.services name, Refusal.duplicate_service_monitor name) ∷ []

abbrev note_monitor : Seen → Text → Bool → Seen
note_monitor seen name true = record seen { pods = name ∷ seen.pods }
note_monitor seen name false = record seen { services = name ∷ seen.services }

module _ (lower : Text → Text) where
  unfoldable pub check_monitors : String → Seen → List Monitor → Result Seen Refusal
  check_monitors pkg_name seen [] = ok seen
  check_monitors pkg_name seen (m ∷ ms) =
      let name = generate_monitor_name lower pkg_name m in
      let pod = is_pod_monitor m.kind in
      deny_first (monitor_guards seen name pod)
      >> check_monitors pkg_name (note_monitor seen name pod) ms
