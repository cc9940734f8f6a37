-- ===== src/Reconcilers/Finalizer.antt =====
-- packageFinalizer of pepr/operator/reconcilers/package-reconciler.ts. The functions that clean up
-- are parameters; their order, their retries and the handling of their errors are the source's.
pub mod Laws
use uds_core.Prelude.{
  ℕ, String, Bool, true, false, not, ◌&&◌, ◌||◌, Option, none, some, List, [], ◌∷◌, ◌++◌, any,
  given, get_or, concat, if◌then◌else◌, Result, ok, err,
}
use uds_core.Crd.Package.{Package, Phase, Expose, ExposeProtocol}
use uds_core.Cluster.{Call}
use uds_core.Cluster.Retry.{Exit, returned, thrown, unexpected, retry_with_delay}
use uds_core.Reconcilers.{
  State, Failure, Thrown, type_error, Event, Cluster, bare_patch, phase_of, is_removing,
  write_event, update_status,
}

-- cleanupNamespace, purgeAuthserviceClients, purgeSSOClients, updateBlackboxConfig,
-- reconcileSharedEgressResources and reconcileDefaultGatewayListeners.
pub data Cleanup : Type 0 where
  istio authservice sso blackbox egress gateway : Cleanup

-- The event before a cleanup, if it has one.
abbrev pub announcement : Cleanup → Option String
announcement Cleanup.istio = some "Restoring original Istio injection status on namespace"
announcement Cleanup.authservice = some "Removing AuthService configuration for package"
announcement Cleanup.sso = some "Removing SSO clients for package"
announcement Cleanup.blackbox = none
announcement Cleanup.egress = some "Reconciling any shared egress resources"
announcement Cleanup.gateway = none

-- The event after a cleanup that failed.
abbrev pub failure_message : Cleanup → String → String
failure_message Cleanup.istio m = concat (
    "Restoration of Istio injection status failed: " ∷ m
    ∷ ". Istio status must be manually restored, by updating or deleting the istio-injection label and cycling pods."
    ∷ [])
failure_message Cleanup.authservice m = concat (
    "Removal of AuthService configuration failed: " ∷ m
    ∷ ". AuthService configuration secret should be reviewed and cleaned up as needed." ∷ [])
failure_message Cleanup.sso m = concat (
    "Removal of SSO clients failed: " ∷ m ∷ ". Clients must be manually removed from Keycloak."
    ∷ [])
failure_message Cleanup.blackbox m = concat (
    "Removal of blackbox SSO modules failed: " ∷ m
    ∷ ". Blackbox config secret should be reviewed and cleaned up as needed." ∷ [])
failure_message Cleanup.egress m = concat ("Removal of shared egress resources failed: " ∷ m ∷ [])
failure_message Cleanup.gateway m =
    concat ("Removal of Envoy Gateway UDP resources failed: " ∷ m ∷ [])

-- hasDefaultModeUDPExpose
abbrev is_default_udp : Expose → Option ExposeProtocol → Bool
is_default_udp e (some ExposeProtocol.udp) = not (given e.gateway)
is_default_udp e _ = false

abbrev pub has_default_mode_udp_expose : Package → Bool
has_default_mode_udp_expose pkg = any (λ (e : Expose). is_default_udp e e.protocol) pkg.expose

-- The cleanups that a package needs, in their order.
unfoldable pub cleanups : Package → List Cleanup
cleanups pkg =
    Cleanup.istio
    ∷ Cleanup.authservice
    ∷ Cleanup.sso
    ∷ Cleanup.blackbox
    ∷ Cleanup.egress
    ∷ (if has_default_mode_udp_expose pkg then Cleanup.gateway ∷ [] else [])

abbrev pub is_settled : Option Phase → Bool
is_settled (some Phase.ready) = true
is_settled (some Phase.failed) = true
is_settled _ = false

-- The errors of retryWithDelay as those of its caller.
abbrev unexpected_exit : Thrown
unexpected_exit = Thrown.failure (record {
  status = none;
  message = some "Retry loop exited unexpectedly without returning.";
  data_message = none;
})

module _ {W : Type 0} where
  abbrev pub exit_result : W → Option (W × Exit (Unit {0}) Thrown) → W × Result (Unit {0}) Thrown
  exit_result w none = (w, err unexpected_exit)
  exit_result w (some (w', returned u)) = (w', ok tt)
  exit_result w (some (w', thrown e)) = (w', err e)
  exit_result w (some (w', unexpected)) = (w', err unexpected_exit)

module _ {W : Type 0} (cluster : Cluster W) (clean : Cleanup → Package → Call W (Unit {0}) Thrown)
    (remove_entry : Package → W → W) where
  -- `retryWithDelay(..., log)`: five attempts, two seconds between them.
  unfoldable pub retried : Cleanup → Package → Call W (Unit {0}) Thrown
  retried c pkg w = exit_result w (retry_with_delay (clean c pkg) (cluster.wait 2000) 5 w)

  abbrev pub lift : State W → W × Result (Unit {0}) Thrown → State W × Result (Unit {0}) Thrown
  lift s (w, r) = (record s { world = w }, r)

  abbrev progress_event : String → Event
  progress_event message = record {
    kind = "Normal";
    reason = "RemovalInProgress";
    message = some message;
  }

  abbrev announce : Package → Option String → Call (State W) (Unit {0}) Thrown
  announce pkg none s = (s, ok tt)
  announce pkg (some m) s = write_event cluster pkg (progress_event m) s

  -- What comes before the retries, and is done once: removeDefaultListenerMapEntry.
  abbrev pub prepare : Cleanup → Package → W → W
  prepare Cleanup.gateway pkg w = remove_entry pkg w
  prepare Cleanup.istio pkg w = w
  prepare Cleanup.authservice pkg w = w
  prepare Cleanup.sso pkg w = w
  prepare Cleanup.blackbox pkg w = w
  prepare Cleanup.egress pkg w = w

  abbrev run_cleanup :
      Cleanup → Package → State W × Result (Unit {0}) Thrown → State W × Result (Unit {0}) Thrown
  run_cleanup c pkg (s, ok u) = lift s (retried c pkg (prepare c pkg s.world))
  run_cleanup c pkg (s, err e) = (s, err e)

  -- The `try` block of a cleanup.
  unfoldable pub attempt : Cleanup → Package → Call (State W) (Unit {0}) Thrown
  attempt c pkg s = run_cleanup c pkg (announce pkg (announcement c) s)

  abbrev refused : State W × Result (Unit {0}) Thrown → State W × Result Bool Thrown
  refused (s, ok u) = (s, ok false)
  refused (s, err e) = (s, err e)

  abbrev mark_failed : Package → State W × Result (Unit {0}) Thrown → State W × Result Bool Thrown
  mark_failed pkg (s, ok u) =
      refused (update_status cluster pkg (bare_patch Phase.removal_failed) s)
  mark_failed pkg (s, err e) = (s, err e)

  -- The `catch` block of a cleanup. `e.message` throws again if the error is `undefined`.
  unfoldable pub give_up : Cleanup → Package → Thrown → Call (State W) Bool Thrown
  give_up c pkg Thrown.undefined s = (s, err (type_error "message"))
  give_up c pkg (Thrown.failure e) s = mark_failed pkg (
      write_event cluster pkg
        (record {
          kind = "Warning";
          reason = "RemovalFailed";
          message = some (failure_message c (get_or e.message "undefined"));
        })
        s)

  unfoldable pub finalize : Package → List Cleanup → Call (State W) Bool Thrown
  finalize pkg [] s = (s, ok true)
  finalize pkg (c ∷ cs) s =
      let tried = attempt c pkg s in
      let later = finalize pkg cs tried.0 in
      elim tried.1 [ ok u ↦ later | err e ↦ give_up c pkg e tried.0 ]

  abbrev started : Package → State W × Result (Unit {0}) Thrown → State W × Result Bool Thrown
  started pkg (s, ok u) = finalize pkg (cleanups pkg) s
  started pkg (s, err e) = (s, err e)

  unfoldable pub package_finalizer : Package → Call (State W) Bool Thrown
  package_finalizer pkg s =
      let phase = phase_of pkg.status in
      let removed = started pkg (update_status cluster pkg (bare_patch Phase.removing) s) in
      if is_removing phase
      then (s, ok false)
      else if not (is_settled phase)
      then (s, ok false)
      else removed
