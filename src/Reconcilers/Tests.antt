-- ===== src/Reconcilers/Tests.antt =====
-- Runs of the reconcilers' helpers.
use uds_core.Prelude.{
  true, false, Option, none, some, List, [], ◌∷◌, ◌++◌, get_or, ok, err, ◌≡◌, inl, refl, Any,
  Any-append_left, Any-append_right,
}
use uds_core.Crd.Package.{
  Package, Phase, Status, AuthserviceClients, AuthserviceClient, objects, bare_package,
}
use uds_core.Crd.Migrate.{migrate, migrated_clients}
use uds_core.Cluster.{Call}
use uds_core.Cluster.Retry.{retry_with_delay, retry_loop}
use uds_core.Reconcilers.{
  Patch, Thrown, should_skip, State, Cluster, bare_patch, phase_of, migrated_status, update_status,
}
use uds_core.Reconcilers.Stale.{recorded_of, unchanged, updated, Updated-recorded}
use uds_core.Reconcilers.Finalizer.{
  Cleanup, cleanups, is_settled, package_finalizer, finalize, attempt, retried,
}
use uds_core.Reconcilers.Finalizer.Laws.{Achieves, IsCleaned, package_finalizer-IsCleaned}
use uds_core.Reconcilers.Reconcile.{
  package_reconciler, tried, back_off, outcome, package_reconciler-outcome,
}

-- A cluster that merges a patch field by field.
abbrev newer {ℓ} : {A : Type ℓ} → Option A → Option A → Option A
newer none old = old
newer (some new) old = some new

abbrev new_clients :
    Option (List AuthserviceClient) → Option AuthserviceClients → Option AuthserviceClients
new_clients none old = old
new_clients (some cs) old = some (objects cs)

abbrev no_status : Status
no_status = record {
  authservice_clients = none;
  observed_generation = none;
  phase = none;
  retry_attempt = none;
}

abbrev merged : Package → Patch → Package
merged cr p =
    let st = get_or cr.status no_status in
    record cr {
      status = some (record {
        authservice_clients = new_clients p.authservice_clients st.authservice_clients;
        observed_generation = newer p.observed_generation st.observed_generation;
        phase = some p.phase;
        retry_attempt = newer p.retry_attempt st.retry_attempt;
      });
    }

abbrev shop : Package
shop = record (bare_package (some "shop") (some "shop-ns")) { generation = some 2; uid = some "u" }

abbrev old_client : AuthserviceClient
old_client = record { client_id = "old"; selector = none }

abbrev served : Package
served = record shop {
  status = some (record no_status { authservice_clients = some (objects (old_client ∷ [])) });
}

abbrev sets_clients :
    (cr : Package) (p : Patch) (cs : List AuthserviceClient)
    → p.authservice_clients ≡ some cs
    → recorded_of (merged cr p).status ≡ some (objects cs)
sets_clients cr p cs e = rw e refl

-- An update that says that there is no client any more.
abbrev emptied : Patch
emptied = record (bare_patch Phase.ready) { authservice_clients = some [] }

Updated-recorded_example :
    recorded_of (merged served (migrated_status served emptied)).status
    ≡ some (objects (old_client ∷ []))
Updated-recorded_example =
    Updated-recorded merged sets_clients served old_client [] refl
      (updated unchanged served refl emptied)

-- A cluster that remembers the cleanups that were done.
abbrev log : Cluster (List Cleanup)
log = record {
  patch_status = λ cr p w. (w, ok tt);
  create_event = λ cr e w. (w, ok tt);
  wait = λ ms w. w;
}

abbrev clean : Cleanup → Package → Call (List Cleanup) (Unit {0}) Thrown
clean c pkg w = (w ++ c ∷ [], ok tt)

abbrev WasDone : Cleanup → List Cleanup → Type 0
WasDone c w = Any (λ d. d ≡ c) w

abbrev forget : Package → List Cleanup → List Cleanup
forget pkg w = w

log-Achieves : (pkg : Package) → Achieves log clean forget pkg (λ c w. Unit) WasDone
log-Achieves pkg = record {
  prepared = λ c w. tt;
  tried = λ c w h. tt;
  delayed = λ c ms w h. tt;
  done = λ c w u h e. Any-append_right (λ d. d ≡ c) w (c ∷ []) (inl refl);
  removed = λ c w h. h;
  cleaned = λ c d w h. Any-append_left (λ x. x ≡ c) w (d ∷ []) h;
  patched = λ c p w h. h;
  noted = λ c e w h. h;
  waited = λ c ms w h. h;
}

abbrev ready_shop : Package
ready_shop = record shop { status = some (record no_status { phase = some Phase.ready }) }

abbrev start : State (List Cleanup)
start = record { world = []; seen = [] }

finalized : (package_finalizer log clean forget ready_shop start).1 ≡ ok true
unfolding package_finalizer finalize attempt retried retry_with_delay retry_loop cleanups
    update_status migrated_status migrated_clients
finalized = refl

package_finalizer-IsCleaned_example :
    (is_settled (phase_of ready_shop.status) ≡ true)
    × IsCleaned log clean forget ready_shop
        (λ c w. Unit)
        WasDone
        (log-Achieves ready_shop)
        (package_finalizer log clean forget ready_shop start).0.world
package_finalizer-IsCleaned_example =
    package_finalizer-IsCleaned log clean forget ready_shop (λ c w. Unit) WasDone
      (log-Achieves ready_shop) start finalized

-- A flow that is rejected with `undefined`.
abbrev rejected : Package → Call (State (List Cleanup)) (Unit {0}) Thrown
rejected pkg s = (s, err Thrown.undefined)

package_reconciler-outcome_example :
    (should_skip start.seen shop ≡ true
      → package_reconciler log rejected shop start ≡ (start, ok tt))
    × (should_skip start.seen shop ≡ false
        → (package_reconciler log rejected shop start).1
          ≡ outcome log rejected
              (tried log rejected (migrate shop) (back_off log rejected (migrate shop) start).0).1)
    × (should_skip start.seen shop ≡ false
        → (tried log rejected (migrate shop) (back_off log rejected (migrate shop) start).0).1
          ≡ err Thrown.undefined
        → (package_reconciler log rejected shop start).0
          ≡ (tried log rejected (migrate shop) (back_off log rejected (migrate shop) start).0).0)
package_reconciler-outcome_example =
    package_reconciler-outcome log rejected (λ cr e w. refl) shop start
