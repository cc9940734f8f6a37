-- ===== src/Reconcilers.antt =====
-- pepr/operator/reconcilers/index.ts: the status of a package, and what a failure does to it. The
-- calls of the cluster are a parameter; the log and the times of conditions are left out.
pub mod Failures
pub mod Stale
pub mod Finalizer
pub mod Reconcile
pub mod Tests
use uds_core.Prelude.{
  ℕ, ◌+◌, String, Bool, true, false, not, ◌&&◌, ◌||◌, nat_eq, ltb, Option, none, some, List, [],
  ◌∷◌, get_or, given, or_else, concat, includes, if◌then◌else◌, ite, Result, ok, err,
}
use uds_core.Crd.Package.{Package, Phase, Mode, AuthserviceClient, Status}
use uds_core.Crd.Migrate.{migrated_clients}
use uds_core.Cluster.{Call}

pub data ConditionStatus : Type 0 where
  yes no : ConditionStatus

pub record Condition : Type 0 where
  pub kind : String
  pub status : ConditionStatus
  pub message : String
  pub reason : String

unfoldable pub get_readiness_conditions : Bool → List Condition
get_readiness_conditions ready =
    record {
      kind = "Ready";
      status = if ready then yes else no;
      message =
          if ready then "The package is ready for use." else "The package is not ready for use.";
      reason = "ReconciliationComplete";
    }
    ∷ []

-- A status to be merged into that of the package: the fields that it gives.
pub record Patch : Type 0 where
  pub phase : Phase
  pub conditions : Option (List Condition)
  pub sso_clients : Option (List String)
  pub authservice_clients : Option (List AuthserviceClient)
  pub endpoints : Option (List String)
  pub monitors : Option (List String)
  pub probes : Option (List String)
  pub network_policy_count : Option ℕ
  pub authorization_policy_count : Option ℕ
  pub mesh_mode : Option Mode
  pub observed_generation : Option ℕ
  pub retry_attempt : Option ℕ

abbrev pub bare_patch : Phase → Patch
bare_patch phase = record {
  phase = phase;
  conditions = none;
  sso_clients = none;
  authservice_clients = none;
  endpoints = none;
  monitors = none;
  probes = none;
  network_policy_count = none;
  authorization_policy_count = none;
  mesh_mode = none;
  observed_generation = none;
  retry_attempt = none;
}

-- An error, as the reconcilers read it.
pub record Failure : Type 0 where
  pub status : Option ℕ
  pub message : Option String
  pub data_message : Option String

-- What a call throws: a promise may be rejected with no error at all.
pub data Thrown : Type 0 where
  undefined : Thrown
  failure : Failure → Thrown

-- The error that reading a property of `undefined` throws.
abbrev pub type_error : String → Thrown
type_error property = Thrown.failure (record {
  status = none;
  message = some (concat ("Cannot read properties of undefined (reading '" ∷ property ∷ "')" ∷ []));
  data_message = none;
})

-- The type, the reason and the message of an event.
pub record Event : Type 0 where
  pub kind : String
  pub reason : String
  pub message : Option String

-- The state of the cluster, and `uidSeen`.
pub record State (W : Type 0) : Type 0 where
  pub world : W
  pub seen : List String

-- K8s(UDSPackage).PatchStatus and K8s(kind.CoreEvent).Create, and the time that passes in a delay.
pub record Cluster (W : Type 0) : Type 1 where
  pub patch_status : Package → Patch → Call W (Unit {0}) Thrown
  pub create_event : Package → Event → Call W (Unit {0}) Thrown
  pub wait : ℕ → W → W

abbrev pub phase_of : Option Status → Option Phase
phase_of none = none
phase_of (some st) = st.phase

abbrev pub observed_of : Option Status → Option ℕ
observed_of none = none
observed_of (some st) = st.observed_generation

-- `status?.retryAttempt || 0`
abbrev pub retry_of : Option Status → ℕ
retry_of none = 0
retry_of (some st) = get_or st.retry_attempt 0

abbrev pub is_retrying : Option Phase → Bool
is_retrying (some Phase.retrying) = true
is_retrying _ = false

abbrev pub is_pending : Option Phase → Bool
is_pending (some Phase.pending) = true
is_pending _ = false

abbrev pub is_removing : Option Phase → Bool
is_removing (some Phase.removing) = true
is_removing (some Phase.removal_failed) = true
is_removing _ = false

-- `a === b` on numbers that may be absent
abbrev pub opt_nat_eq : Option ℕ → Option ℕ → Bool
opt_nat_eq none none = true
opt_nat_eq none (some b) = false
opt_nat_eq (some a) none = false
opt_nat_eq (some a) (some b) = nat_eq a b

-- `metadata!.uid!`
abbrev pub uid_of : Package → String
uid_of cr = get_or cr.uid ""

unfoldable pub should_skip : List String → Package → Bool
should_skip seen cr =
    let phase = phase_of cr.status in
    if not (includes seen (uid_of cr))
    then false
    else if is_retrying phase
    then false
    else if given cr.deletion_timestamp || is_removing phase
    then true
    else if is_pending phase || opt_nat_eq cr.generation (observed_of cr.status)
    then true
    else false

-- `set.add(uid)`
abbrev pub set_add : String → List String → List String
set_add uid seen = if includes seen uid then seen else uid ∷ seen

abbrev clients_of : Package → Option (List AuthserviceClient)
clients_of cr = elim cr.status [
  | none ↦ none
  | some st ↦ migrated_clients cr.sso st.authservice_clients
]

abbrev keep_clients : Patch → Option (List AuthserviceClient) → Patch
keep_clients p none = p
keep_clients p (some cs) = record p { authservice_clients = some cs }

-- `migratedStatus` of updateStatus
unfoldable pub migrated_status : Package → Patch → Patch
migrated_status cr p = keep_clients p (clients_of cr)

-- The status with which packageReconciler begins.
abbrev pub pending_status : Patch
pending_status = record (bare_patch Phase.pending) {
  conditions = some (get_readiness_conditions false);
}

-- `retryAttempt < 4`
unfoldable pub failure_status : Package → Patch
failure_status cr =
    let attempt = retry_of cr.status in
    let p = record (bare_patch Phase.retrying) {
      conditions = some (get_readiness_conditions false);
      retry_attempt = some (attempt + 1);
    } in
    let q = record (bare_patch Phase.failed) {
      conditions = some (get_readiness_conditions false);
      observed_generation = cr.generation;
      retry_attempt = some 0;
    } in
    if ltb attempt 4 then p else q

-- The event of writeEvent, when only a message is given.
abbrev pub failure_event : Option String → Event
failure_event message = record {
  kind = "Warning";
  reason = "ReconciliationFailed";
  message = message;
}

module _ {W : Type 0} (cluster : Cluster W) where
  abbrev pub write_event : Package → Event → Call (State W) (Unit {0}) Thrown
  write_event cr event s =
      let done = cluster.create_event cr event s.world in (record s { world = done.0 }, done.1)

  abbrev mark_seen :
      Package → W → List String → Result (Unit {0}) Thrown → State W × Result (Unit {0}) Thrown
  mark_seen cr w seen (ok u) = (record { world = w; seen = set_add (uid_of cr) seen }, ok tt)
  mark_seen cr w seen (err e) = (record { world = w; seen = seen }, err e)

  unfoldable pub update_status : Package → Patch → Call (State W) (Unit {0}) Thrown
  update_status cr p s =
      let done = cluster.patch_status cr (migrated_status cr p) s.world in
      mark_seen cr done.0 s.seen done.1

  -- The handler of an update that fails: a second event. Nobody awaits it, so that the caller sees
  -- neither a failure of that event nor that of reading the message of `undefined`.
  abbrev report : Package → State W × Result (Unit {0}) Thrown → State W × Result (Unit {0}) Thrown
  report cr (s, ok u) = (s, ok tt)
  report cr (s, err Thrown.undefined) = (s, ok tt)
  report cr (s, err (Thrown.failure e)) = ((write_event cr (failure_event e.message) s).0, ok tt)

  abbrev after_event :
      Package → State W × Result (Unit {0}) Thrown → State W × Result (Unit {0}) Thrown
  after_event cr (s, ok u) = report cr (update_status cr (failure_status cr) s)
  after_event cr (s, err e) = (s, err e)

  -- The update is not awaited; it is taken to be done at once.
  unfoldable pub handle_failure : Thrown → Package → Call (State W) (Unit {0}) Thrown
  handle_failure Thrown.undefined cr s = (s, err (type_error "status"))
  handle_failure (Thrown.failure e) cr s =
      let detailed = or_else e.data_message e.message in
      let handled = after_event cr (write_event cr (failure_event detailed) s) in
      if opt_nat_eq e.status (some 404) then (s, ok tt) else handled
