-- ===== src/Reconcilers/Reconcile.antt =====
-- packageReconciler of pepr/operator/reconcilers/package-reconciler.ts. `flow` stands for
-- reconcilePackageFlow.
use uds_core.Prelude.{
  ℕ, zero, suc, ◌*◌, String, some, [], ◌∷◌, or_else, concat, show, ltb, if◌then◌else◌, Result, ok,
  err, ◌≡◌, refl, Bool-cases, inl, inr, true, false, arith,
}
use uds_core.Crd.Package.{Package}
use uds_core.Crd.Migrate.{migrate}
use uds_core.Cluster.{Call}
use uds_core.Reconcilers.{
  State, Failure, Thrown, type_error, Event, Cluster, opt_nat_eq, pending_status, retry_of,
  should_skip, failure_event, failure_status, write_event, update_status, handle_failure, report,
  after_event,
}

-- `3 ** n`
abbrev pub pow3 : ℕ → ℕ
pow3 zero = 1
pow3 (suc n) = 3 * pow3 n

module _ {W : Type 0} (cluster : Cluster W)
    (flow : Package → Call (State W) (Unit {0}) Thrown) where
  abbrev waiting_message : ℕ → String
  waiting_message seconds =
      concat ("Waiting " ∷ show seconds ∷ " seconds before retrying package" ∷ [])

  abbrev delayed : ℕ → State W × Result (Unit {0}) Thrown → State W × Result (Unit {0}) Thrown
  delayed seconds (s, ok u) = (record s { world = cluster.wait (seconds * 1000) s.world }, ok tt)
  delayed seconds (s, err e) = (s, err e)

  -- The event and the delay before another attempt.
  unfoldable pub back_off : Package → Call (State W) (Unit {0}) Thrown
  back_off pkg s =
      let seconds = pow3 (retry_of pkg.status) in
      let slept =
        delayed seconds
          (write_event cluster pkg (failure_event (some (waiting_message seconds))) s) in
      if ltb 0 (retry_of pkg.status) then slept else (s, ok tt)

  abbrev caught : Package → State W × Result (Unit {0}) Thrown → State W × Result (Unit {0}) Thrown
  caught pkg (s, ok u) = (s, ok tt)
  caught pkg (s, err e) = handle_failure cluster e pkg s

  abbrev flowed : Package → State W × Result (Unit {0}) Thrown → State W × Result (Unit {0}) Thrown
  flowed pkg (s, ok u) = flow pkg s
  flowed pkg (s, err e) = (s, err e)

  -- The `try` block.
  abbrev pub tried : Package → State W → State W × Result (Unit {0}) Thrown
  tried pkg s = flowed pkg (update_status cluster pkg pending_status s)

  abbrev processed :
      Package → State W × Result (Unit {0}) Thrown → State W × Result (Unit {0}) Thrown
  processed pkg (s, ok u) = caught pkg (tried pkg s)
  processed pkg (s, err e) = (s, err e)

  unfoldable pub package_reconciler : Package → Call (State W) (Unit {0}) Thrown
  package_reconciler raw s =
      let pkg = migrate raw in
      let worked = processed pkg (back_off pkg s) in
      if should_skip s.seen raw then (s, ok tt) else worked

  -- Events can be written.
  abbrev pub CanReport : Type 0
  CanReport = (cr : Package) (e : Event) (w : W) → (cluster.create_event cr e w).1 ≡ ok tt

  reported :
      (pkg : Package) (p : State W × Result (Unit {0}) Thrown) → (report cluster pkg p).1 ≡ ok tt
  reported pkg (s, ok u) = refl
  reported pkg (s, err (Thrown.failure e)) = refl
  reported pkg (s, err Thrown.undefined) = refl

  after_event-ok :
      (pkg : Package) (p : State W × Result (Unit {0}) Thrown)
      → p.1 ≡ ok tt
      → (after_event cluster pkg p).1 ≡ ok tt
  after_event-ok pkg (s, ok u) h = reported pkg (update_status cluster pkg (failure_status pkg) s)
  after_event-ok pkg (s, err e) h = h

  handle_failure-ok :
      CanReport
      → (e : Failure) (pkg : Package) (s : State W)
      → (handle_failure cluster (Thrown.failure e) pkg s).1 ≡ ok tt
  unfolding handle_failure
  handle_failure-ok can e pkg s =
      let event = failure_event (or_else e.data_message e.message) in
      let told = after_event-ok pkg (write_event cluster pkg event s) (can pkg event s.world) in
      elim (Bool-cases (opt_nat_eq e.status (some 404))) [
        | inl gone ↦ rw gone refl
        | inr other ↦ rw other told
      ]

  -- What the reconciler makes of the end of its `try` block.
  abbrev pub outcome : Result (Unit {0}) Thrown → Result (Unit {0}) Thrown
  outcome (ok u) = ok tt
  outcome (err (Thrown.failure e)) = ok tt
  outcome (err Thrown.undefined) = err (type_error "status")

  caught-outcome :
      CanReport
      → (pkg : Package) (p : State W × Result (Unit {0}) Thrown) → (caught pkg p).1 ≡ outcome p.1
  unfolding handle_failure
  caught-outcome can pkg (s, ok u) = refl
  caught-outcome can pkg (s, err (Thrown.failure e)) = handle_failure-ok can e pkg s
  caught-outcome can pkg (s, err Thrown.undefined) = refl

  processed-outcome :
      CanReport
      → (pkg : Package) (p : State W × Result (Unit {0}) Thrown) → p.1 ≡ ok tt
      → (processed pkg p).1 ≡ outcome (tried pkg p.0).1
  processed-outcome can pkg (s, ok u) h = caught-outcome can pkg (tried pkg s)
  processed-outcome can pkg (s, err e) h = absurd (ground arith)

  -- `undefined` changes nothing.
  uncaught :
      (pkg : Package) (p : State W × Result (Unit {0}) Thrown)
      → p.1 ≡ err Thrown.undefined
      → (caught pkg p).0 ≡ p.0
  unfolding handle_failure
  uncaught pkg (s, ok u) h = refl
  uncaught pkg (s, err (Thrown.failure e)) h = absurd (ground arith)
  uncaught pkg (s, err Thrown.undefined) h = refl

  unhandled :
      (pkg : Package) (p : State W × Result (Unit {0}) Thrown)
      → p.1 ≡ ok tt
      → (tried pkg p.0).1 ≡ err Thrown.undefined
      → (processed pkg p).0 ≡ (tried pkg p.0).0
  unhandled pkg (s, ok u) h bad = uncaught pkg (tried pkg s) bad
  unhandled pkg (s, err e) h bad = absurd (ground arith)

  delayed-ok :
      (seconds : ℕ) (p : State W × Result (Unit {0}) Thrown)
      → p.1 ≡ ok tt
      → (delayed seconds p).1 ≡ ok tt
  delayed-ok seconds (s, ok u) h = refl
  delayed-ok seconds (s, err e) h = h

  back_off-ok : CanReport → (pkg : Package) (s : State W) → (back_off pkg s).1 ≡ ok tt
  unfolding back_off
  back_off-ok can pkg s =
      let seconds = pow3 (retry_of pkg.status) in
      let event = failure_event (some (waiting_message seconds)) in
      let told = delayed-ok seconds (write_event cluster pkg event s) (can pkg event s.world) in
      elim (Bool-cases (ltb 0 (retry_of pkg.status))) [
        | inl again ↦ rw again told
        | inr first ↦ rw first refl
      ]

  -- As long as events can be written, the reconciler of a package throws in one case only. It
  -- returns for a package that it skips, and when marking the package as pending and the flow
  -- succeed, and when one of them throws an error: this ends in the handling of failures, whose own
  -- update of the status may fail too. When one of them throws `undefined`, which retryWithDelay
  -- passes on, the handling of failures reads a property of it, and the reconciler throws a
  -- TypeError; nothing of the failure is then written to the status.
  pub package_reconciler-outcome :
      CanReport
      → (raw : Package) (s : State W)
      → (should_skip s.seen raw ≡ true → package_reconciler raw s ≡ (s, ok tt))
        × (should_skip s.seen raw ≡ false
            → (package_reconciler raw s).1
              ≡ outcome (tried (migrate raw) (back_off (migrate raw) s).0).1)
        × (should_skip s.seen raw ≡ false
            → (tried (migrate raw) (back_off (migrate raw) s).0).1 ≡ err Thrown.undefined
            → (package_reconciler raw s).0 ≡ (tried (migrate raw) (back_off (migrate raw) s).0).0)
  unfolding package_reconciler
  package_reconciler-outcome can raw s =
      let pkg = migrate raw in
      let due = back_off-ok can pkg s in
      (
        λ skipped. rw (skipped, package_reconciler) refl,
        λ now. rw (now, package_reconciler) (processed-outcome can pkg (back_off pkg s) due),
        λ now bad. rw (now, package_reconciler) (unhandled pkg (back_off pkg s) due bad),
      )
