-- ===== src/Reconcilers/Failures.antt =====
-- A package that fails again and again is tried five times, and then left alone until it changes.
use uds_core.Prelude.{ℕ, zero, suc, String, true, false, some, List, includes, ◌≡◌}
use uds_core.Crd.Package.{Package, Phase}
use uds_core.Reconcilers.{
  Patch, phase_of, observed_of, retry_of, uid_of, should_skip, migrated_status, pending_status,
  failure_status,
}

-- What the cluster documents of a patch of the status: the fields that it gives are set, and the
-- metadata stays.
pub record Merges (merged : Package → Patch → Package) : Type 0 where
  pub phase : (cr : Package) (p : Patch) → phase_of (merged cr p).status ≡ some p.phase
  pub retry :
      (cr : Package) (p : Patch) (n : ℕ)
      → p.retry_attempt ≡ some n
      → retry_of (merged cr p).status ≡ n
  pub observed :
      (cr : Package) (p : Patch) (g : ℕ)
      → p.observed_generation ≡ some g
      → observed_of (merged cr p).status ≡ some g
  pub generation : (cr : Package) (p : Patch) → (merged cr p).generation ≡ cr.generation
  pub uid : (cr : Package) (p : Patch) → (merged cr p).uid ≡ cr.uid

module _ (merged : Package → Patch → Package) (laws : Merges merged) where
  -- The package after packageReconciler has marked it as pending, the flow has failed, and
  -- handleFailure has patched the status by what it was before.
  abbrev pub failed_once : Package → Package
  failed_once cr =
      merged (merged cr (migrated_status cr pending_status))
        (migrated_status cr (failure_status cr))

  abbrev pub fail_times : ℕ → Package → Package
  fail_times zero cr = cr
  fail_times (suc n) cr = fail_times n (failed_once cr)

  -- A failure that is followed by another attempt.
  pub record IsRetried (attempt : ℕ) (cr : Package) : Type 0 where
    pub phase : phase_of cr.status ≡ some Phase.retrying
    pub attempts : retry_of cr.status ≡ attempt
    pub not_skipped : (seen : List String) → should_skip seen cr ≡ false

  -- The failure that ends the attempts.
  pub record IsGivenUp (cr : Package) : Type 0 where
    pub phase : phase_of cr.status ≡ some Phase.failed
    pub attempts : retry_of cr.status ≡ 0
    pub skipped :
        (seen : List String) → includes seen (uid_of cr) ≡ true → should_skip seen cr ≡ true
