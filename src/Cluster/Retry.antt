-- ===== src/Cluster/Retry.antt =====
-- retryWithDelay of pepr/operator/controllers/utils.ts. `wait` is what happens to the state of the
-- cluster during a delay; the log is left out.
pub mod Laws
use uds_core.Prelude.{
  ℕ, zero, suc, Bool, true, false, Option, none, some, Result, ok, err, ltb, leb, if◌then◌else◌,
}
use uds_core.Cluster.{Call}

-- How the loop is left: a result, the error of a call, or the error behind the loop.
pub data Exit {ℓ} (A : Type ℓ) (E : Type 0) : Type ℓ where
  returned : A → Exit A E
  thrown : E → Exit A E
  unexpected : Exit A E

module _ {W : Type 0} {A : Type 0} {E : Type 0} (fn : Call W A E) (wait : W → W) where
  -- The fuel bounds the rounds of the loop; `none` says that there was not enough.
  unfoldable pub retry_loop : ℕ → ℕ → ℕ → W → Option (W × Exit A E)
  retry_loop zero retries attempt w = none
  retry_loop (suc fuel) retries attempt w =
      let called = fn w in
      let later = retry_loop fuel retries (suc attempt) (wait called.0) in
      if ltb attempt retries
      then elim called.1 [
        | ok a ↦ some (called.0, returned a)
        | err e ↦ if leb retries (suc attempt) then some (called.0, thrown e) else later
      ]
      else some (w, unexpected)

  unfoldable pub retry_with_delay : ℕ → W → Option (W × Exit A E)
  retry_with_delay retries w = retry_loop (suc retries) retries 0 w
