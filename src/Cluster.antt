-- ===== src/Cluster.antt =====
-- How the operator's helpers call the cluster (pepr/operator/controllers/utils.ts). A call takes
-- the state of the cluster and gives the state after it, with a result or an error.
pub mod Retry
pub mod Orphans
pub mod Tests
use uds_core.Prelude.{Result}

abbrev pub Call {ℓ κ} : Type ℓ → Type κ → Type 0 → Type (ℓ ⊔ κ)
Call W A E = W → W × Result A E
