-- ===== src/Cluster/Tests.antt =====
-- Runs of the calls of the cluster.
use uds_core.Prelude.{
  ℕ, ◌<◌, ◌-◌, String, none, some, List, [], ◌∷◌, ok, err, ◌⊎◌, arith, nat_eq, if◌then◌else◌,
}
use uds_core.Cluster.{Call}
use uds_core.Cluster.Retry.{retry_with_delay}
use uds_core.Cluster.Retry.Laws.{Ends, retry_with_delay-Ends}
use uds_core.Cluster.Orphans.{Resource}
use uds_core.Cluster.Orphans.Laws.{IsPurged, IsRefused, purge_orphans-cases}

-- A cluster that refuses a number of calls before it answers.
abbrev answer {ℓ} : {A : Type ℓ} → A → Call ℕ A String
answer a n = if nat_eq n 0 then (0, ok a) else (n - 1, err "busy")

retry_with_delay-Ends_example :
    Ends {W = ℕ} {A = ℕ} {E = String}
      (answer 7)
      (λ n. n)
      5
      3
      (retry_with_delay (answer 7) (λ n. n) 5 3)
retry_with_delay-Ends_example = retry_with_delay-Ends (answer 7) (λ n. n) 5 3 (ground arith)

abbrev listing : List Resource
listing =
    record { name = "old"; labels = some (("uds/generation", "1") ∷ []) }
    ∷ record { name = "new"; labels = some (("uds/generation", "2") ∷ []) }
    ∷ record { name = "bare"; labels = none }
    ∷ []

purge_orphans-cases_example :
    ((k : ℕ) × (k < 5) × IsPurged (λ r. answer tt) (answer listing) (λ n. n) "2" k 3)
    ⊎ IsRefused (λ r. answer tt) (answer listing) (λ n. n) "2" 3
purge_orphans-cases_example = purge_orphans-cases (λ r. answer tt) (answer listing) (λ n. n) "2" 3
