-- ===== src/Cluster/Orphans/Laws.antt =====
-- What purgeOrphans deletes.
use mathlib.Core.Path.{subst}
use uds_core.Prelude.{
  ℕ, ◌<◌, String, some, List, [], ◌∷◌, filter, ok, err, ◌≡◌, ◌⊎◌, inl, inr, refl, arith, ap,
  Bool-cases, Result-cases,
}
use uds_core.Cluster.{Call}
use uds_core.Cluster.Retry.{Exit, returned, thrown, retry_with_delay}
use uds_core.Cluster.Retry.Laws.{before, AllFail, Fails, retry_with_delay-Ends}
use uds_core.Cluster.Orphans.{Resource, should_delete, purge_items, purge_orphans}

module _ {W : Type 0} {E : Type 0} (remove : Resource → Call W (Unit {0}) E) where
  -- All resources of a list are deleted one after another, up to the first error.
  abbrev pub delete_all : List Resource → W → W × Exit (Unit {0}) E
  delete_all [] w = (w, returned tt)
  delete_all (r ∷ rs) w = elim (remove r w).1 [
    | ok u ↦ delete_all rs (remove r w).0
    | err e ↦ ((remove r w).0, thrown e)
  ]

  abbrev pub orphans : String → List Resource → List Resource
  orphans generation rs = filter (should_delete generation) rs

  -- The loop deletes exactly the resources whose label is not the given generation, in the order
  -- of the list, up to the first error.
  pub purge_items-eq :
      (generation : String) (rs : List Resource) (w : W)
      → purge_items remove generation rs w ≡ delete_all (orphans generation rs) w
  unfolding purge_items
  purge_items-eq generation [] w = refl
  purge_items-eq generation (r ∷ rs) w = elim (Bool-cases (should_delete generation r)) [
    | inl old ↦ elim (Result-cases (remove r w).1) [
      | inl (u, e) ↦ rw old (rw e (purge_items-eq generation rs (remove r w).0))
      | inr (x, e) ↦ rw old (rw e refl)
    ]
    | inr current ↦ rw current (purge_items-eq generation rs w)
  ]

  module _ (list : Call W (List Resource) E) (wait : W → W) where
    -- The listing after `k` failures succeeds, and its orphans are deleted.
    pub record IsPurged (generation : String) (k : ℕ) (w : W) : Type 0 where
      pub listed : List Resource
      pub failed : AllFail list wait k w
      pub call : (list (before list wait k w)).1 ≡ ok listed
      pub given :
          purge_orphans remove list wait generation w
          ≡ some (delete_all (orphans generation listed) (list (before list wait k w)).0)

    -- No listing succeeds, and nothing is deleted.
    pub record IsRefused (generation : String) (w : W) : Type 0 where
      pub error : E
      pub failed : AllFail list wait 4 w
      pub call : (list (before list wait 4 w)).1 ≡ err error
      pub given :
          purge_orphans remove list wait generation w
          ≡ some ((list (before list wait 4 w)).0, thrown error)

    -- Purging comes to its end: either one of five listings succeeds, and exactly the resources of
    -- that listing whose label is not the given generation are deleted, in its order, up to the
    -- first error; or all five fail, nothing is deleted and the last error is thrown.
    pub purge_orphans-cases :
        (generation : String) (w : W)
        → ((k : ℕ) × (k < 5) × IsPurged generation k w) ⊎ IsRefused generation w
    unfolding purge_orphans
    purge_orphans-cases generation w = elim (retry_with_delay-Ends list wait 5 w (ground arith)) [
      | inl (k, s) ↦ inl (
        k,
        s.early,
        record {
          listed = s.result;
          failed = s.failed;
          call = s.call;
          given =
              rw s.given
                (ap some (purge_items-eq generation s.result (list (before list wait k w)).0));
        },
      )
      | inr (k, f) ↦
          let last : k ≡ 4 = let e = f.last in ground arith in
          let g = subst (λ j. Fails list wait 5 j w (retry_with_delay list wait 5 w)) last f in
          inr
            (record { error = g.error; failed = g.failed; call = g.call; given = rw g.given refl })
    ]
