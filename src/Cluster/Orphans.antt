-- ===== src/Cluster/Orphans.antt =====
-- purgeOrphans of pepr/operator/controllers/utils.ts. The query and the deletion are calls of the
-- cluster; `list` stands for the query with its labels.
pub mod Laws
use uds_core.Prelude.{
  String, Bool, true, false, not, Option, none, some, List, [], ◌∷◌, lookup, opt_eq, Result, ok,
  err, if◌then◌else◌, Dict,
}
use uds_core.Cluster.{Call}
use uds_core.Cluster.Retry.{Exit, returned, thrown, unexpected, retry_with_delay}

pub record Resource : Type 0 where
  pub name : String
  pub labels : Option (Dict String)

-- `metadata?.labels?.["uds/generation"]`
abbrev pub generation_of : Option (Dict String) → Option String
generation_of none = none
generation_of (some ls) = lookup "uds/generation" ls

abbrev pub should_delete : String → Resource → Bool
should_delete generation r = not (opt_eq (generation_of r.labels) generation)

module _ {W : Type 0} {E : Type 0} (remove : Resource → Call W (Unit {0}) E) where
  -- The loop over the resources: an error ends it.
  unfoldable pub purge_items : String → List Resource → W → W × Exit (Unit {0}) E
  purge_items generation [] w = (w, returned tt)
  purge_items generation (r ∷ rs) w =
      let removed = remove r w in
      let after = purge_items generation rs removed.0 in
      let kept = purge_items generation rs w in
      if should_delete generation r
      then elim removed.1 [ ok u ↦ after | err e ↦ (removed.0, thrown e) ]
      else kept

  module _ (list : Call W (List Resource) E) (wait : W → W) where
    abbrev purge_listed :
        String → Option (W × Exit (List Resource) E) → Option (W × Exit (Unit {0}) E)
    purge_listed generation none = none
    purge_listed generation (some (w, returned rs)) = some (purge_items generation rs w)
    purge_listed generation (some (w, thrown e)) = some (w, thrown e)
    purge_listed generation (some (w, unexpected)) = some (w, unexpected)

    unfoldable pub purge_orphans : String → W → Option (W × Exit (Unit {0}) E)
    purge_orphans generation w = purge_listed generation (retry_with_delay list wait 5 w)
