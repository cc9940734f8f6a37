-- ===== src/Namespaces/Pods.antt =====
-- killPods and restartPodsIfNeeded of pepr/operator/controllers/istio/namespace.ts. The listing and
-- the deletion of pods are calls of the cluster; `sort` stands for the sort by descending name.
pub mod Laws
use uds_core.Prelude.{
  String, Bool, true, false, not, ◌&&◌, ◌||◌, ◌==◌, Option, none, some, List, [], ◌∷◌, ◌++◌, any,
  given, truthy, get_or, Dict, lookup, insert, Result, ok, err, if◌then◌else◌,
}
use uds_core.Cluster.{Call}
use uds_core.Namespaces.{IstioState}

pub record Owner : Type 0 where
  pub kind : String
  pub uid : String
  pub controller : Bool

-- A pod: the names of its containers, and the lists empty where they are absent.
pub record Pod : Type 0 where
  pub name : Option String
  pub deletion_timestamp : Option String
  pub containers : List String
  pub init_containers : List String
  pub owner_references : List Owner

abbrev pub is_proxy : String → Bool
is_proxy name = name == "istio-proxy"

abbrev pub found_sidecar : Pod → Bool
found_sidecar p = any is_proxy p.containers || any is_proxy p.init_containers

-- The three `continue`s of the loop.
abbrev pub is_ignored : Bool → Pod → Bool
is_ignored want_sidecar p =
    given p.deletion_timestamp
    || (want_sidecar && found_sidecar p)
    || (not want_sidecar && not (found_sidecar p))

abbrev uid_or_other : String → String
uid_or_other uid = if truthy uid then uid else "other"

abbrev pub controlled_by : List Owner → String
controlled_by [] = "other"
controlled_by (o ∷ os) =
    let rest = controlled_by os in if o.controller then uid_or_other o.uid else rest

abbrev pub Groups : Type 0
Groups = Dict (List Pod)

-- `groups[controlledBy] = groups[controlledBy] || []` and the `push` after it.
abbrev pub push : String → Pod → Groups → Groups
push uid p groups = insert uid (get_or (lookup uid groups) [] ++ p ∷ []) groups

unfoldable pub group_pods : Bool → List Pod → Groups → Groups
group_pods want_sidecar [] groups = groups
group_pods want_sidecar (p ∷ ps) groups =
    group_pods want_sidecar ps (
      if is_ignored want_sidecar p
      then groups
      else push (controlled_by p.owner_references) p groups)

abbrev of_stateful_set : Pod → Bool
of_stateful_set p = any (λ o. o.kind == "StatefulSet") p.owner_references

-- One group, in the order of its deletion.
abbrev pub ordered : (List Pod → List Pod) → List Pod → List Pod
ordered sort [] = []
ordered sort (p ∷ ps) = if of_stateful_set p then sort (p ∷ ps) else p ∷ ps

unfoldable pub all_ordered : (List Pod → List Pod) → Groups → List Pod
all_ordered sort [] = []
all_ordered sort ((uid, group) ∷ groups) = ordered sort group ++ all_ordered sort groups

-- The pods in the order of their deletion.
unfoldable pub victims : (List Pod → List Pod) → Bool → List Pod → List Pod
victims sort want_sidecar pods = all_ordered sort (group_pods want_sidecar pods [])

module _ {W : Type 0} {E : Type 0} (remove : Pod → Call W (Unit {0}) E) where
  -- The first error ends the loop.
  unfoldable pub delete_pods : List Pod → W → W × Result (Unit {0}) E
  delete_pods [] w = (w, ok tt)
  delete_pods (p ∷ ps) w =
      let removed = remove p w in
      let after = delete_pods ps removed.0 in
      elim removed.1 [ ok u ↦ after | err e ↦ (removed.0, err e) ]

  module _ (list : Call W (List Pod) E) (sort : List Pod → List Pod) where
    unfoldable pub kill_pods : Bool → W → W × Result (Unit {0}) E
    kill_pods want_sidecar w =
        let listed = list w in
        elim listed.1 [
          | ok pods ↦ delete_pods (victims sort want_sidecar pods) listed.0
          | err e ↦ (listed.0, err e)
        ]

    abbrev wants_sidecar : IstioState → Bool
    wants_sidecar IstioState.sidecar = true
    wants_sidecar IstioState.ambient = false
    wants_sidecar IstioState.off = false

    unfoldable pub restart_pods_if_needed : Bool → Option IstioState → W → W × Result (Unit {0}) E
    restart_pods_if_needed false target w = (w, ok tt)
    restart_pods_if_needed true none w = (w, ok tt)
    restart_pods_if_needed true (some state) w = kill_pods (wants_sidecar state) w
