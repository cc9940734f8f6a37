-- ===== src/Namespaces/Pods/Laws.antt =====
-- Which pods killPods deletes.
use uds_core.Prelude.{
  ℕ, ◌+◌, String, Bool, true, false, not, ◌&&◌, ◌||◌, some, List, [], ◌∷◌, ◌++◌, ◌==◌, filter,
  length, lookup, insert, get_or, ◌≡◌, ◌∙◌, refl, ap, arith, Bool-cases, inl, inr, given, ok, err,
  Result, Result-cases, if◌then◌else◌,
}
use uds_core.Cluster.{Call}
use uds_core.Namespaces.Pods.{
  Pod, is_ignored, controlled_by, found_sidecar, Groups, push, group_pods, ordered, all_ordered,
  victims, delete_pods, kill_pods,
}

-- How many pods pass a test.
abbrev pub count : (Pod → Bool) → List Pod → ℕ
count t ps = length (filter t ps)

abbrev one : Bool → ℕ
one b = if b then 1 else 0

-- A sort keeps every pod as often as it was.
abbrev pub Permutes : (List Pod → List Pod) → Type 0
Permutes sort = (t : Pod → Bool) (ps : List Pod) → count t (sort ps) ≡ count t ps

-- A pod that is not being deleted, whose sidecar is not what is wanted.
abbrev pub is_wrong : Bool → Pod → Bool
is_wrong want p =
    not (given p.deletion_timestamp) && (if want then not (found_sidecar p) else found_sidecar p)

count-append : (t : Pod → Bool) (ps qs : List Pod) → count t (ps ++ qs) ≡ count t ps + count t qs
count-append t [] qs = ground arith
count-append t (p ∷ ps) qs = ground (arith, count-append t ps qs)

-- The dictionary after a pod was pushed, by whether the first key is the one of the pod.
abbrev pushed : Bool → String → List Pod → String → Pod → Groups → Groups
pushed b j ps uid p groups =
    let pods = get_or (if b then some ps else lookup uid groups) [] ++ p ∷ [] in
    if b then (j, pods) ∷ groups else (j, ps) ∷ insert uid pods groups

push-eq :
    (j : String) (ps : List Pod) (uid : String) (p : Pod) (groups : Groups)
    → push uid p ((j, ps) ∷ groups) ≡ pushed (j == uid) j ps uid p groups
push-eq j ps uid p groups = refl

-- Tests that agree count the same.
count-agree :
    (t u : Pod → Bool) → ((p : Pod) → t p ≡ u p) → (ps : List Pod) → count t ps ≡ count u ps
count-agree t u e [] = refl
count-agree t u e (p ∷ ps) = ground (arith, e p, count-agree t u e ps)

wanted_test :
    (d f b : Bool) → (not (d || (true && f) || (not true && not f)) && b) ≡ ((not d && not f) && b)
wanted_test d f b = ground arith

unwanted_test :
    (d f b : Bool) → (not (d || (false && f) || (not false && not f)) && b) ≡ ((not d && f) && b)
unwanted_test d f b = ground arith

module _ (sort : List Pod → List Pod) (permutes : Permutes sort) (t : Pod → Bool) where
  count-ordered : (ps : List Pod) → count t (ordered sort ps) ≡ count t ps
  count-ordered [] = refl
  count-ordered (p ∷ ps) = ground (arith, permutes t (p ∷ ps))

  abbrev total : Groups → ℕ
  total groups = count t (all_ordered sort groups)

  total-cons :
      (uid : String) (ps : List Pod) (groups : Groups)
      → total ((uid, ps) ∷ groups) ≡ count t ps + total groups
  unfolding all_ordered
  total-cons uid ps groups =
      count-append t (ordered sort ps) (all_ordered sort groups)
      ∙ ap (λ n. n + total groups) (count-ordered ps)

  total-push :
      (uid : String) (p : Pod) (groups : Groups)
      → total (push uid p groups) ≡ total groups + one (t p)
  total-push uid p [] = ground (arith, total-cons uid (p ∷ []) [])
  total-push uid p ((j, ps) ∷ groups) = grown (total-push uid p groups) (j == uid)
    where
      grown :
          total (push uid p groups) ≡ total groups + one (t p)
          → (b : Bool) → total (pushed b j ps uid p groups) ≡ total ((j, ps) ∷ groups) + one (t p)
      grown h true = ground (
        arith,
        total-cons j (ps ++ p ∷ []) groups,
        total-cons j ps groups,
        count-append t ps (p ∷ []),
      )
      grown h false = ground (arith, total-cons j ps groups, total-cons j ps (push uid p groups))

  total-group_pods :
      (want : Bool) (ps : List Pod) (groups : Groups)
      → total (group_pods want ps groups)
        ≡ total groups + count (λ p. not (is_ignored want p) && t p) ps
  unfolding group_pods
  total-group_pods want [] groups = ground arith
  total-group_pods want (p ∷ ps) groups = elim (Bool-cases (is_ignored want p)) [
    | inl out ↦ rw out (total-group_pods want ps groups)
    | inr kept ↦ rw kept (
        ground (
          arith,
          total-group_pods want ps (push (controlled_by p.owner_references) p groups),
          total-push (controlled_by p.owner_references) p groups,
        ))
  ]

-- The pods that the groups hold, in any order: those that are not being deleted and whose sidecar
-- is not what is wanted, each as often as it was listed.
count-victims :
    (sort : List Pod → List Pod)
    → Permutes sort
    → (want : Bool) (pods : List Pod) (t : Pod → Bool)
    → count t (victims sort want pods)
      ≡ count
          (λ p.
            not (given p.deletion_timestamp)
            && (if want then not (found_sidecar p) else found_sidecar p)
            && t p)
          pods
unfolding victims all_ordered
count-victims sort permutes want pods t =
    ground (arith, total-group_pods sort permutes t want pods [])
    ∙ count-agree _ _ (agree want) pods
  where
    agree :
        (want : Bool) (p : Pod)
        → (not (is_ignored want p) && t p) ≡ (
            not (given p.deletion_timestamp)
            && (if want then not (found_sidecar p) else found_sidecar p)
            && t p)
    agree true p = wanted_test (given p.deletion_timestamp) (found_sidecar p) (t p)
    agree false p = unwanted_test (given p.deletion_timestamp) (found_sidecar p) (t p)

module _ {W : Type 0} {E : Type 0} (remove : Pod → Call W (Unit {0}) E) where
  -- One after another, each of the pods is deleted without an error.
  pub data Deletes : List Pod → W → W → Type 0 where
    none_left : {w : W} → Deletes [] w w
    deleted :
        {p : Pod} {ps : List Pod} {w w' : W}
        → (u : Unit {0}) → (remove p w).1 ≡ ok u
        → Deletes ps (remove p w).0 w'
        → Deletes (p ∷ ps) w w'

  -- How a deletion of pods ends: they all have been deleted, or the deletion of one has failed, and
  -- those behind it have not been tried.
  pub data Ends (w : W) : List Pod → W × Result (Unit {0}) E → Type 0 where
    all_deleted : {ps : List Pod} {w' : W} → Deletes ps w w' → Ends w ps (w', ok tt)
    stopped :
        {ps : List Pod} {w' : W}
        → Deletes ps w w'
        → (p : Pod) (rest : List Pod) (e : E) → (remove p w').1 ≡ err e
        → Ends w (ps ++ p ∷ rest) ((remove p w').0, err e)

  one_more :
      (p : Pod) (w : W) (u : Unit {0})
      → (remove p w).1 ≡ ok u
      → {ps : List Pod} {out : W × Result (Unit {0}) E} → Ends (remove p w).0 ps out
      → Ends w (p ∷ ps) out
  one_more p w u e (all_deleted d) = all_deleted (deleted u e d)
  one_more p w u e (stopped d q rest x bad) = stopped (deleted u e d) q rest x bad

  delete_pods-Ends : (ps : List Pod) (w : W) → Ends w ps (delete_pods remove ps w)
  unfolding delete_pods
  delete_pods-Ends [] w = all_deleted none_left
  delete_pods-Ends (p ∷ ps) w = elim (Result-cases (remove p w).1) [
    | inl (u, e) ↦ rw (e, delete_pods) (one_more p w u e (delete_pods-Ends ps (remove p w).0))
    | inr (x, e) ↦ rw (e, delete_pods) (stopped none_left p ps x e)
  ]

  -- The pods, in an order of their deletion, and how the deletion ends.
  pub record IsKilled (want : Bool) (pods : List Pod) (w : W) (out : W × Result (Unit {0}) E)
      : Type 0 where
    pub order : List Pod
    pub wrong : (t : Pod → Bool) → count t order ≡ count (λ p. is_wrong want p && t p) pods
    pub ends : Ends w order out

  module _ (list : Call W (List Pod) E) (sort : List Pod → List Pod)
      (permutes : Permutes sort) where
    -- killPods: when the listing fails, nothing is deleted and its error is thrown. Otherwise it
    -- deletes, in some order, the pods that are not being deleted and whose sidecar is not what is
    -- wanted, each as often as it was listed, and no other pod; it comes to the end of them, or
    -- stops with the error of the first deletion that fails, the pods behind that one untouched.
    -- The sort is supposed to keep every pod as often as it was.
    pub kill_pods-IsKilled :
        (want : Bool) (w : W)
        → ((e : E) → (list w).1 ≡ err e → kill_pods remove list sort want w ≡ ((list w).0, err e))
          × ((pods : List Pod)
              → (list w).1 ≡ ok pods
              → IsKilled want pods (list w).0 (kill_pods remove list sort want w))
    unfolding kill_pods
    kill_pods-IsKilled want w = (
      λ e h. rw (h, kill_pods) refl,
      λ pods h.
          rw (h, kill_pods)
            (record {
              order = victims sort want pods;
              wrong = count-victims sort permutes want pods;
              ends = delete_pods-Ends (victims sort want pods) (list w).0;
            }),
    )
