-- ===== src/Namespaces/Tests.antt =====
-- The pods of a namespace.
use uds_core.Prelude.{String, true, none, some, List, [], ◌∷◌, ok, err, ◌≡◌, refl}
use uds_core.Cluster.{Call}
use uds_core.Namespaces.Pods.{Pod, kill_pods}
use uds_core.Namespaces.Pods.Laws.{IsKilled, kill_pods-IsKilled}

abbrev owned : String → String → List String → Pod
owned name uid containers = record {
  name = some name;
  deletion_timestamp = none;
  containers = containers;
  init_containers = [];
  owner_references = record { kind = "StatefulSet"; uid = uid; controller = true } ∷ [];
}

abbrev same_order : List Pod → List Pod
same_order ps = ps

abbrev shop_pods : List Pod
shop_pods =
    owned "shop-0" "a" ("shop" ∷ [])
    ∷ owned "db-0" "b" ("db" ∷ "istio-proxy" ∷ [])
    ∷ owned "shop-1" "a" ("shop" ∷ [])
    ∷ []

-- A cluster that keeps the pods that were deleted, and refuses to delete the second of them.
abbrev list_shop : Call (List Pod) (List Pod) String
list_shop w = (w, ok shop_pods)

abbrev remove_first : Pod → Call (List Pod) (Unit {0}) String
remove_first p [] = (p ∷ [], ok tt)
remove_first p (q ∷ qs) = (q ∷ qs, err "no")

kill_pods-IsKilled_example :
    ((e : String)
      → (list_shop []).1 ≡ err e
      → kill_pods remove_first list_shop same_order true [] ≡ ([], err e))
    × ((pods : List Pod)
        → (list_shop []).1 ≡ ok pods
        → IsKilled remove_first true pods [] (kill_pods remove_first list_shop same_order true []))
kill_pods-IsKilled_example =
    kill_pods-IsKilled remove_first list_shop same_order (λ t ps. refl) true []
