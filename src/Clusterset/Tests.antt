-- ===== src/Clusterset/Tests.antt =====
-- A hub with one cluster set and one cluster, and the theorems on the cluster set commands at it.
use clusteradm.Base.{true, false, [], ◌∷◌, All}
use clusteradm.Effect.{ok, err, Server}
use clusteradm.Effect.Emits.{Emits}
use clusteradm.Errors.{Status, not_found, already_exists, status_errors}
use clusteradm.Hub.{
  deleted, modified, Call, Answer, server_resources, get_cluster_set, create_cluster_set,
  delete_cluster_set, watch_cluster_set, list_bindings, create_binding, delete_binding, get_cluster,
  list_clusters, update_cluster, delete_addon, apply_addon, write_output,
}
use clusteradm.Clusterset.Delete.{delete}
use clusteradm.Clusterset.Set.{set}
use clusteradm.Clusterset.Safety.{Deletes, MayDelete, delete-MayDelete}
use clusteradm.Clusterset.Labels.{Moves, set-Moves}

abbrev hub : Server Call Answer Status
hub h (server_resources group_version) = ok ("managedclusters" ∷ [])
hub h (get_cluster_set name) = ok tt
hub h (create_cluster_set name) = err (already_exists name)
hub h (delete_cluster_set name) = ok tt
hub h (watch_cluster_set name) = ok (modified ∷ deleted ∷ [])
hub h (list_bindings name) = ok []
hub h (create_binding binding) = err (already_exists binding.name)
hub h (delete_binding namespace name) = err (not_found name)
hub h (get_cluster name) = ok (record {
  name = name;
  labels = ("cluster.open-cluster-management.io/clusterset", "default") ∷ ("cloud", "aws") ∷ [];
})
hub h list_clusters = ok []
hub h (update_cluster cluster) = ok tt
hub h (delete_addon cluster addon) = err (not_found addon)
hub h (apply_addon dry_run info) = ok []
hub h (write_output file output) = ok tt

delete-MayDelete_example :
    All
      (Deletes status_errors hub "dev" (MayDelete status_errors hub false "dev" []))
      (delete status_errors hub true false "dev" []).1
delete-MayDelete_example = delete-MayDelete status_errors hub true false "dev" []

set-Moves_example :
    Emits
      (Moves status_errors hub (record { clusterset = "dev"; clusters = "c1" ∷ "c2" ∷ [] }))
      (set status_errors hub (record { clusterset = "dev"; clusters = "c1" ∷ "c2" ∷ [] }))
set-Moves_example =
    set-Moves status_errors hub (record { clusterset = "dev"; clusters = "c1" ∷ "c2" ∷ [] })
