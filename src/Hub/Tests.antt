-- ===== src/Hub/Tests.antt =====
-- A hub that serves managed clusters and no cluster claims.
use clusteradm.Base.{[], ◌∷◌}
use clusteradm.Effect.{ok, err, Server}
use clusteradm.Errors.{Status, not_found}
use clusteradm.Hub.{
  Call, Answer, server_resources, get_cluster_set, create_cluster_set, delete_cluster_set,
  watch_cluster_set, list_bindings, create_binding, delete_binding, get_cluster, list_clusters,
  update_cluster, delete_addon, apply_addon, write_output,
}

abbrev hub : Server Call Answer Status
hub h (server_resources group_version) = ok ("managedclusters" ∷ "managedclustersets" ∷ [])
hub h (get_cluster_set name) = err (not_found name)
hub h (create_cluster_set name) = ok tt
hub h (delete_cluster_set name) = ok tt
hub h (watch_cluster_set name) = ok []
hub h (list_bindings name) = ok []
hub h (create_binding binding) = ok tt
hub h (delete_binding namespace name) = ok tt
hub h (get_cluster name) = err (not_found name)
hub h list_clusters = ok []
hub h (update_cluster cluster) = ok tt
hub h (delete_addon cluster addon) = ok tt
hub h (apply_addon dry_run info) = ok []
hub h (write_output file output) = ok tt
