-- ===== src/Clusterset/Set.antt =====
-- pkg/cmd/clusterset/set/exec.go.
use clusteradm.Base.{String, ◌<>◌, List, [], ◌∷◌, text_eq, if◌then◌else◌}
use clusteradm.Effect.{Server, pure, fail, say, call, ◌>>=◌, ◌>>◌}
use clusteradm.Errors.{Errors}
use clusteradm.Hub.{
  Labels, Cluster, Call, Answer, get_cluster_set, get_cluster, update_cluster, Run, check_for_hub,
}

pub record Options : Type 0 where
  pub clusterset : String
  pub clusters : List String

abbrev pub clusterset_label : String
clusterset_label = "cluster.open-cluster-management.io/clusterset"

-- `labels[key]`, the empty text where the key is missing
unfoldable pub label : String → Labels → String
label key [] = ""
label key ((k, v) ∷ labels) = let rest = label key labels in if text_eq k key then v else rest

-- `labels[key] = value`
unfoldable pub set_label : String → String → Labels → Labels
set_label key value [] = (key, value) ∷ []
set_label key value ((k, v) ∷ labels) =
    if text_eq k key then (k, value) ∷ labels else (k, v) ∷ set_label key value labels

module _ (X : Errors) (server : Server Call Answer X.Error) where
  open X use {Error, errorf}

  -- `Validate`
  unfoldable pub validate : Options → Run X server (Unit {0})
  validate o = do
    check_for_hub X server
    elim o.clusters [
      | [] ↦ fail (errorf "cluster name must be specified in --clusters")
      | _ ↦ pure tt
    ]

  -- The update of a cluster whose label was `old`.
  unfoldable pub relabel : Options → String → String → Cluster → Run X server (Unit {0})
  relabel o name old cluster = do
    call server (
        update_cluster
          (record cluster { labels = set_label clusterset_label o.clusterset cluster.labels }))
    say (
        if text_eq old ""
        then "Cluster " <> name <> " is set to Clusterset " <> o.clusterset <> "\n"
        else "Cluster " <> name <> " is set, from ClusterSet " <> old <> " to Clusterset "
          <> o.clusterset <> "\n")

  -- The body of the loop, once the cluster is read.
  unfoldable pub move_cluster : Options → String → Cluster → Run X server (Unit {0})
  move_cluster o name cluster =
      let old = label clusterset_label cluster.labels in
      if text_eq old o.clusterset
      then say ("Cluster " <> name <> " is already in Clusterset " <> o.clusterset <> "\n")
      else relabel o name old cluster

  unfoldable pub move_clusters : Options → List String → Run X server (Unit {0})
  move_clusters o [] = pure tt
  move_clusters o (name ∷ names) = do
    cluster ← call server (get_cluster name)
    move_cluster o name cluster
    move_clusters o names

  -- `Run`
  unfoldable pub set : Options → Run X server (Unit {0})
  set o = do call server (get_cluster_set o.clusterset); move_clusters o o.clusters
