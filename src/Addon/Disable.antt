-- ===== src/Addon/Disable.antt =====
-- pkg/cmd/addon/disable/exec.go.
pub mod Laws
use clusteradm.Base.{Bool, true, false, not, ◌&&◌, String, ◌<>◌, List, [], ◌∷◌, if◌then◌else◌}
use clusteradm.Effect.{
  Result, ok, err, Trace, Prog, Server, pure, fail, say, call, ◌>>=◌, ◌>>◌, attempt,
}
use clusteradm.Errors.{Errors}
use clusteradm.Hub.{Cluster, Call, Answer, list_clusters, delete_addon, Run, check_for_hub}
use clusteradm.Addon.{get_clusters}

pub record Options : Type 0 where
  pub names : List String
  pub clusters : List String
  pub all_clusters : Bool

abbrev pub is_empty : List String → Bool
is_empty [] = true
is_empty (x ∷ xs) = false

abbrev pub names_of : List Cluster → List String
names_of [] = []
names_of (cluster ∷ clusters) = cluster.name ∷ names_of clusters

module _ (X : Errors) (server : Server Call Answer X.Error) where
  open X use {Error, errorf, is_not_found}

  unfoldable pub validate_options : Options → Run X server (Unit {0})
  validate_options o =
      if is_empty o.names
      then fail (errorf "names is missing")
      else if not o.all_clusters && is_empty o.clusters
      then fail (errorf "clusters is missing")
      else if o.all_clusters && not (is_empty o.clusters)
      then fail (errorf "flag --all-clusters and --clusters can not be set together")
      else pure tt

  -- `Validate`
  unfoldable pub validate : Options → Run X server (Unit {0})
  validate o = do check_for_hub X server; validate_options o

  unfoldable pub deleted : String → String → Result Error (Unit {0}) → Run X server (Unit {0})
  deleted addon cluster (ok _) =
      say ("Undeploying " <> addon <> " add-on in managed cluster: " <> cluster <> ".\n")
  deleted addon cluster (err e) =
      if is_not_found e
      then say (addon <> " add-on not found in cluster: " <> cluster <> ".\n")
      else fail e

  -- The body of the loops.
  unfoldable pub delete_one : String → String → Run X server (Unit {0})
  delete_one addon cluster = do
    r ← attempt (call server (delete_addon cluster addon))
    deleted addon cluster r

  -- The inner loop, over the clusters.
  unfoldable pub delete_in : String → List String → Run X server (Unit {0})
  delete_in addon [] = pure tt
  delete_in addon (cluster ∷ clusters) = do delete_one addon cluster; delete_in addon clusters

  -- The outer loop, over the add-ons.
  unfoldable pub delete_addons : List String → List String → Run X server (Unit {0})
  delete_addons [] clusters = pure tt
  delete_addons (addon ∷ addons) clusters = do
    delete_in addon clusters
    delete_addons addons clusters

  -- `runWithClient`
  unfoldable pub run_with_client : List String → List String → Run X server (Unit {0})
  run_with_client addons clusters = do get_clusters X server clusters; delete_addons addons clusters

  -- `sets.NewString(xs...).List()` is a parameter.
  module _ (to_set : List String → List String) where
    unfoldable pub selected : Options → Run X server (List String)
    selected o =
        if o.all_clusters
        then (do items ← call server list_clusters; pure (to_set (names_of items)))
        else pure (to_set o.clusters)

    -- `Run`
    unfoldable pub run : Options → Run X server (Unit {0})
    run o = do clusters ← selected o; run_with_client (to_set o.names) clusters
