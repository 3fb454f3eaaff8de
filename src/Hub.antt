-- ===== src/Hub.antt =====
-- The calls that the commands on cluster sets and add-ons make to the hub's API server, with the
-- objects that they carry; and pkg/helpers/check/check.go, which looks whether it is a hub.
pub mod Resources
mod Tests
use clusteradm.Base.{not, Bool, true, false, String, ◌<>◌, List, [], ◌∷◌, text_eq, if◌then◌else◌}
use clusteradm.Effect.{Result, ok, err, Prog, Server, pure, fail, call, ◌>>=◌, attempt}
use clusteradm.Errors.{Errors}

-- The labels of an object; a nil map is an empty list.
abbrev pub Labels : Type 0
Labels = List (String × String)

pub record Cluster : Type 0 where
  pub name : String
  pub labels : Labels

pub record ClusterSetBinding : Type 0 where
  pub name : String
  pub namespace : String
  pub cluster_set : String

pub data WatchEvent : Type 0 where
  added modified deleted bookmark error : WatchEvent

-- What the applier's template for an add-on is filled with.
pub record ClusterAddonInfo : Type 0 where
  pub cluster_name : String
  pub namespace : String
  pub addon_name : String
  pub annotations : Labels

pub data Call : Type 0 where
  server_resources : String → Call
  get_cluster_set : String → Call
  create_cluster_set : String → Call
  delete_cluster_set : String → Call
  watch_cluster_set : String → Call
  list_bindings : String → Call
  create_binding : ClusterSetBinding → Call
  delete_binding : String → String → Call
  get_cluster : String → Call
  list_clusters : Call
  update_cluster : Cluster → Call
  delete_addon : String → String → Call
  apply_addon : Bool → ClusterAddonInfo → Call
  write_output : String → List String → Call

-- A watch answers the events until its channel is closed.
abbrev pub Answer : Call → Type 0
Answer (server_resources group_version) = List String
Answer (get_cluster_set name) = Unit {0}
Answer (create_cluster_set name) = Unit {0}
Answer (delete_cluster_set name) = Unit {0}
Answer (watch_cluster_set name) = List WatchEvent
Answer (list_bindings name) = List ClusterSetBinding
Answer (create_binding binding) = Unit {0}
Answer (delete_binding namespace name) = Unit {0}
Answer (get_cluster name) = Cluster
Answer list_clusters = List Cluster
Answer (update_cluster cluster) = Unit {0}
Answer (delete_addon cluster addon) = Unit {0}
Answer (apply_addon dry_run info) = List String
Answer (write_output file output) = Unit {0}

-- A call that changes the hub.
abbrev pub is_write : Call → Bool
is_write (create_cluster_set name) = true
is_write (delete_cluster_set name) = true
is_write (create_binding binding) = true
is_write (delete_binding namespace name) = true
is_write (update_cluster cluster) = true
is_write (delete_addon cluster addon) = true
is_write (apply_addon dry_run info) = not dry_run
is_write _ = false

abbrev pub managed_cluster_resource_name : String
managed_cluster_resource_name = "managedclusters"

abbrev pub cluster_claim_resource_name : String
cluster_claim_resource_name = "clusterclaims"

abbrev pub group_version : String
group_version = "cluster.open-cluster-management.io/v1"

-- `findResource`
unfoldable pub find_resource : List String → String → Bool
find_resource [] name = false
find_resource (item ∷ items) name =
    let rest = find_resource items name in if text_eq item name then true else rest

module _ (X : Errors) (server : Server Call Answer X.Error) where
  open X use {Error, errorf, is_not_found}

  abbrev pub Run : Type 0 → Type 0
  Run A = Prog Call Error A

  unfoldable pub check_resource : String → String → Result Error (List String) → Run (Unit {0})
  check_resource resource message (err e) =
      if is_not_found e
      then fail (errorf message)
      else fail (errorf ("failed to list GroupVersion: " <> group_version))
  check_resource resource message (ok list) =
      if find_resource list resource then pure tt else fail (errorf message)

  -- `CheckForHub`
  unfoldable pub check_for_hub : Run (Unit {0})
  check_for_hub = do
    r ← attempt (call server (server_resources group_version))
    check_resource managed_cluster_resource_name
        "hub oriented command should not running against non-hub cluster" r

  -- `CheckForManagedCluster`
  unfoldable pub check_for_managed_cluster : Run (Unit {0})
  check_for_managed_cluster = do
    r ← attempt (call server (server_resources group_version))
    check_resource cluster_claim_resource_name
        "managed cluster oriented command should not running against non-managed cluster" r

  -- `if err != nil && !errors.IsNotFound(err)`
  unfoldable pub unless_not_found : Result Error (Unit {0}) → Run (Unit {0})
  unless_not_found (ok _) = pure tt
  unless_not_found (err e) = if is_not_found e then pure tt else fail e
