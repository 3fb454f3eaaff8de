-- ===== src/Get/Cluster.antt =====
-- pkg/cmd/get/cluster/exec.go: the managed clusters, all or those of a cluster set.
use clusteradm.Base.{
  Bytes, bytes, Bool, String, Option, none, some, List, [], ◌∷◌, ◌++◌, map, if◌then◌else◌,
}
use clusteradm.Effect.{Prog, Server, pure, fail, call, ◌>>=◌, ◌>>◌}
use clusteradm.Errors.{Errors}
use clusteradm.Printer.TreePrinter.{Fields, Gotree, TreePrinter}
use clusteradm.Printer.PrinterOption.{Stop, returned, Table, PrinterOption, validate, print_list}
use clusteradm.Get.{Value, text, flag, Condition, Tools, get_values, stop_by, add_items, is_empty}
use clusteradm.Get.GoMap.{value_at}

-- The quantities of the capacity are the texts that they print as.
pub record ManagedCluster : Type 0 where
  pub name : Bytes
  pub labels : List (Bytes × Bytes)
  pub hub_accepts_client : Bool
  pub kubernetes_version : Bytes
  pub capacity : List (Bytes × Bytes)
  pub conditions : List Condition

-- A label selector is empty for all clusters.
pub data Call : Type 0 where
  get_cluster_set : Bytes → Call
  list_clusters : Bytes → Call
  print_table : Table Value → Call
  print_yaml : ManagedCluster → Call

abbrev pub Answer : Call → Type 0
Answer (get_cluster_set name) = Unit {0}
Answer (list_clusters label_selector) = List ManagedCluster
Answer (print_table table) = Unit {0}
Answer (print_yaml cluster) = Unit {0}

abbrev status_of : Option Condition → Bytes
status_of none = []
status_of (some condition) = condition.status

-- A lookup whose zero value is the empty text
abbrev text_at : Bytes → List (Bytes × Bytes) → Bytes
text_at k m = elim (value_at k m) [ none ↦ [] | some v ↦ v ]

-- The results of `getFileds`
pub record ClusterFields : Type 0 where
  pub accepted : Bool
  pub available : Bytes
  pub version : Bytes
  pub cpu : Bytes
  pub memory : Bytes
  pub clusterset : Bytes

abbrev clusterset_label : Bytes
clusterset_label = bytes "cluster.open-cluster-management.io/clusterset"

-- `if len(cluster.Labels) > 0`
abbrev clusterset_of : List (Bytes × Bytes) → Bytes
clusterset_of [] = []
clusterset_of (l ∷ labels) = text_at clusterset_label (l ∷ labels)

module _ (tools : Tools) where
  -- `getFileds`
  abbrev pub get_fields : ManagedCluster → ClusterFields
  get_fields cluster = record {
    accepted = cluster.hub_accepts_client;
    available =
        status_of (
          tools.find_status_condition cluster.conditions
            (bytes "ManagedClusterConditionAvailable"));
    version = cluster.kubernetes_version;
    cpu = text_at (bytes "cpu") cluster.capacity;
    memory = text_at (bytes "memory") cluster.capacity;
    clusterset = clusterset_of cluster.labels;
  }

  -- The map `mp` of one cluster
  abbrev pub fields : ManagedCluster → Fields Value
  fields cluster =
      let f = get_fields cluster in
      (bytes ".Accepted", some (flag f.accepted))
      ∷ (bytes ".Available", some (text f.available))
      ∷ (bytes ".ClusterSet", some (text f.clusterset))
      ∷ (bytes ".KubernetesVersion", some (text f.version))
      ∷ (bytes ".Capacity.Cpu", some (text f.cpu))
      ∷ (bytes ".Capacity.Memory", some (text f.memory))
      ∷ []

  -- The cells of one cluster
  abbrev pub cells : ManagedCluster → List Value
  cells cluster =
      let f = get_fields cluster in
      text cluster.name
      ∷ flag f.accepted
      ∷ text f.available
      ∷ text f.clusterset
      ∷ text f.cpu
      ∷ text f.memory
      ∷ text f.version
      ∷ []

  unfoldable pub convert_to_tree : List ManagedCluster → TreePrinter Value → TreePrinter Value
  unfolding add_items
  convert_to_tree clusters tree = add_items tools (λ cluster. cluster.name) fields clusters tree

  unfoldable pub convert_to_table : List ManagedCluster → Table Value
  convert_to_table clusters = record {
    columns =
        "Name" ∷ "Accepted" ∷ "Available" ∷ "ClusterSet" ∷ "CPU" ∷ "Memory" ∷ "Kubernetes Version"
        ∷ [];
    rows = map cells clusters;
  }

module _ (X : Errors) (tools : Tools) (server : Server Call Answer X.Error) where
  -- `validate`, after the check for a hub
  unfoldable pub check_options :
      List String → PrinterOption Value → Prog Call (Stop X.Error) (Unit {0})
  unfolding validate
  check_options [] printer = validate X printer
  check_options (arg ∷ args) printer = fail (returned (X.errorf "there should be no argument"))

  -- The label selector of `run`, after the lookup of the cluster set that is named.
  unfoldable pub selector : Bytes → Prog Call (Stop X.Error) Bytes
  selector clusterset =
      if is_empty clusterset
      then pure []
      else stop_by returned (call server (get_cluster_set clusterset))
        >> pure (clusterset_label ++ b'=' ∷ clusterset)

  -- `run`
  unfoldable pub run : Gotree → Bytes → PrinterOption Value → Prog Call (Stop X.Error) (Unit {0})
  unfolding selector convert_to_tree convert_to_table
  run G clusterset printer =
      selector clusterset
      >>= (λ label_selector. stop_by returned (call server (list_clusters label_selector)))
      >>= print_list X (get_values tools) G (λ t. stop_by returned (call server (print_table t)))
          (λ cluster. stop_by returned (call server (print_yaml cluster))) printer
          (record {
            to_tree = λ clusters tree. pure (convert_to_tree tools clusters tree);
            to_table = λ clusters. pure (convert_to_table tools clusters);
          })
