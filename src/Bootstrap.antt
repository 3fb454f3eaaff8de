-- ===== src/Bootstrap.antt =====
-- How `join` finds out how to reach the hub: `complete` and `validate` of pkg/cmd/join/exec.go, and
-- GetAPIServer and GetCACert of pkg/helpers/client.go.
pub mod ClusterInfo
pub mod Complete
pub mod Sources
pub mod Built
pub mod Laws
mod Tests
use clusteradm.Base.{String, List, text_eq, if◌then◌else◌, [], ◌∷◌}
use clusteradm.Kubeconfig.{Config}

-- The cluster that is asked: the hub with no check of its certificate, or the managed cluster.
pub data Client : Type 0 where
  unsecured_hub managed_cluster : Client

pub data Call : Type 0 where
  read_file : String → Call
  create_client : Config → Call
  kubernetes_client_set : Call
  get_config_map : Client → String → String → Call

-- The data of a ConfigMap; a key that is not there reads as an empty text.
abbrev pub Data : Type 0
Data = List (String × String)

abbrev pub data_at : String → Data → String
data_at key [] = ""
data_at key ((k, v) ∷ rest) = if text_eq k key then v else data_at key rest

abbrev pub Answer : Call → Type 0
Answer (read_file path) = String
Answer (create_client config) = Unit {0}
Answer kubernetes_client_set = Unit {0}
Answer (get_config_map client namespace name) = Data
