-- ===== src/Install.antt =====
-- The installation of a hub and of a managed cluster: pkg/cmd/init/exec.go, pkg/cmd/join/exec.go, and
-- their waits in pkg/helpers/wait/wait.go and pkg/helpers/client.go.
pub mod Waits
pub mod Init
pub mod Validate
pub mod Join
pub mod Ordered
pub mod Joined
mod Tests
use clusteradm.Base.{Bool, String, List, [], ◌∷◌}

-- A watch's event on a pod: whether its object is a pod, and the conditions of it by type and status.
pub record PodEvent : Type 0 where
  pub is_pod : Bool
  pub conditions : List (String × String)

-- The calls to the applier, with its dry-run flag and its files; to the API server, where a CRD is
-- answered by whether it is established; and to the configuration and the writers of the output.
pub data Call : Type 0 where
  apply_directly : Bool → List String → Call
  apply_deployments : Bool → String → Call
  apply_custom_resources : Bool → String → Call
  get_crd : String → Call
  watch_pods : String → String → Call
  create_token : String → String → Call
  rest_config : Call
  write_join_command : String → String → Call
  write_json : String → String → Call
  write_output : String → List String → Call

abbrev pub Answer : Call → Type 0
Answer (apply_directly dry_run files) = List String
Answer (apply_deployments dry_run file) = List String
Answer (apply_custom_resources dry_run file) = List String
Answer (get_crd name) = Bool
Answer (watch_pods namespace selector) = List PodEvent
Answer (create_token namespace name) = String
Answer rest_config = String
Answer (write_join_command file command) = Unit {0}
Answer (write_json token host) = Unit {0}
Answer (write_output file output) = Unit {0}
