-- ===== src/Install/Tests.antt =====
-- A hub that is initialised, and a managed cluster that joins it, in the foreground.
use clusteradm.Base.{true, false, String, List, [], ◌∷◌, Bool, text_eq, if◌then◌else◌}
use clusteradm.Effect.{ok, Prog, Server}
use clusteradm.Effect.Emits.{Emits}
use clusteradm.Errors.{Status, status_errors}
use clusteradm.Retry.{retry_rounds, retry_rounds-IsRetry}
use clusteradm.Install.{
  Call, Answer, apply_directly, apply_deployments, apply_custom_resources, get_crd, watch_pods,
  create_token, rest_config, write_join_command, write_json, write_output,
}
use clusteradm.Install.Init
use clusteradm.Install.Ordered.{InOrder, init-InOrder}
use clusteradm.Install.Join
use clusteradm.Install.Joined.{JoinOrder, join-JoinOrder}

abbrev cluster : Server Call Answer Status
cluster h (apply_directly dry_run files) = ok files
cluster h (apply_deployments dry_run file) = ok (file ∷ [])
cluster h (apply_custom_resources dry_run file) = ok (file ∷ [])
cluster h (get_crd name) = ok true
cluster h (watch_pods namespace selector) =
    ok ((record { is_pod = true; conditions = ("Ready", "True") ∷ [] }) ∷ [])
cluster h (create_token namespace name) = ok "token"
cluster h rest_config = ok "https://hub:6443"
cluster h (write_join_command file command) = ok tt
cluster h (write_json token host) = ok tt
cluster h (write_output file output) = ok tt

-- The condition of a type is there with the status True.
abbrev is_true : List (String × String) → String → Bool
is_true [] wanted = false
is_true (condition ∷ conditions) wanted =
    if text_eq condition.0 wanted then text_eq condition.1 "True" else is_true conditions wanted

abbrev retry : Prog Call Status (Unit {0}) → Prog Call Status (Unit {0})
retry = retry_rounds 3

abbrev options : Init.Options
options = record {
  dry_run = false;
  wait = true;
  force = false;
  context = "";
  registry = "quay.io/open-cluster-management";
  bundle_version = "default";
  use_bootstrap_token = false;
  token_id = "abcdef";
  token_secret = "0123456789abcdef";
  output = "text";
  output_file = "";
  output_join_command_file = "join.sh";
}

init-InOrder_example :
    Emits
      (InOrder status_errors cluster options)
      (Init.run status_errors "clusteradm" cluster retry is_true options)
init-InOrder_example =
    init-InOrder status_errors cluster retry is_true "clusteradm" (retry_rounds-IsRetry 3) options

abbrev join_options : Join.Options
join_options = record { dry_run = false; wait = true; cluster_name = "c1"; output_file = "" }

join-JoinOrder_example :
    Emits
      (JoinOrder status_errors cluster join_options)
      (Join.run status_errors "clusteradm" cluster retry is_true join_options)
join-JoinOrder_example =
    join-JoinOrder status_errors cluster "clusteradm" retry is_true (retry_rounds-IsRetry 3)
      join_options
