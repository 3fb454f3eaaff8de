-- ===== src/Upgrade/Tests.antt =====
-- Both upgrades, in a real run that waits.
use clusteradm.Base.{true, false, [], ◌∷◌}
use clusteradm.Effect.{ok, Prog, Server}
use clusteradm.Effect.Emits.{Emits}
use clusteradm.Errors.{Status, status_errors}
use clusteradm.Retry.{retry_rounds, retry_rounds-IsRetry}
use clusteradm.Install.{
  Call, Answer, apply_directly, apply_deployments, apply_custom_resources, get_crd, watch_pods,
  create_token, rest_config, write_join_command, write_json, write_output,
}
use clusteradm.Upgrade.{Options}
use clusteradm.Upgrade.ClusterManager
use clusteradm.Upgrade.Klusterlet
use clusteradm.Upgrade.Ordered.{
  UpgradeOrder, all_manager_files, all_klusterlet_files, upgrade-UpgradeOrder,
}

abbrev cluster : Server Call Answer Status
cluster h (apply_directly dry_run files) = ok files
cluster h (apply_deployments dry_run file) = ok (file ∷ [])
cluster h (apply_custom_resources dry_run file) = ok (file ∷ [])
cluster h (get_crd name) = ok true
cluster h (watch_pods namespace selector) = ok ((record { is_pod = true; conditions = [] }) ∷ [])
cluster h (create_token namespace name) = ok ""
cluster h rest_config = ok ""
cluster h (write_join_command file command) = ok tt
cluster h (write_json token host) = ok tt
cluster h (write_output file output) = ok tt

abbrev options : Options
options = record {
  dry_run = false;
  wait = true;
  registry = "quay.io/open-cluster-management";
  bundle_version = "default";
}

abbrev retry : Prog Call Status (Unit {0}) → Prog Call Status (Unit {0})
retry = retry_rounds 3

upgrade-UpgradeOrder_example :
    Emits
      (UpgradeOrder status_errors cluster options all_manager_files "init/operator.yaml"
        "init/clustermanager.cr.yaml")
      (ClusterManager.run status_errors cluster retry (λ conditions kind. true) options)
    × Emits
        (UpgradeOrder status_errors cluster options all_klusterlet_files "join/operator.yaml"
          "join/klusterlets.cr.yaml")
        (Klusterlet.run status_errors cluster retry (λ conditions kind. true) options)
upgrade-UpgradeOrder_example =
    upgrade-UpgradeOrder status_errors cluster retry (λ conditions kind. true)
      (retry_rounds-IsRetry 3) options
