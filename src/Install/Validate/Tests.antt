-- ===== src/Install/Validate/Tests.antt =====
-- A hub whose cluster-info is missing.
use clusteradm.Base.{◌≡◌, refl, ◌⊎◌, true, false, some, [], ◌∷◌}
use clusteradm.Effect.{ok, err, Trace, Server, pure, call, lift, say, attempt, ◌>>=◌, ◌>>◌}
use clusteradm.Effect.Emits.{Emits}
use clusteradm.Errors.{Status, plain, not_found, status_errors}
use clusteradm.Kubeconfig.{Cluster}
use clusteradm.Preflight.{run_checks, run_check, warn, check_each, report, error_lines}
use clusteradm.Preflight.ClusterInfo.{
  Loaded, Call, Answer, load_default, load_from_file, get_config_map, create_config_map,
  update_config_map, Library, lookup, bootstrap_config_map, check_host, check_split, check_url,
  check_server, cluster_of, current_cluster, load, load_current_cluster, created_or_update,
  create_or_update, create_cluster_info, load_and_create, check_found, create_missing,
  check_cluster_info, checked_server, check_hub_api_server,
}
use clusteradm.Preflight.ClusterInfo.Laws.{MayWrite}
use clusteradm.Preflight.ClusterInfo.Ready.{IsReady}
use clusteradm.Install.Init.{Options}
use clusteradm.Install.Validate.{validate_flags, check_and_validate, validate}
use clusteradm.Install.Validate.Laws.{AreValid, validate-MayWrite, validate-IsReady}

abbrev cluster : Cluster
cluster = record {
  name = "";
  server = "https://hub:6443";
  insecure_skip_tls_verify = false;
  certificate_authority_data = some "ca";
}

abbrev config : Loaded
config = record {
  current_context = "kind";
  contexts = ("kind", "kind-hub") ∷ [];
  clusters = ("kind-hub", cluster) ∷ [];
}

abbrev hub : Server Call Answer Status
hub h load_default = ok config
hub h (load_from_file path) = err (plain "no such file")
hub h (get_config_map namespace name) = err (not_found name)
hub h (create_config_map map) = ok tt
hub h (update_config_map map) = ok tt

abbrev library : Library Status
library = record {
  parse_host = λ server. ok "hub:6443";
  split_host_port = λ host. ok "hub";
  is_ip = λ host. false;
  flatten_config = λ cluster. ok cluster;
  write_config = λ cluster. ok cluster.server;
  wrap = λ e message. e;
}

abbrev options : Options
options = record {
  dry_run = true;
  wait = true;
  force = false;
  context = "";
  registry = "quay.io/open-cluster-management";
  bundle_version = "default";
  use_bootstrap_token = false;
  token_id = "abcdef";
  token_secret = "0123456789abcdef";
  output = "text";
  output_file = "";
  output_join_command_file = "";
}

validates : (validate status_errors library hub options []).0 ≡ ok tt
unfolding validate check_and_validate validate_flags run_checks run_check warn check_each report
    error_lines lookup check_host check_split check_url check_server cluster_of current_cluster load
    load_current_cluster created_or_update create_or_update create_cluster_info load_and_create
    check_found create_missing check_cluster_info checked_server check_hub_api_server pure call lift
    say attempt ◌>>=◌ ◌>>◌
validates = refl

validate-MayWrite_example :
    Emits
      (MayWrite status_errors library hub "kube-public" bootstrap_config_map options.context "")
      (validate status_errors library hub options)
validate-MayWrite_example = validate-MayWrite status_errors library hub options

validate-IsReady_example :
    (options.force ≡ true)
    ⊎ (AreValid status_errors library hub options
        × ((cluster : Cluster) × (h' : Trace Call) × ((load_current_cluster status_errors library
                hub options.context "" h').0
              ≡ ok cluster))
        × IsReady status_errors library hub "kube-public" bootstrap_config_map options.context "")
validate-IsReady_example = validate-IsReady status_errors library hub options [] validates
