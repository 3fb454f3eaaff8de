-- ===== src/Bootstrap/Tests.antt =====
-- A managed cluster that joins a hub whose cluster-info is published.
use clusteradm.Base.{◌≡◌, refl, true, false, String, some, [], ◌∷◌, text_eq, if◌then◌else◌}
use clusteradm.Effect.{Result, ok, err, Server, pure, call, lift, say, attempt, ◌>>=◌, ◌>>◌}
use clusteradm.Errors.{Status, plain, not_found, status_errors}
use clusteradm.Version.{VersionBundle, get_version_bundle}
use clusteradm.Kubeconfig.{Config}
use clusteradm.Preflight.{run_checks, run_check, warn, check_each, report, error_lines}
use clusteradm.Preflight.HubKubeconfig
use clusteradm.Preflight.HubKubeconfig.{
  valid_api_host, create_discovery_client, server_version, check_config, check_cluster,
  check_certificate, hub_kubeconfig,
}
use clusteradm.Preflight.HubKubeconfig.Laws.{Answers}
use clusteradm.Bootstrap.{
  Call, Answer, read_file, create_client, kubernetes_client_set, get_config_map, unsecured_hub,
  managed_cluster,
}
use clusteradm.Bootstrap.ClusterInfo.{get_cluster_info, get_api_server, certificate_of, get_ca_cert}
use clusteradm.Bootstrap.Complete.{
  Options, Completed, bootstrap_config, endpoint_or_empty, look_up_endpoint, hub_endpoint,
  the_certificate, read_ca, create_config, valid_or_empty, look_up, complete, set_server,
  set_kubeconfig, validate,
}
use clusteradm.Bootstrap.Built.{CaSource, EndpointSource}
use clusteradm.Bootstrap.Laws.{validate-complete}

abbrev clusters : Server Call Answer Status
clusters h (read_file path) = err (plain "no such file")
clusters h (create_client config) = ok tt
clusters h kubernetes_client_set = ok tt
clusters h (get_config_map unsecured_hub namespace name) = ok (("kubeconfig", "yaml") ∷ [])
clusters h (get_config_map managed_cluster namespace name) = err (not_found name)

abbrev unmarshal : String → Result Status Config
unmarshal text = ok (bootstrap_config "https://10.0.0.1:6443" false "" (some "ca"))

abbrev hub : Server HubKubeconfig.Call HubKubeconfig.Answer Status
hub h (create_discovery_client config) = ok tt
hub h server_version = ok "v1.24"

abbrev marshal : Config → Result Status String
marshal config = elim config.clusters [ [] ↦ ok "" | cluster ∷ more ↦ ok cluster.server ]

abbrev options : Options
options = record {
  token = "abcdef";
  hub_api_server = "https://hub:6443";
  ca_file = "";
  cluster_name = "c1";
  registry = "quay.io/open-cluster-management";
  bundle_version = "default";
  force_hub_in_cluster_endpoint_lookup = true;
  hub_in_cluster_endpoint = "";
}

abbrev bundle : VersionBundle
bundle = record {
  registration = "v0.9.0";
  placement = "v0.9.0";
  work = "v0.9.0";
  operator = "v0.9.1";
  app_addon = "v0.9.0";
  policy_addon = "v0.9.0";
}

abbrev completed : Completed
completed = record {
  cluster_name = "c1";
  hub_api_server = "https://hub:6443";
  registry = "quay.io/open-cluster-management";
  bundle = bundle;
  klusterlet_api_server = "";
  hub_config = bootstrap_config "https://hub:6443" false "abcdef" (some "ca");
  force_hub_in_cluster_endpoint_lookup = true;
  hub_in_cluster_endpoint = "https://10.0.0.1:6443";
}

completes : (complete status_errors clusters unmarshal options []).0 ≡ ok completed
unfolding complete look_up create_config hub_endpoint look_up_endpoint endpoint_or_empty
    the_certificate read_ca valid_or_empty valid_api_host get_cluster_info get_api_server
    certificate_of get_ca_cert get_version_bundle pure call lift attempt ◌>>=◌ ◌>>◌
completes = refl

validates : (validate status_errors hub marshal completed []).0 ≡ ok "https://10.0.0.1:6443"
unfolding validate set_kubeconfig set_server run_checks run_check warn check_each report error_lines
    hub_kubeconfig check_config check_cluster check_certificate valid_api_host pure call lift say
    ◌>>=◌ ◌>>◌
validates = refl

validate-complete_example :
    (ca : String) × (endpoint : String) × (marshal (
        bootstrap_config
          (if options.force_hub_in_cluster_endpoint_lookup
            then endpoint
            else options.hub_api_server)
          false
          options.token
          (some ca))
      ≡ ok "https://10.0.0.1:6443")
    × (text_eq options.token "" ≡ false)
    × CaSource status_errors clusters unmarshal options (some ca)
    × EndpointSource status_errors clusters unmarshal options endpoint
    × (valid_api_host options.hub_api_server ≡ true)
    × Answers status_errors hub []
        (bootstrap_config options.hub_api_server false options.token (some ca))
validate-complete_example =
    validate-complete status_errors clusters unmarshal hub marshal options [] completed []
      "https://10.0.0.1:6443" completes validates
