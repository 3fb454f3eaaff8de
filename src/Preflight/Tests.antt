-- ===== src/Preflight/Tests.antt =====
-- The check of a hub's kubeconfig, alone and in a run of the checks.
use clusteradm.Base.{false, ◌≡◌, ◌↔◌, Option, some, [], ◌∷◌}
use clusteradm.Effect.{ok, Server}
use clusteradm.Errors.{Status, status_errors}
use clusteradm.Preflight.{run_checks}
use clusteradm.Preflight.Passed.{AllPass, all_ran, run_checks-AllPass}
use clusteradm.Kubeconfig.{Config}
use clusteradm.Preflight.HubKubeconfig.{
  Call, Answer, create_discovery_client, server_version, hub_kubeconfig_check,
}
use clusteradm.Preflight.HubKubeconfig.Laws.{IsComplete, Answers, hub_kubeconfig_check_iff}

abbrev hub : Server Call Answer Status
hub h (create_discovery_client config) = ok tt
hub h server_version = ok "v1.24"

abbrev config : Option Config
config = some (record {
  clusters =
      (record {
        name = "hub";
        server = "https://hub:6443";
        insecure_skip_tls_verify = false;
        certificate_authority_data = some "ca";
      })
      ∷ [];
  auth_infos = [];
  contexts = [];
  current_context = "";
})

hub_kubeconfig_check_iff_example :
    (((hub_kubeconfig_check status_errors hub config).check []).0.1 ≡ []) ↔ (
      (c : Config) × (config ≡ some c)
      × IsComplete status_errors c.clusters
      × Answers status_errors hub [] c)
hub_kubeconfig_check_iff_example = hub_kubeconfig_check_iff status_errors hub config []

run_checks-AllPass_example :
    let checks = hub_kubeconfig_check status_errors hub config ∷ [] in
    ((run_checks status_errors checks []).1 ≡ all_ran status_errors checks [])
    × (((run_checks status_errors checks []).0 ≡ ok tt) ↔ AllPass status_errors checks [])
run_checks-AllPass_example =
    run_checks-AllPass status_errors (hub_kubeconfig_check status_errors hub config ∷ []) []
