-- ===== src/HubAddon/Tests.antt =====
-- Both add-ons, one of them named twice.
use clusteradm.Base.{◌≡◌, refl, true, String, List, [], ◌∷◌, split, trim_space}
use clusteradm.Effect.{Result, ok, Server, pure, call, lift, say, attempt, ◌>>=◌, ◌>>◌}
use clusteradm.Effect.Calls.{calls_of}
use clusteradm.Errors.{Status, plain, status_errors}
use clusteradm.Version.{get_version_bundle}
use clusteradm.Accept.{distinct_trimmed}
use clusteradm.Hub
use clusteradm.HubAddon.{
  Options, Call, Answer, apply_directly, apply_deployments, write_output, check_names, check_split,
  validate, hub_addons, install, install_addon, install_addons, run_with_client, run,
}
use clusteradm.HubAddon.Names.{AreNamed}
use clusteradm.HubAddon.Laws.{all_calls, calls_of-run}

abbrev hub : Server Hub.Call Hub.Answer Status
hub h (Hub.Call.server_resources group_version) = ok ("managedclusters" ∷ [])
hub h _ = Result.err (plain "not asked")

abbrev applier : Server Call Answer Status
applier h (apply_directly dry_run files) = ok files
applier h (apply_deployments dry_run files) = ok files
applier h (write_output file output) = ok tt

abbrev options : Options
options = record {
  names = "governance-policy-framework,application-manager,governance-policy-framework";
  output_file = "out.yaml";
  bundle_version = "default";
}

validates :
    (validate status_errors hub options []).0
    ≡ ok (record { app_addon = "v0.9.0"; policy_addon = "v0.9.0" })
unfolding validate check_split check_names Hub.check_for_hub Hub.check_resource Hub.find_resource
    get_version_bundle pure call lift attempt ◌>>=◌ ◌>>◌ split
validates = refl

runs : (run status_errors applier true options []).0 ≡ ok tt
unfolding run run_with_client install_addons install_addon install hub_addons distinct_trimmed
    trim_space pure call say ◌>>=◌ ◌>>◌ split
runs = refl

calls_of-run_example :
    AreNamed options (hub_addons options)
    × ((output : List String) × (calls_of (run status_errors applier true options []).1
          ≡ write_output options.output_file output ∷ all_calls true (hub_addons options)))
calls_of-run_example =
    calls_of-run status_errors applier hub options []
      (record { app_addon = "v0.9.0"; policy_addon = "v0.9.0" }) true [] validates runs
