-- ===== src/HubAddon.antt =====
-- pkg/cmd/install/hubaddon/exec.go.
pub mod Names
pub mod Laws
mod Tests
use clusteradm.Base.{Bool, String, ◌<>◌, List, [], ◌∷◌, ◌++◌, split, text_eq, if◌then◌else◌}
use clusteradm.Effect.{
  Result, ok, err, Trace, Prog, Server, pure, fail, say, call, lift, ◌>>=◌, ◌>>◌,
}
use clusteradm.Errors.{Errors}
use clusteradm.Hub
use clusteradm.Version.{VersionBundle, get_version_bundle}
use clusteradm.Accept.{distinct_trimmed}

pub record Options : Type 0 where
  pub names : String
  pub output_file : String
  pub bundle_version : String

pub record BundleVersion : Type 0 where
  pub app_addon : String
  pub policy_addon : String

-- The calls to the applier, with the dry-run flag and the files, and to the writer of the output.
pub data Call : Type 0 where
  apply_directly : Bool → List String → Call
  apply_deployments : Bool → List String → Call
  write_output : String → List String → Call

abbrev pub Answer : Call → Type 0
Answer (apply_directly dry_run files) = List String
Answer (apply_deployments dry_run files) = List String
Answer (write_output file output) = Unit {0}

abbrev pub app_mgr_addon_name : String
app_mgr_addon_name = "application-manager"

abbrev pub policy_framework_addon_name : String
policy_framework_addon_name = "governance-policy-framework"

abbrev pub app_mgr_files : List String
app_mgr_files =
    "addon/appmgr/clusterrole_agent.yaml" ∷ "addon/appmgr/clusterrole_binding.yaml"
    ∷ "addon/appmgr/clusterrole.yaml" ∷ "addon/appmgr/crd_channel.yaml"
    ∷ "addon/appmgr/crd_helmrelease.yaml" ∷ "addon/appmgr/crd_placementrule.yaml"
    ∷ "addon/appmgr/crd_subscription.yaml" ∷ "addon/appmgr/crd_subscriptionstatuses.yaml"
    ∷ "addon/appmgr/crd_report.yaml" ∷ "addon/appmgr/crd_clusterreport.yaml"
    ∷ "addon/appmgr/service_account.yaml" ∷ "addon/appmgr/service_metrics.yaml"
    ∷ "addon/appmgr/service_operator.yaml" ∷ []

abbrev pub app_mgr_deployments : List String
app_mgr_deployments =
    "addon/appmgr/deployment_channel.yaml" ∷ "addon/appmgr/deployment_subscription.yaml"
    ∷ "addon/appmgr/deployment_placementrule.yaml" ∷ "addon/appmgr/deployment_appsubsummary.yaml"
    ∷ []

abbrev pub policy_files : List String
policy_files =
    "addon/policy/addon-controller_clusterrole.yaml"
    ∷ "addon/policy/addon-controller_clusterrolebinding.yaml"
    ∷ "addon/policy/addon-controller_role.yaml" ∷ "addon/policy/addon-controller_rolebinding.yaml"
    ∷ "addon/policy/addon-controller_serviceaccount.yaml"
    ∷ "addon/policy/policy.open-cluster-management.io_placementbindings.yaml"
    ∷ "addon/policy/policy.open-cluster-management.io_policies.yaml"
    ∷ "addon/policy/policy.open-cluster-management.io_policyautomations.yaml"
    ∷ "addon/policy/policy.open-cluster-management.io_policysets.yaml"
    ∷ "addon/policy/propagator_clusterrole.yaml" ∷ "addon/policy/propagator_clusterrolebinding.yaml"
    ∷ "addon/policy/propagator_role.yaml" ∷ "addon/policy/propagator_rolebinding.yaml"
    ∷ "addon/policy/propagator_serviceaccount.yaml" ∷ "addon/appmgr/crd_placementrule.yaml" ∷ []

abbrev pub policy_deployments : List String
policy_deployments =
    "addon/policy/addon-controller_deployment.yaml" ∷ "addon/policy/propagator_deployment.yaml" ∷ []

module _ (X : Errors) where
  open X use {Error, errorf}

  -- The loop of `validate` over the names.
  unfoldable pub check_names : List String → Result Error (Unit {0})
  check_names [] = ok tt
  check_names (n ∷ names) =
      let rest = check_names names in
      if text_eq n app_mgr_addon_name
      then rest
      else if text_eq n policy_framework_addon_name
      then rest
      else err (errorf ("invalid add-on name " <> n))

  unfoldable pub check_split : Options → Result Error (Unit {0})
  check_split o =
      if text_eq o.names ""
      then err (errorf "names is missing")
      else check_names (split b',' o.names)

  -- `validate`, with the versions for the templates.
  unfoldable pub validate :
      Server Hub.Call Hub.Answer Error → Options → Prog Hub.Call Error BundleVersion
  validate server o = do
    Hub.check_for_hub X server
    lift (check_split o)
    bundle ← lift (get_version_bundle X o.bundle_version)
    pure (record { app_addon = bundle.app_addon; policy_addon = bundle.policy_addon })

-- The names of `run`, without those that come again.
unfoldable pub hub_addons : Options → List String
hub_addons o = distinct_trimmed [] (split b',' o.names)

module _ (X : Errors) (server : Server Call Answer X.Error) where
  open X use {Error}

  abbrev pub Run : Type 0 → Type 0
  Run A = Prog Call Error A

  -- A case of the switch.
  unfoldable pub install :
      Bool → String → List String → List String → List String → Run (List String)
  install dry_run name files deployments output = do
    out₁ ← call server (apply_directly dry_run files)
    out₂ ← call server (apply_deployments dry_run deployments)
    say ("Installing built-in " <> name <> " add-on to the Hub cluster...\n")
    pure ((output ++ out₁) ++ out₂)

  -- The switch.
  unfoldable pub install_addon : Bool → String → List String → Run (List String)
  install_addon dry_run addon output =
      if text_eq addon app_mgr_addon_name
      then install dry_run app_mgr_addon_name app_mgr_files app_mgr_deployments output
      else if text_eq addon policy_framework_addon_name
      then install dry_run policy_framework_addon_name policy_files policy_deployments output
      else pure output

  -- The loop.
  unfoldable pub install_addons : Bool → List String → List String → Run (List String)
  install_addons dry_run [] output = pure output
  install_addons dry_run (addon ∷ addons) output = do
    output' ← install_addon dry_run addon output
    install_addons dry_run addons output'

  -- `runWithClient`
  unfoldable pub run_with_client : Bool → Options → List String → Run (Unit {0})
  run_with_client dry_run o addons = do
    output ← install_addons dry_run addons []
    call server (write_output o.output_file output)

  -- `run`
  unfoldable pub run : Bool → Options → Run (Unit {0})
  run dry_run o = run_with_client dry_run o (hub_addons o)
