-- ===== src/Install/Init.antt =====
-- `run` of pkg/cmd/init/exec.go.
use clusteradm.Base.{Bool, not, ◌&&◌, String, ◌<>◌, List, [], ◌∷◌, ◌++◌, text_eq, if◌then◌else◌}
use clusteradm.Effect.{Result, ok, err, Prog, Server, pure, fail, say, call, ◌>>=◌, ◌>>◌, attempt}
use clusteradm.Errors.{Errors}
use clusteradm.Accept.{get_example_header}
use clusteradm.Token.{sa_failure}
use clusteradm.Token.Get.{token_files}
use clusteradm.Install.{
  Call, Answer, apply_directly, apply_deployments, apply_custom_resources, create_token,
  rest_config, write_join_command, write_json, write_output,
}
use clusteradm.Install.Waits.{Run, wait_until_crd_ready, wait_until_pod_ready}

pub record Options : Type 0 where
  pub dry_run : Bool
  pub wait : Bool
  pub force : Bool
  pub context : String
  pub registry : String
  pub bundle_version : String
  pub use_bootstrap_token : Bool
  pub token_id : String
  pub token_secret : String
  pub output : String
  pub output_file : String
  pub output_join_command_file : String

-- The files that are applied first.
abbrev pub init_files : Options → List String
init_files o =
    token_files o.use_bootstrap_token
    ++ ("init/clustermanager_cluster_role.yaml" ∷ "init/clustermanager_cluster_role_binding.yaml"
        ∷ "init/clustermanagers.crd.yaml" ∷ "init/clustermanager_sa.yaml" ∷ [])

abbrev pub cluster_manager_crd : String
cluster_manager_crd = "clustermanagers.operator.open-cluster-management.io"

module _ (X : Errors) (arg : String) (server : Server Call Answer X.Error) where
  open X use {Error, errorf, text}

  unfoldable pub created_token : Result Error String → Run X server String
  created_token (ok token) = pure token
  created_token (err e) = fail (errorf (sa_failure (text e)))

  unfoldable pub token_from_sa : Run X server String
  token_from_sa = do
    r ← attempt (call server (create_token "open-cluster-management" "cluster-bootstrap"))
    created_token r

  -- The token that the join command is printed with.
  unfoldable pub the_token : Options → Run X server String
  the_token o =
      if not o.use_bootstrap_token && not o.dry_run
      then token_from_sa
      else pure (o.token_id <> "." <> o.token_secret)

  abbrev pub join_command : Options → String → String → String
  join_command o token host =
      get_example_header arg
      <> " join --hub-token "
      <> token
      <> " --hub-apiserver "
      <> host
      <> (if o.wait then " --wait" else "")

  unfoldable pub write_command : Options → String → Run X server (Unit {0})
  write_command o command =
      if text_eq o.output_join_command_file ""
      then pure tt
      else call server
          (write_join_command o.output_join_command_file (command <> " --cluster-name $1"))

  unfoldable pub print_command : Options → String → String → Run X server (Unit {0})
  print_command o token host =
      if text_eq o.output "json"
      then call server (write_json token host)
      else say (
          "The multicluster hub control plane has been initialized successfully!\n\nYou can now register cluster(s) to the hub control plane. Log onto those cluster(s) and run the following command:\n\n    "
          <> join_command o token host
          <> " --cluster-name <cluster_name>\n\nReplace <cluster_name> with a cluster name of your choice. For example, cluster1.\n\n")

  -- What follows the read of the configuration, whose error is dropped.
  unfoldable pub print_result :
      Options → String → List String → Result Error String → Run X server (Unit {0})
  print_result o token output (err e) = pure tt
  print_result o token output (ok host) = do
    write_command o (join_command o token host)
    print_command o token host
    call server (write_output o.output_file output)

  -- `retry.OnError` and `meta.IsStatusConditionTrue` are parameters.
  module _ (on_error : Prog Call Error (Unit {0}) → Prog Call Error (Unit {0}))
      (is_true : List (String × String) → String → Bool) where
    unfoldable pub wait_crd : Options → Run X server (Unit {0})
    wait_crd o =
        if o.dry_run
        then pure tt
        else wait_until_crd_ready X server on_error cluster_manager_crd o.wait

    unfoldable pub wait_pod : Options → String → String → Run X server (Unit {0})
    wait_pod o namespace selector =
        if o.wait && not o.dry_run
        then wait_until_pod_ready X server is_true namespace selector
        else pure tt

    -- What follows the operator's deployment.
    unfoldable pub apply_manager : Options → List String → Run X server (Unit {0})
    apply_manager o output = do
      wait_pod o "open-cluster-management" "app=cluster-manager"
      out ← call server (apply_custom_resources o.dry_run "init/clustermanager.cr.yaml")
      wait_pod o "open-cluster-management-hub" "app=clustermanager-registration-controller"
      token ← the_token o
      r ← attempt (call server rest_config)
      print_result o token (output ++ out) r

    -- `run`
    unfoldable pub run : Options → Run X server (Unit {0})
    run o = do
      out₁ ← call server (apply_directly o.dry_run (init_files o))
      out₂ ← call server (apply_deployments o.dry_run "init/operator.yaml")
      wait_crd o
      apply_manager o (out₁ ++ out₂)
