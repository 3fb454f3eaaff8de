-- ===== src/Install/Join.antt =====
-- `run` of pkg/cmd/join/exec.go.
use clusteradm.Base.{Bool, not, ◌&&◌, String, ◌<>◌, List, [], ◌∷◌, ◌++◌, if◌then◌else◌}
use clusteradm.Effect.{Prog, Server, pure, say, call, ◌>>=◌, ◌>>◌}
use clusteradm.Errors.{Errors}
use clusteradm.Accept.{get_example_header}
use clusteradm.Install.{
  Call, Answer, apply_directly, apply_deployments, apply_custom_resources, write_output,
}
use clusteradm.Install.Waits.{Run, wait_until_crd_ready, wait_until_pod_ready}

pub record Options : Type 0 where
  pub dry_run : Bool
  pub wait : Bool
  pub cluster_name : String
  pub output_file : String

-- The files that are applied first.
abbrev pub join_files : List String
join_files =
    "join/namespace_agent.yaml" ∷ "join/namespace.yaml" ∷ "join/bootstrap_hub_kubeconfig.yaml"
    ∷ "join/cluster_role.yaml" ∷ "join/cluster_role_binding.yaml" ∷ "join/klusterlets.crd.yaml"
    ∷ "join/service_account.yaml" ∷ []

abbrev pub klusterlet_crd : String
klusterlet_crd = "klusterlets.operator.open-cluster-management.io"

module _ (X : Errors) (arg : String) (server : Server Call Answer X.Error)
    (on_error : Prog Call X.Error (Unit {0}) → Prog Call X.Error (Unit {0}))
    (is_true : List (String × String) → String → Bool) where
  unfoldable pub wait_crd : Options → Run X server (Unit {0})
  wait_crd o =
      if o.dry_run then pure tt else wait_until_crd_ready X server on_error klusterlet_crd o.wait

  unfoldable pub wait_pod : Options → String → String → Run X server (Unit {0})
  wait_pod o namespace selector =
      if o.wait && not o.dry_run
      then wait_until_pod_ready X server is_true namespace selector
      else pure tt

  -- What follows the wait for the CRD.
  unfoldable pub apply_klusterlet : Options → List String → Run X server (Unit {0})
  apply_klusterlet o output = do
    out ← call server (apply_custom_resources o.dry_run "join/klusterlets.cr.yaml")
    wait_pod o "open-cluster-management" "app=klusterlet"
    wait_pod o "open-cluster-management-agent" "app=klusterlet-registration-agent"
    say (
        "Please log onto the hub cluster and run the following command:\n\n    "
        <> get_example_header arg
        <> " accept --clusters "
        <> o.cluster_name
        <> "\n\n")
    call server (write_output o.output_file (output ++ out))

  -- `run`
  unfoldable pub run : Options → Run X server (Unit {0})
  run o = do
    out₁ ← call server (apply_directly o.dry_run join_files)
    out₂ ← call server (apply_deployments o.dry_run "join/operator.yaml")
    wait_crd o
    apply_klusterlet o (out₁ ++ out₂)
