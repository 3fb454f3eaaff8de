-- ===== src/Upgrade/ClusterManager.antt =====
-- pkg/cmd/upgrade/clustermanager/exec.go.
use clusteradm.Base.{Bool, not, ◌&&◌, String, List, [], ◌∷◌, ◌++◌, if◌then◌else◌}
use clusteradm.Effect.{Result, ok, err, Prog, Server, pure, fail, say, call, ◌>>=◌, ◌>>◌}
use clusteradm.Errors.{Errors}
use clusteradm.Token
use clusteradm.Token.{is_cluster_manager_installed}
use clusteradm.Version.{VersionBundle, get_version_bundle}
use clusteradm.Install.{
  Call, Answer, apply_directly, apply_deployments, apply_custom_resources, write_output,
}
use clusteradm.Install.Waits.{Run, wait_until_crd_ready, wait_until_pod_ready}
use clusteradm.Upgrade.{Options, Values}

-- The files that are applied first.
abbrev pub manager_files : List String
manager_files =
    "init/clustermanager_cluster_role.yaml" ∷ "init/clustermanager_cluster_role_binding.yaml"
    ∷ "init/clustermanagers.crd.yaml" ∷ "init/clustermanager_sa.yaml" ∷ []

abbrev pub manager_crd : String
manager_crd = "clustermanagers.operator.open-cluster-management.io"

module _ (X : Errors) where
  open X use {Error}

  unfoldable pub with_bundle : String → Options → Result Error VersionBundle → Result Error Values
  with_bundle name o (err e) = err e
  with_bundle name o (ok bundle) =
      ok (record { cluster_name = name; registry = o.registry; bundle = bundle })

  -- `complete`, whose values have no name of a cluster.
  unfoldable pub complete : Options → Result Error Values
  complete o = with_bundle "" o (get_version_bundle X o.bundle_version)

module _ (X : Errors) where
  open X use {Error, errorf}

  -- What `validate` does once it is known whether the CRD is there.
  unfoldable pub when_installed : Bool → Prog Token.Call Error (Unit {0})
  when_installed installed =
      if not installed
      then fail (errorf "clustermanager is not installed")
      else say "clustermanager installed. starting upgrade\n"

  -- `validate`, after the cluster has passed for a hub.
  unfoldable pub validate : Server Token.Call Token.Answer Error → Prog Token.Call Error (Unit {0})
  validate server = do installed ← is_cluster_manager_installed X server; when_installed installed

-- `retry.OnError` and `meta.IsStatusConditionTrue` are parameters.
module _ (X : Errors) (server : Server Call Answer X.Error)
    (on_error : Prog Call X.Error (Unit {0}) → Prog Call X.Error (Unit {0}))
    (is_true : List (String × String) → String → Bool) where
  -- The waits for a CRD and for the operator, which both upgrades make.
  unfoldable pub wait_ready : Options → String → Run X server (Unit {0})
  wait_ready o crd =
      if o.dry_run then pure tt else wait_until_crd_ready X server on_error crd o.wait

  unfoldable pub wait_operator : Options → Run X server (Unit {0})
  wait_operator o =
      if o.wait && not o.dry_run
      then wait_until_pod_ready X server is_true "open-cluster-management" "app=cluster-manager"
      else pure tt

  -- What follows the waits.
  unfoldable pub apply_resource : Options → String → List String → Run X server (Unit {0})
  apply_resource o file output = do
    out ← call server (apply_custom_resources o.dry_run file)
    say "upgraded completed successfully\n"
    call server (write_output "" (output ++ out))

  -- `run`
  unfoldable pub run : Options → Run X server (Unit {0})
  run o = do
    out₁ ← call server (apply_directly o.dry_run manager_files)
    out₂ ← call server (apply_deployments o.dry_run "init/operator.yaml")
    out₃ ← call server (apply_directly o.dry_run ("init/clustermanagers.crd.yaml" ∷ []))
    wait_ready o manager_crd
    wait_operator o
    apply_resource o "init/clustermanager.cr.yaml" ((out₁ ++ out₂) ++ out₃)
