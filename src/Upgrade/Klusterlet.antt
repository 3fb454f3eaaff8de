-- ===== src/Upgrade/Klusterlet.antt =====
-- pkg/cmd/upgrade/klusterlet/exec.go.
use clusteradm.Base.{Bool, not, String, List, [], ◌∷◌, ◌++◌, if◌then◌else◌}
use clusteradm.Effect.{Result, Prog, Server, fail, say, call, ◌>>=◌, ◌>>◌}
use clusteradm.Errors.{Errors}
use clusteradm.Token
use clusteradm.Token.{is_klusterlets_installed}
use clusteradm.Version.{get_version_bundle}
use clusteradm.Install.{Call, Answer, apply_directly, apply_deployments}
use clusteradm.Install.Waits.{Run}
use clusteradm.Upgrade.{Options, Values}
use clusteradm.Upgrade.ClusterManager.{
  with_bundle, wait_ready, wait_operator, apply_resource, manager_crd,
}

-- The files that are applied first.
abbrev pub klusterlet_files : List String
klusterlet_files =
    "join/namespace_agent.yaml" ∷ "join/namespace_addon.yaml" ∷ "join/namespace.yaml"
    ∷ "join/cluster_role.yaml" ∷ "join/cluster_role_binding.yaml" ∷ "join/klusterlets.crd.yaml"
    ∷ "join/service_account.yaml" ∷ []

-- What `complete` makes of the klusterlet that it has read.
unfoldable pub complete : (X : Errors) → String → Options → Result X.Error Values
complete X klusterlet_cluster_name o =
    with_bundle X klusterlet_cluster_name o (get_version_bundle X o.bundle_version)

module _ (X : Errors) where
  open X use {Error, errorf}

  -- What `validate` does once it is known whether the CRD is there.
  unfoldable pub when_installed : Bool → Prog Token.Call Error (Unit {0})
  when_installed installed =
      if not installed
      then fail (errorf "klusterlet is not installed")
      else (say "Klusterlet installed. starting upgrade "
          >> say "Klusterlet installed. starting upgrade\n")

  -- `validate`
  unfoldable pub validate : Server Token.Call Token.Answer Error → Prog Token.Call Error (Unit {0})
  validate server = do installed ← is_klusterlets_installed X server; when_installed installed

module _ (X : Errors) (server : Server Call Answer X.Error)
    (on_error : Prog Call X.Error (Unit {0}) → Prog Call X.Error (Unit {0}))
    (is_true : List (String × String) → String → Bool) where
  -- `run`, which waits for the CRD of the cluster managers.
  unfoldable pub run : Options → Run X server (Unit {0})
  run o = do
    out₁ ← call server (apply_directly o.dry_run klusterlet_files)
    out₂ ← call server (apply_deployments o.dry_run "join/operator.yaml")
    wait_ready X server on_error is_true o manager_crd
    wait_operator X server on_error is_true o
    apply_resource X server on_error is_true o "join/klusterlets.cr.yaml" (out₁ ++ out₂)
