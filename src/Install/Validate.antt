-- ===== src/Install/Validate.antt =====
-- `complete` and `validate` of pkg/cmd/init/exec.go, with the preflight checks of the hub.
pub mod Laws
mod Tests
use clusteradm.Base.{Bool, true, false, ◌&&◌, not, String, List, [], ◌∷◌, text_eq, if◌then◌else◌}
use clusteradm.Effect.{Result, ok, err, Trace, Prog, Server, pure, fail, ◌>>=◌, ◌>>◌}
use clusteradm.Errors.{Errors}
use clusteradm.Version.{VersionBundle, get_version_bundle}
use clusteradm.Preflight.{Checker, run_checks}
use clusteradm.Preflight.ClusterInfo.{
  Call, Answer, Library, bootstrap_config_map, check_cluster_info, check_hub_api_server, checker,
}
use clusteradm.Install.Init.{Options}

-- The values for the templates.
pub record Values : Type 0 where
  pub token_id : String
  pub token_secret : String
  pub registry : String
  pub bundle : VersionBundle

module _ (X : Errors) where
  open X use {Error}

  unfoldable pub values_with : Options → Result Error VersionBundle → Result Error Values
  values_with o (err e) = err e
  values_with o (ok bundle) = ok (record {
    token_id = o.token_id;
    token_secret = o.token_secret;
    registry = o.registry;
    bundle = bundle;
  })

  -- `complete`, where the options hold the random letters of the token.
  unfoldable pub complete : Options → Result Error Values
  complete o = values_with o (get_version_bundle X o.bundle_version)

module _ (X : Errors) (L : Library X.Error) (server : Server Call Answer X.Error) where
  open X use {Error, errorf}

  -- `HubApiServerCheck` and `ClusterInfoCheck` of the current context, in the default kubeconfig.
  abbrev pub init_checks : Options → List (Checker Call Error)
  init_checks o =
      checker X L server "HubApiServer check" (check_hub_api_server X L server o.context "")
      ∷ checker X L server "cluster-info check"
          (check_cluster_info X L server "kube-public" bootstrap_config_map o.context "")
      ∷ []

  unfoldable pub validate_flags : Options → Prog Call Error (Unit {0})
  validate_flags o =
      if text_eq o.registry ""
      then fail (errorf "registry should not be empty")
      else if o.wait && not (text_eq o.output "text")
      then fail (errorf "output should be text if --wait is set")
      else pure tt

  unfoldable pub check_and_validate : Options → Prog Call Error (Unit {0})
  check_and_validate o = do run_checks X (init_checks o); validate_flags o

  -- `validate`
  unfoldable pub validate : Options → Prog Call Error (Unit {0})
  validate o = if o.force then pure tt else check_and_validate o
