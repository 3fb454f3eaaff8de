-- ===== src/Token/Delete.antt =====
-- pkg/cmd/delete/token/exec.go.
pub mod Laws
use clusteradm.Base.{Bool, true, false, String, Option, none, some, List, [], ◌∷◌, if◌then◌else◌}
use clusteradm.Effect.{Result, ok, err, Trace, Prog, Server, pure, fail, call, ◌>>=◌, ◌>>◌, attempt}
use clusteradm.Errors.{Errors}
use clusteradm.Token.{
  Secret, Call, Answer, delete_cluster_role_binding, delete_cluster_role, delete_secret,
  delete_service_account, open_cluster_management_namespace, bootstrap_sa_name,
  bootstrap_cluster_role_binding_name, bootstrap_cluster_role_binding_sa_name,
  bootstrap_cluster_role_name, Run, is_cluster_manager_installed,
}
use clusteradm.Token.Lookup.{get_bootstrap_secret}

module _ (X : Errors) (server : Server Call Answer X.Error) where
  open X use {Error, errorf, is_not_found}

  -- `validate`
  unfoldable pub validate : Run X server (Unit {0})
  validate = do
    installed ← is_cluster_manager_installed X server
    if installed then pure tt else fail (errorf "this is not a hub")

  -- `if err != nil && !errors.IsNotFound(err) { return err }`
  unfoldable pub tolerate : Result Error (Unit {0}) → Run X server (Unit {0})
  tolerate (ok _) = pure tt
  tolerate (err e) = if is_not_found e then pure tt else fail e

  -- A deletion, where a missing object is no error.
  unfoldable pub unless_missing : Run X server (Unit {0}) → Run X server (Unit {0})
  unless_missing deletion = do r ← attempt deletion; tolerate r

  -- The deletion of the secret that was found, if any.
  unfoldable pub delete_found : Result Error Secret → Run X server (Unit {0})
  delete_found (err e) = if is_not_found e then pure tt else fail e
  delete_found (ok s) = unless_missing (call server (delete_secret s.namespace s.name))

  -- The search for the secret and its deletion.
  unfoldable pub delete_bootstrap_secret : Run X server (Unit {0})
  delete_bootstrap_secret = do found ← attempt (get_bootstrap_secret X server); delete_found found

  -- `deleteToken`
  unfoldable pub delete_token : Run X server (Unit {0})
  delete_token = do
    unless_missing (call server (delete_cluster_role_binding bootstrap_cluster_role_binding_name))
    unless_missing
        (call server (delete_cluster_role_binding bootstrap_cluster_role_binding_sa_name))
    unless_missing (call server (delete_cluster_role bootstrap_cluster_role_name))
    delete_bootstrap_secret
    unless_missing
        (call server (delete_service_account open_cluster_management_namespace bootstrap_sa_name))

  -- `run`
  unfoldable pub run : Bool → Run X server (Unit {0})
  run dry_run = if dry_run then pure tt else delete_token
