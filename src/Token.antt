-- ===== src/Token.antt =====
-- The bootstrap tokens: pkg/helpers/client.go (GetToken, GetBootstrapSecret, GetBootstrapToken,
-- GetBootstrapTokenFromSA, IsClusterManagerInstalled), pkg/cmd/get/token and pkg/cmd/delete/token.
pub mod Lookup
pub mod Get
pub mod Delete
mod Tests
use clusteradm.Base.{Bool, true, false, String, ◌<>◌, List, [], ◌∷◌, if◌then◌else◌}
use clusteradm.Effect.{Result, ok, err, Trace, Prog, Server, pure, fail, call, ◌>>=◌, ◌>>◌, attempt}
use clusteradm.Errors.{Errors}

abbrev pub open_cluster_management_namespace : String
open_cluster_management_namespace = "open-cluster-management"

abbrev pub bootstrap_sa_name : String
bootstrap_sa_name = "cluster-bootstrap"

abbrev pub bootstrap_cluster_role_binding_name : String
bootstrap_cluster_role_binding_name = "cluster-bootstrap"

abbrev pub bootstrap_cluster_role_binding_sa_name : String
bootstrap_cluster_role_binding_sa_name = "cluster-bootstrap-sa"

abbrev pub bootstrap_cluster_role_name : String
bootstrap_cluster_role_name = "system:open-cluster-management:bootstrap"

abbrev pub cluster_manager_name : String
cluster_manager_name = "cluster-manager"

abbrev pub label_app : String
label_app = "app"

abbrev pub bootstrap_secret_prefix : String
bootstrap_secret_prefix = "bootstrap-token-"

-- The fields of a secret that the commands read; a missing datum is the empty text.
pub record Secret : Type 0 where
  pub name : String
  pub namespace : String
  pub token_id : String
  pub token_secret : String

-- The calls to the hub, and those to the applier (its dry-run flag and its files) and to the writers
-- of the output.
pub data Call : Type 0 where
  server_resources : Call
  get_crd : String → Call
  list_secrets : String → String → Call
  create_token : String → String → Call
  apply_directly : Bool → List String → Call
  rest_config : Call
  write_json : String → String → Call
  write_output : String → List String → Call
  delete_cluster_role_binding : String → Call
  delete_cluster_role : String → Call
  delete_secret : String → String → Call
  delete_service_account : String → String → Call

abbrev pub Answer : Call → Type 0
Answer server_resources = List String
Answer (get_crd name) = Unit {0}
Answer (list_secrets namespace selector) = List Secret
Answer (create_token namespace name) = String
Answer (apply_directly dry_run files) = List String
Answer rest_config = String
Answer (write_json token host) = Unit {0}
Answer (write_output file output) = Unit {0}
Answer (delete_cluster_role_binding name) = Unit {0}
Answer (delete_cluster_role name) = Unit {0}
Answer (delete_secret namespace name) = Unit {0}
Answer (delete_service_account namespace name) = Unit {0}

-- The message of `GetBootstrapTokenFromSA`.
abbrev pub sa_failure : String → String
sa_failure reason =
    "failed to get token from sa " <> open_cluster_management_namespace <> "/" <> bootstrap_sa_name
    <> ": " <> reason

module _ (X : Errors) (server : Server Call Answer X.Error) where
  open X use {Error, errorf, text, is_not_found}

  abbrev pub Run : Type 0 → Type 0
  Run A = Prog Call Error A

  unfoldable pub installed : Result Error (Unit {0}) → Run Bool
  installed (ok _) = pure true
  installed (err e) = if is_not_found e then pure false else fail e

  -- `IsClusterManagerInstalled`
  unfoldable pub is_cluster_manager_installed : Run Bool
  is_cluster_manager_installed = do
    r ← attempt (call server (get_crd "clustermanagers.operator.open-cluster-management.io"))
    installed r

  -- `IsKlusterletsInstalled`
  unfoldable pub is_klusterlets_installed : Run Bool
  is_klusterlets_installed = do
    r ← attempt (call server (get_crd "klusterlets.operator.open-cluster-management.io"))
    installed r

  unfoldable pub sa_token : Result Error String → Run String
  sa_token (ok token) = pure token
  sa_token (err e) = fail (errorf (sa_failure (text e)))

  -- `GetBootstrapTokenFromSA`
  unfoldable pub get_bootstrap_token_from_sa : Run String
  get_bootstrap_token_from_sa = do
    r ← attempt (call server (create_token open_cluster_management_namespace bootstrap_sa_name))
    sa_token r
