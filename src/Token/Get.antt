-- ===== src/Token/Get.antt =====
-- pkg/cmd/get/token/exec.go.
pub mod Emitted
pub mod Applied
pub mod Laws
use clusteradm.Base.{
  Bool, true, false, String, ◌<>◌, Option, none, some, List, [], ◌∷◌, ◌++◌, text_eq, if◌then◌else◌,
}
use clusteradm.Effect.{
  Result, ok, err, Trace, Prog, Server, pure, fail, say, call, ◌>>=◌, ◌>>◌, attempt,
}
use clusteradm.Errors.{Errors}
use clusteradm.Accept.{get_example_header}
use clusteradm.Token.{
  Call, Answer, apply_directly, rest_config, write_json, write_output, Run,
  get_bootstrap_token_from_sa,
}
use clusteradm.Token.Lookup.{get_bootstrap_token}

pub record Options : Type 0 where
  pub dry_run : Bool
  pub use_bootstrap_token : Bool
  pub output : String
  pub output_file : String

-- The files of `applyToken`.
abbrev pub token_files : Bool → List String
token_files true =
    "init/namespace.yaml" ∷ "init/bootstrap-token-secret.yaml" ∷ "init/bootstrap_cluster_role.yaml"
    ∷ "init/bootstrap_cluster_role_binding.yaml" ∷ []
token_files false =
    "init/namespace.yaml" ∷ "init/bootstrap_sa.yaml" ∷ "init/bootstrap_cluster_role.yaml"
    ∷ "init/bootstrap_sa_cluster_role_binding.yaml" ∷ []

abbrev pub role_files : List String
role_files = "init/bootstrap_cluster_role.yaml" ∷ []

module _ (X : Errors) (arg : String) (server : Server Call Answer X.Error) where
  open X use {Error, is_not_found}

  -- The token of the kind that the options name.
  unfoldable pub read_token : Options → Run X server String
  read_token o =
      if o.use_bootstrap_token
      then get_bootstrap_token X server
      else get_bootstrap_token_from_sa X server

  -- `applyToken`
  unfoldable pub apply_token : Options → Run X server (List String)
  apply_token o = call server (apply_directly o.dry_run (token_files o.use_bootstrap_token))

  unfoldable pub apply_missing : Options → Error → Run X server (String × List String)
  apply_missing o e = if is_not_found e then (do out ← apply_token o; pure ("", out)) else fail e

  -- The switch: the token, and what the applier has written.
  unfoldable pub token_or_apply :
      Options → Result Error String → Run X server (String × List String)
  token_or_apply o (ok token) = pure (token, [])
  token_or_apply o (err e) = apply_missing o e

  unfoldable pub print_token : Options → String → String → Run X server (Unit {0})
  print_token o token host =
      if text_eq o.output "json" then call server (write_json token host) else do
        say ("token=" <> token <> "\n")
        say (
            "please log on spoke and run:\n"
            <> get_example_header arg
            <> " join --hub-token "
            <> token
            <> " --hub-apiserver "
            <> host
            <> " --cluster-name <cluster_name>\n")

  -- `writeResult`
  unfoldable pub write_result : Options → String → String → List String → Run X server (Unit {0})
  write_result o token host output = do
    if text_eq token "" then say "token doesn't exist\n" else print_token o token host
    call server (write_output o.output_file output)

  -- What follows the dry-run test.
  unfoldable pub finish : Options → String → String → List String → Run X server (Unit {0})
  finish o token host output =
      if o.dry_run
      then write_result o token host output
      else (do fresh ← read_token o; write_result o fresh host output)

  -- `run`
  unfoldable pub run : Options → Run X server (Unit {0})
  run o = do
    r ← attempt (read_token o)
    (token, output) ← token_or_apply o r
    out ← call server (apply_directly o.dry_run role_files)
    host ← call server rest_config
    finish o token host (output ++ out)
