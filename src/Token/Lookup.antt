-- ===== src/Token/Lookup.antt =====
-- `GetBootstrapSecret`, `GetBootstrapToken` and `GetToken` of pkg/helpers/client.go.
pub mod Laws
use clusteradm.Base.{
  Bool, true, false, String, ◌<>◌, Option, none, some, List, [], ◌∷◌, starts_with, if◌then◌else◌,
}
use clusteradm.Effect.{Result, ok, err, Trace, Prog, Server, pure, fail, call, ◌>>=◌, ◌>>◌, attempt}
use clusteradm.Errors.{Errors}
use clusteradm.Token.{
  Secret, Call, Answer, list_secrets, label_app, cluster_manager_name, bootstrap_secret_prefix, Run,
  get_bootstrap_token_from_sa,
}

pub data TokenType : Type 0 where
  bootstrap_token service_account_token unknown_token : TokenType

-- The loop of `GetBootstrapSecret`. Its pointer points to the loop's variable, of which Go 1.17 has one
-- for all rounds: the state is the variable, and whether the pointer is set.
unfoldable pub last_if_any : Option Secret → Bool → List Secret → Option Secret
last_if_any variable pointed [] = if pointed then variable else none
last_if_any variable pointed (s ∷ secrets) =
    last_if_any (some s) (if starts_with s.name bootstrap_secret_prefix then true else pointed)
      secrets

module _ (X : Errors) (server : Server Call Answer X.Error) where
  open X use {Error, errorf, is_not_found, new_not_found}

  unfoldable pub the_secret : Option Secret → Run X server Secret
  the_secret none = fail (new_not_found (bootstrap_secret_prefix <> "*"))
  the_secret (some s) = pure s

  -- `GetBootstrapSecret`
  unfoldable pub get_bootstrap_secret : Run X server Secret
  get_bootstrap_secret = do
    items ← call server (list_secrets "kube-system" (label_app <> " = " <> cluster_manager_name))
    the_secret (last_if_any none false items)

  -- `GetBootstrapToken`
  unfoldable pub get_bootstrap_token : Run X server String
  get_bootstrap_token = do s ← get_bootstrap_secret; pure (s.token_id <> "." <> s.token_secret)

  unfoldable pub typed : TokenType → String → Run X server (String × TokenType)
  typed kind token = pure (token, kind)

  unfoldable pub sa_or_bootstrap : Result Error String → Run X server (String × TokenType)
  sa_or_bootstrap (ok token) = typed service_account_token token
  sa_or_bootstrap (err e) =
      if is_not_found e
      then (do token ← get_bootstrap_token; typed bootstrap_token token)
      else fail e

  -- `GetToken`
  unfoldable pub get_token : Run X server (String × TokenType)
  get_token = do r ← attempt (get_bootstrap_token_from_sa X server); sa_or_bootstrap r
