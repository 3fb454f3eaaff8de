-- ===== src/Token/Lookup/Laws.antt =====
-- What `GetToken` and `GetBootstrapSecret` answer.
use clusteradm.Base.{
  ◌≡◌, inl, inr, Bool, true, false, ◌||◌, String, Option, none, some, List, [], ◌∷◌, starts_with,
  if◌then◌else◌, arith,
}
use clusteradm.Effect.{Result, ok, err, request, Trace, Server, pure, fail, call, ◌>>=◌, attempt}
use clusteradm.Effect.Calls.{outcome}
use clusteradm.Effect.Runs.{Result-cases}
use clusteradm.Errors.{Errors, IsLawful}
use clusteradm.Token.{
  Secret, Call, Answer, list_secrets, create_token, bootstrap_secret_prefix, sa_failure, sa_token,
  get_bootstrap_token_from_sa,
}
use clusteradm.Token.Lookup.{
  TokenType, service_account_token, last_if_any, the_secret, get_bootstrap_secret, typed,
  sa_or_bootstrap, get_token,
}

-- Some secret's name has the prefix of a bootstrap token.
abbrev pub any_bootstrap : List Secret → Bool
any_bootstrap [] = false
any_bootstrap (s ∷ secrets) = starts_with s.name bootstrap_secret_prefix || any_bootstrap secrets

abbrev pub last_or : Option Secret → List Secret → Option Secret
last_or s [] = s
last_or s (t ∷ secrets) = last_or (some t) secrets

last_if_any_from :
    (variable : Option Secret) (pointed : Bool) (secrets : List Secret)
    → last_if_any variable pointed secrets
      ≡ (if pointed || any_bootstrap secrets then last_or variable secrets else none)
unfolding last_if_any
last_if_any_from variable pointed [] = ground arith
last_if_any_from variable pointed (s ∷ secrets) = ground (
  arith,
  last_if_any_from (some s) (if starts_with s.name bootstrap_secret_prefix then true else pointed)
      secrets,
)

module _ (X : Errors) (server : Server Call Answer X.Error) where
  abbrev pub secret_or_missing : Option Secret → Result X.Error Secret
  secret_or_missing none = err (X.new_not_found "bootstrap-token-*")
  secret_or_missing (some s) = ok s

  -- The answer of `GetBootstrapSecret` to a list of secrets.
  abbrev pub secret_of : Result X.Error (List Secret) → Result X.Error Secret
  secret_of (err e) = err e
  secret_of (ok secrets) =
      if any_bootstrap secrets
      then secret_or_missing (last_or none secrets)
      else err (X.new_not_found "bootstrap-token-*")

  listed_secret :
      (secrets : List Secret) (h : Trace Call)
      → (the_secret X server (last_if_any none false secrets) h).0 ≡ secret_of (ok secrets)
  unfolding the_secret pure fail
  listed_secret secrets h = ground (arith, last_if_any_from none false secrets)

  -- `GetBootstrapSecret` lists the labelled secrets of kube-system. If none has the name of a bootstrap
  -- token it answers a NotFound error. If one has, it answers the last secret of the list, which need
  -- not be one that has such a name.
  pub get_bootstrap_secret_last :
      (h : Trace Call)
      → (get_bootstrap_secret X server h).0
        ≡ secret_of (server h (list_secrets "kube-system" "app = cluster-manager"))
  unfolding get_bootstrap_secret ◌>>=◌ call
  get_bootstrap_secret_last h =
      let list = list_secrets "kube-system" "app = cluster-manager" in
      elim (Result-cases (server h list)) [
        | inl (secrets, e) ↦ rw e (listed_secret secrets (request list ∷ h))
        | inr (x, e) ↦ rw e
      ]

  -- The answer of `GetToken` to that of the request for a service account's token.
  abbrev pub token_of : Result X.Error String → Result X.Error (String × TokenType)
  token_of (ok token) = ok (token, service_account_token)
  token_of (err e) = err (X.errorf (sa_failure (X.text e)))

  -- `GetToken` asks for a token of the service account and for nothing else: if that fails it answers an
  -- error, also when there is no such account. It never looks for a bootstrap token, since the error
  -- that it tests for NotFound is a new one.
  pub get_token-outcome :
      IsLawful X
      → (h : Trace Call)
      → let ask = create_token "open-cluster-management" "cluster-bootstrap" in
        outcome (get_token X server h) ≡ (token_of (server h ask), ask ∷ [])
  unfolding get_token get_bootstrap_token_from_sa sa_token sa_or_bootstrap typed ◌>>=◌ attempt call
      pure fail
  get_token-outcome L h =
      let ask = create_token "open-cluster-management" "cluster-bootstrap" in
      elim (Result-cases (server h ask)) [
        | inl (token, e) ↦ rw e
        | inr (x, e) ↦ rw (e, L.is_not_found-errorf (sa_failure (X.text x)))
      ]
