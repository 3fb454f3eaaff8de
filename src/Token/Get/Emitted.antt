-- ===== src/Token/Get/Emitted.antt =====
-- What the calls of `get token` are.
use clusteradm.Base.{
  Option, none, some, ◌∙◌, ◌≡◌, refl, ◌⊎◌, Bool, true, String, List, [], ◌∷◌, ◌++◌, text_eq,
}
use clusteradm.Effect.{Result, ok, err, Event, request, Trace, Server, fail, call}
use clusteradm.Effect.Emits.{
  Emits, emits_rules, Emits-call, Emits-attempt, Emits-bind, Emits-bind_of, Emits-then, Emits-if,
  Emits-pure, Emits-fail, Emits-say,
}
use clusteradm.Effect.Runs.{attempt_result}
use clusteradm.Errors.{Errors}
use clusteradm.Token.{
  Secret, Call, Answer, list_secrets, create_token, apply_directly, delete_cluster_role_binding,
  delete_cluster_role, delete_secret, delete_service_account, rest_config, write_json, write_output,
  sa_token, get_bootstrap_token_from_sa,
}
use clusteradm.Token.Lookup.{the_secret, get_bootstrap_secret, get_bootstrap_token}
use clusteradm.Token.Get.{
  Options, token_files, role_files, read_token, apply_token, apply_missing, token_or_apply,
  print_token, write_result, finish, run,
}

-- Nothing is deleted, and the applier is called with the dry-run flag of the options and these files.
abbrev pub Applies : Bool → (List String → Type 0) → Event Call → Type 0
Applies dry_run P (request (apply_directly dry files)) = (dry ≡ dry_run) × P files
Applies dry_run P (request (delete_cluster_role_binding name)) = ⊥
Applies dry_run P (request (delete_cluster_role name)) = ⊥
Applies dry_run P (request (delete_secret namespace name)) = ⊥
Applies dry_run P (request (delete_service_account namespace name)) = ⊥
Applies dry_run P _ = Unit

-- The files that `get token` may apply: the role's, and the token's only for a bootstrap token.
abbrev pub IsApplied : Options → List String → Type 0
IsApplied o files =
    (files ≡ "init/bootstrap_cluster_role.yaml" ∷ [])
    ⊎ ((o.use_bootstrap_token ≡ true)
        × (files
            ≡ "init/namespace.yaml" ∷ "init/bootstrap-token-secret.yaml"
              ∷ "init/bootstrap_cluster_role.yaml" ∷ "init/bootstrap_cluster_role_binding.yaml"
              ∷ []))

module _ (X : Errors) (arg : String) (server : Server Call Answer X.Error) (o : Options)
    (P : List String → Type 0) where
  abbrev Good : Event Call → Type 0
  Good = Applies o.dry_run P

  call-Good : (c : Call) → Good (request c) → Emits Good (call server c)
  call-Good c p = Emits-call {P = Good} server c p

  the_secret-Good : (s : Option Secret) → Emits Good (the_secret X server s)
  unfolding the_secret
  the_secret-Good none = search emits_rules
  the_secret-Good (some s) = search emits_rules

  get_bootstrap_token-Good : Emits Good (get_bootstrap_token X server)
  unfolding get_bootstrap_token get_bootstrap_secret
  get_bootstrap_token-Good =
      Emits-bind _ _
        (Emits-bind _ _ (call-Good (list_secrets "kube-system" "app = cluster-manager") tt)
          (λ items. the_secret-Good _))
        (λ s. Emits-pure _)

  sa_token-Good : (r : Result X.Error String) → Emits Good (sa_token X server r)
  unfolding sa_token
  sa_token-Good (ok token) = search emits_rules
  sa_token-Good (err e) = search emits_rules

  get_bootstrap_token_from_sa-Good : Emits Good (get_bootstrap_token_from_sa X server)
  unfolding get_bootstrap_token_from_sa
  get_bootstrap_token_from_sa-Good =
      Emits-bind _ _
        (Emits-attempt _
          (call-Good (create_token "open-cluster-management" "cluster-bootstrap") tt))
        (λ r. sa_token-Good r)

  pub read_token-Good : Emits Good (read_token X arg server o)
  unfolding read_token
  read_token-Good = search (emits_rules, get_bootstrap_token-Good, get_bootstrap_token_from_sa-Good)

  print_token-Good : (token host : String) → Emits Good (print_token X arg server o token host)
  unfolding print_token
  print_token-Good token host =
      Emits-if (text_eq o.output "json") _ _ (λ _. call-Good (write_json token host) tt)
        (λ _. Emits-then _ _ (Emits-say _ tt) (Emits-say _ tt))

  write_result-Good :
      (token host : String) (output : List String)
      → Emits Good (write_result X arg server o token host output)
  unfolding write_result
  write_result-Good token host output =
      Emits-then _ _
        (Emits-if (text_eq token "") _ _ (λ _. Emits-say _ tt) (λ _. print_token-Good token host))
        (call-Good (write_output o.output_file output) tt)

  pub finish-Good :
      (token host : String) (output : List String)
      → Emits Good (finish X arg server o token host output)
  unfolding finish
  finish-Good token host output =
      Emits-if o.dry_run _ _ (λ _. write_result-Good token host output)
        (λ _. Emits-bind _ _ read_token-Good (λ fresh. write_result-Good fresh host output))

  pub token_or_apply-Good :
      (r : Result X.Error String)
      → ((e : X.Error)
          → r ≡ err e
          → X.is_not_found e ≡ true
          → P (token_files o.use_bootstrap_token))
      → Emits Good (token_or_apply X arg server o r)
  unfolding token_or_apply apply_missing apply_token
  token_or_apply-Good (ok token) missing = search emits_rules
  token_or_apply-Good (err e) missing =
      Emits-if (X.is_not_found e) _ (fail e)
        (λ gone.
          Emits-bind _ _
            (call-Good (apply_directly o.dry_run (token_files o.use_bootstrap_token))
              (refl, missing e refl gone))
            (λ out. Emits-pure _))
        (λ _. Emits-fail e)

  pub run-Good :
      P role_files
      → ((h : Trace Call) (e : X.Error)
          → (read_token X arg server o h).0 ≡ err e
          → X.is_not_found e ≡ true
          → P (token_files o.use_bootstrap_token))
      → Emits Good (run X arg server o)
  unfolding run
  run-Good role missing = Emits-bind_of _ _ (Emits-attempt _ read_token-Good) λ r h answered.
      Emits-bind _ _
        (token_or_apply-Good r
          (λ e same gone. missing h e (attempt_result _ h r answered ∙ same) gone))
        (λ t. Emits-bind _ _ (call-Good (apply_directly o.dry_run role_files) (refl, role)) λ out.
          Emits-bind _ _ (call-Good rest_config tt) λ host. finish-Good t.0 host (t.1 ++ out))
