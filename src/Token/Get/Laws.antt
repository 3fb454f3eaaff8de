-- ===== src/Token/Get/Laws.antt =====
-- What `get token` applies.
use clusteradm.Base.{
  ap, sym, ◌∙◌, Bool-cases, ◌≡◌, refl, ◌⊎◌, inl, inr, true, false, String, List, [], ◌∷◌, ◌++◌,
  if◌then◌else◌,
}
use mathlib.Core.List.{append-nil}
use clusteradm.Effect.{Result, ok, err, Trace, Server, pure, fail, call, ◌>>=◌, attempt}
use clusteradm.Effect.Emits.{Emits, Emits-attempt}
use clusteradm.Effect.Runs.{Result-cases, attempt_result}
use clusteradm.Errors.{Errors, IsLawful}
use clusteradm.Token.{
  Call, Answer, create_token, apply_directly, rest_config, sa_failure, sa_token,
  get_bootstrap_token_from_sa,
}
use clusteradm.Token.Lookup.{get_bootstrap_token}
use clusteradm.Token.Get.{Options, token_files, role_files, read_token, token_or_apply, run}
use clusteradm.Token.Get.Emitted.{Applies, IsApplied, read_token-Good, finish-Good, run-Good}
use clusteradm.Token.Get.Applied.{
  applied, applied-bind, applied-nil, applied-call, token_or_apply-applied,
}

module _ (X : Errors) (arg : String) (server : Server Call Answer X.Error) where
  -- The error of a service account's token is no NotFound.
  sa_error :
      IsLawful X
      → (h : Trace Call) (e : X.Error) → (get_bootstrap_token_from_sa X server h).0 ≡ err e
      → X.is_not_found e ≡ false
  unfolding get_bootstrap_token_from_sa sa_token ◌>>=◌ attempt call pure fail
  sa_error L h e failed =
      let ask = create_token "open-cluster-management" "cluster-bootstrap" in
      elim (Result-cases (server h ask)) [
        | inl (token, a) ↦ absurd (cc (rw a at failed))
        | inr (x, a) ↦
            let wrapped : Path (Result X.Error String) (err (X.errorf (sa_failure (X.text x))))
                (err e) =
              rw a at failed in
            let same : X.errorf (sa_failure (X.text x)) ≡ e = cc in
            ap X.is_not_found (sym same) ∙ L.is_not_found-errorf (sa_failure (X.text x))
      ]

  asks_bootstrap :
      IsLawful X
      → (o : Options) (h : Trace Call) (e : X.Error) → (read_token X arg server o h).0 ≡ err e
      → X.is_not_found e ≡ true
      → o.use_bootstrap_token ≡ true
  unfolding read_token
  asks_bootstrap L o h e failed gone = elim (Bool-cases o.use_bootstrap_token) [
    | inl flag ↦ flag
    | inr flag ↦
        let chosen =
          ap
            (λ b.
              (if b then get_bootstrap_token X server else get_bootstrap_token_from_sa X server) h)
            flag in
        absurd (cc (sa_error L h e (sym (ap (λ r. r.0) chosen) ∙ failed)))
  ]

  -- What has been applied, the last one first: the file of the role, or before it the files of the token if
  -- the options ask for a bootstrap token.
  abbrev pub InOrder : Options → List (List String) → Type 0
  InOrder o lists =
      (lists ≡ ("init/bootstrap_cluster_role.yaml" ∷ []) ∷ [])
      ⊎ ((o.use_bootstrap_token ≡ true)
          × (lists
              ≡ ("init/bootstrap_cluster_role.yaml" ∷ [])
                ∷ ("init/namespace.yaml" ∷ "init/bootstrap-token-secret.yaml"
                    ∷ "init/bootstrap_cluster_role.yaml"
                    ∷ "init/bootstrap_cluster_role_binding.yaml" ∷ [])
                ∷ []))

  run-InOrder :
      IsLawful X
      → (o : Options) (h : Trace Call) → (run X arg server o h).0 ≡ ok tt
      → InOrder o (applied (run X arg server o h).1)
  unfolding run
  run-InOrder L o h done =
      let (r, read, done₁, e₁) = applied-bind (attempt (read_token X arg server o)) _ h tt done in
      let (t, first, done₂, e₂) = applied-bind (token_or_apply X arg server o r) _ _ tt done₁ in
      let (out, _, done₃, e₃) =
        applied-bind (call server (apply_directly o.dry_run role_files)) _ _ tt done₂ in
      let (host, _, done₄, e₄) = applied-bind (call server rest_config) _ _ tt done₃ in
      let read_nil =
        applied-nil o.dry_run _
          ((Emits-attempt _ (read_token-Good X arg server o (λ _. ⊥))).at h) in
      let end_nil =
        applied-nil o.dry_run _
          ((finish-Good X arg server o (λ _. ⊥) t.0 host (t.1 ++ out)).at _) in
      let role = applied-call server (apply_directly o.dry_run role_files) _ in
      let config = applied-call server rest_config _ in
      let whole = in_a_row e₁ e₂ e₃ e₄ end_nil config read_nil role in
      elim (token_or_apply-applied X arg server o r _ t first) [
        | inl nothing ↦ inl (whole ∙ ap (λ fs. role_files ∷ fs) nothing)
        | inr (e, failed, gone, files) ↦
            let flag = asks_bootstrap L o h e (attempt_result _ h r read ∙ failed) gone in
            inr
              (flag, whole ∙ ap (λ fs. role_files ∷ fs) (files ∙ ap (λ b. token_files b ∷ []) flag))
      ]
    where
      in_a_row :
          {all rest₁ rest₂ rest₃ last host role token first : List (List String)}
          {files : List String}
          → all ≡ rest₁ ++ first
          → rest₁ ≡ rest₂ ++ token
          → rest₂ ≡ rest₃ ++ role
          → rest₃ ≡ last ++ host
          → last ≡ []
          → host ≡ []
          → first ≡ []
          → role ≡ files ∷ []
          → all ≡ files ∷ token
      in_a_row {rest₁} {role} {token} a b c d last_nil host_nil first_nil role_one =
          a
          ∙ ap (λ x. rest₁ ++ x) first_nil
          ∙ append-nil rest₁
          ∙ b
          ∙ ap (λ x. x ++ token)
              (c ∙ ap (λ x. x ++ role) (d ∙ (λ i. last_nil i ++ host_nil i)) ∙ role_one)

  -- `get token` deletes nothing and gives the applier the dry-run flag of its options each time. It
  -- applies only the file of the role, and the files of the token with --use-bootstrap-token: without that
  -- flag a missing service account is never created, since the error that is tested for NotFound is a new
  -- one. If it succeeds, it has applied the file of the role once, with nothing else or the files of the
  -- token before it.
  pub run-Applies :
      IsLawful X
      → (o : Options)
      → Emits (Applies o.dry_run (IsApplied o)) (run X arg server o)
        × ((h : Trace Call)
            → (run X arg server o h).0 ≡ ok tt
            → InOrder o (applied (run X arg server o h).1))
  run-Applies L o = (
    run-Good X arg server o (IsApplied o) (inl refl) (λ h e failed gone.
        let flag = asks_bootstrap L o h e failed gone in inr (flag, ap token_files flag)),
    run-InOrder L o,
  )
