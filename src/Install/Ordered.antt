-- ===== src/Install/Ordered.antt =====
-- The order of the steps of `run` of pkg/cmd/init/exec.go.
use clusteradm.Base.{
  ◌≡◌, refl, ◌⊎◌, inl, inr, Bool, true, false, not, ◌&&◌, String, ◌<>◌, List, ◌++◌, text_eq,
}
use clusteradm.Effect.{Result, ok, err, Event, print, request, Prog, Server, call, attempt, ◌>>◌}
use clusteradm.Effect.Emits.{
  Emits, emits_rules, Emits-pure, Emits-if, Emits-bind, Emits-bind_of, Emits-then, Emits-call,
  Emits-say, Emits-attempt, Emits-lift,
}
use clusteradm.Effect.IfOk.{IfOk, IfOk-fail, IfOk-if, IfOk-bind_of, IfOk-then_right}
use clusteradm.Effect.Runs.{attempt_result}
use clusteradm.Errors.{Errors}
use clusteradm.Retry.{IsRetry}
use clusteradm.Watch.{watch_until}
use clusteradm.Install.{
  Call, Answer, apply_directly, apply_deployments, apply_custom_resources, get_crd, watch_pods,
  create_token, rest_config, write_join_command, write_json, write_output,
}
use clusteradm.Install.Waits.{
  not_ready, crd_ready, check_crd, wait_until_crd_ready, wait_until_pod_ready,
}
use clusteradm.Install.Init.{
  Options, created_token, token_from_sa, the_token, write_command, print_command, print_result,
  wait_crd, wait_pod, apply_manager, run, cluster_manager_crd,
}

module _ (X : Errors) (server : Server Call Answer X.Error) where
  -- The API server has once answered that the CRD is established.
  abbrev pub IsEstablished : String → Type 0
  IsEstablished name = (h : List (Event Call)) × (server h (get_crd name) ≡ ok true)

  -- What may happen: the applier keeps to the dry-run flag, the custom resource is applied in a dry run or
  -- once its CRD is established, and only a real run creates a token or waits.
  abbrev pub InOrder : Options → Event Call → Type 0
  InOrder o (print line) = Unit {0}
  InOrder o (request (apply_directly dry_run files)) = dry_run ≡ o.dry_run
  InOrder o (request (apply_deployments dry_run file)) = dry_run ≡ o.dry_run
  InOrder o (request (apply_custom_resources dry_run file)) =
      (dry_run ≡ o.dry_run) × ((o.dry_run ≡ true) ⊎ IsEstablished cluster_manager_crd)
  InOrder o (request (get_crd name)) = o.dry_run ≡ false
  InOrder o (request (watch_pods namespace selector)) = (o.wait ≡ true) × (o.dry_run ≡ false)
  InOrder o (request (create_token namespace name)) =
      (o.dry_run ≡ false) × (o.use_bootstrap_token ≡ false)
  InOrder o (request rest_config) = Unit {0}
  InOrder o (request (write_join_command file command)) = Unit {0}
  InOrder o (request (write_json token host)) = text_eq o.output "json" ≡ true
  InOrder o (request (write_output file output)) = Unit {0}

  crd_ready-IfOk :
      (name : String) (wait : Bool) (h : List (Event Call)) (r : Result X.Error Bool)
      → server h (get_crd name) ≡ r
      → IfOk (IsEstablished name) (crd_ready X server name wait r)
  unfolding crd_ready not_ready
  crd_ready-IfOk name wait h (err e) p = IfOk-then_right _ _ (IfOk-then_right _ _ (IfOk-fail _))
  crd_ready-IfOk name wait h (ok true) p = record { at = λ h' a done. (h, p) }
  crd_ready-IfOk name wait h (ok false) p = IfOk-then_right _ _ (IfOk-then_right _ _ (IfOk-fail _))

  call_answer :
      (c : Call) (h : List (Event Call)) (r : Result X.Error (Answer c))
      → (attempt (call server c) h).0 ≡ ok r
      → server h c ≡ r
  unfolding call
  call_answer c h r e = attempt_result (call server c) h r e

  pub check_crd-IfOk :
      (name : String) (wait : Bool) → IfOk (IsEstablished name) (check_crd X server name wait)
  unfolding check_crd
  check_crd-IfOk name wait =
      IfOk-bind_of _ _ λ r h e. crd_ready-IfOk name wait h r (call_answer (get_crd name) h r e)

  module _ (P : Event Call → Type 0) (prints : (line : String) → P (print line)) where
    crd_ready-Emits :
        (name : String) (wait : Bool) (r : Result X.Error Bool)
        → Emits P (crd_ready X server name wait r)
    unfolding crd_ready not_ready
    crd_ready-Emits name wait (err e) = search (emits_rules, prints)
    crd_ready-Emits name wait (ok true) = search emits_rules
    crd_ready-Emits name wait (ok false) = search (emits_rules, prints)

    pub check_crd-Emits :
        (name : String) (wait : Bool)
        → P (request (get_crd name))
        → Emits P (check_crd X server name wait)
    unfolding check_crd
    check_crd-Emits name wait asks =
        Emits-bind _ _ (Emits-attempt _ (Emits-call server _ asks)) (crd_ready-Emits name wait)

  created_token-Emits :
      (o : Options) (arg : String) (r : Result X.Error String)
      → Emits (InOrder o) (created_token X arg server r)
  unfolding created_token
  created_token-Emits o arg (ok token) = search emits_rules
  created_token-Emits o arg (err e) = search emits_rules

  token_from_sa-Emits :
      (o : Options) (arg : String)
      → (o.dry_run ≡ false) × (o.use_bootstrap_token ≡ false)
      → Emits (InOrder o) (token_from_sa X arg server)
  unfolding token_from_sa
  token_from_sa-Emits o arg real =
      Emits-bind _ (created_token X arg server)
        (Emits-attempt _
          (Emits-call server (create_token "open-cluster-management" "cluster-bootstrap") real))
        (created_token-Emits o arg)

  the_token-Emits : (o : Options) (arg : String) → Emits (InOrder o) (the_token X arg server o)
  unfolding the_token
  the_token-Emits o arg =
      Emits-if _ _ _
        (λ real. token_from_sa-Emits o arg (real_token o.use_bootstrap_token o.dry_run real))
        (λ _. Emits-pure _)
    where
      real_token :
          (bootstrap dry_run : Bool)
          → (not bootstrap && not dry_run) ≡ true
          → (dry_run ≡ false) × (bootstrap ≡ false)
      real_token false false e = (refl, refl)
      real_token false true e = absurd (cc)
      real_token true dry_run e = absurd (cc)

  write_command-Emits :
      (o : Options) (arg command : String)
      → Emits (InOrder o) (write_command X arg server o command)
  unfolding write_command
  write_command-Emits o arg command =
      Emits-if _ _ _ (λ _. Emits-pure _)
        (λ _.
          Emits-call server
            (write_join_command o.output_join_command_file (command <> " --cluster-name $1")) tt)

  print_command-Emits :
      (o : Options) (arg token host : String)
      → Emits (InOrder o) (print_command X arg server o token host)
  unfolding print_command
  print_command-Emits o arg token host =
      Emits-if _ _ _ (λ json. Emits-call server (write_json token host) json) (λ _. Emits-say _ tt)

  print_result-Emits :
      (o : Options) (arg token : String) (output : List String) (r : Result X.Error String)
      → Emits (InOrder o) (print_result X arg server o token output r)
  unfolding print_result
  print_result-Emits o arg token output (err e) = search emits_rules
  print_result-Emits o arg token output (ok host) = Emits-then _ _ (write_command-Emits o arg _) (
      Emits-then _ _ (print_command-Emits o arg token host)
        (Emits-call server (write_output o.output_file output) tt))

  module _ (on_error : Prog Call X.Error (Unit {0}) → Prog Call X.Error (Unit {0}))
      (is_true : List (String × String) → String → Bool) (arg : String) where
    wait_pod-Emits :
        (o : Options) (namespace selector : String)
        → Emits (InOrder o) (wait_pod X arg server on_error is_true o namespace selector)
    unfolding wait_pod wait_until_pod_ready
    wait_pod-Emits o namespace selector =
        Emits-if _ _ _
          (λ real.
            Emits-bind _ _
              (Emits-attempt _ (
                Emits-call server (watch_pods namespace selector)
                  (real_wait o.wait o.dry_run real)))
              (λ r.
                Emits-lift
                  (watch_until X r (λ event. event.is_pod && is_true event.conditions "Ready"))))
          (λ _. Emits-pure _)
      where
        real_wait :
            (wait dry_run : Bool) → (wait && not dry_run) ≡ true → (wait ≡ true) × (dry_run ≡ false)
        real_wait true false e = (refl, refl)
        real_wait true true e = absurd (cc)
        real_wait false dry_run e = absurd (cc)

    apply_manager-Emits :
        (o : Options) (output : List String)
        → (o.dry_run ≡ true) ⊎ IsEstablished cluster_manager_crd
        → Emits (InOrder o) (apply_manager X arg server on_error is_true o output)
    unfolding apply_manager
    apply_manager-Emits o output established = Emits-then _ _ (wait_pod-Emits o _ _) (
        Emits-bind _ _
          (Emits-call {P = InOrder o} server
            (apply_custom_resources o.dry_run "init/clustermanager.cr.yaml") (refl, established))
          λ out. Emits-then _ _ (wait_pod-Emits o _ _) (
            Emits-bind _ _ (the_token-Emits o arg) λ token.
              Emits-bind _ (print_result X arg server o token (output ++ out))
                (Emits-attempt _ (Emits-call server rest_config tt))
                (print_result-Emits o arg token (output ++ out))))

    module _ (is_retry : IsRetry on_error) where
      wait_crd-Emits : (o : Options) → Emits (InOrder o) (wait_crd X arg server on_error is_true o)
      unfolding wait_crd wait_until_crd_ready
      wait_crd-Emits o =
          Emits-if _ _ _ (λ _. Emits-pure _)
            (λ real. is_retry.emits _ _ (check_crd-Emits (InOrder o) (λ _. tt) _ _ real))

      wait_crd-IfOk :
          (o : Options)
          → IfOk
              ((o.dry_run ≡ true) ⊎ IsEstablished cluster_manager_crd)
              (wait_crd X arg server on_error is_true o)
      unfolding wait_crd wait_until_crd_ready
      wait_crd-IfOk o =
          IfOk-if _ _ _ (λ dry. record { at = λ h a done. inl dry })
            (λ real. record {
              at = λ h a done.
                  let (h', found) = is_retry.succeeded _ h done in
                  inr ((check_crd-IfOk cluster_manager_crd o.wait).at h' tt found);
            })

      -- If the retry is lawful, then init keeps to the dry-run flag in each call of the applier; applies the
      -- custom resource only in a dry run or after the API server has answered, at least once, that the CRD
      -- of the cluster managers is established; reads the CRD and the token of the service account only in a
      -- real run, the token only without a bootstrap token; watches pods only in a real run with `--wait`;
      -- and writes JSON only where the output is json.
      pub init-InOrder : (o : Options) → Emits (InOrder o) (run X arg server on_error is_true o)
      unfolding run ◌>>◌
      init-InOrder o = Emits-bind _ _ (Emits-call server _ refl) λ out₁.
          Emits-bind _ _ (Emits-call server _ refl) λ out₂.
            Emits-bind_of _ _ (wait_crd-Emits o)
              (λ _ h done. apply_manager-Emits o _ ((wait_crd-IfOk o).at h tt done))
