-- ===== src/Install/Joined.antt =====
-- The order of the steps of `run` of pkg/cmd/join/exec.go.
use clusteradm.Base.{◌≡◌, refl, ◌⊎◌, inl, inr, Bool, true, false, not, ◌&&◌, String, List, ◌++◌}
use clusteradm.Effect.{Event, print, request, Prog, Server, ◌>>◌}
use clusteradm.Effect.Emits.{
  Emits, Emits-pure, Emits-if, Emits-bind, Emits-bind_of, Emits-then, Emits-call, Emits-say,
  Emits-attempt, Emits-lift,
}
use clusteradm.Effect.IfOk.{IfOk, IfOk-if}
use clusteradm.Errors.{Errors}
use clusteradm.Retry.{IsRetry}
use clusteradm.Watch.{watch_until}
use clusteradm.Install.{
  Call, Answer, apply_directly, apply_deployments, apply_custom_resources, get_crd, watch_pods,
  create_token, rest_config, write_join_command, write_json, write_output,
}
use clusteradm.Install.Waits.{wait_until_crd_ready, wait_until_pod_ready}
use clusteradm.Install.Ordered.{IsEstablished, check_crd-IfOk, check_crd-Emits}
use clusteradm.Install.Join.{Options, klusterlet_crd, wait_crd, wait_pod, apply_klusterlet, run}

module _ (X : Errors) (server : Server Call Answer X.Error) where
  -- What may happen: join makes no token and reads no configuration here, the applier keeps to the dry-run
  -- flag, and the klusterlet is applied in a dry run or once its CRD is established.
  abbrev pub JoinOrder : Options → Event Call → Type 0
  JoinOrder o (print line) = Unit {0}
  JoinOrder o (request (apply_directly dry_run files)) = dry_run ≡ o.dry_run
  JoinOrder o (request (apply_deployments dry_run file)) = dry_run ≡ o.dry_run
  JoinOrder o (request (apply_custom_resources dry_run file)) =
      (dry_run ≡ o.dry_run) × ((o.dry_run ≡ true) ⊎ IsEstablished X server klusterlet_crd)
  JoinOrder o (request (get_crd name)) = (o.dry_run ≡ false) × (name ≡ klusterlet_crd)
  JoinOrder o (request (watch_pods namespace selector)) = (o.wait ≡ true) × (o.dry_run ≡ false)
  JoinOrder o (request (create_token namespace name)) = ⊥
  JoinOrder o (request rest_config) = ⊥
  JoinOrder o (request (write_join_command file command)) = ⊥
  JoinOrder o (request (write_json token host)) = ⊥
  JoinOrder o (request (write_output file output)) = file ≡ o.output_file

  module _ (arg : String) (on_error : Prog Call X.Error (Unit {0}) → Prog Call X.Error (Unit {0}))
      (is_true : List (String × String) → String → Bool) where
    wait_pod-Emits :
        (o : Options) (namespace selector : String)
        → Emits (JoinOrder o) (wait_pod X arg server on_error is_true o namespace selector)
    unfolding wait_pod wait_until_pod_ready
    wait_pod-Emits o namespace selector =
        Emits-if _ _ _
          (λ real.
            Emits-bind _ _
              (Emits-attempt _ (
                Emits-call server (watch_pods namespace selector)
                  (real_wait o.wait o.dry_run real)))
              (λ r.
                Emits-lift
                  (watch_until X r (λ event. event.is_pod && is_true event.conditions "Ready"))))
          (λ _. Emits-pure _)
      where
        real_wait :
            (wait dry_run : Bool) → (wait && not dry_run) ≡ true → (wait ≡ true) × (dry_run ≡ false)
        real_wait true false e = (refl, refl)
        real_wait true true e = absurd (cc)
        real_wait false dry_run e = absurd (cc)

    apply_klusterlet-Emits :
        (o : Options) (output : List String)
        → (o.dry_run ≡ true) ⊎ IsEstablished X server klusterlet_crd
        → Emits (JoinOrder o) (apply_klusterlet X arg server on_error is_true o output)
    unfolding apply_klusterlet
    apply_klusterlet-Emits o output established =
        Emits-bind _ _
          (Emits-call {P = JoinOrder o} server
            (apply_custom_resources o.dry_run "join/klusterlets.cr.yaml") (refl, established))
          λ out. Emits-then _ _ (wait_pod-Emits o _ _) (
            Emits-then _ _ (wait_pod-Emits o _ _) (
              Emits-then _ _ (Emits-say _ tt)
                (Emits-call server (write_output o.output_file (output ++ out)) refl)))

    module _ (is_retry : IsRetry on_error) where
      wait_crd-Emits :
          (o : Options) → Emits (JoinOrder o) (wait_crd X arg server on_error is_true o)
      unfolding wait_crd wait_until_crd_ready
      wait_crd-Emits o =
          Emits-if _ _ _ (λ _. Emits-pure _)
            (λ real.
              is_retry.emits _ _
                (check_crd-Emits X server (JoinOrder o) (λ _. tt) klusterlet_crd _ (real, refl)))

      wait_crd-IfOk :
          (o : Options)
          → IfOk
              ((o.dry_run ≡ true) ⊎ IsEstablished X server klusterlet_crd)
              (wait_crd X arg server on_error is_true o)
      unfolding wait_crd wait_until_crd_ready
      wait_crd-IfOk o =
          IfOk-if _ _ _ (λ dry. record { at = λ h a done. inl dry })
            (λ real. record {
              at = λ h a done.
                  let (h', found) = is_retry.succeeded _ h done in
                  inr ((check_crd-IfOk X server klusterlet_crd o.wait).at h' tt found);
            })

      -- If the retry is lawful, then join keeps to the dry-run flag in each call of the applier; applies the
      -- klusterlet only in a dry run or after the API server has answered, at least once, that the CRD of the
      -- klusterlets is established; reads that CRD only in a real run, and no other; watches pods only in a
      -- real run with `--wait`; creates no token; and writes its output only to the file of its options.
      pub join-JoinOrder : (o : Options) → Emits (JoinOrder o) (run X arg server on_error is_true o)
      unfolding run ◌>>◌
      join-JoinOrder o = Emits-bind _ _ (Emits-call server _ refl) λ out₁.
          Emits-bind _ _ (Emits-call server _ refl) λ out₂.
            Emits-bind_of _ _ (wait_crd-Emits o)
              (λ _ h done. apply_klusterlet-Emits o _ ((wait_crd-IfOk o).at h tt done))
