-- ===== src/Upgrade/Ordered.antt =====
-- The order of the steps of the upgrades.
use clusteradm.Base.{
  ◌≡◌, refl, ◌⊎◌, inl, inr, Bool, true, false, not, ◌&&◌, String, List, [], ◌∷◌, ◌++◌, In,
}
use clusteradm.Effect.{Event, print, request, Prog, Server, ◌>>◌}
use clusteradm.Effect.Emits.{
  Emits, Emits-pure, Emits-if, Emits-bind, Emits-bind_of, Emits-then, Emits-call, Emits-say,
  Emits-attempt, Emits-lift,
}
use clusteradm.Effect.IfOk.{IfOk, IfOk-if}
use clusteradm.Errors.{Errors}
use clusteradm.Retry.{IsRetry}
use clusteradm.Watch.{watch_until}
use clusteradm.Install.{
  Call, Answer, apply_directly, apply_deployments, apply_custom_resources, get_crd, watch_pods,
  create_token, rest_config, write_join_command, write_json, write_output,
}
use clusteradm.Install.Waits.{wait_until_crd_ready, wait_until_pod_ready}
use clusteradm.Install.Ordered.{IsEstablished, check_crd-IfOk, check_crd-Emits}
use clusteradm.Upgrade.{Options}
use clusteradm.Upgrade.ClusterManager
use clusteradm.Upgrade.ClusterManager.{manager_crd, wait_ready, wait_operator, apply_resource}
use clusteradm.Upgrade.Klusterlet

-- The lists of files that the upgrade of the cluster manager applies.
abbrev pub all_manager_files : List (List String)
all_manager_files =
    ("init/clustermanager_cluster_role.yaml" ∷ "init/clustermanager_cluster_role_binding.yaml"
      ∷ "init/clustermanagers.crd.yaml" ∷ "init/clustermanager_sa.yaml" ∷ [])
    ∷ ("init/clustermanagers.crd.yaml" ∷ [])
    ∷ []

-- The list of files that the upgrade of the klusterlet applies.
abbrev pub all_klusterlet_files : List (List String)
all_klusterlet_files =
    ("join/namespace_agent.yaml" ∷ "join/namespace_addon.yaml" ∷ "join/namespace.yaml"
      ∷ "join/cluster_role.yaml" ∷ "join/cluster_role_binding.yaml" ∷ "join/klusterlets.crd.yaml"
      ∷ "join/service_account.yaml" ∷ [])
    ∷ []

module _ (X : Errors) (server : Server Call Answer X.Error) where
  -- What may happen in an upgrade with these files, this file of the operator and this custom resource.
  abbrev pub UpgradeOrder : Options → List (List String) → String → String → Event Call → Type 0
  UpgradeOrder o files operator resource (print line) = Unit {0}
  UpgradeOrder o files operator resource (request (apply_directly dry_run fs)) =
      (dry_run ≡ o.dry_run) × In fs files
  UpgradeOrder o files operator resource (request (apply_deployments dry_run file)) =
      (dry_run ≡ o.dry_run) × (file ≡ operator)
  UpgradeOrder o files operator resource (request (apply_custom_resources dry_run file)) =
      (dry_run ≡ o.dry_run)
      × (file ≡ resource)
      × ((o.dry_run ≡ true) ⊎ IsEstablished X server manager_crd)
  UpgradeOrder o files operator resource (request (get_crd name)) =
      (o.dry_run ≡ false) × (name ≡ manager_crd)
  UpgradeOrder o files operator resource (request (watch_pods namespace selector)) =
      (o.wait ≡ true) × (o.dry_run ≡ false) × (selector ≡ "app=cluster-manager")
  UpgradeOrder o files operator resource (request (create_token namespace name)) = ⊥
  UpgradeOrder o files operator resource (request rest_config) = ⊥
  UpgradeOrder o files operator resource (request (write_join_command file command)) = ⊥
  UpgradeOrder o files operator resource (request (write_json token host)) = ⊥
  UpgradeOrder o files operator resource (request (write_output file output)) = file ≡ ""

  module _ (on_error : Prog Call X.Error (Unit {0}) → Prog Call X.Error (Unit {0}))
      (is_true : List (String × String) → String → Bool) (is_retry : IsRetry on_error)
      (o : Options) where
    module _ (files : List (List String)) (operator resource : String) where
      wait_operator-Emits :
          Emits (UpgradeOrder o files operator resource) (wait_operator X server on_error is_true o)
      unfolding wait_operator wait_until_pod_ready
      wait_operator-Emits =
          Emits-if _ _ _
            (λ real.
              Emits-bind _ _
                (Emits-attempt _ (
                  Emits-call server (watch_pods "open-cluster-management" "app=cluster-manager")
                    (let (wait, live) = real_wait o.wait o.dry_run real in (wait, live, refl))))
                (λ r.
                  Emits-lift
                    (watch_until X r (λ event. event.is_pod && is_true event.conditions "Ready"))))
            (λ _. Emits-pure _)
        where
          real_wait :
              (wait dry_run : Bool)
              → (wait && not dry_run) ≡ true
              → (wait ≡ true) × (dry_run ≡ false)
          real_wait true false e = (refl, refl)
          real_wait true true e = absurd (cc)
          real_wait false dry_run e = absurd (cc)

      wait_ready-Emits :
          Emits
            (UpgradeOrder o files operator resource)
            (wait_ready X server on_error is_true o manager_crd)
      unfolding wait_ready wait_until_crd_ready
      wait_ready-Emits =
          Emits-if _ _ _ (λ _. Emits-pure _)
            (λ real. is_retry.emits _ _ (
              check_crd-Emits X server (UpgradeOrder o files operator resource) (λ _. tt)
                manager_crd _ (real, refl)))

      apply_resource-Emits :
          (output : List String)
          → (o.dry_run ≡ true) ⊎ IsEstablished X server manager_crd
          → Emits
              (UpgradeOrder o files operator resource)
              (apply_resource X server on_error is_true o resource output)
      unfolding apply_resource
      apply_resource-Emits output established =
          Emits-bind _ _
            (Emits-call {P = UpgradeOrder o files operator resource} server
              (apply_custom_resources o.dry_run resource) (refl, refl, established))
            λ out.
              Emits-then _ _ (Emits-say _ tt)
                (Emits-call server (write_output "" (output ++ out)) refl)

    wait_ready-IfOk :
        IfOk
          ((o.dry_run ≡ true) ⊎ IsEstablished X server manager_crd)
          (wait_ready X server on_error is_true o manager_crd)
    unfolding wait_ready wait_until_crd_ready
    wait_ready-IfOk =
        IfOk-if _ _ _ (λ dry. record { at = λ h a done. inl dry })
          (λ real. record {
            at = λ h a done.
                let (h', found) = is_retry.succeeded _ h done in
                inr ((check_crd-IfOk X server manager_crd o.wait).at h' tt found);
          })

    -- If the retry is lawful, then each upgrade keeps to the dry-run flag in each call of the applier, and
    -- applies its own files, its own operator and its own custom resource only; the custom resource only in a dry run or
    -- after the API server has answered, at least once, that the CRD of the cluster managers is
    -- established, which is also what the upgrade of the klusterlet waits for. The CRD is read only in a
    -- real run, pods of the cluster manager are watched only in a real run with `--wait`, and the output
    -- goes to no file.
    pub upgrade-UpgradeOrder :
        Emits
          (UpgradeOrder o all_manager_files "init/operator.yaml" "init/clustermanager.cr.yaml")
          (ClusterManager.run X server on_error is_true o)
        × Emits
            (UpgradeOrder o all_klusterlet_files "join/operator.yaml" "join/klusterlets.cr.yaml")
            (Klusterlet.run X server on_error is_true o)
    unfolding ClusterManager.run Klusterlet.run ◌>>◌
    upgrade-UpgradeOrder = (
      Emits-bind _ _ (Emits-call server _ (refl, inl refl)) (λ out₁.
          Emits-bind _ _ (Emits-call server _ (refl, refl)) λ out₂.
            Emits-bind _ _ (Emits-call server _ (refl, inr (inl refl))) λ out₃.
              Emits-bind_of _ _
                (wait_ready-Emits all_manager_files "init/operator.yaml"
                  "init/clustermanager.cr.yaml")
                λ _ h done.
                  Emits-bind _ _
                    (wait_operator-Emits all_manager_files "init/operator.yaml"
                      "init/clustermanager.cr.yaml")
                    λ _.
                      apply_resource-Emits all_manager_files "init/operator.yaml"
                        "init/clustermanager.cr.yaml" _ (wait_ready-IfOk.at h tt done)),
      Emits-bind _ _ (Emits-call server _ (refl, inl refl)) (λ out₁.
          Emits-bind _ _ (Emits-call server _ (refl, refl)) λ out₂.
            Emits-bind_of _ _
              (wait_ready-Emits all_klusterlet_files "join/operator.yaml"
                "join/klusterlets.cr.yaml")
              λ _ h done.
                Emits-bind _ _
                  (wait_operator-Emits all_klusterlet_files "join/operator.yaml"
                    "join/klusterlets.cr.yaml")
                  λ _.
                    apply_resource-Emits all_klusterlet_files "join/operator.yaml"
                      "join/klusterlets.cr.yaml" _ (wait_ready-IfOk.at h tt done)),
    )
