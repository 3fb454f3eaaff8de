-- ===== src/Install/Validate/Laws.antt =====
-- What `validate` of init writes, and when it succeeds.
use clusteradm.Base.{
  ◌≡◌, ◌≢◌, ◌⊎◌, inl, inr, true, false, ◌&&◌, not, text_eq, eq_iff, Bool-cases, arith,
}
use clusteradm.Effect.{ok, Trace, Server, fail, ◌>>◌}
use clusteradm.Effect.Emits.{Emits, Emits-pure, Emits-fail, Emits-if, Emits-then}
use clusteradm.Effect.Runs.{ok_bind}
use clusteradm.Errors.{Errors}
use clusteradm.Preflight.{run_checks}
use clusteradm.Preflight.Passed.{run_checks-AllPass}
use clusteradm.Preflight.Emitted.{run_checks-Emits}
use clusteradm.Preflight.ClusterInfo.{
  Call, Answer, Library, bootstrap_config_map, load_current_cluster,
}
use clusteradm.Preflight.ClusterInfo.Laws.{
  MayWrite, check_cluster_info-Emits, check_hub_api_server-Emits,
}
use clusteradm.Kubeconfig.{Cluster}
use clusteradm.Preflight.ClusterInfo.Ready.{
  IsReady, check_cluster_info-IsReady, check_hub_api_server_loads,
}
use clusteradm.Install.Init.{Options}
use clusteradm.Install.Validate.{init_checks, validate_flags, check_and_validate, validate}

module _ (X : Errors) (L : Library X.Error) (server : Server Call Answer X.Error) where
  -- `validate` of init, also in a dry run, reads the default kubeconfig and the cluster-info, and writes
  -- nothing but the cluster-info of kube-public: only after the hub has answered that it is missing, with
  -- the current cluster of the kubeconfig, flattened; and by an update only if the creation has answered
  -- that it exists.
  pub validate-MayWrite :
      (o : Options)
      → Emits
          (MayWrite X L server "kube-public" bootstrap_config_map o.context "")
          (validate X L server o)
  unfolding validate check_and_validate validate_flags
  validate-MayWrite o =
      Emits-if o.force _ _ (λ _. Emits-pure _)
        (λ _.
          Emits-then _ _
            (run_checks-Emits X _ (λ _. tt) (init_checks X L server o)
              (
                (check_hub_api_server-Emits X L server "kube-public" bootstrap_config_map o.context
                    "").at,
                (
                  (check_cluster_info-Emits X L server "kube-public" bootstrap_config_map o.context
                      "").at,
                  tt,
                ),
              ))
            (Emits-if (text_eq o.registry "") _ _ (λ _. Emits-fail _)
              (λ _.
                Emits-if (o.wait && not (text_eq o.output "text")) _ _ (λ _. Emits-fail _)
                  (λ _. Emits-pure _))))

  -- The flags fit together.
  abbrev pub AreValid : Options → Type 0
  AreValid o = (o.registry ≢ "") × ((o.wait ≡ false) ⊎ (o.output ≡ "text"))

  validate_flags_valid :
      (o : Options) (h : Trace Call) → (validate_flags X L server o h).0 ≡ ok tt → AreValid o
  unfolding validate_flags fail
  validate_flags_valid o h e = elim (Bool-cases (text_eq o.registry "")) [
    | inl empty ↦ absurd (ground (arith, e, empty))
    | inr named ↦ (
      (λ same. cc (named, (eq_iff o.registry "").1 same)),
      elim (Bool-cases o.wait) [
        | inl waits ↦ elim (Bool-cases (text_eq o.output "text")) [
          | inl text ↦ inr ((eq_iff o.output "text").0 text)
          | inr other ↦ absurd (ground (arith, e, named, waits, other))
        ]
        | inr at_once ↦ inl at_once
      ],
    )
  ]

  -- If `validate` of init succeeds, it is forced, or: there is a registry, and with `--wait` the output is
  -- text; the current cluster of the default kubeconfig can be loaded; and the hub has the cluster-info
  -- with a kubeconfig, or it was missing and the hub has taken one with the current cluster.
  pub validate-IsReady :
      (o : Options) (h : Trace Call)
      → (validate X L server o h).0 ≡ ok tt
      → (o.force ≡ true)
        ⊎ (AreValid o
            × ((cluster : Cluster) × (h' : Trace Call) × ((load_current_cluster X L server o.context
                    "" h').0
                  ≡ ok cluster))
            × IsReady X L server "kube-public" bootstrap_config_map o.context "")
  unfolding validate check_and_validate ◌>>◌ validate_flags
  validate-IsReady o h e = elim (Bool-cases o.force) [
    | inl forced ↦ inl forced
    | inr free ↦
        let checks = init_checks X L server o in
        let (_, passed, flags) =
          ok_bind (run_checks X checks) (λ _. validate_flags X L server o) h tt (rw free at e) in
        let (first, (second, _)) = (run_checks-AllPass X checks h).1.0 passed in
        let (cluster, found) = check_hub_api_server_loads X L server o.context "" h first in
        inr (
          validate_flags_valid o _ flags,
          (cluster, h, found),
          check_cluster_info-IsReady X L server "kube-public" bootstrap_config_map o.context "" _
              second,
        )
  ]
