-- ===== src/Preflight/ClusterInfo/Ready.antt =====
-- What is known once a check of init has passed.
use clusteradm.Base.{
  ◌≡◌, refl, ◌⊎◌, inl, inr, false, String, Option, none, some, [], text_eq, Bool-cases, arith,
}
use clusteradm.Effect.{Result, ok, err, Trace, Server, pure, call, attempt, ◌>>=◌}
use clusteradm.Effect.Runs.{call_answer, lift_answer}
use clusteradm.Effect.IfOk.{IfOk, IfOk-fail, IfOk-if, IfOk-bind_of}
use clusteradm.Errors.{Errors}
use clusteradm.Kubeconfig.{Cluster}
use clusteradm.Preflight.ClusterInfo.{
  ConfigMap, Call, Answer, get_config_map, create_config_map, update_config_map, Library, lookup,
  load_current_cluster, wrapped, update, created_or_update, create_or_update, cluster_info,
  create_cluster_info, load_and_create, errors_of, check_kubeconfig, create_missing, check_found,
  check_cluster_info, checked_server, check_hub_api_server, answer_of,
}
use clusteradm.Preflight.ClusterInfo.Laws.{Holds, IsMissing}

module _ (X : Errors) (L : Library X.Error) (server : Server Call Answer X.Error) where
  open X use {is_not_found, is_already_exists}

  -- The hub has taken the ConfigMap.
  abbrev pub IsWritten : ConfigMap → Type 0
  IsWritten map =
      ((h : Trace Call) × (server h (create_config_map map) ≡ ok tt))
      ⊎ ((h : Trace Call) × (server h (update_config_map map) ≡ ok tt))

  -- The ConfigMap is there with a kubeconfig, or it was missing and the current cluster is written.
  abbrev pub IsReady : String → String → String → String → Type 0
  IsReady namespace name context path =
      ((h : Trace Call) × (map : ConfigMap) × (kubeconfig : String) × (server h
            (get_config_map namespace name)
          ≡ ok map)
        × (lookup "kubeconfig" map.entries ≡ some kubeconfig)
        × (text_eq kubeconfig "" ≡ false))
      ⊎ (IsMissing X L server namespace name
          × ((map : ConfigMap) × Holds X L server context path map × IsWritten map))

  create_or_update-IfOk : (map : ConfigMap) → IfOk (IsWritten map) (create_or_update X L server map)
  unfolding create_or_update
  create_or_update-IfOk map =
      IfOk-bind_of _ _ λ r h e. after r h (call_answer server (create_config_map map) h r e)
    where
      updated :
          (r : Result X.Error (Unit {0})) (h : Trace Call)
          → server h (update_config_map map) ≡ r
          → IfOk (IsWritten map) (wrapped X L server "unable to update ConfigMap" r)
      updated (ok _) h e = record { at = λ h' a done. inr (h, e) }
      updated (err x) h e = unfold wrapped in IfOk-fail _

      after :
          (r : Result X.Error (Unit {0})) (h : Trace Call)
          → server h (create_config_map map) ≡ r
          → IfOk (IsWritten map) (created_or_update X L server map r)
      after (ok _) h e = record { at = λ h' a done. inl (h, e) }
      after (err x) h e =
          unfold created_or_update update in
          IfOk-if (is_already_exists x) _ _
            (λ _.
              IfOk-bind_of _ _
                λ r h' e'. updated r h' (call_answer server (update_config_map map) h' r e'))
            (λ _. IfOk-fail _)

  abbrev Created : String → String → Type 0
  Created context path = (map : ConfigMap) × Holds X L server context path map × IsWritten map

  load_and_create-IfOk :
      (context path : String)
      → IfOk (Created context path) (load_and_create X L server context path)
  unfolding load_and_create create_cluster_info
  load_and_create-IfOk context path = IfOk-bind_of _ _ λ cluster h e. IfOk-bind_of _ _ λ flat h₁ e₁.
      IfOk-bind_of _ _ λ kubeconfig h₂ e₂. record {
        at = λ h₃ a done. (
          cluster_info X L server kubeconfig,
          (
            cluster,
            flat,
            kubeconfig,
            (h, e),
            lift_answer _ h₁ flat e₁,
            lift_answer _ h₂ kubeconfig e₂,
            refl,
          ),
          (create_or_update-IfOk (cluster_info X L server kubeconfig)).at h₃ a done,
        );
      }

  errors_of_nil : (r : Result X.Error (Unit {0})) → errors_of X L server r ≡ [] → r ≡ ok tt
  errors_of_nil (ok _) e = refl
  errors_of_nil (err x) e = absurd (cc)

  kubeconfig_of :
      (found : Option String)
      → (check_kubeconfig X L server found).1 ≡ []
      → (kubeconfig : String) × (found ≡ some kubeconfig) × (text_eq kubeconfig "" ≡ false)
  unfolding check_kubeconfig
  kubeconfig_of none e = absurd (cc)
  kubeconfig_of (some kubeconfig) e = elim (Bool-cases (text_eq kubeconfig "")) [
    | inl empty ↦ absurd (ground (arith, e, empty))
    | inr full ↦ (kubeconfig, refl, full)
  ]

  create_missing-Created :
      (context path : String) (h : Trace Call)
      → (answer_of X L server (create_missing X L server context path h).0).1 ≡ []
      → Created context path
  unfolding create_missing ◌>>=◌ attempt pure
  create_missing-Created context path h e =
      (load_and_create-IfOk context path).at h tt (errors_of_nil _ e)

  check_found-IsReady :
      (namespace name context path : String) (r : Result X.Error ConfigMap) (h h₁ : Trace Call)
      → server h (get_config_map namespace name) ≡ r
      → (answer_of X L server (check_found X L server context path r h₁).0).1 ≡ []
      → IsReady namespace name context path
  unfolding check_found pure
  check_found-IsReady namespace name context path (ok map) h h₁ e passed =
      let (kubeconfig, found, full) = kubeconfig_of (lookup "kubeconfig" map.entries) passed in
      inl (h, map, kubeconfig, e, found, full)
  check_found-IsReady namespace name context path (err x) h h₁ e passed =
      elim (Bool-cases (is_not_found x)) [
        | inl gone ↦
            inr ((h, x, e, gone), create_missing-Created context path h₁ (rw gone at passed))
        | inr other ↦ absurd (ground (arith, other, passed))
      ]

  pub check_cluster_info-IsReady :
      (namespace name context path : String) (h : Trace Call)
      → (answer_of X L server (check_cluster_info X L server namespace name context path h).0).1
        ≡ []
      → IsReady namespace name context path
  unfolding check_cluster_info ◌>>=◌ attempt call
  check_cluster_info-IsReady namespace name context path h passed =
      check_found-IsReady namespace name context path _ h _ refl passed

  checked_server_loads :
      (r : Result X.Error Cluster)
      → (checked_server X L server r).1 ≡ []
      → (cluster : Cluster) × (r ≡ ok cluster)
  unfolding checked_server
  checked_server_loads (ok cluster) e = (cluster, refl)
  checked_server_loads (err x) e = absurd (cc)

  pub check_hub_api_server_loads :
      (context path : String) (h : Trace Call)
      → (answer_of X L server (check_hub_api_server X L server context path h).0).1 ≡ []
      → (cluster : Cluster) × ((load_current_cluster X L server context path h).0 ≡ ok cluster)
  unfolding check_hub_api_server ◌>>=◌ attempt pure
  check_hub_api_server_loads context path h passed = checked_server_loads _ passed
