-- ===== src/Preflight/ClusterInfo/Laws.antt =====
-- What the check of the cluster-info changes in the hub.
use clusteradm.Base.{◌≡◌, refl, true, String, text_eq, eq_iff}
use clusteradm.Effect.{Result, ok, err, Event, print, request, Trace, Server}
use clusteradm.Effect.Emits.{
  Emits, emits_rules, Emits-pure, Emits-fail, Emits-lift, Emits-attempt, Emits-if, Emits-call,
  Emits-bind, Emits-bind_of,
}
use clusteradm.Effect.Runs.{call_answer, lift_answer}
use clusteradm.Errors.{Errors}
use clusteradm.Kubeconfig.{Cluster}
use clusteradm.Preflight.ClusterInfo.{
  Loaded, ConfigMap, Call, Answer, load_default, load_from_file, get_config_map, create_config_map,
  update_config_map, Library, loaded, load_file, load, load_current_cluster, wrapped, update,
  created_or_update, create_or_update, cluster_info, create_cluster_info, load_and_create,
  create_missing, check_found, check_cluster_info, check_hub_api_server,
}

module _ (X : Errors) (L : Library X.Error) (server : Server Call Answer X.Error) where
  open X use {is_not_found, is_already_exists}

  -- The current cluster was loaded, and the ConfigMap holds it, flattened.
  abbrev pub Holds : String → String → ConfigMap → Type 0
  Holds context path map =
      (cluster : Cluster) × (flat : Cluster) × (kubeconfig : String) × ((h : Trace Call)
        × ((load_current_cluster X L server context path h).0 ≡ ok cluster))
      × (L.flatten_config cluster ≡ ok flat)
      × (L.write_config flat ≡ ok kubeconfig)
      × (map ≡ cluster_info X L server kubeconfig)

  abbrev pub IsMissing : String → String → Type 0
  IsMissing namespace name =
      (h : Trace Call) × (e : X.Error) × (server h (get_config_map namespace name) ≡ err e)
      × (is_not_found e ≡ true)

  -- A ConfigMap is written only if the one that is checked is missing; it then holds the current cluster,
  -- and it is updated only if its creation has answered that it exists.
  abbrev pub MayWrite : String → String → String → String → Event Call → Type 0
  MayWrite namespace name context path (print line) = Unit {0}
  MayWrite namespace name context path (request load_default) = path ≡ ""
  MayWrite namespace name context path (request (load_from_file file)) = file ≡ path
  MayWrite namespace name context path (request (get_config_map n m)) = Unit {0}
  MayWrite namespace name context path (request (create_config_map map)) =
      IsMissing namespace name × Holds context path map
  MayWrite namespace name context path (request (update_config_map map)) =
      IsMissing namespace name
      × Holds context path map
      × ((h : Trace Call) × (e : X.Error) × (server h (create_config_map map) ≡ err e)
          × (is_already_exists e ≡ true))

  module _ (namespace name context path : String) where
    abbrev Allowed : Event Call → Type 0
    Allowed = MayWrite namespace name context path

    load_file-Emits : Emits Allowed (load_file X L server path)
    unfolding load_file loaded
    load_file-Emits =
        Emits-bind _ _ (Emits-attempt _ (Emits-call server (load_from_file path) refl)) after
      where
        after : (r : Result X.Error Loaded) → Emits Allowed (loaded X L server path r)
        after (ok config) = search emits_rules
        after (err e) = search emits_rules

    load_current_cluster-Emits : Emits Allowed (load_current_cluster X L server context path)
    unfolding load_current_cluster load
    load_current_cluster-Emits =
        Emits-bind _ _
          (Emits-if (text_eq path "") _ _
            (λ e. Emits-call server load_default ((eq_iff path "").0 e)) (λ _. load_file-Emits))
          (λ config. Emits-lift _)

    wrapped-Emits :
        (message : String) (r : Result X.Error (Unit {0}))
        → Emits Allowed (wrapped X L server message r)
    unfolding wrapped
    wrapped-Emits message (ok _) = search emits_rules
    wrapped-Emits message (err e) = search emits_rules

    create_or_update-Emits :
        (map : ConfigMap)
        → IsMissing namespace name
        → Holds context path map
        → Emits Allowed (create_or_update X L server map)
    unfolding create_or_update
    create_or_update-Emits map missing holds =
        Emits-bind_of _ _
          (Emits-attempt _ (Emits-call server (create_config_map map) (missing, holds)))
          λ r h e. after r h (call_answer server (create_config_map map) h r e)
      where
        after :
            (r : Result X.Error (Unit {0})) (h : Trace Call)
            → server h (create_config_map map) ≡ r
            → Emits Allowed (created_or_update X L server map r)
        after (ok _) h e = unfold created_or_update in Emits-pure _
        after (err x) h e =
            unfold created_or_update update in
            Emits-if (is_already_exists x) _ _
              (λ exists.
                Emits-bind _ _
                  (Emits-attempt _
                    (Emits-call server (update_config_map map) (missing, holds, (h, x, e, exists))))
                  (wrapped-Emits "unable to update ConfigMap"))
              (λ _. Emits-fail _)

    load_and_create-Emits :
        IsMissing namespace name → Emits Allowed (load_and_create X L server context path)
    unfolding load_and_create create_cluster_info
    load_and_create-Emits missing = Emits-bind_of _ _ load_current_cluster-Emits λ cluster h e.
        Emits-bind_of _ _ (Emits-lift _) λ flat h₁ e₁.
          Emits-bind_of _ _ (Emits-lift _) λ kubeconfig h₂ e₂. create_or_update-Emits _ missing (
            cluster,
            flat,
            kubeconfig,
            (h, e),
            lift_answer _ h₁ flat e₁,
            lift_answer _ h₂ kubeconfig e₂,
            refl,
          )

    pub check_cluster_info-Emits :
        Emits Allowed (check_cluster_info X L server namespace name context path)
    unfolding check_cluster_info
    check_cluster_info-Emits =
        Emits-bind_of _ _ (Emits-attempt _ (Emits-call server (get_config_map namespace name) tt))
          λ r h e. after r h (call_answer server (get_config_map namespace name) h r e)
      where
        after :
            (r : Result X.Error ConfigMap) (h : Trace Call)
            → server h (get_config_map namespace name) ≡ r
            → Emits Allowed (check_found X L server context path r)
        after (ok map) h e = unfold check_found in Emits-pure _
        after (err x) h e =
            unfold check_found create_missing in
            Emits-if (is_not_found x) _ _
              (λ gone.
                Emits-bind _ _ (Emits-attempt _ (load_and_create-Emits (h, x, e, gone)))
                  (λ r. Emits-pure _))
              (λ _. Emits-pure _)

    pub check_hub_api_server-Emits : Emits Allowed (check_hub_api_server X L server context path)
    unfolding check_hub_api_server
    check_hub_api_server-Emits =
        Emits-bind _ _ (Emits-attempt _ load_current_cluster-Emits) (λ r. Emits-pure _)
