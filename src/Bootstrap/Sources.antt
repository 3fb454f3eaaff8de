-- ===== src/Bootstrap/Sources.antt =====
-- Where the certificate and the address of `join` come from.
use clusteradm.Base.{◌≡◌, refl, ◌⊎◌, inl, inr, true, String, Option, none, some, List, [], ◌∷◌}
use clusteradm.Effect.{Result, ok, err, Trace, Server, fail, call, lift}
use clusteradm.Effect.Runs.{ok_bind, attempt_result, call_answer, lift_answer}
use clusteradm.Effect.IfOk.{Gives, Gives-pure, Gives-if, Gives-bind_of}
use clusteradm.Errors.{Errors}
use clusteradm.Kubeconfig.{Cluster, Config}
use clusteradm.Bootstrap.{Client, Call, Answer, Data, data_at, get_config_map}
use clusteradm.Bootstrap.ClusterInfo.{
  get_cluster_info, the_cluster, get_api_server, certificate_or_none, root_certificate,
  certificate_of, get_ca_cert,
}

module _ (X : Errors) (server : Server Call Answer X.Error)
    (unmarshal : String → Result X.Error Config) where
  open X use {is_not_found}

  -- The cluster-info of a cluster has one cluster.
  abbrev pub HasInfo : Client → Cluster → Type 0
  HasInfo client cluster =
      (h : Trace Call) × (data' : Data) × (config : Config) × (server h
          (get_config_map client "kube-public" "cluster-info")
        ≡ ok data')
      × (unmarshal (data_at "kubeconfig" data') ≡ ok config)
      × (config.clusters ≡ cluster ∷ [])

  -- A read of the cluster-info did not find it.
  abbrev pub HasNoInfo : Client → Type 0
  HasNoInfo client =
      (h : Trace Call) × (e : X.Error) × ((get_cluster_info X server unmarshal client h).0 ≡ err e)
      × (is_not_found e ≡ true)

  abbrev pub RootAnswer : Client → Result X.Error Data → Type 0
  RootAnswer client r =
      (h : Trace Call) × (server h (get_config_map client "kube-public" "kube-root-ca.crt") ≡ r)

  -- What a cluster publishes as its certificate: that of its cluster-info; if this is not there, that of
  -- kube-root-ca.crt; and none if this is not there either.
  abbrev pub Publishes : Client → Option String → Type 0
  Publishes client ca =
      ((cluster : Cluster) × HasInfo client cluster × (cluster.certificate_authority_data ≡ ca))
      ⊎ (HasNoInfo client
          × (((data' : Data) × RootAnswer client (ok data') × (some (data_at "ca.crt" data') ≡ ca))
              ⊎ ((e : X.Error) × RootAnswer client (err e)
                  × (is_not_found e ≡ true)
                  × (none ≡ ca))))

  the_cluster_one :
      (clusters : List Cluster) (cluster : Cluster)
      → the_cluster X server unmarshal clusters ≡ ok cluster
      → clusters ≡ cluster ∷ []
  the_cluster_one [] cluster e = absurd (cc)
  the_cluster_one (c ∷ []) cluster e = cc
  the_cluster_one (c ∷ d ∷ more) cluster e = absurd (cc)

  info_read :
      (client : Client) (h : Trace Call) (config : Config) (cluster : Cluster)
      → (get_cluster_info X server unmarshal client h).0 ≡ ok config
      → the_cluster X server unmarshal config.clusters ≡ ok cluster
      → HasInfo client cluster
  unfolding get_cluster_info call lift
  info_read client h config cluster e one =
      let (data', read, rest) = ok_bind _ _ h config e in
      (h, data', config, read, rest, the_cluster_one config.clusters cluster one)

  root_certificate-Gives :
      (client : Client)
      → HasNoInfo client
      → Gives (Publishes client) (root_certificate X server unmarshal client)
  unfolding root_certificate
  root_certificate-Gives client missing = Gives-bind_of _ _ λ r h e.
      answered r h
        (call_answer server (get_config_map client "kube-public" "kube-root-ca.crt") h r e)
    where
      answered :
          (r : Result X.Error Data) (h : Trace Call)
          → server h (get_config_map client "kube-public" "kube-root-ca.crt") ≡ r
          → Gives (Publishes client) (certificate_or_none X server unmarshal r)
      answered (ok data') h e =
          unfold certificate_or_none in Gives-pure _ (inr (missing, inl (data', (h, e), refl)))
      answered (err x) h e =
          unfold certificate_or_none in
          Gives-if _ _ _ (λ gone. Gives-pure _ (inr (missing, inr (x, (h, e), gone, refl))))
            (λ _. unfold fail in record { at = λ h' a done. absurd (cc) })

  -- If `GetCACert` succeeds, its answer is what the cluster publishes.
  pub get_ca_cert-Gives :
      (client : Client) → Gives (Publishes client) (get_ca_cert X server unmarshal client)
  unfolding get_ca_cert
  get_ca_cert-Gives client =
      Gives-bind_of _ _
        λ r h e. of_info r h (attempt_result (get_cluster_info X server unmarshal client) h r e)
    where
      of_info :
          (r : Result X.Error Config) (h : Trace Call)
          → (get_cluster_info X server unmarshal client h).0 ≡ r
          → Gives (Publishes client) (certificate_of X server unmarshal client r)
      of_info (ok config) h e =
          unfold certificate_of in
          Gives-bind_of _ _ λ cluster h' one. Gives-pure _ (
            inl (cluster, info_read client h config cluster e (lift_answer _ h' cluster one), refl))
      of_info (err x) h e =
          unfold certificate_of in
          Gives-if _ _ _ (λ gone. root_certificate-Gives client (h, x, e, gone))
            (λ _. unfold fail in record { at = λ h' a done. absurd (cc) })

  -- If `GetAPIServer` succeeds, its answer is the address of the one cluster of the cluster-info.
  pub get_api_server-Gives :
      (client : Client)
      → Gives
          (λ address. (cluster : Cluster) × HasInfo client cluster × (cluster.server ≡ address))
          (get_api_server X server unmarshal client)
  unfolding get_api_server
  get_api_server-Gives client = Gives-bind_of _ _ λ config h e. Gives-bind_of _ _ λ cluster h' one.
      Gives-pure _
        (cluster, info_read client h config cluster e (lift_answer _ h' cluster one), refl)
