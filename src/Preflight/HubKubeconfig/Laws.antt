-- ===== src/Preflight/HubKubeconfig/Laws.antt =====
-- When `join` takes the hub's kubeconfig for usable.
use clusteradm.Base.{
  ◌≡◌, refl, ◌∙◌, ap, subst, ◌↔◌, ◌⊎◌, inl, inr, true, String, Option, none, some, List, [], ◌∷◌,
  Bool-cases, Option-cases,
}
use clusteradm.Effect.{Result, ok, err, request, Trace, Server, call, lift, ◌>>=◌, ◌>>◌}
use clusteradm.Effect.Runs.{Result-cases}
use clusteradm.Errors.{Errors}
use clusteradm.Kubeconfig.{Cluster, Config}
use clusteradm.Preflight.HubKubeconfig.{
  Call, Answer, create_discovery_client, server_version, valid_api_host, check_certificate,
  check_cluster, check_config, hub_kubeconfig, reported, hub_kubeconfig_check,
}

module _ (X : Errors) where
  -- One cluster with an address of the right form and a certificate.
  abbrev pub IsComplete : List Cluster → Type 0
  IsComplete clusters =
      (cluster : Cluster) × (ca : String) × (clusters ≡ cluster ∷ [])
      × (valid_api_host cluster.server ≡ true)
      × (cluster.certificate_authority_data ≡ some ca)

  check_cluster_cases :
      (config : Config) (clusters : List Cluster)
      → ((check_cluster X config clusters ≡ ok config) × IsComplete clusters)
        ⊎ ((e : X.Error) × (check_cluster X config clusters ≡ err e))
  unfolding check_cluster check_certificate
  check_cluster_cases config [] = inr (_, refl)
  check_cluster_cases config (cluster ∷ []) = elim (Bool-cases (valid_api_host cluster.server)) [
    | inl valid ↦ elim (Option-cases cluster.certificate_authority_data) [
      | inl missing ↦
          inr (X.errorf "no ca detected, creating hub kubeconfig without ca", rw (valid, missing))
      | inr (ca, found) ↦ inl (rw (valid, found), (cluster, ca, refl, valid, found))
    ]
    | inr invalid ↦
        inr (X.errorf "--hub-apiserver should start with http:// or https://", rw invalid)
  ]
  check_cluster_cases config (cluster ∷ other ∷ more) = inr (_, refl)

  check_cluster_complete :
      (config : Config) (clusters : List Cluster)
      → IsComplete clusters
      → check_cluster X config clusters ≡ ok config
  unfolding check_cluster check_certificate
  check_cluster_complete config clusters (cluster, ca, one, valid, found) =
      ap (check_cluster X config) one ∙ rw (valid, found)

module _ (X : Errors) (server : Server Call Answer X.Error) where
  -- The client is made and the hub answers its version.
  abbrev pub Answers : Trace Call → Config → Type 0
  Answers h config =
      (server h (create_discovery_client config) ≡ ok tt)
      × ((version : String) × (server (request (create_discovery_client config) ∷ h) server_version
            ≡ ok version))

  abbrev errors_of : Result X.Error String × Trace Call → List X.Error
  errors_of r = (reported X server r.0).1

  -- The two calls.
  called :
      (config : Config) (h : Trace Call)
      → (errors_of ((call server (create_discovery_client config) >> call server server_version) h)
          ≡ [])
        ↔ Answers h config
  unfolding ◌>>◌ ◌>>=◌ call
  called config h = elim (Result-cases (server h (create_discovery_client config))) [
    | inl (_, e) ↦
        rw e
          (elim (Result-cases
            (server (request (create_discovery_client config) ∷ h) server_version)) [
              | inl (version, v) ↦ rw v ((λ _. (refl, (version, refl))), (λ _. refl))
              | inr (x, v) ↦ rw v ((λ d. absurd (cc)), (λ (_, (version, d)). absurd (cc)))
            ])
    | inr (x, e) ↦ rw e ((λ d. absurd (cc)), (λ (d, _). absurd (cc)))
  ]

  -- The check of the hub's kubeconfig answers no error exactly when there is one, it has one cluster, with
  -- an address that starts with http:// or https:// and a certificate, and the hub answers its version.
  pub hub_kubeconfig_check_iff :
      (config : Option Config) (h : Trace Call)
      → (((hub_kubeconfig_check X server config).check h).0.1 ≡ [])
        ↔ ((c : Config) × (config ≡ some c) × IsComplete X c.clusters × Answers h c)
  unfolding hub_kubeconfig ◌>>=◌ lift check_config
  hub_kubeconfig_check_iff none h = ((λ d. absurd (cc)), (λ (c, e, _, _). absurd (cc)))
  hub_kubeconfig_check_iff (some config) h = elim (check_cluster_cases X config config.clusters) [
    | inl (passed, complete) ↦ rw passed (
      (λ d. (config, refl, complete, (called config h).0 d)),
      (λ (c, e, _, a).
          let same : c ≡ config = cc in (called config h).1 (subst (Answers h) same a)),
    )
    | inr (x, failed) ↦ rw failed (
      (λ d. absurd (cc)),
      (λ (c, e, complete, _).
          let same : c ≡ config = cc in
          absurd (
            cc (
              failed,
              check_cluster_complete X config config.clusters
                  (subst (λ k. IsComplete X k.clusters) same complete),
            ))),
    )
  ]
