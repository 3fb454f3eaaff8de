-- ===== src/ProxyHealth/Visits.antt =====
-- What `proxy health` may ask for and show, and the visits of the managed clusters.
use clusteradm.Base.{
  ◌≡◌, ◌≢◌, refl, ◌⊎◌, inl, inr, Bool, true, String, List, [], ◌∷◌, In, Never, text_eq, eq_iff,
  arith, Bool-cases, contains-In, false, if◌then◌else◌,
}
use clusteradm.Effect.{Result, ok, err, Event, request, Trace, Server, pure, attempt, ◌>>◌}
use clusteradm.Effect.Emits.{
  Emits, Emits-pure, Emits-fail, Emits-if, Emits-call, Emits-attempt, Emits-bind_of, Emits-then,
}
use clusteradm.Effect.Runs.{call_answer}
use clusteradm.Errors.{Errors}
use clusteradm.ProxyHealth.{
  Flags, TlsConfig, Response, Row, Call, Answer, list_clusters, listen_local_proxy,
  get_client_tls_config, get_secret, create_tunnel, get_addon, transport_for, round_trip, print_row,
}
use clusteradm.ProxyHealth.Probe.{
  data_at, has_text, truth, print, row_of, probe, visit_addon, visit, is_probed, visit_all,
}
use clusteradm.ProxyHealth.Wrapped.{Emits-wrapped}

module _ (X : Errors) (wrap : X.Error → String → X.Error)
    (server : Server Call Answer X.Error) where
  -- The hub listed the cluster, and it is named if any cluster is.
  abbrev pub IsListed : List String → String → Type 0
  IsListed probing cluster =
      ((h : Trace Call) × (names : List String) × (server h list_clusters ≡ ok names)
        × In cluster names)
      × ((probing ≡ []) ⊎ In cluster probing)

  -- What a row says by the answer to the read of the add-on.
  abbrev pub AddonShown : Result X.Error Bool → Row → Type 0
  AddonShown (ok available) row =
      (row.installed ≡ "True")
      × (((available ≡ true) × (row.available ≡ "True"))
          ⊎ ((available ≡ false) × (row.available ≡ "False")))
  AddonShown (err e) row =
      (X.is_not_found e ≡ true) × (row.installed ≡ "False") × (row.available ≡ "False")

  -- What a row says by the answer to the probe.
  abbrev pub HealthShown : Result X.Error Response → Row → Type 0
  HealthShown (ok response) row =
      ((response.body ≡ "ok") × (row.health ≡ "True") × (row.latency ≡ response.latency))
      ⊎ ((response.body ≢ "ok") × (row.health ≡ "False") × (row.latency ≡ "<none>"))
  HealthShown (err e) row =
      (row.health ≡ "Unknown") × ((row.latency ≡ "<timeout>") ⊎ (row.latency ≡ "<none>"))

  -- A row is the header, or it shows what the servers have answered on a cluster.
  abbrev pub IsShown : List String → Row → Type 0
  IsShown probing row =
      (row ≡ record {
        cluster = "CLUSTER NAME";
        installed = "INSTALLED";
        available = "AVAILABLE";
        health = "PROBED HEALTH";
        latency = "LATENCY";
      })
      ⊎ ((cluster : String) × (row.cluster ≡ cluster)
          × IsListed probing cluster
          × ((h : Trace Call) × (h' : Trace Call) × AddonShown (server h (get_addon cluster)) row
              × HealthShown (server h' (round_trip cluster)) row))

  is_probed-In :
      (probing : List String) (cluster : String)
      → is_probed probing cluster ≡ true
      → (probing ≡ []) ⊎ In cluster probing
  is_probed-In [] cluster e = inl refl
  is_probed-In (c ∷ cs) cluster e = inr (contains-In cluster (c ∷ cs) e)

  truth-AddonShown :
      (available : Bool) (row : Row)
      → row.available ≡ truth available
      → ((available ≡ true) × (row.available ≡ "True"))
        ⊎ ((available ≡ false) × (row.available ≡ "False"))
  truth-AddonShown true row e = inl (refl, e)
  truth-AddonShown false row e = inr (refl, e)

  row_of-keeps :
      (cluster installed available : String) (r : Result X.Error Response)
      → let row = row_of X wrap server cluster installed available r in
        (row.cluster ≡ cluster) × (row.installed ≡ installed) × (row.available ≡ available)
  row_of-keeps cluster installed available (ok response) = (refl, refl, refl)
  row_of-keeps cluster installed available (err e) = (refl, refl, refl)

  row_of-HealthShown :
      (cluster installed available : String) (r : Result X.Error Response)
      → HealthShown r (row_of X wrap server cluster installed available r)
  row_of-HealthShown cluster installed available (err e) =
      elim (Bool-cases (has_text (X.text e) "dial timeout")) [
        | inl late ↦ (refl, inl (rw late refl))
        | inr other ↦ (refl, inr (rw other refl))
      ]
  row_of-HealthShown cluster installed available (ok response) =
      elim (Bool-cases (text_eq response.body "ok")) [
        | inl same ↦ inl (ground (arith, eq_iff response.body "ok"), rw same refl, rw same refl)
        | inr other ↦
            inr (λ e. ground (arith, eq_iff response.body "ok"), rw other refl, rw other refl)
      ]

  -- The configuration is made of the secrets of the hub.
  abbrev pub OfSecrets : String → TlsConfig → Type 0
  OfSecrets host config =
      (namespace : String) × (h : Trace Call) × (h' : Trace Call) × ((ca : List (String × String))
        × ((cert : List (String × String)) × (server h (get_secret namespace "proxy-server-ca")
              ≡ ok ca)
            × (server h' (get_secret namespace "proxy-client") ≡ ok cert)
            × (config ≡ record {
              root_cas = data_at "ca.crt" ca;
              certificate = data_at "tls.crt" cert;
              key = data_at "tls.key" cert;
              server_name = host;
            })))

  module _ (flags : Flags) (key_is_last : Bool) where
    -- What `proxy health` may ask for and show.
    abbrev pub MayProbe : Event Call → Type 0
    MayProbe (request (get_client_tls_config ca cert key host)) = Never
    MayProbe (request (listen_local_proxy namespace port)) =
        (flags.host ≡ "127.0.0.1") × (port ≡ flags.port)
    MayProbe (request (create_tunnel host port config)) =
        (host ≡ flags.host) × (port ≡ flags.port) × OfSecrets flags.host config
    MayProbe (request (round_trip cluster)) = IsListed flags.clusters cluster
    MayProbe (request (print_row row)) = IsShown flags.clusters row
    MayProbe _ = Unit

    pub print-MayProbe :
        (row : Row) → IsShown flags.clusters row → Emits MayProbe (print X wrap server row)
    unfolding print
    print-MayProbe row shown =
        Emits-then _ _ (Emits-attempt _ (Emits-call {P = MayProbe} server (print_row row) shown))
          (Emits-pure _)

    probe-MayProbe :
        (cluster installed available : String)
        → IsListed flags.clusters cluster
        → ((r : Result X.Error Response) (h : Trace Call)
            → server h (round_trip cluster) ≡ r
            → IsShown flags.clusters (row_of X wrap server cluster installed available r))
        → Emits MayProbe (probe X wrap server cluster installed available)
    unfolding probe
    probe-MayProbe cluster installed available listed shown =
        Emits-then _ _
          (Emits-wrapped X wrap server _ _
            (Emits-call {P = MayProbe} server (transport_for cluster) tt))
          (Emits-bind_of _ _
            (Emits-attempt _ (Emits-call {P = MayProbe} server (round_trip cluster) listed))
            (λ r h done.
              print-MayProbe _ (shown r h (call_answer server (round_trip cluster) h r done))))

    visit-MayProbe :
        (cluster : String)
        → IsListed flags.clusters cluster
        → Emits MayProbe (visit X wrap server cluster)
    unfolding visit visit_addon
    visit-MayProbe cluster listed =
        Emits-bind_of _ _
          (Emits-attempt _ (Emits-call {P = MayProbe} server (get_addon cluster) tt))
          (λ r h done. by_addon r h (call_answer server (get_addon cluster) h r done))
      where
        by_addon :
            (r : Result X.Error Bool) (h : Trace Call)
            → server h (get_addon cluster) ≡ r
            → Emits MayProbe (visit_addon X wrap server cluster r)
        by_addon (ok available) h answer =
            probe-MayProbe cluster "True" (truth available) listed (λ r h' e.
              let kept = row_of-keeps cluster "True" (truth available) r in
              inr (
                cluster,
                kept.0,
                listed,
                (
                  h,
                  h',
                  rw answer (
                    kept.1,
                    truth-AddonShown available
                        (row_of X wrap server cluster "True" (truth available) r) kept.2,
                  ),
                  rw e (row_of-HealthShown cluster "True" (truth available) r),
                ),
              ))
        by_addon (err x) h answer =
            Emits-if (X.is_not_found x) _ _
              (λ missing. probe-MayProbe cluster "False" "False" listed (λ r h' e.
                let kept = row_of-keeps cluster "False" "False" r in
                inr (
                  cluster,
                  kept.0,
                  listed,
                  (
                    h,
                    h',
                    rw answer (missing, kept.1, kept.2),
                    rw e (row_of-HealthShown cluster "False" "False" r),
                  ),
                )))
              (λ _. Emits-fail _)

    visit_one-MayProbe :
        (cluster : String) (b : Bool)
        → (b ≡ true → IsListed flags.clusters cluster)
        → Emits MayProbe (if b then attempt (visit X wrap server cluster) >> pure tt else pure tt)
    visit_one-MayProbe cluster b listed =
        Emits-if b (attempt (visit X wrap server cluster) >> pure tt) (pure tt)
          (λ e. Emits-then _ _ (Emits-attempt _ (visit-MayProbe cluster (listed e))) (Emits-pure _))
          (λ _. Emits-pure _)

    pub visit_all-MayProbe :
        (names clusters : List String) (h : Trace Call)
        → server h list_clusters ≡ ok names
        → ((c : String) → In c clusters → In c names)
        → Emits MayProbe (visit_all X wrap server flags.clusters clusters)
    unfolding visit_all
    visit_all-MayProbe names [] h answer sub = Emits-pure _
    visit_all-MayProbe names (cluster ∷ clusters) h answer sub =
        Emits-then _ _
          (visit_one-MayProbe cluster (is_probed flags.clusters cluster) (λ e.
            ((h, names, answer, sub cluster (inl refl)), is_probed-In flags.clusters cluster e)))
          (visit_all-MayProbe names clusters h answer (λ c i. sub c (inr i)))
