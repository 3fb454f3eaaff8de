-- ===== src/ProxyHealth/Laws.antt =====
-- What `proxy health` accepts, and what it asks for and shows.
use clusteradm.Base.{◌≡◌, refl, ◌↔◌, inl, Bool, true, false, String, List, eq_iff, arith}
use clusteradm.Effect.{Result, ok, err, Event, Trace, Server, call, ◌>>◌}
use clusteradm.Effect.Emits.{
  Emits, Emits-pure, Emits-fail, Emits-say, Emits-if, Emits-call, Emits-attempt, Emits-bind,
  Emits-bind_of, Emits-then,
}
use clusteradm.Effect.IfOk.{Gives, Gives-pure, Gives-bind_of}
use clusteradm.Errors.{Errors}
use clusteradm.ProxyHealth.{
  Flags, Options, set_flags, complete, validate, TlsConfig, Call, Answer, get_management_addon,
  get_proxy_configuration, list_clusters, listen_local_proxy, get_secret, x509_key_pair,
  create_tunnel, flush,
}
use clusteradm.ProxyHealth.Probe.{
  wrapped, tls_of_ca, tls_of_client, start_tunnel, run_configured, build_tls_config,
  tls_config_of_secrets, get_konnectivity_tls_config, local_proxy, print_table, run_clusters,
  run_installed, run,
}
use clusteradm.ProxyHealth.Wrapped.{
  Emits-wrapped, wrapped_ok, wrapped_answer, Gives-wrapped, Gives-wrapped-call,
}
use clusteradm.ProxyHealth.Visits.{OfSecrets, MayProbe, print-MayProbe, visit_all-MayProbe}

-- Whatever files are given, `validate` accepts the flags exactly when the lookup of the certificates in the
-- cluster is on: no flag sets the path of the key.
pub validate_iff :
    (X : Errors) (flags : Flags) (key_is_last : Bool)
    → (validate X (complete (set_flags flags key_is_last)) ≡ ok tt)
      ↔ (flags.in_cluster_lookup ≡ true)
unfolding validate
validate_iff X flags key_is_last = ground arith

module _ (X : Errors) (wrap : X.Error → String → X.Error)
    (server : Server Call Answer X.Error) where
  module _ (flags : Flags) (key_is_last : Bool) where
    -- The options of a run, as the command line and `complete` set them.
    abbrev options : Options
    options = complete (set_flags flags key_is_last)

    abbrev Probing : Event Call → Type 0
    Probing = MayProbe X wrap server flags key_is_last

    local_proxy-MayProbe :
        (namespace : String) → Emits Probing (local_proxy X wrap server options namespace)
    unfolding local_proxy
    local_proxy-MayProbe namespace =
        Emits-if options.is_proxy_server_address_provided _ _ (λ _. Emits-pure _)
          (λ none. Emits-wrapped X wrap server _ _ (
            Emits-call {P = Probing} server (listen_local_proxy namespace flags.port)
              (is_local none, refl)))
      where
        is_local : options.is_proxy_server_address_provided ≡ false → flags.host ≡ "127.0.0.1"
        is_local none = ground (arith, eq_iff flags.host "127.0.0.1")

    tls_config-MayProbe :
        (namespace : String)
        → Emits Probing (get_konnectivity_tls_config X wrap server options namespace)
    unfolding get_konnectivity_tls_config tls_config_of_secrets tls_of_ca tls_of_client
        build_tls_config
    tls_config-MayProbe namespace =
        Emits-bind _ _
          (Emits-wrapped X wrap server _ _
            (Emits-call {P = Probing} server (get_secret namespace "proxy-server-ca") tt))
          (λ ca.
            Emits-bind _ _
              (Emits-wrapped X wrap server _ _
                (Emits-call {P = Probing} server (get_secret namespace "proxy-client") tt))
              (λ cert. Emits-wrapped X wrap server _ _ (
                Emits-then _ _ (Emits-call {P = Probing} server (x509_key_pair _ _) tt)
                  (Emits-pure _))))

    tls_config-OfSecrets :
        (namespace : String)
        → Gives
            (OfSecrets X wrap server flags.host)
            (get_konnectivity_tls_config X wrap server options namespace)
    unfolding get_konnectivity_tls_config tls_config_of_secrets tls_of_ca tls_of_client
        build_tls_config ◌>>◌
    tls_config-OfSecrets namespace =
        Gives-wrapped-call X wrap server "failed getting CA secret"
          (get_secret namespace "proxy-server-ca") (tls_of_ca X wrap server options namespace)
          (λ ca h e.
            Gives-wrapped-call X wrap server "failed getting cert & key secret"
              (get_secret namespace "proxy-client") (tls_of_client X wrap server options ca)
              (λ cert h' e'.
                Gives-wrapped X wrap server "failed building TLS config from secret" _ (
                  Gives-bind_of (call server (x509_key_pair _ _)) _
                    (λ _ _ _. Gives-pure _ (namespace, h, h', (ca, (cert, e, e', refl)))))))

    start_tunnel-MayProbe :
        (config : TlsConfig)
        → OfSecrets X wrap server flags.host config
        → Emits Probing (start_tunnel X wrap server options config)
    unfolding start_tunnel
    start_tunnel-MayProbe config secrets = Emits-wrapped X wrap server _ _ (
        Emits-call {P = Probing} server (create_tunnel flags.host flags.port config)
          (refl, refl, secrets))

    print_table-MayProbe :
        (names : List String) (h : Trace Call)
        → server h list_clusters ≡ ok names
        → Emits Probing (print_table X wrap server options names)
    unfolding print_table
    print_table-MayProbe names h answer =
        Emits-then _ _
          (Emits-then _ _
            (Emits-then _ _ (print-MayProbe X wrap server flags key_is_last _ (inl refl))
              (visit_all-MayProbe X wrap server flags key_is_last names names h answer (λ c i. i)))
            (Emits-attempt _ (Emits-call {P = Probing} server flush tt)))
          (Emits-pure _)

    run_clusters-MayProbe :
        (namespace : String) (names : List String) (h : Trace Call)
        → server h list_clusters ≡ ok names
        → Emits Probing (run_clusters X wrap server options namespace names)
    unfolding run_clusters
    run_clusters-MayProbe namespace names h answer =
        Emits-then _ _
          (Emits-then _ _ (local_proxy-MayProbe namespace) (
            Emits-bind_of
              (wrapped X wrap server "failed building tls config"
                (get_konnectivity_tls_config X wrap server options namespace))
              (start_tunnel X wrap server options)
              (Emits-wrapped X wrap server _ _ (tls_config-MayProbe namespace))
              (λ config h' done. start_tunnel-MayProbe config (
                (tls_config-OfSecrets namespace).at h' config
                  (wrapped_ok X wrap server _ _ h' config done)))))
          (print_table-MayProbe names h answer)

    -- With options as the command line and `complete` set them, `proxy health` probes only clusters that the
    -- hub has listed, and with --clusters only those that are named. Each line below the header shows what
    -- the servers have answered on such a cluster: whether the add-on was read or not found, whether it is
    -- available, and as health True only for the body `ok`, False for any other and Unknown for an error.
    -- The tunnel is opened to the host and port of the flags with certificates from the hub's secrets, never
    -- from the files of the flags. The local proxy is started only if the host is 127.0.0.1.
    pub run-MayProbe :
        Emits
          (MayProbe X wrap server flags key_is_last)
          (run X wrap server (complete (set_flags flags key_is_last)))
    unfolding run run_installed run_configured
    run-MayProbe =
        Emits-bind _ _ (Emits-attempt _ (Emits-call {P = Probing} server get_management_addon tt))
          installed
      where
        configured :
            (namespace : String) → Emits Probing (run_configured X wrap server options namespace)
        configured namespace =
            Emits-bind_of
              (wrapped X wrap server "failed listing managed clusters" (call server list_clusters))
              (run_clusters X wrap server options namespace)
              (Emits-wrapped X wrap server _ _ (Emits-call {P = Probing} server list_clusters tt))
              (λ names h done.
                run_clusters-MayProbe namespace names h
                  (wrapped_answer X wrap server _ list_clusters h names done))

        installed :
            (r : Result X.Error String) → Emits Probing (run_installed X wrap server options r)
        installed (err e) =
            Emits-if (X.is_not_found e) _ _ (λ _. Emits-then _ _ (Emits-say _ tt) (Emits-say _ tt))
              (λ _. Emits-fail _)
        installed (ok name) =
            Emits-bind _ _
              (Emits-wrapped X wrap server _ _
                (Emits-call {P = Probing} server (get_proxy_configuration name) tt))
              configured
