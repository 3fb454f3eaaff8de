-- ===== src/ProxyHealth/Probe.antt =====
-- `visit`, `getKonnectivityTLSConfig` and `run` of pkg/cmd/proxy/health/exec.go.
use clusteradm.Base.{
  Bool, true, false, ◌||◌, String, ◌<>◌, List, [], ◌∷◌, contains, text_eq, starts_with,
  if◌then◌else◌,
}
use clusteradm.Effect.{Result, ok, err, Prog, Server, pure, fail, say, call, attempt, ◌>>=◌, ◌>>◌}
use clusteradm.Errors.{Errors}
use clusteradm.ProxyHealth.{
  Options, TlsConfig, Response, Row, Call, Answer, get_management_addon, get_proxy_configuration,
  list_clusters, listen_local_proxy, get_client_tls_config, get_secret, x509_key_pair,
  create_tunnel, get_addon, transport_for, round_trip, print_row, flush,
}

-- `strings.Contains`
unfoldable pub has_text : String → String → Bool
has_text String.[] part = text_eq part ""
has_text (String.◌∷◌ c s) part =
    let rest = has_text s part in starts_with (String.◌∷◌ c s) part || rest

-- The value of a key in the data of a secret, empty for a missing key.
abbrev pub data_at : String → List (String × String) → String
data_at k [] = ""
data_at k ((j, v) ∷ m) = let rest = data_at k m in if text_eq j k then v else rest

-- The texts "True" and "False"
abbrev pub truth : Bool → String
truth true = "True"
truth false = "False"

-- `len(o.clusters) == 0 || probingClusters.Has(cluster.Name)`
abbrev pub is_probed : List String → String → Bool
is_probed [] cluster = true
is_probed (c ∷ cs) cluster = contains (c ∷ cs) cluster

module _ (X : Errors) (wrap : X.Error → String → X.Error)
    (server : Server Call Answer X.Error) where
  -- `if err != nil { return errors.Wrapf(err, message) }`
  abbrev pub wrap_result : {A : Type 0} → String → Result X.Error A → Prog Call X.Error A
  wrap_result message (ok a) = pure a
  wrap_result message (err e) = fail (wrap e message)

  -- A call whose error is returned with a message.
  unfoldable pub wrapped : {A : Type 0} → String → Prog Call X.Error A → Prog Call X.Error A
  wrapped message m = attempt m >>= wrap_result message

  -- The errors of the writer are not used.
  unfoldable pub print : Row → Prog Call X.Error (Unit {0})
  print row = attempt (call server (print_row row)) >> pure tt

  -- The latency that is shown after a failed probe
  abbrev pub failed_latency : X.Error → String
  failed_latency e = if has_text (X.text e) "dial timeout" then "<timeout>" else "<none>"

  -- The row of a cluster after its probe
  abbrev pub row_of : String → String → String → Result X.Error Response → Row
  row_of cluster installed available (err e) = record {
    cluster = cluster;
    installed = installed;
    available = available;
    health = "Unknown";
    latency = failed_latency e;
  }
  row_of cluster installed available (ok response) = record {
    cluster = cluster;
    installed = installed;
    available = available;
    health = truth (text_eq response.body "ok");
    latency = if text_eq response.body "ok" then response.latency else "<none>";
  }

  -- `visit`, from the transport on
  unfoldable pub probe : String → String → String → Prog Call X.Error (Unit {0})
  unfolding wrapped print has_text
  probe cluster installed available =
      wrapped ("failed creating roundtripper for cluster " <> cluster)
        (call server (transport_for cluster))
      >> (attempt (call server (round_trip cluster)) >>= λ r.
          print (row_of cluster installed available r))

  -- `visit`, by the answer to the read of the add-on; the client answers an empty add-on with a NotFound.
  unfoldable pub visit_addon : String → Result X.Error Bool → Prog Call X.Error (Unit {0})
  unfolding probe
  visit_addon cluster (ok available) = probe cluster "True" (truth available)
  visit_addon cluster (err e) =
      if X.is_not_found e
      then probe cluster "False" "False"
      else fail (wrap e ("failed getting managed cluster addon for cluster " <> cluster))

  -- `visit`
  unfoldable pub visit : String → Prog Call X.Error (Unit {0})
  unfolding visit_addon
  visit cluster = attempt (call server (get_addon cluster)) >>= visit_addon cluster

  -- The loop over the managed clusters; an error of `visit` is logged.
  unfoldable pub visit_all : List String → List String → Prog Call X.Error (Unit {0})
  unfolding visit
  visit_all probing [] = pure tt
  visit_all probing (cluster ∷ clusters) =
      (if is_probed probing cluster then attempt (visit cluster) >> pure tt else pure tt)
      >> visit_all probing clusters

  -- `buildTLSConfig`
  unfoldable pub build_tls_config : String → String → String → String → Prog Call X.Error TlsConfig
  build_tls_config ca cert key name =
      call server (x509_key_pair cert key)
      >> pure (record { root_cas = ca; certificate = cert; key = key; server_name = name })

  -- `getKonnectivityTLSConfig`, by the secret of the certificate authority and that of the client
  unfoldable pub tls_of_client :
      Options → List (String × String) → List (String × String) → Prog Call X.Error TlsConfig
  unfolding wrapped build_tls_config
  tls_of_client o ca cert = wrapped "failed building TLS config from secret" (
      build_tls_config (data_at "ca.crt" ca) (data_at "tls.crt" cert) (data_at "tls.key" cert)
        o.proxy_server_host)

  -- `getKonnectivityTLSConfig`, by the secret of the certificate authority
  unfoldable pub tls_of_ca : Options → String → List (String × String) → Prog Call X.Error TlsConfig
  unfolding wrapped tls_of_client
  tls_of_ca o namespace ca =
      wrapped "failed getting cert & key secret" (call server (get_secret namespace "proxy-client"))
      >>= tls_of_client o ca

  -- `getKonnectivityTLSConfig`, from the secrets of the hub
  unfoldable pub tls_config_of_secrets : Options → String → Prog Call X.Error TlsConfig
  unfolding wrapped tls_of_ca
  tls_config_of_secrets o namespace =
      wrapped "failed getting CA secret" (call server (get_secret namespace "proxy-server-ca"))
      >>= tls_of_ca o namespace

  -- `getKonnectivityTLSConfig`
  unfoldable pub get_konnectivity_tls_config : Options → String → Prog Call X.Error TlsConfig
  unfolding wrapped tls_config_of_secrets
  get_konnectivity_tls_config o namespace =
      if o.is_proxy_client_cert_provided
      then wrapped "failed building TLS config for konnectivity client" (
          call server (
            get_client_tls_config o.proxy_client_ca_cert_path o.proxy_client_cert_path
              o.proxy_client_key_path o.proxy_server_host))
      else tls_config_of_secrets o namespace

  -- The local proxy, if no address of a proxy is given
  unfoldable pub local_proxy : Options → String → Prog Call X.Error (Unit {0})
  unfolding wrapped
  local_proxy o namespace =
      if o.is_proxy_server_address_provided
      then pure tt
      else wrapped "failed listening local proxy"
          (call server (listen_local_proxy namespace o.proxy_server_port))

  -- The tunnel to the proxy server
  unfoldable pub start_tunnel : Options → TlsConfig → Prog Call X.Error (Unit {0})
  unfolding wrapped
  start_tunnel o config =
      wrapped "failed starting konnectivity proxy"
        (call server (create_tunnel o.proxy_server_host o.proxy_server_port config))

  -- The table, with the header that `newWriter` prints
  unfoldable pub print_table : Options → List String → Prog Call X.Error (Unit {0})
  unfolding print visit_all
  print_table o clusters =
      print (record {
        cluster = "CLUSTER NAME";
        installed = "INSTALLED";
        available = "AVAILABLE";
        health = "PROBED HEALTH";
        latency = "LATENCY";
      })
      >> visit_all o.clusters clusters
      >> attempt (call server flush)
      >> pure tt

  -- `run`, from the list of the managed clusters on
  unfoldable pub run_clusters : Options → String → List String → Prog Call X.Error (Unit {0})
  unfolding wrapped local_proxy get_konnectivity_tls_config start_tunnel print_table
  run_clusters o namespace clusters =
      local_proxy o namespace
      >> (wrapped "failed building tls config" (get_konnectivity_tls_config o namespace)
          >>= start_tunnel o)
      >> print_table o clusters

  -- `run`, from the read of the proxy's configuration on
  unfoldable pub run_configured : Options → String → Prog Call X.Error (Unit {0})
  unfolding wrapped run_clusters
  run_configured o namespace =
      wrapped "failed listing managed clusters" (call server list_clusters)
      >>= run_clusters o namespace

  -- `run`, by the answer to the read of the add-on's management
  unfoldable pub run_installed : Options → Result X.Error String → Prog Call X.Error (Unit {0})
  unfolding wrapped run_configured
  run_installed o (err e) =
      if X.is_not_found e
      then say "Cluster-Proxy addon is not installed.\n"
        >> say
            "Consider following the guide: https://open-cluster-management.io/getting-started/integration/cluster-proxy/\n"
      else fail (wrap e "failed checking cluster management addon for cluster-proxy")
  run_installed o (ok name) =
      wrapped "failed getting managedproxyconfiguration for cluster-proxy"
        (call server (get_proxy_configuration name))
      >>= run_configured o

  -- `run`
  unfoldable pub run : Options → Prog Call X.Error (Unit {0})
  unfolding run_installed
  run o = attempt (call server get_management_addon) >>= run_installed o
