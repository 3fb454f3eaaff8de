-- ===== src/ProxyHealth/Tests.antt =====
-- Two clusters of which one is probed, and flags that name files.
use clusteradm.Base.{◌≡◌, ◌↔◌, true, false, [], ◌∷◌}
use clusteradm.Effect.{ok, err, Server}
use clusteradm.Effect.Emits.{Emits}
use clusteradm.Errors.{Status, plain, status_errors}
use clusteradm.ProxyHealth.{
  Flags, set_flags, complete, validate, Call, Answer, get_management_addon, get_proxy_configuration,
  list_clusters, listen_local_proxy, get_client_tls_config, get_secret, x509_key_pair,
  create_tunnel, get_addon, transport_for, round_trip, print_row, flush,
}
use clusteradm.ProxyHealth.Probe.{run}
use clusteradm.ProxyHealth.Visits.{MayProbe}
use clusteradm.ProxyHealth.Laws.{validate_iff, run-MayProbe}

abbrev flags : Flags
flags = record {
  in_cluster_lookup = false;
  ca_cert = "ca.crt";
  cert = "tls.crt";
  key = "tls.key";
  host = "127.0.0.1";
  port = 8090;
  clusters = "c1" ∷ [];
}

abbrev hub : Server Call Answer Status
hub h get_management_addon = ok "cluster-proxy"
hub h (get_proxy_configuration name) = ok "proxy"
hub h list_clusters = ok ("c1" ∷ "c2" ∷ [])
hub h (listen_local_proxy namespace port) = ok tt
hub h (get_client_tls_config ca cert key host) = err (plain "no file")
hub h (get_secret namespace name) = ok (("ca.crt", "CA") ∷ ("tls.crt", "C") ∷ ("tls.key", "K") ∷ [])
hub h (x509_key_pair cert key) = ok tt
hub h (create_tunnel host port config) = ok tt
hub h (get_addon cluster) = ok true
hub h (transport_for cluster) = ok tt
hub h (round_trip cluster) = ok (record { body = "ok"; latency = "12ms" })
hub h (print_row row) = ok tt
hub h flush = ok tt

run-MayProbe_example :
    Emits
      (MayProbe status_errors (λ e message. plain message) hub flags true)
      (run status_errors (λ e message. plain message) hub (complete (set_flags flags true)))
run-MayProbe_example = run-MayProbe status_errors (λ e message. plain message) hub flags true

validate_iff_example :
    (validate status_errors (complete (set_flags flags true)) ≡ ok tt)
    ↔ (flags.in_cluster_lookup ≡ true)
validate_iff_example = validate_iff status_errors flags true
