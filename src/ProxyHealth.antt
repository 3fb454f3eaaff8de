-- ===== src/ProxyHealth.antt =====
-- pkg/cmd/proxy/health (cmd.go, exec.go): the probe of the managed clusters through the proxy. The proxy,
-- its tunnel, TLS and the HTTP transport are other projects' code and are calls here, and so is
-- github.com/pkg/errors, whose Wrapf is a parameter.
pub mod Probe
mod Wrapped
pub mod Visits
pub mod Laws
mod Tests
use clusteradm.Base.{
  ℕ, Bool, true, false, ◌&&◌, ◌||◌, not, String, Option, none, some, List, [], ◌∷◌, contains,
  text_eq, if◌then◌else◌,
}
use clusteradm.Effect.{Result, ok, err, Prog, Server, pure, fail, say, call, attempt, ◌>>=◌, ◌>>◌}
use clusteradm.Errors.{Errors}

-- The flags of the command line.
pub record Flags : Type 0 where
  pub in_cluster_lookup : Bool
  pub ca_cert : String
  pub cert : String
  pub key : String
  pub host : String
  pub port : ℕ
  pub clusters : List String

pub record Options : Type 0 where
  pub clusters : List String
  pub in_cluster_proxy_cert_lookup : Bool
  pub proxy_client_ca_cert_path : String
  pub proxy_client_cert_path : String
  pub proxy_client_key_path : String
  pub proxy_server_host : String
  pub proxy_server_port : ℕ
  pub is_proxy_client_cert_provided : Bool
  pub is_proxy_server_address_provided : Bool

-- The variables that cmd.go binds to the flags. The flag of the key and that of the certificate are bound
-- to one variable, which has the text of the flag that is parsed last, or no text if neither is given.
abbrev pub set_flags : Flags → Bool → Options
set_flags flags key_is_last = record {
  clusters = flags.clusters;
  in_cluster_proxy_cert_lookup = flags.in_cluster_lookup;
  proxy_client_ca_cert_path = flags.ca_cert;
  proxy_client_cert_path = if key_is_last then flags.key else flags.cert;
  proxy_client_key_path = "";
  proxy_server_host = flags.host;
  proxy_server_port = flags.port;
  is_proxy_client_cert_provided = false;
  is_proxy_server_address_provided = false;
}

-- `len(s) > 0`
abbrev pub is_set : String → Bool
is_set s = not (text_eq s "")

-- `complete`
abbrev pub complete : Options → Options
complete o = record o {
  is_proxy_server_address_provided =
      o.is_proxy_server_address_provided
      || (is_set o.proxy_client_ca_cert_path
          && is_set o.proxy_client_cert_path
          && is_set o.proxy_client_key_path)
      || not (text_eq o.proxy_server_host "127.0.0.1");
}

module _ (X : Errors) where
  -- `validate`
  unfoldable pub validate : Options → Result X.Error (Unit {0})
  validate o =
      if not o.in_cluster_proxy_cert_lookup
      then if not (is_set o.proxy_client_ca_cert_path)
        then err (X.errorf "--proxy-ca-cert must be set when in-cluster lookup is disabled")
        else if not (is_set o.proxy_client_cert_path)
        then err (X.errorf "--proxy-cert must be set when in-cluster lookup is disabled")
        else if not (is_set o.proxy_client_key_path)
        then err (X.errorf "--proxy-key must be set when in-cluster lookup is disabled")
        else ok tt
      else ok tt

-- A TLS configuration that holds a pool of certificates, a pair of a certificate and its key, and a name.
pub record TlsConfig : Type 0 where
  pub root_cas : String
  pub certificate : String
  pub key : String
  pub server_name : String

-- The answer to a probe: the body, and the time that it took as a text.
pub record Response : Type 0 where
  pub body : String
  pub latency : String

-- One line of the table.
pub record Row : Type 0 where
  pub cluster : String
  pub installed : String
  pub available : String
  pub health : String
  pub latency : String

pub data Call : Type 0 where
  get_management_addon : Call
  get_proxy_configuration : String → Call
  list_clusters : Call
  listen_local_proxy : String → ℕ → Call
  get_client_tls_config : String → String → String → String → Call
  get_secret : String → String → Call
  x509_key_pair : String → String → Call
  create_tunnel : String → ℕ → TlsConfig → Call
  get_addon : String → Call
  transport_for : String → Call
  round_trip : String → Call
  print_row : Row → Call
  flush : Call

-- The name of the proxy's configuration, the namespace of its server, the names of the clusters, the data of a
-- secret, and whether an add-on has the condition that it is available.
abbrev pub Answer : Call → Type 0
Answer get_management_addon = String
Answer (get_proxy_configuration name) = String
Answer list_clusters = List String
Answer (listen_local_proxy namespace port) = Unit {0}
Answer (get_client_tls_config ca cert key host) = TlsConfig
Answer (get_secret namespace name) = List (String × String)
Answer (x509_key_pair cert key) = Unit {0}
Answer (create_tunnel host port config) = Unit {0}
Answer (get_addon cluster) = Bool
Answer (transport_for cluster) = Unit {0}
Answer (round_trip cluster) = Response
Answer (print_row row) = Unit {0}
Answer flush = Unit {0}
