-- ===== src/Bootstrap/Complete.antt =====
-- `complete`, `createExternalBootstrapConfig`, `createClientcmdapiv1Config`, `validate` and
-- `setKubeconfig` of pkg/cmd/join/exec.go.
use clusteradm.Base.{Bool, true, false, String, Option, none, some, [], ◌∷◌, text_eq, if◌then◌else◌}
use clusteradm.Effect.{Result, ok, err, Prog, Server, pure, fail, call, lift, attempt, ◌>>=◌, ◌>>◌}
use clusteradm.Errors.{Errors}
use clusteradm.Version.{VersionBundle, get_version_bundle}
use clusteradm.Kubeconfig.{Config}
use clusteradm.Preflight.{run_checks}
use clusteradm.Preflight.HubKubeconfig
use clusteradm.Preflight.HubKubeconfig.{valid_api_host, hub_kubeconfig_check}
use clusteradm.Bootstrap.{
  Call, Answer, read_file, create_client, kubernetes_client_set, unsecured_hub, managed_cluster,
}
use clusteradm.Bootstrap.ClusterInfo.{get_api_server, get_ca_cert}

pub record Options : Type 0 where
  pub token : String
  pub hub_api_server : String
  pub ca_file : String
  pub cluster_name : String
  pub registry : String
  pub bundle_version : String
  pub force_hub_in_cluster_endpoint_lookup : Bool
  pub hub_in_cluster_endpoint : String

-- What `complete` leaves in the options: the values for the templates, the hub's configuration, and the
-- endpoint that was looked up.
pub record Completed : Type 0 where
  pub cluster_name : String
  pub hub_api_server : String
  pub registry : String
  pub bundle : VersionBundle
  pub klusterlet_api_server : String
  pub hub_config : Config
  pub force_hub_in_cluster_endpoint_lookup : Bool
  pub hub_in_cluster_endpoint : String

-- The configuration with a token, and one cluster.
abbrev pub bootstrap_config : String → Bool → String → Option String → Config
bootstrap_config server insecure token ca = record {
  clusters =
      (record {
        name = "hub";
        server = server;
        insecure_skip_tls_verify = insecure;
        certificate_authority_data = ca;
      })
      ∷ [];
  auth_infos = (record { name = "bootstrap"; token = token }) ∷ [];
  contexts =
      (record {
        name = "bootstrap";
        cluster = "hub";
        auth_info = "bootstrap";
        namespace = "default";
      })
      ∷ [];
  current_context = "bootstrap";
}

-- `createExternalBootstrapConfig`
abbrev pub external_config : Options → Config
external_config o = bootstrap_config o.hub_api_server true o.token none

module _ (X : Errors) (server : Server Call Answer X.Error)
    (unmarshal : String → Result X.Error Config) where
  open X use {Error, errorf, is_not_found}

  -- An endpoint that is not found is empty.
  unfoldable pub endpoint_or_empty : Result Error String → Prog Call Error String
  endpoint_or_empty (ok endpoint) = pure endpoint
  endpoint_or_empty (err e) = if is_not_found e then pure "" else fail e

  unfoldable pub look_up_endpoint : Prog Call Error String
  look_up_endpoint = do
    r ← attempt (get_api_server X server unmarshal unsecured_hub)
    endpoint_or_empty r

  unfoldable pub hub_endpoint : Options → Prog Call Error String
  hub_endpoint o =
      if o.force_hub_in_cluster_endpoint_lookup
      then look_up_endpoint
      else pure o.hub_in_cluster_endpoint

  -- The content of --ca-file goes before what the hub publishes.
  unfoldable pub the_certificate : Option String → Prog Call Error (Option String)
  the_certificate (some ca) = pure (some ca)
  the_certificate none = get_ca_cert X server unmarshal unsecured_hub

  unfoldable pub read_ca : Options → Prog Call Error (Option String)
  read_ca o =
      if text_eq o.ca_file ""
      then pure none
      else (do content ← call server (read_file o.ca_file); pure (some content))

  -- `createClientcmdapiv1Config`: the endpoint and the configuration.
  unfoldable pub create_config : Options → Option String → Prog Call Error (String × Config)
  create_config o ca_data = do
    endpoint ← hub_endpoint o
    ca ← the_certificate ca_data
    pure (endpoint, bootstrap_config o.hub_api_server false o.token ca)

  -- The managed cluster's own endpoint, where it can be used.
  unfoldable pub valid_or_empty : Result Error String → String
  valid_or_empty (err e) = ""
  valid_or_empty (ok endpoint) = if valid_api_host endpoint then endpoint else ""

  -- What follows the tests of `complete` on the flags.
  unfoldable pub look_up : Options → Prog Call Error Completed
  look_up o = do
    bundle ← lift (get_version_bundle X o.bundle_version)
    ca_data ← read_ca o
    call server (create_client (external_config o))
    (endpoint, config) ← create_config o ca_data
    call server kubernetes_client_set
    klusterlet ← attempt (get_api_server X server unmarshal managed_cluster)
    pure (record {
      cluster_name = o.cluster_name;
      hub_api_server = o.hub_api_server;
      registry = o.registry;
      bundle = bundle;
      klusterlet_api_server = valid_or_empty klusterlet;
      hub_config = config;
      force_hub_in_cluster_endpoint_lookup = o.force_hub_in_cluster_endpoint_lookup;
      hub_in_cluster_endpoint = endpoint;
    })

  -- `complete`
  unfoldable pub complete : Options → Prog Call Error Completed
  complete o =
      if text_eq o.token ""
      then fail (errorf "token is missing")
      else if text_eq o.hub_api_server ""
      then fail (errorf "hub-server is missing")
      else if text_eq o.cluster_name ""
      then fail (errorf "name is missing")
      else if text_eq o.registry ""
      then fail (
          errorf "the OCM image registry should not be empty, like quay.io/open-cluster-management")
      else look_up o

-- `yaml.Marshal` of a kubeconfig is a parameter.
module _ (X : Errors) (hub : Server HubKubeconfig.Call HubKubeconfig.Answer X.Error)
    (marshal : Config → Result X.Error String) where
  open X use {Error, errorf}

  -- `o.HubConfig.Clusters[0].Cluster.Server = server`, which panics where there is no cluster.
  unfoldable pub set_server : String → Config → Result Error Config
  set_server server config = elim config.clusters [
    | [] ↦ err (errorf "runtime error: index out of range [0] with length 0")
    | cluster ∷ more ↦ ok (record config { clusters = (record cluster { server = server }) ∷ more })
  ]

  -- `setKubeconfig`
  unfoldable pub set_kubeconfig : Completed → Prog HubKubeconfig.Call Error String
  set_kubeconfig o = do
    config ← lift (
        if o.force_hub_in_cluster_endpoint_lookup
        then set_server o.hub_in_cluster_endpoint o.hub_config
        else ok o.hub_config)
    lift (marshal config)

  -- `validate`: the kubeconfig for the templates.
  unfoldable pub validate : Completed → Prog HubKubeconfig.Call Error String
  validate o = do
    run_checks X (hub_kubeconfig_check X hub (some o.hub_config) ∷ [])
    set_kubeconfig o
