-- ===== src/Bootstrap/ClusterInfo.antt =====
-- `getClusterInfoKubeConfig`, `GetAPIServer` and `GetCACert` of pkg/helpers/client.go.
use clusteradm.Base.{String, Option, none, some, List, [], ◌∷◌, if◌then◌else◌}
use clusteradm.Effect.{Result, ok, err, Prog, Server, pure, fail, call, lift, attempt, ◌>>=◌}
use clusteradm.Errors.{Errors}
use clusteradm.Kubeconfig.{Cluster, Config}
use clusteradm.Bootstrap.{Client, Call, Answer, Data, data_at, get_config_map}

-- `yaml.Unmarshal` of a kubeconfig is a parameter.
module _ (X : Errors) (server : Server Call Answer X.Error)
    (unmarshal : String → Result X.Error Config) where
  open X use {Error, errorf, is_not_found}

  abbrev pub Run : Type 0 → Type 0
  Run A = Prog Call Error A

  -- `getClusterInfoKubeConfig`
  unfoldable pub get_cluster_info : Client → Run Config
  get_cluster_info client = do
    data' ← call server (get_config_map client "kube-public" "cluster-info")
    lift (unmarshal (data_at "kubeconfig" data'))

  abbrev pub the_cluster : List Cluster → Result Error Cluster
  the_cluster (cluster ∷ []) = ok cluster
  the_cluster [] = err (errorf "can not find the cluster in the cluster-info")
  the_cluster (cluster ∷ other ∷ more) = err (errorf "can not find the cluster in the cluster-info")

  -- `GetAPIServer`
  unfoldable pub get_api_server : Client → Run String
  get_api_server client = do
    config ← get_cluster_info client
    cluster ← lift (the_cluster config.clusters)
    pure cluster.server

  -- What follows the read of kube-root-ca.crt.
  unfoldable pub certificate_or_none : Result Error Data → Run (Option String)
  certificate_or_none (ok data') = pure (some (data_at "ca.crt" data'))
  certificate_or_none (err e) = if is_not_found e then pure none else fail e

  unfoldable pub root_certificate : Client → Run (Option String)
  root_certificate client = do
    r ← attempt (call server (get_config_map client "kube-public" "kube-root-ca.crt"))
    certificate_or_none r

  -- What follows the read of the cluster-info.
  unfoldable pub certificate_of : Client → Result Error Config → Run (Option String)
  certificate_of client (ok config) = do
    cluster ← lift (the_cluster config.clusters)
    pure cluster.certificate_authority_data
  certificate_of client (err e) = if is_not_found e then root_certificate client else fail e

  -- `GetCACert`
  unfoldable pub get_ca_cert : Client → Run (Option String)
  get_ca_cert client = do r ← attempt (get_cluster_info client); certificate_of client r
