-- ===== src/Preflight/HubKubeconfig.antt =====
-- pkg/cmd/join/preflight/checks.go.
pub mod Laws
use clusteradm.Base.{
  Bool, true, false, ◌||◌, String, Option, none, some, List, [], ◌∷◌, starts_with, if◌then◌else◌,
}
use clusteradm.Effect.{Result, ok, err, Trace, Prog, Server, pure, call, lift, ◌>>=◌, ◌>>◌}
use clusteradm.Errors.{Errors}
use clusteradm.Preflight.{Checker}
use clusteradm.Kubeconfig.{Cluster, Config}

-- The client for a configuration and the call that it makes.
pub data Call : Type 0 where
  create_discovery_client : Config → Call
  server_version : Call

abbrev pub Answer : Call → Type 0
Answer (create_discovery_client config) = Unit {0}
Answer server_version = String

-- `ValidAPIHost`
unfoldable pub valid_api_host : String → Bool
valid_api_host host =
    if starts_with host "http://" || starts_with host "https://" then true else false

module _ (X : Errors) where
  open X use {Error, errorf}

  unfoldable pub check_certificate : Config → Option String → Result Error Config
  check_certificate config none = err (errorf "no ca detected, creating hub kubeconfig without ca")
  check_certificate config (some ca) = ok config

  unfoldable pub check_cluster : Config → List Cluster → Result Error Config
  check_cluster config (cluster ∷ []) =
      if valid_api_host cluster.server
      then check_certificate config cluster.certificate_authority_data
      else err (errorf "--hub-apiserver should start with http:// or https://")
  check_cluster config _ = err (errorf "error cluster length")

  -- The tests on the configuration, before anything is called.
  unfoldable pub check_config : Option Config → Result Error Config
  check_config none = err (errorf "no hubconfig found")
  check_config (some config) = check_cluster config config.clusters

module _ (X : Errors) (server : Server Call Answer X.Error) where
  open X use {Error}

  -- `HubKubeconfigCheck.Check`, whose errors are at most one.
  unfoldable pub hub_kubeconfig : Option Config → Prog Call Error String
  hub_kubeconfig config = do
    c ← lift (check_config X config)
    call server (create_discovery_client c)
    call server server_version

  abbrev pub reported : Result Error String → List String × List Error
  reported (ok version) = ([], [])
  reported (err e) = ([], e ∷ [])

  -- `HubKubeconfigCheck`
  abbrev pub hub_kubeconfig_check : Option Config → Checker Call Error
  hub_kubeconfig_check config = record {
    name = "HubKubeconfig check";
    check = λ h. (reported (hub_kubeconfig config h).0, (hub_kubeconfig config h).1);
  }
