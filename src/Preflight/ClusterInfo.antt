-- ===== src/Preflight/ClusterInfo.antt =====
-- pkg/cmd/init/preflight/checks.go and utils.go.
pub mod Laws
pub mod Ready
use clusteradm.Base.{
  Bool, true, false, String, ◌<>◌, Option, none, some, List, [], ◌∷◌, text_eq, if◌then◌else◌,
}
use clusteradm.Effect.{
  Result, ok, err, Trace, Prog, Server, pure, fail, call, lift, attempt, ◌>>=◌, ◌>>◌,
}
use clusteradm.Errors.{Errors}
use clusteradm.Kubeconfig.{Cluster}
use clusteradm.Preflight.{Checker}

-- A kubeconfig that is read from files: its contexts, each with the name of its cluster, and its clusters.
pub record Loaded : Type 0 where
  pub current_context : String
  pub contexts : List (String × String)
  pub clusters : List (String × Cluster)

pub record ConfigMap : Type 0 where
  pub name : String
  pub namespace : String
  pub immutable : Bool
  pub entries : List (String × String)

pub data Call : Type 0 where
  load_default : Call
  load_from_file : String → Call
  get_config_map : String → String → Call
  create_config_map : ConfigMap → Call
  update_config_map : ConfigMap → Call

abbrev pub Answer : Call → Type 0
Answer load_default = Loaded
Answer (load_from_file path) = Loaded
Answer (get_config_map namespace name) = ConfigMap
Answer (create_config_map map) = Unit {0}
Answer (update_config_map map) = Unit {0}

-- A Go map, read at a key.
unfoldable pub lookup {ℓ} : {A : Type ℓ} → String → List (String × A) → Option A
lookup key [] = none
lookup key ((k, v) ∷ rest) = if text_eq k key then some v else lookup key rest

abbrev pub bootstrap_config_map : String
bootstrap_config_map = "cluster-info"

-- `net.AddrError.Error`
abbrev pub addr_error : String → String → String
addr_error message addr =
    if text_eq addr "" then message else ("address " <> addr <> ": " <> message)

-- The functions of net/url and net that the check of the address uses, and of clientcmd and pkg/errors:
-- the host of `url.Parse`, the host of `net.SplitHostPort`, `net.ParseIP` against nil, `FlattenConfig` of
-- the one cluster, `clientcmd.Write` and `errors.Wrap`.
pub record Library (E : Type 0) : Type 0 where
  pub parse_host : String → Result E String
  pub split_host_port : String → Result E String
  pub is_ip : String → Bool
  pub flatten_config : Cluster → Result E Cluster
  pub write_config : Cluster → Result E String
  pub wrap : E → String → E

module _ (X : Errors) (L : Library X.Error) where
  open X use {Error, errorf, text}

  abbrev pub Reported : Type 0
  Reported = List String × List Error

  -- What follows the parsing: the host is a domain name or an address.
  unfoldable pub check_host : String → Reported
  check_host host = if L.is_ip host then ([], []) else (
    "Hub Api Server is a domain name, maybe you should set HostAlias in klusterlet" ∷ [],
    [],
  )

  unfoldable pub check_split : String → Result Error String → Reported
  check_split u_host (ok host) = check_host host
  check_split u_host (err e) =
      if text_eq (text e) (addr_error "missing port in address" u_host)
      then check_host u_host
      else ([], e ∷ [])

  unfoldable pub check_url : Result Error String → Reported
  check_url (err e) = ([], e ∷ [])
  check_url (ok u_host) = check_split u_host (L.split_host_port u_host)

  -- `checkServer`
  unfoldable pub check_server : String → Reported
  check_server server = check_url (L.parse_host server)

  -- The current context and its cluster, in `loadCurrentCluster`.
  unfoldable pub cluster_of : String → Loaded → Option String → Result Error Cluster
  cluster_of path config none = err (
      errorf
        ("failed to find the given Current Context in Contexts of the kubeconfig file " <> path))
  cluster_of path config (some name) = elim (lookup name config.clusters) [
    | none ↦ err (
        errorf (
          "failed to find the given CurrentContext Cluster in Clusters of the kubeconfig file "
          <> path))
    | some cluster ↦ ok cluster
  ]

  unfoldable pub current_cluster : String → String → Loaded → Result Error Cluster
  current_cluster context path config =
      cluster_of path config
        (lookup (if text_eq context "" then config.current_context else context) config.contexts)

module _ (X : Errors) (L : Library X.Error) (server : Server Call Answer X.Error) where
  open X use {Error, errorf, text, is_not_found, is_already_exists}

  abbrev pub Run : Type 0 → Type 0
  Run A = Prog Call Error A

  unfoldable pub loaded : String → Result Error Loaded → Run Loaded
  loaded path (ok config) = pure config
  loaded path (err e) =
      fail (L.wrap e ("failed to load kubeconfig file " <> path <> " that already exists on disk"))

  unfoldable pub load_file : String → Run Loaded
  load_file path = do r ← attempt (call server (load_from_file path)); loaded path r

  unfoldable pub load : String → Run Loaded
  load path = if text_eq path "" then call server load_default else load_file path

  -- `loadCurrentCluster`
  unfoldable pub load_current_cluster : String → String → Run Cluster
  load_current_cluster context path = do
    config ← load path
    lift (current_cluster X L context path config)

  -- What follows the creation, in `CreateOrUpdateConfigMap`.
  unfoldable pub wrapped : String → Result Error (Unit {0}) → Run (Unit {0})
  wrapped message (ok _) = pure tt
  wrapped message (err e) = fail (L.wrap e message)

  unfoldable pub update : ConfigMap → Run (Unit {0})
  update map = do
    r ← attempt (call server (update_config_map map))
    wrapped "unable to update ConfigMap" r

  unfoldable pub created_or_update : ConfigMap → Result Error (Unit {0}) → Run (Unit {0})
  created_or_update map (ok _) = pure tt
  created_or_update map (err e) =
      if is_already_exists e then update map else fail (L.wrap e "unable to create ConfigMap")

  -- `CreateOrUpdateConfigMap`
  unfoldable pub create_or_update : ConfigMap → Run (Unit {0})
  create_or_update map = do
    r ← attempt (call server (create_config_map map))
    created_or_update map r

  abbrev pub cluster_info : String → ConfigMap
  cluster_info kubeconfig = record {
    name = bootstrap_config_map;
    namespace = "kube-public";
    immutable = true;
    entries = ("kubeconfig", kubeconfig) ∷ [];
  }

  -- `createClusterInfo`
  unfoldable pub create_cluster_info : Cluster → Run (Unit {0})
  create_cluster_info cluster = do
    flat ← lift (L.flatten_config cluster)
    kubeconfig ← lift (L.write_config flat)
    create_or_update (cluster_info kubeconfig)

  unfoldable pub load_and_create : String → String → Run (Unit {0})
  load_and_create context path = do
    cluster ← load_current_cluster context path
    create_cluster_info cluster

  abbrev pub errors_of : Result Error (Unit {0}) → List Error
  errors_of (ok _) = []
  errors_of (err e) = e ∷ []

  abbrev pub not_found_warning : String
  not_found_warning =
      "no ConfigMap named cluster-info in the kube-public namespace, clusteradm will creates it"

  -- The test on the kubeconfig of a ConfigMap.
  unfoldable pub check_kubeconfig : Option String → List String × List Error
  check_kubeconfig none = ([], errorf "empty kubeconfig data in cluster-info" ∷ [])
  check_kubeconfig (some kubeconfig) =
      if text_eq kubeconfig ""
      then ([], errorf "empty kubeconfig data in cluster-info" ∷ [])
      else ([], [])

  unfoldable pub create_missing : String → String → Run (List String × List Error)
  create_missing context path = do
    r ← attempt (load_and_create context path)
    pure (not_found_warning ∷ [], errors_of r)

  -- What follows the read of the ConfigMap.
  unfoldable pub check_found :
      String → String → Result Error ConfigMap → Run (List String × List Error)
  check_found context path (ok map) = pure (check_kubeconfig (lookup "kubeconfig" map.entries))
  check_found context path (err e) =
      if is_not_found e then create_missing context path else pure ([], e ∷ [])

  -- `ClusterInfoCheck.Check`
  unfoldable pub check_cluster_info :
      String → String → String → String → Run (List String × List Error)
  check_cluster_info namespace name context path = do
    r ← attempt (call server (get_config_map namespace name))
    check_found context path r

  unfoldable pub checked_server : Result Error Cluster → List String × List Error
  checked_server (err e) = ([], e ∷ [])
  checked_server (ok cluster) = check_server X L cluster.server

  -- `HubApiServerCheck.Check`
  unfoldable pub check_hub_api_server : String → String → Run (List String × List Error)
  check_hub_api_server context path = do
    r ← attempt (load_current_cluster context path)
    pure (checked_server r)

  -- The answer of a check, which is never an error itself.
  abbrev pub answer_of : Result Error (List String × List Error) → List String × List Error
  answer_of (ok found) = found
  answer_of (err e) = ([], e ∷ [])

  abbrev pub checker : String → Run (List String × List Error) → Checker Call Error
  checker name m = record { name = name; check = λ h. (answer_of (m h).0, (m h).1) }
