-- ===== src/Bootstrap/Laws.antt =====
-- The kubeconfig that `join` gives to the klusterlet.
use clusteradm.Base.{
  ◌≡◌, sym, ap, ◌∙◌, subst, Bool, true, false, String, Option, some, [], ◌∷◌, text_eq,
  if◌then◌else◌, arith,
}
use clusteradm.Effect.{Result, ok, Trace, Server, ◌>>◌}
use clusteradm.Effect.Runs.{ok_bind, lift_answer}
use clusteradm.Errors.{Errors}
use clusteradm.Kubeconfig.{Cluster, Config}
use clusteradm.Preflight.{run_checks}
use clusteradm.Preflight.Passed.{run_checks-AllPass}
use clusteradm.Preflight.HubKubeconfig
use clusteradm.Preflight.HubKubeconfig.{valid_api_host, hub_kubeconfig_check}
use clusteradm.Preflight.HubKubeconfig.Laws.{IsComplete, Answers, hub_kubeconfig_check_iff}
use clusteradm.Bootstrap.{Call, Answer}
use clusteradm.Bootstrap.Built.{CaSource, EndpointSource, complete-Gives}
use clusteradm.Bootstrap.Complete.{
  Options, Completed, bootstrap_config, complete, set_server, set_kubeconfig, validate,
}

module _ (X : Errors) (hub : Server HubKubeconfig.Call HubKubeconfig.Answer X.Error)
    (marshal : Config → Result X.Error String) where
  -- The configuration that is written, with its address replaced where the lookup is forced.
  abbrev pub written_config : Completed → String → String → Option String → Config
  written_config c address token ca =
      bootstrap_config
        (if c.force_hub_in_cluster_endpoint_lookup then c.hub_in_cluster_endpoint else address)
        false token ca

  written :
      (force : Bool) (endpoint address token : String) (ca : Option String) (config : Config)
      → (if force
          then set_server X hub marshal endpoint (bootstrap_config address false token ca)
          else ok (bootstrap_config address false token ca))
        ≡ ok config
      → config ≡ bootstrap_config (if force then endpoint else address) false token ca
  unfolding set_server
  written true endpoint address token ca config e = cc
  written false endpoint address token ca config e = cc

  set_kubeconfig_ok :
      (c : Completed) (address token k : String) (ca : Option String) (h : Trace HubKubeconfig.Call)
      → c.hub_config ≡ bootstrap_config address false token ca
      → (set_kubeconfig X hub marshal c h).0 ≡ ok k
      → marshal (written_config c address token ca) ≡ ok k
  unfolding set_kubeconfig
  set_kubeconfig_ok c address token k ca h built done =
      let (config, first, later) = ok_bind _ _ h k done in
      let set = lift_answer _ h config first in
      let same : config ≡ written_config c address token ca =
        written c.force_hub_in_cluster_endpoint_lookup c.hub_in_cluster_endpoint address token ca
          config
          (subst
            (λ d.
              (if c.force_hub_in_cluster_endpoint_lookup
                then set_server X hub marshal c.hub_in_cluster_endpoint d
                else ok d)
              ≡ ok config)
            built set) in
      subst (λ d. marshal d ≡ ok k) same (lift_answer _ _ k later)

  -- The preflight check has passed.
  checked :
      (c : Completed) (k : String) (h : Trace HubKubeconfig.Call)
      → (validate X hub marshal c h).0 ≡ ok k
      → (IsComplete X c.hub_config.clusters × Answers X hub h c.hub_config)
        × ((h' : Trace HubKubeconfig.Call) × ((set_kubeconfig X hub marshal c h').0 ≡ ok k))
  unfolding validate ◌>>◌
  checked c k h done =
      let check = hub_kubeconfig_check X hub (some c.hub_config) in
      let (_, passed, set) = ok_bind (run_checks X (check ∷ [])) _ h k done in
      let (config, same, complete, answers) =
        (hub_kubeconfig_check_iff X hub (some c.hub_config) h).0
          ((run_checks-AllPass X (check ∷ []) h).1.0 passed).0 in
      let e : config ≡ c.hub_config = cc in
      (
        (subst (λ d. IsComplete X d.clusters) e complete, subst (Answers X hub h) e answers),
        (_, set),
      )

module _ (X : Errors) (server : Server Call Answer X.Error)
    (unmarshal : String → Result X.Error Config)
    (hub : Server HubKubeconfig.Call HubKubeconfig.Answer X.Error)
    (marshal : Config → Result X.Error String) where
  one_cluster :
      (address token : String) (ca : Option String) (cluster : Cluster)
      → (bootstrap_config address false token ca).clusters ≡ cluster ∷ []
      → (address ≡ cluster.server) × (ca ≡ cluster.certificate_authority_data)
  one_cluster address token ca cluster e = (ground arith, ground arith)

  -- If `complete` and then `validate` of join succeed, the kubeconfig for the klusterlet is that of one hub
  -- whose certificate is verified, with the given token. The certificate is the content of --ca-file, or
  -- without this flag what the hub publishes, and there is one; the given address is a valid one and the
  -- hub has answered its version; and the address that is written is the given one, or if its lookup is
  -- forced that of the hub's cluster-info, which is empty where this is not found.
  pub validate-complete :
      (o : Options) (h : Trace Call) (c : Completed) (h' : Trace HubKubeconfig.Call) (k : String)
      → (complete X server unmarshal o h).0 ≡ ok c
      → (validate X hub marshal c h').0 ≡ ok k
      → (ca : String) × (endpoint : String) × (marshal (
            bootstrap_config
              (if o.force_hub_in_cluster_endpoint_lookup then endpoint else o.hub_api_server)
              false
              o.token
              (some ca))
          ≡ ok k)
        × (text_eq o.token "" ≡ false)
        × CaSource X server unmarshal o (some ca)
        × EndpointSource X server unmarshal o endpoint
        × (valid_api_host o.hub_api_server ≡ true)
        × Answers X hub h' (bootstrap_config o.hub_api_server false o.token (some ca))
  validate-complete o h c h' k completed validated =
      let (token, (ca, built, force, from_ca, from_endpoint)) =
        (complete-Gives X server unmarshal o).at h c completed in
      let ((complete', answers), (h₂, set)) = checked X hub marshal c k h' validated in
      let (cluster, ca', one, valid, found) =
        subst (λ d. IsComplete X d.clusters) built complete' in
      let (has_address, same_ca) = one_cluster o.hub_api_server o.token ca cluster one in
      let has_ca : ca ≡ some ca' = same_ca ∙ found in
      (
        ca',
        c.hub_in_cluster_endpoint,
        subst
            (λ f.
              marshal (
                bootstrap_config (if f then c.hub_in_cluster_endpoint else o.hub_api_server) false
                  o.token (some ca'))
              ≡ ok k)
            force
            (subst (λ a. marshal (written_config X hub marshal c o.hub_api_server o.token a) ≡ ok k)
              has_ca
              (set_kubeconfig_ok X hub marshal c o.hub_api_server o.token k ca h₂ built set)),
        token,
        subst (CaSource X server unmarshal o) has_ca from_ca,
        from_endpoint,
        subst (λ a. valid_api_host a ≡ true) (sym has_address) valid,
        subst (Answers X hub h')
            (built ∙ ap (bootstrap_config o.hub_api_server false o.token) has_ca) answers,
      )
