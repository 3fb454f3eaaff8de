-- ===== src/Bootstrap/Built.antt =====
-- The kubeconfig that `complete` of join makes, and where its parts come from.
use clusteradm.Base.{◌≡◌, refl, ◌⊎◌, inl, inr, true, false, String, Option, none, some, text_eq}
use clusteradm.Effect.{Result, ok, err, Trace, Server, call}
use clusteradm.Effect.Runs.{attempt_result, call_ok}
use clusteradm.Effect.IfOk.{
  Gives, Gives-pure, Gives-if, Gives-bind_of, Gives-unless, Gives-fail, Gives-then,
}
use clusteradm.Errors.{Errors}
use clusteradm.Kubeconfig.{Cluster, Config}
use clusteradm.Bootstrap.{Call, Answer, read_file, unsecured_hub}
use clusteradm.Bootstrap.ClusterInfo.{get_api_server}
use clusteradm.Bootstrap.Sources.{HasInfo, Publishes, get_ca_cert-Gives, get_api_server-Gives}
use clusteradm.Bootstrap.Complete.{
  Options, Completed, bootstrap_config, endpoint_or_empty, look_up_endpoint, hub_endpoint,
  the_certificate, read_ca, create_config, look_up, complete,
}

module _ (X : Errors) (server : Server Call Answer X.Error)
    (unmarshal : String → Result X.Error Config) where
  open X use {is_not_found}

  -- The certificate is the content of --ca-file, or without this flag what the hub publishes.
  abbrev pub CaSource : Options → Option String → Type 0
  CaSource o ca =
      ((text_eq o.ca_file "" ≡ false)
        × ((content : String) × (h : Trace Call) × (server h (read_file o.ca_file) ≡ ok content)
            × (some content ≡ ca)))
      ⊎ ((text_eq o.ca_file "" ≡ true) × Publishes X server unmarshal unsecured_hub ca)

  -- The endpoint is looked up only if this is forced; it is then the address in the hub's cluster-info, or
  -- empty if something of it was not found.
  abbrev pub EndpointSource : Options → String → Type 0
  EndpointSource o endpoint =
      ((o.force_hub_in_cluster_endpoint_lookup ≡ false) × (o.hub_in_cluster_endpoint ≡ endpoint))
      ⊎ ((o.force_hub_in_cluster_endpoint_lookup ≡ true)
          × (((cluster : Cluster) × HasInfo X server unmarshal unsecured_hub cluster
                × (cluster.server ≡ endpoint))
              ⊎ ((e : X.Error) × (h : Trace Call) × ((get_api_server X server unmarshal
                      unsecured_hub h).0
                    ≡ err e)
                  × (is_not_found e ≡ true)
                  × ("" ≡ endpoint))))

  abbrev pub IsBuilt : Options → Completed → Type 0
  IsBuilt o c =
      (ca : Option String) × (c.hub_config ≡ bootstrap_config o.hub_api_server false o.token ca)
      × (c.force_hub_in_cluster_endpoint_lookup ≡ o.force_hub_in_cluster_endpoint_lookup)
      × CaSource o ca
      × EndpointSource o c.hub_in_cluster_endpoint

  look_up_endpoint-Gives :
      (o : Options)
      → o.force_hub_in_cluster_endpoint_lookup ≡ true
      → Gives (EndpointSource o) (look_up_endpoint X server unmarshal)
  unfolding look_up_endpoint
  look_up_endpoint-Gives o forced = Gives-bind_of _ _ λ r h e.
      of_answer r h (attempt_result (get_api_server X server unmarshal unsecured_hub) h r e)
    where
      of_answer :
          (r : Result X.Error String) (h : Trace Call)
          → (get_api_server X server unmarshal unsecured_hub h).0 ≡ r
          → Gives (EndpointSource o) (endpoint_or_empty X server unmarshal r)
      of_answer (ok endpoint) h e =
          unfold endpoint_or_empty in
          Gives-pure _ (
            inr (
              forced,
              inl ((get_api_server-Gives X server unmarshal unsecured_hub).at h endpoint e),
            ))
      of_answer (err x) h e =
          unfold endpoint_or_empty in
          Gives-if _ _ _ (λ gone. Gives-pure _ (inr (forced, inr (x, h, e, gone, refl))))
            (λ _. Gives-fail _)

  hub_endpoint-Gives : (o : Options) → Gives (EndpointSource o) (hub_endpoint X server unmarshal o)
  unfolding hub_endpoint
  hub_endpoint-Gives o =
      Gives-if _ _ _ (look_up_endpoint-Gives o) (λ free. Gives-pure _ (inl (free, refl)))

  -- What is read from --ca-file.
  abbrev FileSource : Options → Option String → Type 0
  FileSource o none = text_eq o.ca_file "" ≡ true
  FileSource o (some content) =
      (text_eq o.ca_file "" ≡ false)
      × ((h : Trace Call) × (server h (read_file o.ca_file) ≡ ok content))

  read_ca-Gives : (o : Options) → Gives (FileSource o) (read_ca X server unmarshal o)
  unfolding read_ca
  read_ca-Gives o =
      Gives-if _ _ _ (λ empty. Gives-pure none empty)
        (λ named. Gives-bind_of (call server (read_file o.ca_file)) _ (λ content h e.
          Gives-pure (some content) (named, (h, call_ok server (read_file o.ca_file) h content e))))

  the_certificate-Gives :
      (o : Options) (ca_data : Option String)
      → FileSource o ca_data
      → Gives (CaSource o) (the_certificate X server unmarshal ca_data)
  unfolding the_certificate
  the_certificate-Gives o none empty = record {
    at =
        λ h ca done. inr (empty, (get_ca_cert-Gives X server unmarshal unsecured_hub).at h ca done);
  }
  the_certificate-Gives o (some content) (named, (h, read)) =
      Gives-pure _ (inl (named, (content, h, read, refl)))

  abbrev Made : Options → String × Config → Type 0
  Made o (endpoint, config) =
      (ca : Option String) × (config ≡ bootstrap_config o.hub_api_server false o.token ca)
      × CaSource o ca
      × EndpointSource o endpoint

  create_config-Gives :
      (o : Options) (ca_data : Option String)
      → FileSource o ca_data
      → Gives (Made o) (create_config X server unmarshal o ca_data)
  unfolding create_config
  create_config-Gives o ca_data from = Gives-bind_of _ _ λ endpoint h e.
      Gives-bind_of _ _ λ ca h' e'.
        Gives-pure (endpoint, bootstrap_config o.hub_api_server false o.token ca)
          (
            ca,
            refl,
            (the_certificate-Gives o ca_data from).at h' ca e',
            (hub_endpoint-Gives o).at h endpoint e,
          )

  look_up-Gives : (o : Options) → Gives (IsBuilt o) (look_up X server unmarshal o)
  unfolding look_up
  look_up-Gives o = Gives-bind_of _ _ λ bundle _ _. Gives-bind_of _ _ λ ca_data h read.
      Gives-then _ _ (
        Gives-bind_of _ _ λ made h' done. Gives-then _ _ (
          Gives-bind_of _ _ λ klusterlet _ _. Gives-pure _ (
            let (ca, e, from_ca, from_endpoint) =
              (create_config-Gives o ca_data ((read_ca-Gives o).at h ca_data read)).at h' made
                done in
            (ca, e, refl, from_ca, from_endpoint))))

  looked_up-Gives :
      (o : Options)
      → text_eq o.token "" ≡ false
      → Gives (λ c. (text_eq o.token "" ≡ false) × IsBuilt o c) (look_up X server unmarshal o)
  looked_up-Gives o token = record { at = λ h c done. (token, (look_up-Gives o).at h c done) }

  pub complete-Gives :
      (o : Options)
      → Gives (λ c. (text_eq o.token "" ≡ false) × IsBuilt o c) (complete X server unmarshal o)
  unfolding complete
  complete-Gives o =
      Gives-if _ _ _ (λ _. Gives-fail _)
        λ token. Gives-unless (text_eq o.hub_api_server "") _ _ (
          Gives-unless (text_eq o.cluster_name "") _ _
            (Gives-unless (text_eq o.registry "") _ _ (looked_up-Gives o token)))
