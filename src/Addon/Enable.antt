-- ===== src/Addon/Enable.antt =====
-- pkg/cmd/addon/enable/exec.go.
pub mod Laws
use clusteradm.Base.{Bool, true, false, String, ◌<>◌, List, [], ◌∷◌, ◌++◌, split, if◌then◌else◌}
use clusteradm.Effect.{
  Result, ok, err, Trace, Prog, Server, pure, fail, say, call, ◌>>=◌, ◌>>◌, lift,
}
use clusteradm.Errors.{Errors}
use clusteradm.Hub.{
  Labels, ClusterAddonInfo, Call, Answer, apply_addon, write_output, Run, check_for_hub,
}
use clusteradm.Clusterset.Set.{set_label}
use clusteradm.Addon.{get_clusters}
use clusteradm.Addon.Disable.{is_empty}

pub record Options : Type 0 where
  pub names : List String
  pub namespace : String
  pub clusters : List String
  pub output_file : String
  pub annotate : List String

module _ (X : Errors) where
  open X use {Error, errorf}

  -- One round of the loop over the annotations, once the text is split at `=`.
  unfoldable pub annotated : String → List String → Labels → Result Error Labels
  annotated text (key ∷ value ∷ []) annos = ok (set_label key value annos)
  annotated text _ annos =
      err (
        errorf ("error parsing annotation '" <> text <> "'. Expected to be of the form: key=value"))

  -- The loop.
  unfoldable pub parse_annotations : List String → Labels → Result Error Labels
  parse_annotations [] annos = ok annos
  parse_annotations (text ∷ texts) annos = elim (annotated text (split b'=' text) annos) [
    | err e ↦ err e
    | ok more ↦ parse_annotations texts more
  ]

  unfoldable pub info_with :
      String → Options → String → Result Error Labels → Result Error ClusterAddonInfo
  info_with cluster o addon (err e) = err e
  info_with cluster o addon (ok annos) = ok (record {
    cluster_name = cluster;
    namespace = o.namespace;
    addon_name = addon;
    annotations = annos;
  })

  -- `NewClusterAddonInfo`
  unfoldable pub new_cluster_addon_info : String → Options → String → Result Error ClusterAddonInfo
  new_cluster_addon_info cluster o addon =
      info_with cluster o addon (parse_annotations o.annotate [])

module _ (X : Errors) (server : Server Call Answer X.Error) where
  open X use {Error, errorf}

  unfoldable pub validate_options : Options → Run X server (Unit {0})
  validate_options o =
      if is_empty o.names
      then fail (errorf "names is missing")
      else if is_empty o.clusters
      then fail (errorf "clusters is missing")
      else pure tt

  -- `Validate`
  unfoldable pub validate : Options → Run X server (Unit {0})
  validate o = do check_for_hub X server; validate_options o

  -- The body of the loops.
  unfoldable pub apply_one : Bool → Options → String → String → Run X server (List String)
  apply_one dry_run o addon cluster = do
    info ← lift (new_cluster_addon_info X cluster o addon)
    out ← call server (apply_addon dry_run info)
    say (
        "Deploying " <> addon <> " add-on to namespaces " <> o.namespace <> " of managed cluster: "
        <> cluster <> ".\n")
    pure out

  unfoldable pub apply_in :
      Bool → Options → String → List String → List String → Run X server (List String)
  apply_in dry_run o addon [] output = pure output
  apply_in dry_run o addon (cluster ∷ clusters) output = do
    out ← apply_one dry_run o addon cluster
    apply_in dry_run o addon clusters (output ++ out)

  unfoldable pub apply_addons :
      Bool → Options → List String → List String → List String → Run X server (List String)
  apply_addons dry_run o [] clusters output = pure output
  apply_addons dry_run o (addon ∷ addons) clusters output = do
    output' ← apply_in dry_run o addon clusters output
    apply_addons dry_run o addons clusters output'

  -- `runWithClient`
  unfoldable pub run_with_client :
      Bool → Options → List String → List String → Run X server (Unit {0})
  run_with_client dry_run o addons clusters = do
    get_clusters X server clusters
    output ← apply_addons dry_run o addons clusters []
    call server (write_output o.output_file output)

  -- `Run`, with `sets.NewString(xs...).List()` as a parameter
  unfoldable pub run : (List String → List String) → Bool → Options → Run X server (Unit {0})
  run to_set dry_run o = run_with_client dry_run o (to_set o.names) (to_set o.clusters)
