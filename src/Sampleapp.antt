-- ===== src/Sampleapp.antt =====
-- pkg/cmd/create/sampleapp (exec.go, options.go): the sample application on the hub.
pub mod Found
pub mod Laws
mod Tests
use clusteradm.Base.{
  Bool, true, false, ◌||◌, not, String, ◌<>◌, Option, none, some, List, [], ◌∷◌, text_eq,
  if◌then◌else◌,
}
use clusteradm.Effect.{Prog, Server, pure, fail, say, call, ◌>>=◌, ◌>>◌}
use clusteradm.Errors.{Errors}

pub record Options : Type 0 where
  pub sample_app_name : String
  pub namespace : String
  pub output_file : String

-- The path of a file or a directory, and whether it is a directory.
pub record Entry : Type 0 where
  pub path : String
  pub is_dir : Bool

-- `walk` visits what stands below a directory; it answers `none` if the directory cannot be read. A file is
-- named by its path from the directory's parent.
pub data Call : Type 0 where
  list_clusters : Call
  get_cluster : String → Call
  caller_directory : Call
  walk : String → Call
  apply_custom_resources : Bool → Options → List String → Call
  write_output : String → List String → Call

-- The names of the clusters, the labels of a cluster, and the generated resources.
abbrev pub Answer : Call → Type 0
Answer list_clusters = List String
Answer (get_cluster name) = List (String × String)
Answer caller_directory = Option String
Answer (walk root) = Option (List Entry)
Answer (apply_custom_resources dry_run o files) = List String
Answer (write_output file output) = Unit {0}

-- `labels[key]`, where `none` is a missing key
abbrev pub label_of : String → List (String × String) → Option String
label_of key [] = none
label_of key ((k, v) ∷ labels) =
    let rest = label_of key labels in if text_eq k key then some v else rest

-- `!ok || (v != value)`
abbrev pub lacks : Option String → String → Bool
lacks none value = true
lacks (some v) value = not (text_eq v value)

abbrev pub cluster_set_label : String
cluster_set_label = "cluster.open-cluster-management.io/clusterset"

abbrev pub warning : String → String → String → String
warning label value cluster =
    "[WARNING] Label \"" <> label <> "=" <> value <> "\" has not been found in ManagedCluster "
    <> cluster <> ", could not establish binding.\n"

-- The paths of the files that `filePathWalkDir` collects
abbrev pub files_of : List Entry → List String
files_of [] = []
files_of (entry ∷ entries) =
    let rest = files_of entries in if entry.is_dir then rest else entry.path ∷ rest

-- `dryRunOutput`
abbrev pub dry_run_output : List String → String
dry_run_output [] = ""
dry_run_output (s ∷ output) = s <> "\n---\n" <> dry_run_output output

module _ (X : Errors) where
  -- `complete`
  unfoldable pub complete : {C : Type 0} → Options → List String → Prog C X.Error Options
  complete o [] = pure (record o { sample_app_name = "sampleapp" })
  complete o (name ∷ []) = pure (record o { sample_app_name = name })
  complete o (a ∷ b ∷ more) = fail (X.errorf "only one sample app name can be specified")

-- A panic is one of the errors of the model.
module _ (X : Errors) (nil_dereference : X.Error) (server : Server Call Answer X.Error) where
  unfoldable pub warn_if : Bool → String → Prog Call X.Error (Unit {0})
  warn_if missing line = if missing then say line else pure tt

  -- The checks of the labels of one cluster
  unfoldable pub check_labels :
      Options → String → List (String × String) → Prog Call X.Error (Unit {0})
  unfolding warn_if
  check_labels o cluster labels =
      let set = "app-" <> o.sample_app_name in
      warn_if (lacks (label_of cluster_set_label labels) set)
        (warning cluster_set_label set cluster)
      >> warn_if (lacks (label_of "placement" labels) "sampleapp")
          (warning "placement" "sampleapp" cluster)

  -- The loop over the clusters
  unfoldable pub check_clusters : Options → List String → Prog Call X.Error (Unit {0})
  unfolding check_labels
  check_clusters o [] = pure tt
  check_clusters o (cluster ∷ clusters) =
      (call server (get_cluster cluster) >>= check_labels o cluster) >> check_clusters o clusters

  -- `checkManagedClusterBinding`
  unfoldable pub check_managed_cluster_binding : Options → Bool → Prog Call X.Error (Unit {0})
  unfolding check_clusters
  check_managed_cluster_binding o dry_run =
      if dry_run then pure tt else call server list_clusters >>= check_clusters o

  -- `filePathWalkDir`, by what the walk answers: the callback reads its argument `info` before the error,
  -- and it is nil for a directory that cannot be read.
  unfoldable pub walked : Option (List Entry) → Prog Call X.Error (List String)
  walked none = fail nil_dereference
  walked (some entries) = pure (files_of entries)

  -- The files of `deployApp`, in a directory below that of the source file at the time of the build
  unfoldable pub the_files : Option String → Prog Call X.Error (List String)
  unfolding walked
  the_files none = fail (X.errorf "Error retrieving current file path")
  the_files (some directory) = call server (walk (directory <> "/scenario/sampleapp")) >>= walked

  -- `deployApp`
  unfoldable pub deploy_app : Options → Bool → Prog Call X.Error (List String)
  unfolding the_files
  deploy_app o dry_run = (call server caller_directory >>= the_files) >>= λ files.
      call server (apply_custom_resources dry_run o files)

  -- `runWithClient`, after the deployment
  unfoldable pub finish : Options → Bool → List String → Prog Call X.Error (Unit {0})
  finish o dry_run output =
      (if dry_run then say (dry_run_output output) else pure tt)
      >> call server (write_output o.output_file output)

  -- `runWithClient`
  unfoldable pub run_with_client : Options → Bool → Prog Call X.Error (Unit {0})
  unfolding check_managed_cluster_binding deploy_app finish
  run_with_client o dry_run =
      check_managed_cluster_binding o dry_run >> (deploy_app o dry_run >>= finish o dry_run)
