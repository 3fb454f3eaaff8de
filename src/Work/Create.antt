-- ===== src/Work/Create.antt =====
-- pkg/cmd/create/work/exec.go.
pub mod Laws
use clusteradm.Base.{
  Bool, true, false, not, ◌&&◌, ◌||◌, String, ◌<>◌, List, [], ◌∷◌, text_eq, split, if◌then◌else◌,
}
use clusteradm.Effect.{
  Result, ok, err, Trace, Prog, Server, pure, fail, say, call, ◌>>=◌, ◌>>◌, attempt,
}
use clusteradm.Errors.{Errors}
use clusteradm.Work.{
  Work, Call, Answer, read_manifests, list_works, get_placement, track_placement, get_work,
  create_work, update_work, delete_work,
}

pub record Options : Type 0 where
  pub cluster : String
  pub placement : String
  pub work_name : String
  pub filenames : List String
  pub overwrite : Bool

-- The clusters that have a work of this name.
unfoldable pub deploy_clusters : String → List Work → List String
deploy_clusters name [] = []
deploy_clusters name (work ∷ works) =
    let rest = deploy_clusters name works in
    if text_eq work.name name then work.namespace ∷ rest else rest

-- Whether a placement is written as namespace/name.
abbrev pub has_two_parts : List String → Bool
has_two_parts (namespace ∷ name ∷ []) = true
has_two_parts _ = false

abbrev pub is_nil : List String → Bool
is_nil [] = true
is_nil (x ∷ xs) = false

module _ (X : Errors) where
  open X use {Error, errorf}

  -- `complete`
  unfoldable pub the_work : List String → Result Error String
  the_work [] = err (errorf "work name must be specified")
  the_work (name ∷ []) = ok name
  the_work (name ∷ other ∷ more) = err (errorf "only one work name can be specified")

  abbrev pub bad_placement : String → Error
  bad_placement placement =
      errorf (
        "the name of the placement " <> placement <> " must be in the format of <namespace>/<name>")

  -- `validate`, after the test of the hub
  unfoldable pub validate_options : Options → Result Error (Unit {0})
  validate_options o =
      if text_eq o.cluster "" && text_eq o.placement ""
      then err (errorf "--clusters or --placement must be specified")
      else if not (text_eq o.cluster "") && not (text_eq o.placement "")
      then err (errorf "--clusters and --placement can only specify one")
      else if not (text_eq o.placement "") && not (has_two_parts (split b'/' o.placement))
      then err (bad_placement o.placement)
      else if is_nil o.filenames
      then err (errorf "manifest files must be specified")
      else ok tt

module _ (X : Errors) (server : Server Call Answer X.Error) where
  open X use {Error, errorf, text, is_not_found}

  abbrev Run : Type 0 → Type 0
  Run A = Prog Call Error A

  unfoldable pub tracked :
      String → String → List String → Result Error (Unit {0}) → Run (List String × List String)
  tracked namespace name existing (err e) = fail (errorf ("failed to get placement " <> text e))
  tracked namespace name existing (ok _) = call server (track_placement namespace name existing)

  -- `getPlacement`, and the decisions for it
  unfoldable pub placement_clusters :
      String → List String → List String → Run (List String × List String)
  placement_clusters placement existing (namespace ∷ name ∷ []) = do
    r ← attempt (call server (get_placement namespace name))
    tracked namespace name existing r
  placement_clusters placement existing _ = fail (bad_placement X placement)

  unfoldable pub clusters_of : Options → List Work → Run (List String × List String)
  clusters_of o works =
      if text_eq o.cluster ""
      then placement_clusters o.placement (deploy_clusters o.work_name works)
          (split b'/' o.placement)
      else pure (o.cluster ∷ [], [])

  -- `getClusters`, with `getWorkDepolyClusters`
  unfoldable pub get_clusters : Options → Run (List String × List String)
  get_clusters o = do works ← call server list_works; clusters_of o works

  unfoldable pub deletion_failed : Options → String → Result Error (Unit {0}) → Run (Unit {0})
  deletion_failed o cluster (ok _) = pure tt
  deletion_failed o cluster (err e) = say (
      "failed to delete work "
      <> o.work_name
      <> " in cluster "
      <> cluster
      <> " as "
      <> text e
      <> "\n")

  unfoldable pub delete_one : Options → String → Run (Unit {0})
  delete_one o cluster = do
    r ← attempt (call server (delete_work cluster o.work_name))
    deletion_failed o cluster r
    say ("delete work " <> o.work_name <> " in cluster " <> cluster <> "\n")

  -- The first loop of `applyWork`.
  unfoldable pub delete_works : Options → List String → Run (Unit {0})
  delete_works o [] = pure tt
  delete_works o (cluster ∷ clusters) = do
    if o.overwrite then delete_one o cluster else pure tt
    delete_works o clusters

  unfoldable pub overwrite_work : Options → List String → String → Work → Run (Unit {0})
  overwrite_work o manifests cluster work =
      if not o.overwrite
      then say ("work " <> o.work_name <> " in cluster " <> cluster <> " already exists\n")
      else do
        call server (update_work (record work { manifests = manifests }))
        say ("update work " <> o.work_name <> " in cluster " <> cluster <> "\n")

  unfoldable pub create_new : Options → List String → String → Run (Unit {0})
  create_new o manifests cluster = do
    call server (
        create_work (record {
          name = o.work_name;
          namespace = cluster;
          finalizers = [];
          manifests = manifests;
        }))
    say ("create work " <> o.work_name <> " in cluster " <> cluster <> "\n")

  unfoldable pub create_or_overwrite :
      Options → List String → String → Result Error Work → Run (Unit {0})
  create_or_overwrite o manifests cluster (ok work) = overwrite_work o manifests cluster work
  create_or_overwrite o manifests cluster (err e) =
      if is_not_found e then create_new o manifests cluster else fail e

  -- The body of the second loop.
  unfoldable pub apply_one : Options → List String → String → Run (Unit {0})
  apply_one o manifests cluster = do
    r ← attempt (call server (get_work cluster o.work_name))
    create_or_overwrite o manifests cluster r

  -- The second loop of `applyWork`.
  unfoldable pub apply_works : Options → List String → List String → Run (Unit {0})
  apply_works o manifests [] = pure tt
  apply_works o manifests (cluster ∷ clusters) = do
    apply_one o manifests cluster
    apply_works o manifests clusters

  -- `run`
  unfoldable pub run : Options → Run (Unit {0})
  run o = do
    manifests ← call server read_manifests
    (added, removed) ← get_clusters o
    delete_works o removed
    apply_works o manifests added
