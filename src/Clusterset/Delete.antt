-- ===== src/Clusterset/Delete.antt =====
-- pkg/cmd/delete/clusterset/exec.go. The watch runs in a goroutine of its own, and the scheduler
-- decides whether it starts before the deletion is asked for.
use clusteradm.Base.{Bool, true, false, String, ◌<>◌, List, [], ◌∷◌, text_eq, if◌then◌else◌}
use clusteradm.Effect.{Result, ok, err, Server, pure, fail, say, call, ◌>>=◌, ◌>>◌, attempt, lift}
use clusteradm.Errors.{Errors}
use clusteradm.Watch.{watch_until}
use clusteradm.Hub.{
  ClusterSetBinding, WatchEvent, deleted, Call, Answer, get_cluster_set, delete_cluster_set,
  watch_cluster_set, list_bindings, Run, check_for_hub,
}

abbrev pub is_deleted : WatchEvent → Bool
is_deleted deleted = true
is_deleted _ = false

module _ (X : Errors) (server : Server Call Answer X.Error) where
  open X use {Error, errorf, is_not_found}

  -- `validate`, over the arguments that `complete` has kept
  unfoldable pub validate : List String → Run X server (Unit {0})
  validate clustersets = do
    check_for_hub X server
    elim clustersets [
      | [] ↦ fail (errorf "the name of the clusterset must be specified")
      | _ ∷ [] ↦ pure tt
      | _ ↦ fail (errorf "only one clusterset can be deleted")
    ]

  -- The goroutine's error.
  unfoldable pub watch_deletion : String → Run X server (Result Error (Unit {0}))
  watch_deletion clusterset = do
    r ← attempt (call server (watch_cluster_set clusterset))
    pure (watch_until X r is_deleted)

  -- The deletion and the wait for the goroutine, by which of the two comes first.
  unfoldable pub delete_and_wait : Bool → String → Run X server (Unit {0})
  delete_and_wait true clusterset = do
    seen ← watch_deletion clusterset
    call server (delete_cluster_set clusterset)
    lift seen
    say ("Clusterset " <> clusterset <> " is deleted\n")
  delete_and_wait false clusterset = do
    call server (delete_cluster_set clusterset)
    seen ← watch_deletion clusterset
    lift seen
    say ("Clusterset " <> clusterset <> " is deleted\n")

  unfoldable pub delete_unbound : Bool → Bool → String → Run X server (Unit {0})
  delete_unbound watch_first dry_run clusterset =
      if dry_run
      then say ("Clusterset " <> clusterset <> " is deleted\n")
      else delete_and_wait watch_first clusterset

  unfoldable pub check_bindings :
      Bool → Bool → String → Result Error (List ClusterSetBinding) → Run X server (Unit {0})
  check_bindings watch_first dry_run clusterset (ok (b ∷ bs)) =
      say (
        "Clusterset " <> clusterset
        <> " still bind to a namespace! Please unbind before deleted.\n")
  check_bindings watch_first dry_run clusterset (ok []) =
      delete_unbound watch_first dry_run clusterset
  check_bindings watch_first dry_run clusterset (err e) =
      if is_not_found e then delete_unbound watch_first dry_run clusterset else fail e

  unfoldable pub check_existing :
      Bool → Bool → String → Result Error (Unit {0}) → Run X server (Unit {0})
  check_existing watch_first dry_run clusterset (err e) =
      if is_not_found e
      then say ("Clusterset " <> clusterset <> " not found or is already deleted\n")
      else fail e
  check_existing watch_first dry_run clusterset (ok _) = do
    r ← attempt (call server (list_bindings clusterset))
    check_bindings watch_first dry_run clusterset r

  unfoldable pub delete_named : Bool → Bool → String → Run X server (Unit {0})
  delete_named watch_first dry_run clusterset = do
    r ← attempt (call server (get_cluster_set clusterset))
    check_existing watch_first dry_run clusterset r

  -- `runWithClient`
  unfoldable pub delete : Bool → Bool → String → Run X server (Unit {0})
  delete watch_first dry_run clusterset =
      if text_eq clusterset "default"
      then say ("Clusterset " <> clusterset <> " can not be deleted\n")
      else delete_named watch_first dry_run clusterset
