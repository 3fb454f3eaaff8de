-- ===== src/Work/Delete.antt =====
-- pkg/cmd/delete/work/exec.go. The watch and the timeout run in goroutines of their own: the scheduler
-- decides where between the steps of the command the watch runs, and which of the two ends first.
pub mod Laws
use clusteradm.Base.{
  Bool, true, false, String, ◌<>◌, Option, none, some, List, [], ◌∷◌, if◌then◌else◌,
}
use clusteradm.Effect.{
  Result, ok, err, Trace, Prog, Server, pure, fail, say, call, ◌>>=◌, ◌>>◌, attempt, lift,
}
use clusteradm.Errors.{Errors}
use clusteradm.Hub.{WatchEvent, deleted}
use clusteradm.Watch.{watch_until}
use clusteradm.Work.{Work, WorkEvent, Call, Answer, get_work, update_work, delete_work, watch_works}

pub record Options : Type 0 where
  pub cluster : String
  pub work_name : String
  pub force : Bool

-- When the watch starts: before the deletion, after it, or after the work was read and updated for --force.
pub data WatchStart : Type 0 where
  before_deletion : WatchStart
  after_deletion : WatchStart
  after_force : WatchStart

-- The choices of the scheduler.
pub record Schedule : Type 0 where
  pub watch_start : WatchStart
  pub timed_out : Bool

abbrev pub is_deleted : WorkEvent → Bool
is_deleted event = elim event.kind [ deleted ↦ true | _ ↦ false ]

module _ (X : Errors) (server : Server Call Answer X.Error) (o : Options) where
  open X use {Error, errorf, is_not_found}

  abbrev Run : Type 0 → Type 0
  Run A = Prog Call Error A

  -- The goroutine of the watch: every work of the cluster is watched.
  unfoldable pub watch_deletion : Run (Result Error (Unit {0}))
  watch_deletion = do
    r ← attempt (call server (watch_works o.cluster))
    pure (watch_until X r is_deleted)

  unfoldable pub asked : Result Error (Unit {0}) → Run (Unit {0})
  asked (ok _) = pure tt
  asked (err e) = if is_not_found e then pure tt else fail e

  unfoldable pub ask_deletion : Run (Unit {0})
  ask_deletion = do r ← attempt (call server (delete_work o.cluster o.work_name)); asked r

  -- The watch and the deletion in their order: what the watch has seen, if it has started.
  unfoldable pub watch_and_delete : WatchStart → Run (Option (Result Error (Unit {0})))
  watch_and_delete before_deletion = do seen ← watch_deletion; ask_deletion; pure (some seen)
  watch_and_delete after_deletion = do ask_deletion; seen ← watch_deletion; pure (some seen)
  watch_and_delete after_force = do ask_deletion; pure none

  -- What the watch sees, which starts now if it has not yet.
  unfoldable pub watched : Option (Result Error (Unit {0})) → Run (Result Error (Unit {0}))
  watched (some seen) = pure seen
  watched none = watch_deletion

  unfoldable pub clear_finalizers : Work → List String → Run (Unit {0})
  clear_finalizers work [] = pure tt
  clear_finalizers work (f ∷ fs) = call server (update_work (record work { finalizers = [] }))

  -- Whether the command is done after the removal of the finalizers.
  unfoldable pub forced : Result Error Work → Run Bool
  forced (ok work) = do clear_finalizers work work.finalizers; pure false
  forced (err e) =
      if is_not_found e
      then (do say ("work " <> o.work_name <> " is deleted\n"); pure true)
      else fail e

  unfoldable pub force_removal : Run Bool
  force_removal = do r ← attempt (call server (get_work o.cluster o.work_name)); forced r

  -- The first error that comes over the channel.
  unfoldable pub receive : Bool → Result Error (Unit {0}) → Run (Unit {0})
  receive timed_out seen =
      if timed_out
      then fail (errorf ("delete work " <> o.work_name <> " timeout, failed to delete"))
      else do
        lift seen
        say ("work " <> o.work_name <> " in cluster " <> o.cluster <> " is deleted\n")

  unfoldable pub unless_done : Schedule → Option (Result Error (Unit {0})) → Bool → Run (Unit {0})
  unless_done s seen done = if done then pure tt else (do r ← watched seen; receive s.timed_out r)

  unfoldable pub delete_existing : Schedule → Run (Unit {0})
  delete_existing s = do
    seen ← watch_and_delete s.watch_start
    done ← if o.force then force_removal else pure false
    unless_done s seen done

  unfoldable pub after_get : Schedule → Result Error Work → Run (Unit {0})
  after_get s (ok work) = delete_existing s
  after_get s (err e) =
      if is_not_found e
      then say ("work " <> o.work_name <> " not found or is already deleted\n")
      else fail e

  -- `deleteWork`
  unfoldable pub delete : Schedule → Run (Unit {0})
  delete s = do r ← attempt (call server (get_work o.cluster o.work_name)); after_get s r
