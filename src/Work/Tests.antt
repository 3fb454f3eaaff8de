-- ===== src/Work/Tests.antt =====
-- Works on a hub whose one cluster has another work.
use clusteradm.Base.{◌⊎◌, true, false, [], ◌∷◌}
use clusteradm.Effect.{ok, Server}
use clusteradm.Effect.Emits.{Emits}
use clusteradm.Effect.IfOk.{IfOk}
use clusteradm.Errors.{Status, status_errors}
use clusteradm.Hub.{modified, deleted}
use clusteradm.Work.{
  Work, Call, Answer, read_manifests, list_works, get_placement, track_placement, get_work,
  create_work, update_work, delete_work, watch_works,
}
use clusteradm.Work.Create
use clusteradm.Work.Create.Laws
use clusteradm.Work.Delete
use clusteradm.Work.Delete.Laws.{IsMissing, WasSeen, delete-Changes, delete-IsMissing}
use clusteradm.Work.Delete.Laws as DeleteLaws

abbrev work : Work
work = record { name = "w"; namespace = "c1"; finalizers = "cleanup" ∷ []; manifests = "old" ∷ [] }

abbrev hub : Server Call Answer Status
hub h read_manifests = ok ("deployment" ∷ [])
hub h list_works = ok (work ∷ [])
hub h (get_placement namespace name) = ok tt
hub h (track_placement namespace name existing) = ok ("c2" ∷ [], "c1" ∷ [])
hub h (get_work cluster name) = ok work
hub h (create_work w) = ok tt
hub h (update_work w) = ok tt
hub h (delete_work cluster name) = ok tt
hub h (watch_works cluster) =
    ok ((record { kind = modified; name = "w" }) ∷ (record { kind = deleted; name = "v" }) ∷ [])

abbrev create_options : Create.Options
create_options = record {
  cluster = "";
  placement = "default/all";
  work_name = "w";
  filenames = "w.yaml" ∷ [];
  overwrite = true;
}

abbrev delete_options : Delete.Options
delete_options = record { cluster = "c1"; work_name = "w"; force = true }

abbrev late : Delete.Schedule
late = record { watch_start = Delete.after_force; timed_out = false }

run-Changes_example :
    Emits
      (Laws.Changes status_errors hub create_options)
      (Create.run status_errors hub create_options)
run-Changes_example = Laws.run-Changes status_errors hub create_options

delete-Changes_example :
    Emits
      (DeleteLaws.Changes status_errors hub delete_options)
      (Delete.delete status_errors hub delete_options late)
delete-Changes_example = delete-Changes status_errors hub delete_options late

delete-IsMissing_example :
    IfOk
      (IsMissing status_errors hub delete_options ⊎ WasSeen status_errors hub delete_options)
      (Delete.delete status_errors hub delete_options late)
delete-IsMissing_example = delete-IsMissing status_errors hub delete_options late
