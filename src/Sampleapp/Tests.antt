-- ===== src/Sampleapp/Tests.antt =====
-- A cluster without the labels, and a directory with one file.
use clusteradm.Base.{true, false, some, [], ◌∷◌}
use clusteradm.Effect.{ok, Server}
use clusteradm.Effect.Emits.{Emits}
use clusteradm.Errors.{Status, plain, status_errors}
use clusteradm.Sampleapp.{
  Options, Call, Answer, list_clusters, get_cluster, caller_directory, walk, apply_custom_resources,
  write_output, run_with_client,
}
use clusteradm.Sampleapp.Laws.{MayDeploy, run_with_client-MayDeploy}

abbrev hub : Server Call Answer Status
hub h list_clusters = ok ("c1" ∷ [])
hub h (get_cluster name) = ok (("placement", "other") ∷ [])
hub h caller_directory = ok (some "/src")
hub h (walk root) = ok (
    some (
      record { path = "sampleapp"; is_dir = true }
      ∷ record { path = "sampleapp/app.yaml"; is_dir = false }
      ∷ []))
hub h (apply_custom_resources dry_run o files) = ok files
hub h (write_output file output) = ok tt

abbrev options : Options
options = record { sample_app_name = "sampleapp"; namespace = "default"; output_file = "" }

run_with_client-MayDeploy_example :
    Emits
      (MayDeploy status_errors (plain "nil dereference") hub options false)
      (run_with_client status_errors (plain "nil dereference") hub options false)
run_with_client-MayDeploy_example =
    run_with_client-MayDeploy status_errors (plain "nil dereference") hub options false
