-- ===== src/Removal/Tests.antt =====
-- A cluster that is cleaned, and one without a klusterlet.
use clusteradm.Base.{true, []}
use clusteradm.Effect.{ok, err, Prog, Server}
use clusteradm.Effect.Emits.{Emits}
use clusteradm.Effect.IfOk.{IfOk}
use clusteradm.Errors.{Status, plain, not_found, status_errors}
use clusteradm.Retry.{retry_rounds, retry_rounds-IsRetry}
use clusteradm.Removal.{Call, Answer, delete, get, get_crd, list_applied_works}
use clusteradm.Removal.Gone.{IsRemoved}
use clusteradm.Removal.Clean
use clusteradm.Removal.Clean.Laws.{run-IsRemoved}
use clusteradm.Removal.Unjoin
use clusteradm.Removal.Unjoin.Laws.{Deletes, MayDelete, unjoin-Deletes, run_ok-IsRemoved}

abbrev cluster : Server Call Answer Status
cluster h (delete object) = err (plain "forbidden")
cluster h (get object) = err (not_found object.name)
cluster h (get_crd name) = ok tt
cluster h list_applied_works = ok []

abbrev retry : Prog Call Status (Unit {0}) → Prog Call Status (Unit {0})
retry = retry_rounds 3

abbrev clean_options : Clean.Options
clean_options = record {
  cluster_manager_name = "cluster-manager";
  purge_operator = true;
  token_id = "abcdef";
}

abbrev unjoin_options : Unjoin.Options
unjoin_options = record { cluster_name = "c1"; purge_operator = true }

run-IsRemoved_example :
    IfOk
      (IsRemoved status_errors cluster (Clean.manager_object clean_options))
      (Clean.run status_errors cluster retry clean_options)
run-IsRemoved_example =
    run-IsRemoved status_errors cluster retry (retry_rounds-IsRetry 3) clean_options

unjoin-Deletes_example :
    Emits
      (Deletes (MayDelete status_errors cluster unjoin_options))
      (Unjoin.run status_errors cluster retry unjoin_options)
unjoin-Deletes_example =
    unjoin-Deletes status_errors cluster retry (retry_rounds-IsRetry 3) unjoin_options

run_ok-IsRemoved_example :
    IfOk
      (IsRemoved status_errors cluster Unjoin.klusterlet_object)
      (Unjoin.run status_errors cluster retry unjoin_options)
run_ok-IsRemoved_example =
    run_ok-IsRemoved status_errors cluster retry (retry_rounds-IsRetry 3) unjoin_options
