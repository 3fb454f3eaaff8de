-- ===== src/Removal/Clean/Laws.antt =====
-- When `clean` reports success.
use clusteradm.Base.{◌≡◌, inl, inr}
use clusteradm.Effect.{Result, ok, err, Trace, Prog, Server}
use clusteradm.Effect.Runs.{call_answer}
use clusteradm.Effect.IfOk.{IfOk, IfOk-if, IfOk-bind_of, IfOk-then_left, IfOk-then_right}
use clusteradm.Errors.{Errors}
use clusteradm.Retry.{IsRetry}
use clusteradm.Removal.{Call, Answer, delete, get}
use clusteradm.Removal.Gone.{IsMissing, IsRemoved, retry-IsMissing}
use clusteradm.Removal.Clean.{Options, manager_object, wait_and_purge, after_delete, run}

module _ (X : Errors) (server : Server Call Answer X.Error) where
  module _ (on_error : Prog Call X.Error (Unit {0}) → Prog Call X.Error (Unit {0}))
      (retry : IsRetry on_error) where
    wait_and_purge-IsMissing :
        (o : Options)
        → IfOk (IsMissing X server (get (manager_object o))) (wait_and_purge X server on_error o)
    unfolding wait_and_purge
    wait_and_purge-IsMissing o =
        IfOk-then_left _ _ (
          retry-IsMissing X server on_error retry (manager_object o) "cluster manager still exists")

    after_delete-IsRemoved :
        (o : Options) (h : Trace Call) (r : Result X.Error (Unit {0}))
        → server h (delete (manager_object o)) ≡ r
        → IfOk (IsRemoved X server (manager_object o)) (after_delete X server on_error o r)
    unfolding after_delete
    after_delete-IsRemoved o h (ok _) e = record {
      at = λ h' a done. inr ((wait_and_purge-IsMissing o).at h' a done);
    }
    after_delete-IsRemoved o h (err x) e =
        IfOk-if (X.is_not_found x) _ (wait_and_purge X server on_error o)
          (λ missing. record { at = λ _ _ _. inl (h, x, e, missing) })
          (λ _. record { at = λ h' a done. inr ((wait_and_purge-IsMissing o).at h' a done) })

    -- `clean` reports success only if the hub has answered, to its deletion of the cluster manager or to a
    -- later read, that the cluster manager is not found.
    pub run-IsRemoved :
        (o : Options) → IfOk (IsRemoved X server (manager_object o)) (run X server on_error o)
    unfolding run
    run-IsRemoved o = IfOk-then_right _ _ (
        IfOk-bind_of _ _ λ r h e.
          after_delete-IsRemoved o h r (call_answer server (delete (manager_object o)) h r e))
