-- ===== src/Install/Waits.antt =====
-- The waits: `WaitCRDToBeReady` of pkg/helpers/client.go, and the waits for pods of
-- pkg/helpers/wait/wait.go and pkg/cmd/join/exec.go, without their spinners.
use clusteradm.Base.{Bool, ◌&&◌, String, ◌<>◌, List, if◌then◌else◌}
use clusteradm.Effect.{
  Result, ok, err, Prog, Server, pure, fail, say, call, lift, ◌>>=◌, ◌>>◌, attempt,
}
use clusteradm.Errors.{Errors}
use clusteradm.Watch.{watch_until}
use clusteradm.Install.{Call, Answer, get_crd, watch_pods}

module _ (X : Errors) (server : Server Call Answer X.Error) where
  open X use {Error, errorf}

  abbrev pub Run : Type 0 → Type 0
  Run A = Prog Call Error A

  abbrev wait_message : String → String
  wait_message name = "Wait for " <> name <> " crd to be established"

  -- What is printed for an error, by the function and by the test whether to try again.
  unfoldable pub not_ready : String → Bool → Run (Unit {0})
  not_ready name wait = do
    if wait then say (wait_message name <> "\n") else pure tt
    if wait then say ("Wait  for " <> name <> " crd to be ready\n") else pure tt
    fail (errorf (wait_message name))

  unfoldable pub crd_ready : String → Bool → Result Error Bool → Run (Unit {0})
  crd_ready name wait (err e) = not_ready name wait
  crd_ready name wait (ok established) = if established then pure tt else not_ready name wait

  unfoldable pub check_crd : String → Bool → Run (Unit {0})
  check_crd name wait = do r ← attempt (call server (get_crd name)); crd_ready name wait r

  -- `WaitUntilCRDReady`, with `retry.OnError` as a parameter
  unfoldable pub wait_until_crd_ready :
      (Run (Unit {0}) → Run (Unit {0})) → String → Bool → Run (Unit {0})
  wait_until_crd_ready on_error name wait = on_error (check_crd name wait)

  -- The wait for a pod's condition Ready; `meta.IsStatusConditionTrue` is a parameter.
  unfoldable pub wait_until_pod_ready :
      (List (String × String) → String → Bool) → String → String → Run (Unit {0})
  wait_until_pod_ready is_true namespace selector = do
    r ← attempt (call server (watch_pods namespace selector))
    lift (watch_until X r (λ event. event.is_pod && is_true event.conditions "Ready"))
