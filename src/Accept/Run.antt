-- ===== src/Accept/Run.antt =====
-- `accept`, `updateManagedCluster` and `runWithClient` of pkg/cmd/accept/exec.go.
pub mod DryRun
pub mod Updated
pub mod Outcome
use clusteradm.Base.{
  ℕ, Bool, true, false, String, ◌<>◌, Option, none, some, List, [], ◌∷◌, ◌++◌, if◌then◌else◌,
}
use clusteradm.Effect.{
  Result, ok, err, Trace, Prog, Server, pure, fail, say, call, ◌>>=◌, ◌>>◌, attempt, return_error,
}
use clusteradm.Errors.{Errors}
use clusteradm.Accept.{
  ManagedCluster, Call, Answer, Options, get_managed_cluster, patch_managed_cluster,
}
use clusteradm.Accept.Approve.{approve_csr}

module _ (X : Errors) (arg : String) (now : Trace Call → ℕ)
    (server : Server Call Answer X.Error) where
  open X use {Error, errorf, text, is_not_found, new_aggregate}

  abbrev Run : Type 0 → Type 0
  Run A = Prog Call Error A

  abbrev pub patch : String
  patch = "{\"spec\":{\"hubAcceptsClient\":true}}"

  unfoldable pub accept_client : Options → String → ManagedCluster → Run (Unit {0})
  accept_client o name mc =
      if mc.hub_accepts_client
      then say ("hubAcceptsClient already set for managed cluster " <> name <> "\n")
      else if o.dry_run
      then pure tt
      else do
        call server (patch_managed_cluster mc.name patch)
        say ("set hubAcceptsClient to true for managed cluster " <> name <> "\n")

  -- `updateManagedCluster`
  unfoldable pub update_managed_cluster : Options → String → Run (Unit {0})
  update_managed_cluster o name = do
    mc ← call server (get_managed_cluster name)
    accept_client o name mc

  unfoldable pub joined : String → Bool → Result Error (Unit {0}) → Run (Bool × Option Error)
  joined name approved (err e) = pure (approved, some e)
  joined name approved (ok _) = do
    say (
        "\n Your managed cluster " <> name
        <> " has joined the Hub successfully. Visit https://open-cluster-management.io/scenarios or https://github.com/open-cluster-management-io/OCM/tree/main/solutions for next steps.\n")
    pure (approved, none)

  unfoldable pub accept_approved :
      Options → String → Bool → Option Error → Run (Bool × Option Error)
  accept_approved o name approved (some e) =
      pure
        (approved, some (errorf ("fail to approve the csr for cluster " <> name <> ": " <> text e)))
  accept_approved o name approved none = do
    r ← attempt (update_managed_cluster o name)
    joined name approved r

  -- `accept`
  unfoldable pub accept : Options → String → Bool → Run (Bool × Option Error)
  accept o name wait_mode = do
    (approved, e) ← approve_csr X arg now server o name wait_mode
    accept_approved o name approved e

  -- The condition that the poll of `runWithClient` waits for.
  unfoldable pub poll_result : Bool → Option Error → Run Bool
  poll_result false e = pure false
  poll_result true none = pure true
  poll_result true (some e) = if is_not_found e then pure false else fail e

  unfoldable pub accepted : Options → String → Run Bool
  accepted o name = do (approved, e) ← accept o name true; poll_result approved e

  -- The errors of one cluster without `--wait`.
  unfoldable pub accept_errors : String → Bool → Option Error → List (Option Error)
  accept_errors name approved e =
      (elim e [ none ↦ [] | some f ↦ some f ∷ [] ])
      ++ (if approved
          then []
          else some (errorf ("no csr is approved yet for cluster " <> name)) ∷ [])

  -- One cluster without `--wait`.
  unfoldable pub accept_once : Options → String → Run (List (Option Error))
  accept_once o name = do (approved, e) ← accept o name false; pure (accept_errors name approved e)

  -- The error of a poll, or nil.
  abbrev pub poll_errors : Result Error (Unit {0}) → List (Option Error)
  poll_errors (ok _) = none ∷ []
  poll_errors (err e) = some e ∷ []

  -- `wait.PollImmediate` is a parameter: it runs a condition some number of times.
  module _ (poll_immediate : Run Bool → Run (Unit {0})) where
    -- One cluster with `--wait`.
    unfoldable pub accept_wait : Options → String → Run (List (Option Error))
    accept_wait o name = do r ← attempt (poll_immediate (accepted o name)); pure (poll_errors r)

    unfoldable pub run_cluster : Options → String → Run (List (Option Error))
    run_cluster o name = if o.wait then accept_wait o name else accept_once o name

    unfoldable pub run_clusters :
        Options → List String → List (Option Error) → Run (List (Option Error))
    run_clusters o [] errs = pure errs
    run_clusters o (name ∷ names) errs = do
      new ← run_cluster o name
      run_clusters o names (errs ++ new)

    -- `runWithClient`
    unfoldable pub run_with_client : Options → Run (Unit {0})
    run_with_client o = do
      errs ← run_clusters o o.values_clusters []
      return_error (new_aggregate errs)
