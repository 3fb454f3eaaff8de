-- ===== src/Accept/Approve.antt =====
-- `approveCSR` of pkg/cmd/accept/exec.go.
pub mod Justified
pub mod Complete
pub mod Totality
pub mod Before
pub mod Signed
use clusteradm.Base.{
  ℕ, Bool, true, false, String, ◌<>◌, Option, none, some, List, [], ◌∷◌, ◌++◌, map, if◌then◌else◌,
}
use clusteradm.Effect.{Result, ok, err, Trace, Prog, Server, pure, say, call, ◌>>=◌, ◌>>◌, attempt}
use clusteradm.Errors.{Errors}
use clusteradm.Accept.{
  Csr, Call, Answer, Options, list_csrs, update_approval, cluster_label, is_approved, is_denied,
  passed_csrs, with_approval,
}

-- The program name, the clock and the hub's API server are parameters.
module _ (X : Errors) (arg : String) (now : Trace Call → ℕ)
    (server : Server Call Answer X.Error) where
  open X use {Error, new_aggregate}

  abbrev Run : Type 0 → Type 0
  Run A = Prog Call Error A

  -- The second loop: what is left to approve, and whether one is approved already.
  unfoldable pub csrs_to_approve : List Csr → Bool → List Csr → Run (Bool × List Csr)
  csrs_to_approve [] has todo = pure (has, todo)
  csrs_to_approve (csr ∷ csrs) has todo =
      if is_denied csr
      then (do say ("CSR " <> csr.name <> " already denied\n"); csrs_to_approve csrs has todo)
      else if is_approved csr
      then (do say ("CSR " <> csr.name <> " already approved\n"); csrs_to_approve csrs true todo)
      else csrs_to_approve csrs has (todo ++ (csr ∷ []))

  -- `metav1.Now()`
  unfoldable pub clock : Run ℕ
  clock h = (ok (now h), [])

  unfoldable pub note_update :
      Csr → Bool → List Error → Result Error (Unit {0}) → Run (Bool × List Error)
  note_update csr has errs (err e) = pure (has, errs ++ (e ∷ []))
  note_update csr has errs (ok _) = do say ("CSR " <> csr.name <> " approved\n"); pure (true, errs)

  -- One round of the third loop.
  unfoldable pub approve_one : Csr → Bool → List Error → Run (Bool × List Error)
  approve_one csr has errs = do
    time ← clock
    r ← attempt (call server (update_approval (with_approval arg time csr)))
    note_update csr has errs r

  -- The third loop: an error does not stop it.
  unfoldable pub approve_each : List Csr → Bool → List Error → Run (Bool × List Error)
  approve_each [] has errs = pure (has, errs)
  approve_each (csr ∷ csrs) has errs = do
    (has', errs') ← approve_one csr has errs
    approve_each csrs has' errs'

  unfoldable pub start_approve : String → Bool → List Csr → Run (Bool × Option Error)
  start_approve name has csrs = do
    say ("Starting approve csrs for the cluster " <> name <> "\n")
    (has', errs) ← approve_each csrs has []
    pure (has', new_aggregate (map some errs))

  -- What `approveCSR` does once it knows what is left to approve.
  unfoldable pub approve_todo :
      Options → String → Bool → Bool → List Csr → Run (Bool × Option Error)
  approve_todo o name wait_mode has [] = do
    if wait_mode then say ("no CSR to approve for cluster " <> name <> "\n") else pure tt
    pure (has, none)
  approve_todo o name wait_mode has (csr ∷ csrs) =
      if o.dry_run then pure (has, none) else start_approve name has (csr ∷ csrs)

  unfoldable pub approve_listed :
      Options → String → Bool → Result Error (List Csr) → Run (Bool × Option Error)
  approve_listed o name wait_mode (err e) = pure (false, some e)
  approve_listed o name wait_mode (ok items) = do
    (has, todo) ← csrs_to_approve (passed_csrs o.skip_approve_check items) false []
    approve_todo o name wait_mode has todo

  -- `approveCSR`
  unfoldable pub approve_csr : Options → String → Bool → Run (Bool × Option Error)
  approve_csr o name wait_mode = do
    r ← attempt (call server (list_csrs (cluster_label <> " = " <> name)))
    approve_listed o name wait_mode r
