-- ===== src/Accept/Approve/Totality.antt =====
-- `approveCSR` always answers: its errors are part of the answer.
use clusteradm.Base.{
  ℕ, ◌≡◌, refl, Bool, true, false, String, ◌<>◌, Option, none, some, List, [], ◌∷◌, ◌++◌, map, inl,
  inr, Bool-cases,
}
use clusteradm.Effect.{
  Result, ok, err, print, request, Trace, Server, pure, say, call, ◌>>=◌, ◌>>◌, attempt,
}
use clusteradm.Errors.{Errors}
use clusteradm.Accept.{Csr, Call, Answer, Options, list_csrs, cluster_label, passed_csrs}
use clusteradm.Accept.Requesters.{to_approve}
use clusteradm.Accept.Approve.{
  csrs_to_approve, start_approve, approve_todo, approve_listed, approve_csr,
}
use clusteradm.Accept.Approve.Justified.{triage, some_approved}
use clusteradm.Accept.Approve.Complete.{approve_each_run}

module _ (X : Errors) (arg : String) (now : Trace Call → ℕ)
    (server : Server Call Answer X.Error) where
  abbrev Outcome : Type 0
  Outcome = Bool × Option X.Error

  start_approve_ok :
      (name : String) (has : Bool) (csrs : List Csr) (h : Trace Call)
      → (x : Outcome) × (start_approve X arg now server name has csrs h).0 ≡ ok x
  unfolding start_approve ◌>>◌ say pure
  start_approve_ok name has csrs h =
      let (x, new, e, r) =
        approve_each_run X arg now server csrs has []
          (print ("Starting approve csrs for the cluster " <> name <> "\n") ∷ h) in
      ((x.0, X.new_aggregate (map some x.1)), rw e)

  approve_todo_ok :
      (o : Options) (name : String) (wait_mode has : Bool) (todo : List Csr) (h : Trace Call)
      → (x : Outcome) × (approve_todo X arg now server o name wait_mode has todo h).0 ≡ ok x
  unfolding approve_todo ◌>>◌ say pure
  approve_todo_ok o name true has [] h = ((has, none), refl)
  approve_todo_ok o name false has [] h = ((has, none), refl)
  approve_todo_ok o name wait_mode has (csr ∷ csrs) h = elim (Bool-cases o.dry_run) [
    | inl dry ↦ ((has, none), rw dry)
    | inr real ↦ let (x, e) = start_approve_ok name has (csr ∷ csrs) h in (x, rw real e)
  ]

  approve_listed_ok :
      (o : Options) (name : String) (wait_mode : Bool) (r : Result X.Error (List Csr))
      (h : Trace Call)
      → (x : Outcome) × (approve_listed X arg now server o name wait_mode r h).0 ≡ ok x
  unfolding approve_listed ◌>>=◌ pure to_approve
  approve_listed_ok o name wait_mode (err e) h = ((false, some e), refl)
  approve_listed_ok o name wait_mode (ok items) h =
      let passed = passed_csrs o.skip_approve_check items in
      let todo = to_approve o.skip_approve_check items in
      let asked = (csrs_to_approve X arg now server passed false [] h).1 in
      let (x, e) = approve_todo_ok o name wait_mode (some_approved passed) todo (asked ++ h) in
      (x, rw (triage X arg now server passed false [] h, ◌>>=◌) e)

  pub approve_csr_ok :
      (o : Options) (name : String) (wait_mode : Bool) (h : Trace Call)
      → (x : Outcome) × (approve_csr X arg now server o name wait_mode h).0 ≡ ok x
  unfolding approve_csr ◌>>=◌ attempt call
  approve_csr_ok o name wait_mode h =
      let list = list_csrs (cluster_label <> " = " <> name) in
      approve_listed_ok o name wait_mode (server h list) (request list ∷ h)
