-- ===== src/Accept/Run/DryRun.antt =====
-- A dry run of `accept` sends no change to the hub.
use clusteradm.Base.{ℕ, ◌≡◌, Bool, true, false, String, Option, none, some, List, [], ◌∷◌}
use clusteradm.Effect.{Result, ok, err, Event, request, Trace, Prog, Server, call}
use clusteradm.Effect.Emits.{Emits, emits_rules, Emits-call, Emits-attempt, Emits-bind, Emits-pure}
use clusteradm.Errors.{Errors}
use clusteradm.Poll.{IsPoller}
use clusteradm.Accept.{
  Csr, ManagedCluster, Call, Answer, Options, update_approval, patch_managed_cluster,
}
use clusteradm.Accept.Approve.{csrs_to_approve, approve_todo, approve_listed, approve_csr}
use clusteradm.Accept.Run.{
  accept_client, update_managed_cluster, joined, accept_approved, accept, poll_result, accepted,
  accept_once, accept_wait, run_cluster, run_clusters, run_with_client,
}

-- A printed line, or a call that reads.
abbrev pub IsRead : Event Call → Type 0
IsRead (request (update_approval csr)) = ⊥
IsRead (request (patch_managed_cluster name patch)) = ⊥
IsRead _ = Unit

module _ (X : Errors) (arg : String) (now : Trace Call → ℕ)
    (server : Server Call Answer X.Error) where
  call-IsRead : (c : Call) → IsRead (request c) → Emits IsRead (call server c)
  call-IsRead c p = Emits-call server c p

  csrs_to_approve-IsRead :
      (csrs : List Csr) (has : Bool) (todo : List Csr)
      → Emits IsRead (csrs_to_approve X arg now server csrs has todo)
  unfolding csrs_to_approve
  csrs_to_approve-IsRead [] has todo = search emits_rules
  csrs_to_approve-IsRead (csr ∷ csrs) has todo = search (emits_rules, csrs_to_approve-IsRead csrs)

  module _ (o : Options) (dry : o.dry_run ≡ true) where
    approve_todo-IsRead :
        (name : String) (wait_mode has : Bool) (todo : List Csr)
        → Emits IsRead (approve_todo X arg now server o name wait_mode has todo)
    unfolding approve_todo
    approve_todo-IsRead name wait_mode has [] = search emits_rules
    approve_todo-IsRead name wait_mode has (csr ∷ csrs) = rw dry (search emits_rules)

    approve_listed-IsRead :
        (name : String) (wait_mode : Bool) (r : Result X.Error (List Csr))
        → Emits IsRead (approve_listed X arg now server o name wait_mode r)
    unfolding approve_listed
    approve_listed-IsRead name wait_mode (err e) = search emits_rules
    approve_listed-IsRead name wait_mode (ok items) =
        search (emits_rules, csrs_to_approve-IsRead, approve_todo-IsRead)

    approve_csr-IsRead :
        (name : String) (wait_mode : Bool)
        → Emits IsRead (approve_csr X arg now server o name wait_mode)
    unfolding approve_csr
    approve_csr-IsRead name wait_mode = search (emits_rules, call-IsRead, approve_listed-IsRead)

    accept_client-IsRead :
        (name : String) (mc : ManagedCluster)
        → Emits IsRead (accept_client X arg now server o name mc)
    unfolding accept_client
    accept_client-IsRead name mc = rw dry (search emits_rules)

    update_managed_cluster-IsRead :
        (name : String) → Emits IsRead (update_managed_cluster X arg now server o name)
    unfolding update_managed_cluster
    update_managed_cluster-IsRead name = search (emits_rules, call-IsRead, accept_client-IsRead)

    joined-IsRead :
        (name : String) (approved : Bool) (r : Result X.Error (Unit {0}))
        → Emits IsRead (joined X arg now server name approved r)
    unfolding joined
    joined-IsRead name approved (ok _) = search emits_rules
    joined-IsRead name approved (err e) = search emits_rules

    accept_approved-IsRead :
        (name : String) (approved : Bool) (e : Option X.Error)
        → Emits IsRead (accept_approved X arg now server o name approved e)
    unfolding accept_approved
    accept_approved-IsRead name approved (some e) = search emits_rules
    accept_approved-IsRead name approved none =
        search (emits_rules, update_managed_cluster-IsRead, joined-IsRead)

    accept-IsRead :
        (name : String) (wait_mode : Bool) → Emits IsRead (accept X arg now server o name wait_mode)
    unfolding accept
    accept-IsRead name wait_mode = search (emits_rules, approve_csr-IsRead, accept_approved-IsRead)

    poll_result-IsRead :
        (approved : Bool) (e : Option X.Error)
        → Emits IsRead (poll_result X arg now server approved e)
    unfolding poll_result
    poll_result-IsRead false e = search emits_rules
    poll_result-IsRead true none = search emits_rules
    poll_result-IsRead true (some e) = search emits_rules

    accepted-IsRead : (name : String) → Emits IsRead (accepted X arg now server o name)
    unfolding accepted
    accepted-IsRead name = search (emits_rules, accept-IsRead, poll_result-IsRead)

    accept_once-IsRead : (name : String) → Emits IsRead (accept_once X arg now server o name)
    unfolding accept_once
    accept_once-IsRead name = Emits-bind _ _ (accept-IsRead name false) (λ r. Emits-pure _)

    module _ (poll : Prog Call X.Error Bool → Prog Call X.Error (Unit {0}))
        (poller : IsPoller poll) where
      accept_wait-IsRead : (name : String) → Emits IsRead (accept_wait X arg now server poll o name)
      unfolding accept_wait
      accept_wait-IsRead name =
          Emits-bind _ _ (Emits-attempt _ (poller.emits IsRead _ (accepted-IsRead name)))
            (λ r. Emits-pure _)

      run_cluster-IsRead : (name : String) → Emits IsRead (run_cluster X arg now server poll o name)
      unfolding run_cluster
      run_cluster-IsRead name = search (emits_rules, accept_once-IsRead, accept_wait-IsRead)

      run_clusters-IsRead :
          (names : List String) (errs : List (Option X.Error))
          → Emits IsRead (run_clusters X arg now server poll o names errs)
      unfolding run_clusters
      run_clusters-IsRead [] errs = search emits_rules
      run_clusters-IsRead (name ∷ names) errs =
          search (emits_rules, run_cluster-IsRead, run_clusters-IsRead names)

      -- With `--dry-run`, with or without `--wait`, the run of `accept` over all its clusters only prints
      -- and reads: it updates no approval and patches no managed cluster, whatever the hub answers.
      pub run_with_client-IsRead : Emits IsRead (run_with_client X arg now server poll o)
      unfolding run_with_client
      run_with_client-IsRead = search (emits_rules, run_clusters-IsRead)
