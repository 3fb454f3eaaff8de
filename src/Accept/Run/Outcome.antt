-- ===== src/Accept/Run/Outcome.antt =====
-- What `accept` answers: the run succeeds exactly when each of its clusters was accepted.
use clusteradm.Base.{
  ℕ, ◌≡◌, refl, sym, ap, ◌∙◌, ◌↔◌, Bool, true, false, ◌&&◌, String, Option, none, some, List, [],
  ◌∷◌, ◌++◌, if◌then◌else◌, arith,
}
use mathlib.Core.List.{append-nil, append_assoc}
use clusteradm.Effect.{
  Result, ok, err, Trace, Prog, Server, pure, say, ◌>>=◌, ◌>>◌, attempt, return_error,
}
use clusteradm.Effect.Runs.{bind_ok, bind_result, attempt_run}
use clusteradm.Errors.{Errors, IsLawful, all_nil}
use clusteradm.Accept.{Call, Answer, Options}
use clusteradm.Accept.Approve.{approve_csr}
use clusteradm.Accept.Approve.Signed.{IsApproved, approve_csr_iff}
use clusteradm.Accept.Approve.Totality.{approve_csr_ok}
use clusteradm.Accept.Run.{
  update_managed_cluster, joined, accept_approved, accept, accept_errors, accept_once, accept_wait,
  run_cluster, run_clusters, run_with_client,
}
use clusteradm.Accept.Run.Updated.{IsUpdated, update_managed_cluster_ok}

module _ (X : Errors) (arg : String) (now : Trace Call → ℕ)
    (server : Server Call Answer X.Error) where
  -- A request of the cluster is approved, by the hub's answers, and then the cluster is updated.
  abbrev pub IsAccepted : Options → String → Trace Call → Type 0
  IsAccepted o name h =
      IsApproved X arg now server o name h
      × IsUpdated X arg now server o name ((approve_csr X arg now server o name false h).1 ++ h)

  -- Each cluster is accepted, one after the other.
  abbrev pub AllAccepted : Options → List String → Trace Call → Type 0
  AllAccepted o [] h = Unit
  AllAccepted o (name ∷ names) h =
      IsAccepted o name h × AllAccepted o names ((accept X arg now server o name false h).1 ++ h)

  joined_ok :
      (name : String) (approved : Bool) (r : Result X.Error (Unit {0})) (h : Trace Call)
      → (x : Bool × Option X.Error) × (joined X arg now server name approved r h).0 ≡ ok x
  unfolding joined ◌>>◌ say pure
  joined_ok name approved (ok _) h = ((approved, none), refl)
  joined_ok name approved (err e) h = ((approved, some e), refl)

  accept_approved_ok :
      (o : Options) (name : String) (approved : Bool) (e : Option X.Error) (h : Trace Call)
      → (x : Bool × Option X.Error) × (accept_approved X arg now server o name approved e h).0
          ≡ ok x
  unfolding accept_approved ◌>>=◌ attempt pure
  accept_approved_ok o name approved (some e) h = ((approved, _), refl)
  accept_approved_ok o name approved none h =
      joined_ok name approved (update_managed_cluster X arg now server o name h).0 _

  joined_succeeds :
      (name : String) (approved : Bool) (r : Result X.Error (Unit {0})) (h : Trace Call)
      → ((joined X arg now server name approved r h).0 ≡ ok (true, none))
        ↔ ((approved ≡ true) × (r ≡ ok tt))
  unfolding joined ◌>>◌ say pure
  joined_succeeds name approved (ok _) h = (λ e. (cc, refl), λ (a, _). rw a refl)
  joined_succeeds name approved (err x) h = (λ e. absurd (cc), λ (_, e). absurd (cc))

  accept_approved_succeeds :
      (o : Options) (name : String) (approved : Bool) (e : Option X.Error) (h : Trace Call)
      → ((accept_approved X arg now server o name approved e h).0 ≡ ok (true, none))
        ↔ ((approved ≡ true) × (e ≡ none) × IsUpdated X arg now server o name h)
  unfolding accept_approved pure
  accept_approved_succeeds o name approved (some x) h = (λ e. absurd (cc), λ (_, e, _). absurd (cc))
  accept_approved_succeeds o name approved none h =
      let update = update_managed_cluster X arg now server o name in
      let r = (update h).0 in
      let run : ((attempt update >>= joined X arg now server name approved) h).0
          ≡ (joined X arg now server name approved r ((update h).1 ++ h)).0 =
        bind_result (attempt update) (joined X arg now server name approved) h
          (attempt_run update h) refl in
      let joins = joined_succeeds name approved r ((update h).1 ++ h) in
      let updated = update_managed_cluster_ok X arg now server o name h in
      (
        λ e. let (a, done) = joins.0 (sym run ∙ e) in (a, refl, updated.0 done),
        λ (a, _, done). run ∙ joins.1 (a, updated.1 done),
      )

  accept_succeeds :
      IsLawful X
      → (o : Options) (name : String) (h : Trace Call)
      → ((accept X arg now server o name false h).0 ≡ ok (true, none)) ↔ IsAccepted o name h
  unfolding accept
  accept_succeeds L o name h =
      let approval = approve_csr_iff X arg now server L o name h in
      let approve = approve_csr X arg now server o name false in
      let rest = λ (a : Bool × Option X.Error). accept_approved X arg now server o name a.0 a.1 in
      let (a, e) = approve_csr_ok X arg now server o name false h in
      let after = (approve h).1 ++ h in
      let run : ((approve >>= rest) h).0 ≡ (rest a after).0 =
        bind_result approve rest h (λ i. (e i, (approve h).1)) refl in
      let same = accept_approved_succeeds o name a.0 a.1 after in
      (
        λ done.
            let (x, y, updated) = same.0 (sym run ∙ done) in
            (approval.0 (e ∙ ap (λ r. ok r) (λ i. (x i, y i))), updated),
        λ (signed, updated).
            let there : ◌≡◌ {A = Result X.Error (Bool × Option X.Error)} (ok a) (ok (true, none)) =
              sym e ∙ approval.1 signed in
            run ∙ same.1 (cc, cc, updated),
      )

  accept_ok :
      (o : Options) (name : String) (wait_mode : Bool) (h : Trace Call)
      → (x : Bool × Option X.Error) × (accept X arg now server o name wait_mode h).0 ≡ ok x
  unfolding accept
  accept_ok o name wait_mode h =
      let (a, e) = approve_csr_ok X arg now server o name wait_mode h in
      let (x, f) =
        accept_approved_ok o name a.0 a.1
          ((approve_csr X arg now server o name wait_mode h).1 ++ h) in
      (x, unfold ◌>>=◌ in rw (e, accept, ◌>>=◌) f)

  all_nil-append : (xs ys : List (Option X.Error)) → all_nil (xs ++ ys) ≡ (all_nil xs && all_nil ys)
  all_nil-append [] ys = refl
  all_nil-append (none ∷ xs) ys = all_nil-append xs ys
  all_nil-append (some e ∷ xs) ys = refl

  all_nil-accept_errors :
      (name : String) (x : Bool × Option X.Error)
      → (all_nil (accept_errors X arg now server name x.0 x.1) ≡ true)
        ↔ (◌≡◌ {A = Result X.Error (Bool × Option X.Error)} (ok x) (ok (true, none)))
  unfolding accept_errors
  all_nil-accept_errors name x = (ground arith, ground arith)

  accept_once_run :
      (o : Options) (name : String) (h : Trace Call)
      → (x : Bool × Option X.Error) × ((accept X arg now server o name false h).0 ≡ ok x)
        × (accept_once X arg now server o name h ≡ (
          ok (accept_errors X arg now server name x.0 x.1),
          (accept X arg now server o name false h).1,
        ))
  unfolding accept_once pure
  accept_once_run o name h =
      let (x, e) = accept_ok o name false h in
      (
        x,
        e,
        bind_ok (accept X arg now server o name false) _ h
            (λ i. (e i, (accept X arg now server o name false h).1)) refl,
      )

  -- `return err`
  abbrev returned : Option X.Error → Result X.Error (Unit {0})
  returned none = ok tt
  returned (some e) = err e

  return_error-returned : (e : Option X.Error) (h : Trace Call) → (return_error e h).0 ≡ returned e
  unfolding return_error
  return_error-returned none h = refl
  return_error-returned (some e) h = refl

  returned-eq-ok : (e : Option X.Error) → returned e ≡ ok tt → e ≡ none
  returned-eq-ok none h = refl
  returned-eq-ok (some e) h = cc

  both : (a b : Bool) → (a && b) ≡ true → (a ≡ true) × (b ≡ true)
  both a b h = ground arith

  module _ (poll : Prog Call X.Error Bool → Prog Call X.Error (Unit {0})) (o : Options)
      (once : o.wait ≡ false) where
    run_cluster_once :
        (name : String)
        → run_cluster X arg now server poll o name ≡ accept_once X arg now server o name
    unfolding run_cluster
    run_cluster_once name =
        ap
          (λ b.
            if b
            then accept_wait X arg now server poll o name
            else accept_once X arg now server o name)
          once

    run_clusters_run :
        IsLawful X
        → (names : List String) (errs : List (Option X.Error)) (h : Trace Call)
        → (new : List (Option X.Error)) × ((run_clusters X arg now server poll o names errs h).0
            ≡ ok (errs ++ new))
          × ((all_nil new ≡ true) ↔ AllAccepted o names h)
    unfolding run_clusters
    run_clusters_run L [] errs h = ([], unfold pure in rw (append-nil errs), (λ _. tt, λ _. refl))
    run_clusters_run L (name ∷ names) errs h =
        let (x, accepted, once_ran) = accept_once_run o name h in
        let own = accept_errors X arg now server name x.0 x.1 in
        let (rest, ran, same) =
          run_clusters_run L names (errs ++ own)
            ((accept X arg now server o name false h).1 ++ h) in
        let nil = all_nil-accept_errors name x in
        let ready = accept_succeeds L o name h in
        (
          own ++ rest,
          bind_result (run_cluster X arg now server poll o name) _ h
              (ap (λ m. m h) (run_cluster_once name) ∙ once_ran)
              (ran ∙ ap (λ t. ok t) (append_assoc errs own rest)),
          (
            (λ n.
                let (n₁, n₂) =
                  both (all_nil own) (all_nil rest) (sym (all_nil-append own rest) ∙ n) in
                (ready.0 (accepted ∙ nil.0 n₁), same.0 n₂)),
            (λ a. all_nil-append own rest ∙ rw (nil.1 (sym accepted ∙ ready.1 a.0), same.1 a.1)),
          ),
        )

    -- Without `--wait`, the run succeeds exactly when for each of its clusters, one after the other, the
    -- hub answers the list of the signing requests; either one of them was approved before, and none is
    -- eligible or it is a dry run, or some are eligible and the hub answers the approval of each; and then
    -- the hub answers the read of the cluster, and this is accepted already, or it is a dry run, or the
    -- hub answers the patch of the cluster.
    pub run_with_client_succeeds :
        IsLawful X
        → (h : Trace Call)
        → ((run_with_client X arg now server poll o h).0 ≡ ok tt)
          ↔ AllAccepted o o.values_clusters h
    unfolding run_with_client
    run_with_client_succeeds L h =
        let (errs, ran, same) = run_clusters_run L o.values_clusters [] h in
        let clusters = run_clusters X arg now server poll o o.values_clusters [] in
        let nil = L.new_aggregate_nil errs in
        let ended : (run_with_client X arg now server poll o h).0
            ≡ returned (X.new_aggregate errs) =
          bind_result clusters _ h (λ i. (ran i, (clusters h).1))
            (return_error-returned (X.new_aggregate errs) _) in
        (
          (λ p. same.0 (nil.0 (returned-eq-ok (X.new_aggregate errs) (sym ended ∙ p)))),
          (λ a. ended ∙ ap returned (nil.1 (same.1 a))),
        )
