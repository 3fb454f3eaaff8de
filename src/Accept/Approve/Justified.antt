-- ===== src/Accept/Approve/Justified.antt =====
-- Which signing requests `approveCSR` approves.
use clusteradm.Base.{
  ℕ, ◌≡◌, refl, ap, ◌∙◌, inl, inr, Bool, true, false, ◌&&◌, ◌||◌, not, String, ◌<>◌, List, [], ◌∷◌,
  ◌++◌, arith, All, In, select, Bool-cases, All-of_In,
}
use clusteradm.Effect.{
  Result, ok, err, Event, print, request, Trace, Server, pure, say, call, ◌>>=◌, ◌>>◌, attempt,
}
use clusteradm.Effect.Emits.{
  Emits, emits_rules, Emits-bind, Emits-attempt, Emits-call, Emits-bind_of, Emits-pure, Emits-then,
  Emits-say, All-append,
}
use mathlib.Core.List.{append-nil, append_assoc}
use clusteradm.Errors.{Errors}
use clusteradm.Accept.{
  Csr, Call, Answer, Options, list_csrs, update_approval, cluster_label, is_approved, is_denied,
  passed_csrs, with_approval,
}
use clusteradm.Accept.Requesters.{IsEligible, is_pending, to_approve, In-to_approve}
use clusteradm.Accept.Approve.{
  csrs_to_approve, clock, note_update, approve_one, approve_each, start_approve, approve_todo,
  approve_listed, approve_csr,
}

-- The requests of a list's answer, none if it failed.
abbrev pub listed : {E : Type 0} → Result E (List Csr) → List Csr
listed (ok items) = items
listed (err e) = []

-- Some request of the list is approved already.
abbrev pub some_approved : List Csr → Bool
some_approved [] = false
some_approved (csr ∷ csrs) = not (is_denied csr) && is_approved csr || some_approved csrs

module _ (X : Errors) (arg : String) (now : Trace Call → ℕ)
    (server : Server Call Answer X.Error) where
  -- An event that approves nothing but a request of a list, with one more condition.
  abbrev pub Approves : (Csr → Type 0) → Event Call → Type 0
  Approves P (request (update_approval c)) =
      (csr : Csr) × P csr × (time : ℕ) × (c ≡ with_approval arg time csr)
  Approves P _ = Unit

  or-false : (b : Bool) → (b || false) ≡ b
  or-false b = ground arith

  or-true : (b : Bool) → (b || true) ≡ true
  or-true b = ground arith

  pub triage :
      (csrs : List Csr) (has : Bool) (todo : List Csr) (h : Trace Call)
      → (csrs_to_approve X arg now server csrs has todo h).0
        ≡ ok (has || some_approved csrs, todo ++ select is_pending csrs)
  unfolding csrs_to_approve pure say ◌>>◌ select
  triage [] has todo h = rw (or-false has, append-nil todo)
  triage (csr ∷ csrs) has todo h = elim (Bool-cases (is_denied csr)) [
    | inl denied ↦
        rw denied (triage csrs has todo (print ("CSR " <> csr.name <> " already denied\n") ∷ h))
    | inr free ↦ elim (Bool-cases (is_approved csr)) [
      | inl approved ↦
          rw (free, approved, or-true has)
            (triage csrs true todo (print ("CSR " <> csr.name <> " already approved\n") ∷ h))
      | inr waiting ↦
          rw (free, waiting)
            (triage csrs has (todo ++ (csr ∷ [])) h
              ∙ ap (λ t. ok (has || some_approved csrs, t)) (append_assoc todo (csr ∷ []) _))
    ]
  ]

  csrs_to_approve-Approves :
      (P : Csr → Type 0) (csrs : List Csr) (has : Bool) (todo : List Csr)
      → Emits (Approves P) (csrs_to_approve X arg now server csrs has todo)
  unfolding csrs_to_approve
  csrs_to_approve-Approves P [] has todo = search emits_rules
  csrs_to_approve-Approves P (csr ∷ csrs) has todo =
      search (emits_rules, csrs_to_approve-Approves P csrs)

  clock-Approves : (P : Csr → Type 0) → Emits (Approves P) (clock X arg now server)
  unfolding clock
  clock-Approves P = record { at = λ h. tt }

  note_update-Approves :
      (P : Csr → Type 0) (csr : Csr) (has : Bool) (errs : List X.Error)
      (r : Result X.Error (Unit {0}))
      → Emits (Approves P) (note_update X arg now server csr has errs r)
  unfolding note_update
  note_update-Approves P csr has errs (ok _) = search emits_rules
  note_update-Approves P csr has errs (err e) = search emits_rules

  approve_one-Approves :
      (P : Csr → Type 0) (csr : Csr) (has : Bool) (errs : List X.Error)
      → P csr
      → Emits (Approves P) (approve_one X arg now server csr has errs)
  unfolding approve_one
  approve_one-Approves P csr has errs p =
      Emits-bind (clock X arg now server) _ (clock-Approves P) λ time.
        Emits-bind _ _
          (Emits-attempt _ (
            Emits-call {P = Approves P} server (update_approval (with_approval arg time csr))
              (csr, p, time, refl)))
          (λ r. note_update-Approves P csr has errs r)

  approve_each-Approves :
      (P : Csr → Type 0) (csrs : List Csr) (has : Bool) (errs : List X.Error)
      → All P csrs
      → Emits (Approves P) (approve_each X arg now server csrs has errs)
  unfolding approve_each
  approve_each-Approves P [] has errs p = search emits_rules
  approve_each-Approves P (csr ∷ csrs) has errs (p, ps) =
      Emits-bind _ _ (approve_one-Approves P csr has errs p)
        (λ r. approve_each-Approves P csrs r.0 r.1 ps)

  start_approve-Approves :
      (P : Csr → Type 0) (name : String) (has : Bool) (csrs : List Csr)
      → All P csrs
      → Emits (Approves P) (start_approve X arg now server name has csrs)
  unfolding start_approve
  start_approve-Approves P name has csrs p =
      Emits-then _ _ (Emits-say _ tt)
        (Emits-bind _ _ (approve_each-Approves P csrs has [] p) (λ r. Emits-pure _))

  approve_todo-Approves :
      (P : Csr → Type 0) (o : Options) (name : String) (wait_mode has : Bool) (csrs : List Csr)
      → All P csrs
      → Emits (Approves P) (approve_todo X arg now server o name wait_mode has csrs)
  unfolding approve_todo
  approve_todo-Approves P o name wait_mode has [] p = search emits_rules
  approve_todo-Approves P o name wait_mode has (csr ∷ csrs) p =
      search (emits_rules, start_approve-Approves P name has (csr ∷ csrs) p)

  answered_todo :
      (o : Options) (items : List Csr) (h : Trace Call) (a : Bool × List Csr)
      → (csrs_to_approve X arg now server (passed_csrs o.skip_approve_check items) false [] h).0
        ≡ ok a
      → a.1 ≡ to_approve o.skip_approve_check items
  unfolding to_approve
  answered_todo o items h a e =
      ground (arith, triage (passed_csrs o.skip_approve_check items) false [] h)

  approve_listed-Approves :
      (o : Options) (name : String) (wait_mode : Bool) (r : Result X.Error (List Csr))
      → Emits
          (Approves (λ csr. In csr (listed r) × IsEligible o.skip_approve_check csr))
          (approve_listed X arg now server o name wait_mode r)
  unfolding approve_listed
  approve_listed-Approves o name wait_mode (err e) = search emits_rules
  approve_listed-Approves o name wait_mode (ok items) =
      Emits-bind_of _ _ (csrs_to_approve-Approves _ _ false []) λ a h e.
        let todo : a.1 ≡ to_approve o.skip_approve_check items = answered_todo o items h a e in
        approve_todo-Approves _ o name wait_mode a.0 a.1
          (All-of_In _ a.1 λ csr i. In-to_approve o.skip_approve_check csr items (rw todo at i))

  -- `approveCSR` sends an approval only for a signing request that the server listed, whose requester has
  -- one of the two names and one of the two groups (or the check is skipped), and that is neither approved
  -- nor denied; what it sends is that request with one Approved condition appended. If the list failed,
  -- it sends none.
  pub approve_csr-Approves :
      (o : Options) (name : String) (wait_mode : Bool) (h : Trace Call)
      → let items = listed (server h (list_csrs (cluster_label <> " = " <> name))) in
        All
          (Approves (λ csr. In csr items × IsEligible o.skip_approve_check csr))
          (approve_csr X arg now server o name wait_mode h).1
  unfolding approve_csr ◌>>=◌ attempt call
  approve_csr-Approves o name wait_mode h =
      let list = list_csrs (cluster_label <> " = " <> name) in
      All-append _
        (approve_listed X arg now server o name wait_mode (server h list) (request list ∷ h)).1
        (request list ∷ [])
        ((approve_listed-Approves o name wait_mode (server h list)).at (request list ∷ h)) (tt, tt)
