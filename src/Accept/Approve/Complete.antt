-- ===== src/Accept/Approve/Complete.antt =====
-- `approveCSR` leaves no eligible signing request out.
use clusteradm.Base.{
  ℕ, ◌≡◌, refl, inl, Bool, true, false, String, ◌<>◌, List, [], ◌∷◌, ◌++◌, All, In, In-append_left,
  In-append_right, of_All,
}
use clusteradm.Effect.{
  Result, ok, err, print, request, Trace, Server, pure, say, call, ◌>>=◌, ◌>>◌, attempt,
}
use clusteradm.Effect.Runs.{bind_ok}
use clusteradm.Errors.{Errors}
use clusteradm.Accept.{
  Csr, Call, Answer, Options, list_csrs, update_approval, cluster_label, passed_csrs, with_approval,
}
use clusteradm.Accept.Requesters.{IsEligible, to_approve, to_approve-In}
use clusteradm.Accept.Approve.{
  csrs_to_approve, clock, note_update, approve_one, approve_each, start_approve, approve_todo,
  approve_listed, approve_csr,
}
use clusteradm.Accept.Approve.Justified.{triage, some_approved}

module _ (X : Errors) (arg : String) (now : Trace Call → ℕ)
    (server : Server Call Answer X.Error) where
  -- An approval of this request was sent.
  abbrev pub Requested : Trace Call → Csr → Type 0
  Requested tr csr = (time : ℕ) × In (request (update_approval (with_approval arg time csr))) tr

  Requested-append_left :
      (csr : Csr) (xs ys : Trace Call) → Requested xs csr → Requested (xs ++ ys) csr
  Requested-append_left csr xs ys (time, i) = (time, In-append_left _ xs ys i)

  Requested-append_right :
      (csr : Csr) (xs ys : Trace Call) → Requested ys csr → Requested (xs ++ ys) csr
  Requested-append_right csr xs ys (time, i) = (time, In-append_right _ xs ys i)

  Requested-All :
      (csrs : List Csr) (xs ys : Trace Call)
      → All (Requested xs) csrs
      → All (Requested (xs ++ ys)) csrs
  Requested-All [] xs ys a = tt
  Requested-All (csr ∷ csrs) xs ys (r, a) =
      (Requested-append_left csr xs ys r, Requested-All csrs xs ys a)

  note_update_ok :
      (csr : Csr) (has : Bool) (errs : List X.Error) (r : Result X.Error (Unit {0}))
      (h : Trace Call)
      → (x : Bool × List X.Error) × (note_update X arg now server csr has errs r h).0 ≡ ok x
  unfolding note_update pure say ◌>>◌
  note_update_ok csr has errs (ok _) h = ((true, errs), refl)
  note_update_ok csr has errs (err e) h = ((has, errs ++ (e ∷ [])), refl)

  approve_one_run :
      (csr : Csr) (has : Bool) (errs : List X.Error) (h : Trace Call)
      → (x : Bool × List X.Error) × (new : Trace Call) × (approve_one X arg now server csr has errs
            h
          ≡ (ok x, new))
        × Requested new csr
  unfolding approve_one clock attempt call ◌>>=◌
  approve_one_run csr has errs h =
      let update : Call = update_approval (with_approval arg (now h) csr) in
      let noted =
        note_update X arg now server csr has errs (server h update) (request update ∷ h) in
      let (x, e) = note_update_ok csr has errs (server h update) (request update ∷ h) in
      (
        x,
        (noted.1 ++ (request update ∷ [])) ++ [],
        λ i. (e i, (noted.1 ++ (request update ∷ [])) ++ []),
        Requested-append_left csr _ []
            (now h, In-append_right _ noted.1 (request update ∷ []) (inl refl)),
      )

  pub approve_each_run :
      (csrs : List Csr) (has : Bool) (errs : List X.Error) (h : Trace Call)
      → (x : Bool × List X.Error) × (new : Trace Call) × (approve_each X arg now server csrs has
            errs h
          ≡ (ok x, new))
        × All (Requested new) csrs
  unfolding approve_each
  approve_each_run [] has errs h = ((has, errs), [], unfold pure in refl, tt)
  approve_each_run (csr ∷ csrs) has errs h =
      let (x, new, e, r) = approve_one_run csr has errs h in
      let (y, later, f, rs) = approve_each_run csrs x.0 x.1 (new ++ h) in
      (
        y,
        later ++ new,
        bind_ok (approve_one X arg now server csr has errs) _ h e f,
        (Requested-append_right csr later new r, Requested-All csrs later new rs),
      )

  start_approve-Requested :
      (name : String) (has : Bool) (csrs : List Csr) (h : Trace Call)
      → All (Requested (start_approve X arg now server name has csrs h).1) csrs
  unfolding start_approve ◌>>◌ say pure
  start_approve-Requested name has csrs h =
      let line = print ("Starting approve csrs for the cluster " <> name <> "\n") in
      let (x, new, e, r) = approve_each_run csrs has [] (line ∷ h) in
      rw e (Requested-All csrs new (line ∷ []) r)

  approve_todo-Requested :
      (o : Options) (name : String) (wait_mode has : Bool) (todo : List Csr) (csr : Csr)
      (h : Trace Call)
      → o.dry_run ≡ false
      → In csr todo
      → Requested (approve_todo X arg now server o name wait_mode has todo h).1 csr
  unfolding approve_todo
  approve_todo-Requested o name wait_mode has [] csr h real i = elim i [ ]
  approve_todo-Requested o name wait_mode has (c ∷ todo) csr h real i =
      rw real (of_All _ csr (c ∷ todo) (start_approve-Requested name has (c ∷ todo) h) i)

  approve_listed-Requested :
      (o : Options) (name : String) (wait_mode : Bool) (items : List Csr) (csr : Csr)
      (h : Trace Call)
      → o.dry_run ≡ false
      → In csr (to_approve o.skip_approve_check items)
      → Requested (approve_listed X arg now server o name wait_mode (ok items) h).1 csr
  unfolding approve_listed ◌>>=◌ to_approve
  approve_listed-Requested o name wait_mode items csr h real i =
      let passed = passed_csrs o.skip_approve_check items in
      let todo = to_approve o.skip_approve_check items in
      let asked = (csrs_to_approve X arg now server passed false [] h).1 in
      rw (triage X arg now server passed false [] h, ◌>>=◌)
        (Requested-append_left csr _ asked (
          approve_todo-Requested o name wait_mode (some_approved passed) todo csr (asked ++ h) real
            i))

  -- Unless it is a dry run, `approveCSR` sends an approval for every signing request that the server
  -- listed and that is eligible: its requester is right (or the check is skipped) and it is neither
  -- approved nor denied. This holds also when some of the approvals fail.
  pub approve_csr-Requested :
      (o : Options) (name : String) (wait_mode : Bool) (h : Trace Call) (items : List Csr)
      (csr : Csr)
      → o.dry_run ≡ false
      → server h (list_csrs (cluster_label <> " = " <> name)) ≡ ok items
      → In csr items
      → IsEligible o.skip_approve_check csr
      → Requested (approve_csr X arg now server o name wait_mode h).1 csr
  unfolding approve_csr ◌>>=◌ attempt call
  approve_csr-Requested o name wait_mode h items csr real answer i eligible =
      let list = list_csrs (cluster_label <> " = " <> name) in
      rw answer (
        Requested-append_left csr _ (request list ∷ []) (
          approve_listed-Requested o name wait_mode items csr (request list ∷ h) real
            (to_approve-In o.skip_approve_check csr items i eligible)))
