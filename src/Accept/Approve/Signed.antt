-- ===== src/Accept/Approve/Signed.antt =====
-- When `approveCSR` answers that a request is approved and no error, by the hub's answers.
use clusteradm.Base.{
  ℕ, ◌≡◌, ◌≢◌, refl, sym, ap, ◌∙◌, ◌↔◌, ◌⊎◌, inl, inr, Bool, true, false, String, ◌<>◌, Option,
  none, some, List, [], ◌∷◌, ◌++◌, map, Bool-cases,
}
use clusteradm.Effect.{
  Result, ok, err, print, request, Trace, Server, pure, say, call, ◌>>=◌, ◌>>◌, attempt,
}
use clusteradm.Effect.Runs.{Result-cases, bind_result, then_result, attempt-call}
use clusteradm.Errors.{Errors, IsLawful, all_nil}
use clusteradm.Accept.{
  Csr, Call, Answer, Options, list_csrs, update_approval, cluster_label, passed_csrs, with_approval,
}
use clusteradm.Accept.Requesters.{to_approve}
use clusteradm.Accept.Approve.{
  csrs_to_approve, clock, note_update, approve_one, approve_each, start_approve, approve_todo,
  approve_listed, approve_csr,
}
use clusteradm.Accept.Approve.Justified.{triage, some_approved}
use clusteradm.Accept.Approve.Before.{WasApproved, some_approved-WasApproved}

module _ {E : Type 0} where
  snoc_ne : (es : List E) (e : E) → es ++ (e ∷ []) ≡ [] → ⊥
  snoc_ne [] e h = absurd (cc)
  snoc_ne (x ∷ es) e h = absurd (cc)

  all_nil-some : (es : List E) → (all_nil (map some es) ≡ true) ↔ (es ≡ [])
  all_nil-some [] = ((λ _. refl), (λ _. refl))
  all_nil-some (e ∷ es) = ((λ h. absurd (cc)), (λ h. absurd (cc)))

module _ (X : Errors) (arg : String) (now : Trace Call → ℕ)
    (server : Server Call Answer X.Error) where
  -- The hub has answered the approval of each of the requests, one after the other.
  abbrev pub AllSigned : List Csr → Trace Call → Type 0
  AllSigned [] h = Unit
  AllSigned (csr ∷ csrs) h =
      (server h (update_approval (with_approval arg (now h) csr)) ≡ ok tt)
      × AllSigned csrs (
          print ("CSR " <> csr.name <> " approved\n")
          ∷ request (update_approval (with_approval arg (now h) csr))
          ∷ h)

  one_ok :
      (csr : Csr) (has : Bool) (errs : List X.Error) (h : Trace Call)
      → server h (update_approval (with_approval arg (now h) csr)) ≡ ok tt
      → approve_one X arg now server csr has errs h ≡ (
        ok (true, errs),
        print ("CSR " <> csr.name <> " approved\n")
            ∷ request (update_approval (with_approval arg (now h) csr))
            ∷ [],
      )
  unfolding approve_one clock attempt call note_update ◌>>=◌ ◌>>◌ say pure
  one_ok csr has errs h e = rw e refl

  one_err :
      (csr : Csr) (has : Bool) (errs : List X.Error) (h : Trace Call) (x : X.Error)
      → server h (update_approval (with_approval arg (now h) csr)) ≡ err x
      → approve_one X arg now server csr has errs h ≡ (
        ok (has, errs ++ (x ∷ [])),
        request (update_approval (with_approval arg (now h) csr)) ∷ [],
      )
  unfolding approve_one clock attempt call note_update ◌>>=◌ pure
  one_err csr has errs h x e = rw e refl

  approve_each_signed :
      (csrs : List Csr) (has : Bool) (errs : List X.Error) (h : Trace Call)
      → (x : Bool × List X.Error) × ((approve_each X arg now server csrs has errs h).0 ≡ ok x)
        × ((x.1 ≡ []) ↔ ((errs ≡ []) × AllSigned csrs h))
        × (x.1 ≡ [] → (has ≡ true) ⊎ (csrs ≢ []) → x.0 ≡ true)
  unfolding approve_each
  approve_each_signed [] has errs h = (
    (has, errs),
    unfold pure in refl,
    ((λ e. (e, tt)), (λ (e, _). e)),
    λ _ either. elim either [ inl t ↦ t | inr ne ↦ absurd (ne refl) ],
  )
  approve_each_signed (csr ∷ csrs) has errs h =
      let update : Call = update_approval (with_approval arg (now h) csr) in
      let line = print ("CSR " <> csr.name <> " approved\n") in
      elim (Result-cases (server h (update_approval (with_approval arg (now h) csr)))) [
        | inl (done, answer) ↦
            let (x, e, iff, t) = approve_each_signed csrs true errs (line ∷ request update ∷ h) in
            (
              x,
              bind_result (approve_one X arg now server csr has errs) _ h
                  (one_ok csr has errs h answer) e,
              ((λ n. let (p, q) = iff.0 n in (p, (answer, q))), (λ (p, (_, q)). iff.1 (p, q))),
              λ n _. t n (inl refl),
            )
        | inr (f, answer) ↦
            let (x, e, iff, t) =
              approve_each_signed csrs has (errs ++ (f ∷ [])) (request update ∷ h) in
            (
              x,
              bind_result (approve_one X arg now server csr has errs) _ h
                  (one_err csr has errs h f answer) e,
              ((λ n. absurd (snoc_ne errs f (iff.0 n).0)), (λ (p, (signed, q)). absurd (cc))),
              λ n _. absurd (snoc_ne errs f (iff.0 n).0),
            )
      ]

  module _ (L : IsLawful X) where
    start_approve_signed :
        (name : String) (has : Bool) (csr : Csr) (csrs : List Csr) (h : Trace Call)
        → ((start_approve X arg now server name has (csr ∷ csrs) h).0 ≡ ok (true, none))
          ↔ AllSigned
              (csr ∷ csrs)
              (print ("Starting approve csrs for the cluster " <> name <> "\n") ∷ h)
    unfolding start_approve
    start_approve_signed name has csr csrs h =
        let line = "Starting approve csrs for the cluster " <> name <> "\n" in
        let each = approve_each X arg now server (csr ∷ csrs) has [] in
        let after = print line ∷ h in
        let (x, e, iff, t) = approve_each_signed (csr ∷ csrs) has [] after in
        let errs = X.new_aggregate (map some x.1) in
        let run : (start_approve X arg now server name has (csr ∷ csrs) h).0 ≡ ok (x.0, errs) =
          then_result (say line) _ h (say_run line h)
            (bind_result each _ after (λ i. (e i, (each after).1)) (unfold pure in refl)) in
        let nil = L.new_aggregate_nil (map some x.1) in
        let some_nil = all_nil-some x.1 in
        (
          (λ done.
              let same : ◌≡◌ {A = Result X.Error (Bool × Option X.Error)} (ok (x.0, errs))
                  (ok (true, none)) =
                sym run ∙ done in
              let none_left : errs ≡ none = cc in (iff.0 (some_nil.0 (nil.0 none_left))).1),
          (λ signed.
              let empty = iff.1 (refl, signed) in
              let none_left = nil.1 (some_nil.1 empty) in
              let approved = t empty (inr (λ ne. cc)) in run ∙ (λ i. ok (approved i, none_left i))),
        )
      where
        say_run :
            (line : String) (h : Trace Call) → say {E = X.Error} line h ≡ (ok tt, print line ∷ [])
        say_run line h = unfold say in refl

    -- Nothing is left to sign, or it is a dry run, and a request is approved already; or each of those left,
    -- of which there is one, is signed.
    abbrev pub IsSigned : Bool → String → Bool → List Csr → Trace Call → Type 0
    IsSigned dry_run name has todo h =
        (((todo ≡ []) ⊎ (dry_run ≡ true)) × (has ≡ true))
        ⊎ ((dry_run ≡ false)
            × (todo ≢ [])
            × AllSigned todo (print ("Starting approve csrs for the cluster " <> name <> "\n") ∷ h))

    approve_todo-IsSigned :
        (o : Options) (name : String) (has : Bool) (todo : List Csr) (h : Trace Call)
        → ((approve_todo X arg now server o name false has todo h).0 ≡ ok (true, none))
          ↔ IsSigned o.dry_run name has todo h
    unfolding approve_todo ◌>>◌ ◌>>=◌ pure
    approve_todo-IsSigned o name has [] h = (
      (λ e. inl (inl refl, cc)),
      (λ s. elim s [ inl (_, t) ↦ rw t refl | inr (_, ne, _) ↦ absurd (ne refl) ]),
    )
    approve_todo-IsSigned o name has (csr ∷ csrs) h = elim (Bool-cases o.dry_run) [
      | inl dry ↦ (
        (λ e.
            let e' : ◌≡◌ {A = Result X.Error (Bool × Option X.Error)} (ok (has, none))
                (ok (true, none)) =
              rw dry at e in
            inl (inr dry, cc)),
        (λ s. elim s [ inl (_, t) ↦ rw (dry, t) refl | inr (real, _, _) ↦ absurd (cc) ]),
      )
      | inr real ↦
          let start = start_approve_signed name has csr csrs h in
          (
            (λ e. inr (real, (λ ne. cc), start.0 (rw real at e))),
            (λ s. elim s [
              | inl (inl nil, _) ↦ absurd (cc)
              | inl (inr dry, _) ↦ absurd (cc)
              | inr (_, _, signed) ↦ rw real (start.1 signed)
            ]),
          )
    ]

  -- The hub has listed the requests. Either none of them is eligible or it is a dry run, and one was approved
  -- before; or it is no dry run, some are eligible, and the hub has answered the approval of each.
  abbrev pub IsApproved : Options → String → Trace Call → Type 0
  IsApproved o name h =
      let list = list_csrs ("open-cluster-management.io/cluster-name" <> " = " <> name) in
      (items : List Csr) × (server h list ≡ ok items)
      × ((((to_approve o.skip_approve_check items ≡ []) ⊎ (o.dry_run ≡ true))
            × WasApproved o.skip_approve_check items)
          ⊎ ((o.dry_run ≡ false)
              × (to_approve o.skip_approve_check items ≢ [])
              × AllSigned (to_approve o.skip_approve_check items) (
                  print ("Starting approve csrs for the cluster " <> name <> "\n")
                  ∷ ((csrs_to_approve X arg now server (passed_csrs o.skip_approve_check items)
                        false [] (request list ∷ h)).1
                      ++ (request list ∷ h)))))

  module _ (L : IsLawful X) (o : Options) (name : String) where
    listed_run :
        (items : List Csr) (h : Trace Call)
        → let passed = passed_csrs o.skip_approve_check items in
          (approve_listed X arg now server o name false (ok items) h).0
          ≡ (approve_todo X arg now server o name false
              (some_approved passed)
              (to_approve o.skip_approve_check items)
              ((csrs_to_approve X arg now server passed false [] h).1 ++ h)).0
    unfolding approve_listed to_approve
    listed_run items h =
        let passed = passed_csrs o.skip_approve_check items in
        let ask = csrs_to_approve X arg now server passed false [] in
        bind_result ask _ h (λ i. (triage X arg now server passed false [] h i, (ask h).1)) refl

    approve_run :
        (h : Trace Call)
        → let list = list_csrs (cluster_label <> " = " <> name) in
          (approve_csr X arg now server o name false h).0
          ≡ (approve_listed X arg now server o name false (server h list) (request list ∷ h)).0
    unfolding approve_csr
    approve_run h =
        let list = list_csrs (cluster_label <> " = " <> name) in
        bind_result (attempt (call server list)) _ h (attempt-call server list h) refl

    not_listed :
        (e : X.Error) (h : Trace Call)
        → (approve_listed X arg now server o name false (err e) h).0 ≡ ok (true, none)
        → ⊥
    unfolding approve_listed pure
    not_listed e h done = absurd (cc)

    pub approve_csr_iff :
        (h : Trace Call)
        → ((approve_csr X arg now server o name false h).0 ≡ ok (true, none)) ↔ IsApproved o name h
    approve_csr_iff h = (
      (λ done. elim (Result-cases (server h list)) [
        | inr (e, answer) ↦ absurd (
            not_listed e (request list ∷ h)
              (sym (approve_run h ∙ ap (λ r. (listed r).0) answer) ∙ done))
        | inl (items, answer) ↦
            let todo = to_approve o.skip_approve_check items in
            let signed = (at items).0 (sym (run items answer) ∙ done) in
            let was = some_approved-WasApproved o.skip_approve_check items in
            (
              items,
              answer,
              elim signed [ inl (either, has) ↦ inl (either, was.0 has) | inr rest ↦ inr rest ],
            )
      ]),
      (λ (items, answer, signed).
          let was = some_approved-WasApproved o.skip_approve_check items in
          run items answer
          ∙ (at items).1 (elim signed [
            | inl (either, before) ↦ inl (either, was.1 before)
            | inr rest ↦ inr rest
          ])),
    )
      where
        list : Call
        list = list_csrs (cluster_label <> " = " <> name)

        listed : Result X.Error (List Csr) → Result X.Error (Bool × Option X.Error) × Trace Call
        listed r = approve_listed X arg now server o name false r (request list ∷ h)

        after : List Csr → Trace Call
        after items =
            (csrs_to_approve X arg now server (passed_csrs o.skip_approve_check items) false []
              (request list ∷ h)).1
            ++ (request list ∷ h)

        at :
            (items : List Csr)
            → ((approve_todo X arg now server o name false
                  (some_approved (passed_csrs o.skip_approve_check items))
                  (to_approve o.skip_approve_check items)
                  (after items)).0
                ≡ ok (true, none))
              ↔ IsSigned L o.dry_run name
                  (some_approved (passed_csrs o.skip_approve_check items))
                  (to_approve o.skip_approve_check items)
                  (after items)
        at items = approve_todo-IsSigned L o name _ _ _

        run :
            (items : List Csr)
            → server h list ≡ ok items
            → (approve_csr X arg now server o name false h).0
              ≡ (approve_todo X arg now server o name false
                  (some_approved (passed_csrs o.skip_approve_check items))
                  (to_approve o.skip_approve_check items)
                  (after items)).0
        run items answer =
            approve_run h ∙ ap (λ r. (listed r).0) answer ∙ listed_run items (request list ∷ h)
