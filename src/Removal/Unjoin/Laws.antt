-- ===== src/Removal/Unjoin/Laws.antt =====
-- What `unjoin` deletes, and when it reports success.
use clusteradm.Base.{
  ◌≡◌, refl, ◌∙◌, ◌⊎◌, inl, inr, Bool, true, false, String, List, [], ◌∷◌, In, if◌then◌else◌,
  Bool-cases,
}
use clusteradm.Effect.{
  Result, ok, err, Event, request, Trace, Prog, Server, pure, fail, call, attempt,
}
use clusteradm.Effect.Emits.{
  Emits, emits_rules, Emits-pure, Emits-fail, Emits-say, Emits-if, Emits-call, Emits-attempt,
  Emits-bind, Emits-bind_of, Emits-then, Emits-return_error,
}
use clusteradm.Effect.Runs.{call_answer, ok_bind}
use clusteradm.Effect.IfOk.{IfOk, IfOk-fail, IfOk-if, IfOk-bind_of, IfOk-then_left, IfOk-then_right}
use clusteradm.Errors.{Errors}
use clusteradm.Retry.{IsRetry}
use clusteradm.Removal.{
  Object, Call, Answer, delete, get, list_applied_works, note_error, delete_each, delete_all,
  check_gone, gone,
}
use clusteradm.Removal.Gone.{IsRemoved, retry-IsMissing}
use clusteradm.Removal.Unjoin.{
  Options, operator_objects, klusterlet_object, works_exist, is_applied_manifest_work_exist,
  wait_and_purge, after_delete, remove_klusterlet, unless_works, run,
}

-- Each deletion is of an object that satisfies `P`.
abbrev pub Deletes : (Object → Type 0) → Event Call → Type 0
Deletes P (request (delete object)) = P object
Deletes P _ = Unit

module _ (X : Errors) (server : Server Call Answer X.Error) where
  module _ (P : Object → Type 0) where
    delete_each-Deletes :
        (objects : List Object) (errs : List X.Error)
        → ((object : Object) → In object objects → P object)
        → Emits (Deletes P) (delete_each X server objects errs)
    unfolding delete_each
    delete_each-Deletes [] errs p = search emits_rules
    delete_each-Deletes (object ∷ objects) errs p =
        Emits-bind _ _
          (Emits-attempt _
            (Emits-call {P = Deletes P} server (delete object) (p object (inl refl))))
          (λ r. delete_each-Deletes objects (note_error X server errs r) (λ o i. p o (inr i)))

    pub delete_all-Deletes :
        (objects : List Object)
        → ((object : Object) → In object objects → P object)
        → Emits (Deletes P) (delete_all X server objects)
    unfolding delete_all
    delete_all-Deletes objects p =
        Emits-bind _ _ (delete_each-Deletes objects [] p) (λ errs. Emits-return_error _)

    gone-Deletes :
        (message : String) (r : Result X.Error (Unit {0}))
        → Emits (Deletes P) (gone X server message r)
    unfolding gone
    gone-Deletes message (ok _) = search emits_rules
    gone-Deletes message (err e) = search emits_rules

    pub check_gone-Deletes :
        (object : Object) (message : String)
        → Emits (Deletes P) (check_gone X server object message)
    unfolding check_gone
    check_gone-Deletes object message =
        Emits-bind _ _ (Emits-attempt _ (Emits-call {P = Deletes P} server (get object) tt))
          (λ r. gone-Deletes message r)

  -- The server answered that there is no applied work.
  abbrev pub NoWorks : Type 0
  NoWorks =
      (h : Trace Call) × ((server h list_applied_works ≡ ok [])
        ⊎ ((e : X.Error) × (server h list_applied_works ≡ err e) × (X.is_not_found e ≡ true)))

  -- An object that `unjoin` may delete.
  abbrev pub MayDelete : Options → Object → Type 0
  MayDelete o object =
      NoWorks
      × ((object ≡ klusterlet_object) ⊎ ((o.purge_operator ≡ true) × In object operator_objects))

  works_exist-NoWorks :
      (h : Trace Call) (r : Result X.Error (List String))
      → server h list_applied_works ≡ r
      → (h' : Trace Call) → (works_exist X server r h').0 ≡ ok false
      → NoWorks
  unfolding works_exist pure fail
  works_exist-NoWorks h (ok []) e h' d = (h, inl e)
  works_exist-NoWorks h (ok (work ∷ works)) e h' d = absurd (cc)
  works_exist-NoWorks h (err x) e h' d = elim (Bool-cases (X.is_not_found x)) [
    | inl missing ↦ (h, inr (x, e, missing))
    | inr other ↦ absurd (cc (rw other at d))
  ]

  none_exist : (h : Trace Call) → (is_applied_manifest_work_exist X server h).0 ≡ ok false → NoWorks
  unfolding is_applied_manifest_work_exist
  none_exist h d =
      let (r, listed, later) =
        ok_bind (attempt (call server list_applied_works)) (works_exist X server) h false d in
      works_exist-NoWorks h r (call_answer server list_applied_works h r listed) _ later

  works_exist-Deletes :
      (P : Object → Type 0) (r : Result X.Error (List String))
      → Emits (Deletes P) (works_exist X server r)
  unfolding works_exist
  works_exist-Deletes P (ok []) = search emits_rules
  works_exist-Deletes P (ok (work ∷ works)) = search emits_rules
  works_exist-Deletes P (err e) = search emits_rules

  is_applied_manifest_work_exist-Deletes :
      (P : Object → Type 0) → Emits (Deletes P) (is_applied_manifest_work_exist X server)
  unfolding is_applied_manifest_work_exist
  is_applied_manifest_work_exist-Deletes P =
      Emits-bind _ _ (Emits-attempt _ (Emits-call {P = Deletes P} server list_applied_works tt))
        (λ r. works_exist-Deletes P r)

  module _ (on_error : Prog Call X.Error (Unit {0}) → Prog Call X.Error (Unit {0}))
      (retry : IsRetry on_error) (o : Options) where
    purge-Deletes :
        NoWorks
        → Emits
            (Deletes (MayDelete o))
            (if o.purge_operator then delete_all X server operator_objects else pure tt)
    purge-Deletes free =
        Emits-if o.purge_operator (delete_all X server operator_objects) (pure tt)
          (λ purge.
            delete_all-Deletes (MayDelete o) operator_objects (λ object i. (free, inr (purge, i))))
          (λ _. Emits-pure tt)

    wait_and_purge-Deletes :
        NoWorks → Emits (Deletes (MayDelete o)) (wait_and_purge X server on_error o)
    unfolding wait_and_purge
    wait_and_purge-Deletes free =
        Emits-then _ _
          (retry.emits _ _
            (check_gone-Deletes (MayDelete o) klusterlet_object "klusterlet still exists"))
          (Emits-then _ _ (purge-Deletes free) (Emits-say _ tt))

    after_delete-Deletes :
        NoWorks
        → (r : Result X.Error (Unit {0}))
        → Emits (Deletes (MayDelete o)) (after_delete X server on_error o r)
    unfolding after_delete
    after_delete-Deletes free (ok _) = wait_and_purge-Deletes free
    after_delete-Deletes free (err e) =
        Emits-if (X.is_not_found e) _ (fail e) (λ _. Emits-say _ tt) (λ _. Emits-fail e)

    remove_klusterlet-Deletes :
        NoWorks → Emits (Deletes (MayDelete o)) (remove_klusterlet X server on_error o)
    unfolding remove_klusterlet
    remove_klusterlet-Deletes free =
        Emits-bind _ _
          (Emits-attempt _ (
            Emits-call {P = Deletes (MayDelete o)} server (delete klusterlet_object)
              (free, inl refl)))
          (λ r. after_delete-Deletes free r)

    unless_works-Deletes :
        (exist : Bool)
        → (exist ≡ false → NoWorks)
        → Emits (Deletes (MayDelete o)) (unless_works X server on_error o exist)
    unfolding unless_works
    unless_works-Deletes true free = search emits_rules
    unless_works-Deletes false free = remove_klusterlet-Deletes (free refl)

    -- `unjoin` deletes nothing unless the managed cluster has answered that it has no applied manifest
    -- works; it then deletes only the klusterlet and, if the operator is to be purged, the operator's
    -- objects.
    pub unjoin-Deletes : Emits (Deletes (MayDelete o)) (run X server on_error o)
    unfolding run
    unjoin-Deletes = Emits-then _ _ (Emits-say _ tt) (
        Emits-bind_of _ _ (is_applied_manifest_work_exist-Deletes (MayDelete o))
          λ exist h e. unless_works-Deletes exist (λ none. none_exist h (e ∙ (λ i. ok (none i)))))

    wait_and_purge-IsRemoved :
        IfOk (IsRemoved X server klusterlet_object) (wait_and_purge X server on_error o)
    unfolding wait_and_purge
    wait_and_purge-IsRemoved = IfOk-then_left _ _ (record {
      at = λ h a done. inr (
          (retry-IsMissing X server on_error retry klusterlet_object "klusterlet still exists").at h
            a done);
    })

    after_delete-IsRemoved :
        (h : Trace Call) (r : Result X.Error (Unit {0}))
        → server h (delete klusterlet_object) ≡ r
        → IfOk (IsRemoved X server klusterlet_object) (after_delete X server on_error o r)
    unfolding after_delete
    after_delete-IsRemoved h (ok _) e = wait_and_purge-IsRemoved
    after_delete-IsRemoved h (err x) e =
        IfOk-if (X.is_not_found x) _ (fail x)
          (λ missing. record { at = λ _ _ _. inl (h, x, e, missing) }) (λ _. IfOk-fail x)

    unless_works-IsRemoved :
        (exist : Bool)
        → IfOk (IsRemoved X server klusterlet_object) (unless_works X server on_error o exist)
    unfolding unless_works remove_klusterlet
    unless_works-IsRemoved true = IfOk-fail _
    unless_works-IsRemoved false =
        IfOk-bind_of _ _
          λ r h e. after_delete-IsRemoved h r (call_answer server (delete klusterlet_object) h r e)

    -- `unjoin` reports success only if the managed cluster has answered, to the deletion of the klusterlet
    -- or to a later read, that the klusterlet is not found.
    pub run_ok-IsRemoved : IfOk (IsRemoved X server klusterlet_object) (run X server on_error o)
    unfolding run
    run_ok-IsRemoved =
        IfOk-then_right _ _ (IfOk-bind_of _ _ λ exist h e. unless_works-IsRemoved exist)
