-- ===== src/Work/Delete/Laws.antt =====
-- What `delete work` changes, and when it reports success.
use clusteradm.Base.{
  ◌≡◌, ◌≢◌, refl, ◌∙◌, ◌⊎◌, inl, inr, Bool, true, false, Option, none, some, String, List, [], ◌∷◌,
  In,
}
use clusteradm.Effect.{Result, ok, err, Event, request, Trace, Server, pure, fail, call, ◌>>◌}
use clusteradm.Effect.Emits.{
  Emits, emits_rules, Emits-pure, Emits-fail, Emits-say, Emits-lift, Emits-if, Emits-call,
  Emits-attempt, Emits-bind, Emits-bind_of, Emits-then,
}
use clusteradm.Effect.Runs.{call_answer, lift_answer}
use clusteradm.Effect.IfOk.{
  IfOk, IfOk-fail, IfOk-if, IfOk-bind_of, IfOk-then_left, Gives, Gives-pure, Gives-if,
  Gives-bind_of, Gives-then,
}
use clusteradm.Errors.{Errors}
use clusteradm.Watch.{watch_until}
use clusteradm.Watch.Laws.{watch_until_iff}
use clusteradm.Work.{
  Work, WorkEvent, Call, Answer, get_work, create_work, update_work, delete_work, watch_works,
}
use clusteradm.Work.Delete.{
  Options, WatchStart, before_deletion, after_deletion, after_force, watched, Schedule, is_deleted,
  watch_deletion, asked, ask_deletion, watch_and_delete, clear_finalizers, forced, force_removal,
  receive, unless_done, delete_existing, after_get, delete,
}

module _ (X : Errors) (server : Server Call Answer X.Error) (o : Options) where
  -- The server answered a read of the work.
  abbrev pub WasFound : Work → Type 0
  WasFound work = (h : Trace Call) × (server h (get_work o.cluster o.work_name) ≡ ok work)

  -- What `delete work` may change.
  abbrev pub Changes : Event Call → Type 0
  Changes (request (delete_work cluster name)) =
      (cluster ≡ o.cluster) × (name ≡ o.work_name) × ((work : Work) × WasFound work)
  Changes (request (update_work work)) =
      (o.force ≡ true)
      × ((before : Work) × WasFound before
          × (before.finalizers ≢ [])
          × (work ≡ record before { finalizers = [] }))
  Changes (request (create_work work)) = ⊥
  Changes _ = Unit

  call-Changes : (c : Call) → Changes (request c) → Emits Changes (call server c)
  call-Changes c p = Emits-call {P = Changes} server c p

  watch_deletion-Changes : Emits Changes (watch_deletion X server o)
  unfolding watch_deletion
  watch_deletion-Changes =
      Emits-bind _ _ (Emits-attempt _ (call-Changes (watch_works o.cluster) tt)) (λ r. Emits-pure _)

  asked-Changes : (r : Result X.Error (Unit {0})) → Emits Changes (asked X server o r)
  unfolding asked
  asked-Changes (ok _) = search emits_rules
  asked-Changes (err e) = search emits_rules

  ask_deletion-Changes : (work : Work) → WasFound work → Emits Changes (ask_deletion X server o)
  unfolding ask_deletion
  ask_deletion-Changes work found =
      Emits-bind _ _
        (Emits-attempt _
          (call-Changes (delete_work o.cluster o.work_name) (refl, refl, (work, found))))
        (λ r. asked-Changes r)

  watch_and_delete-Changes :
      (start : WatchStart) (work : Work)
      → WasFound work
      → Emits Changes (watch_and_delete X server o start)
  unfolding watch_and_delete
  watch_and_delete-Changes before_deletion work found =
      Emits-bind _ _ watch_deletion-Changes
        λ seen. Emits-then _ _ (ask_deletion-Changes work found) (Emits-pure (some seen))
  watch_and_delete-Changes after_deletion work found =
      Emits-then _ _ (ask_deletion-Changes work found)
        (Emits-bind _ _ watch_deletion-Changes λ seen. Emits-pure (some seen))
  watch_and_delete-Changes after_force work found =
      Emits-then _ _ (ask_deletion-Changes work found) (Emits-pure none)

  watched-Changes :
      (seen : Option (Result X.Error (Unit {0}))) → Emits Changes (watched X server o seen)
  unfolding watched
  watched-Changes (some seen) = Emits-pure seen
  watched-Changes none = watch_deletion-Changes

  clear_finalizers-Changes :
      (work : Work) (fs : List String)
      → work.finalizers ≡ fs
      → o.force ≡ true
      → WasFound work
      → Emits Changes (clear_finalizers X server o work fs)
  unfolding clear_finalizers
  clear_finalizers-Changes work [] e force found = Emits-pure tt
  clear_finalizers-Changes work (f ∷ fs) e force found =
      call-Changes (update_work (record work { finalizers = [] }))
        (force, (work, found, (λ nil. cc), refl))

  forced-Changes :
      (h : Trace Call) (r : Result X.Error Work)
      → o.force ≡ true
      → server h (get_work o.cluster o.work_name) ≡ r
      → Emits Changes (forced X server o r)
  unfolding forced
  forced-Changes h (ok work) force e =
      Emits-then _ _ (clear_finalizers-Changes work work.finalizers refl force (h, e))
        (Emits-pure false)
  forced-Changes h (err x) force e =
      Emits-if (X.is_not_found x) _ (fail x)
        (λ _. Emits-then _ _ (Emits-say _ tt) (Emits-pure true)) (λ _. Emits-fail x)

  force_removal-Changes : o.force ≡ true → Emits Changes (force_removal X server o)
  unfolding force_removal
  force_removal-Changes force =
      Emits-bind_of _ _ (Emits-attempt _ (call-Changes (get_work o.cluster o.work_name) tt))
        λ r h e.
          forced-Changes h r force (call_answer server (get_work o.cluster o.work_name) h r e)

  receive-Changes :
      (timed_out : Bool) (seen : Result X.Error (Unit {0}))
      → Emits Changes (receive X server o timed_out seen)
  unfolding receive
  receive-Changes timed_out seen =
      Emits-if timed_out _ _ (λ _. Emits-fail _)
        (λ _. Emits-then _ _ (Emits-lift seen) (Emits-say _ tt))

  after_get-Changes :
      (s : Schedule) (h : Trace Call) (r : Result X.Error Work)
      → server h (get_work o.cluster o.work_name) ≡ r
      → Emits Changes (after_get X server o s r)
  unfolding after_get delete_existing unless_done
  after_get-Changes s h (ok work) e =
      Emits-bind _ _ (watch_and_delete-Changes s.watch_start work (h, e)) λ seen.
        Emits-bind _ _
          (Emits-if o.force (force_removal X server o) (pure false)
            (λ force. force_removal-Changes force) (λ _. Emits-pure false))
          (λ ended.
            Emits-if ended (pure tt) _ (λ _. Emits-pure tt)
              (λ _. Emits-bind _ _ (watched-Changes seen) λ r. receive-Changes s.timed_out r))
  after_get-Changes s h (err x) e =
      Emits-if (X.is_not_found x) _ (fail x) (λ _. Emits-say _ tt) (λ _. Emits-fail x)

  -- However the goroutines are scheduled, `delete work` asks only for the deletion of the named work in
  -- the named cluster, after the hub has answered a read of it; and only with --force it updates that
  -- work, if it has finalizers, to what was read less the finalizers.
  pub delete-Changes : (s : Schedule) → Emits Changes (delete X server o s)
  unfolding delete
  delete-Changes s =
      Emits-bind_of _ _ (Emits-attempt _ (call-Changes (get_work o.cluster o.work_name) tt))
        λ r h e. after_get-Changes s h r (call_answer server (get_work o.cluster o.work_name) h r e)

  -- The hub has answered that the work is not found.
  abbrev pub IsMissing : Type 0
  IsMissing =
      (h : Trace Call) × (e : X.Error) × (server h (get_work o.cluster o.work_name) ≡ err e)
      × (X.is_not_found e ≡ true)

  -- The watch of the cluster's works has seen that a work was deleted.
  abbrev pub WasSeen : Type 0
  WasSeen =
      (h : Trace Call) × (events : List WorkEvent) × (event : WorkEvent) × (server h
          (watch_works o.cluster)
        ≡ ok events)
      × In event events
      × (is_deleted event ≡ true)

  watch_deletion-WasSeen : Gives (λ seen. seen ≡ ok tt → WasSeen) (watch_deletion X server o)
  unfolding watch_deletion
  watch_deletion-WasSeen = Gives-bind_of _ _ λ r h e.
      Gives-pure (watch_until X r is_deleted) λ done.
        let (events, event, started, i, d) = (watch_until_iff X is_deleted r).0 done in
        (h, events, event, call_answer server (watch_works o.cluster) h r e ∙ started, i, d)

  -- What the watch has seen is no success unless it saw a deletion.
  abbrev IsSeen : Option (Result X.Error (Unit {0})) → Type 0
  IsSeen none = Unit
  IsSeen (some seen) = seen ≡ ok tt → WasSeen

  watch_and_delete-WasSeen : (start : WatchStart) → Gives IsSeen (watch_and_delete X server o start)
  unfolding watch_and_delete
  watch_and_delete-WasSeen before_deletion = Gives-bind_of _ _ λ seen h e.
      Gives-then (ask_deletion X server o) (pure (some seen))
        (Gives-pure (some seen) (watch_deletion-WasSeen.at h seen e))
  watch_and_delete-WasSeen after_deletion = Gives-then (ask_deletion X server o) _ (
      Gives-bind_of (watch_deletion X server o) (λ seen. pure (some seen))
        λ seen h e. Gives-pure (some seen) (watch_deletion-WasSeen.at h seen e))
  watch_and_delete-WasSeen after_force = Gives-then (ask_deletion X server o) _ (Gives-pure none tt)

  watched-WasSeen :
      (seen : Option (Result X.Error (Unit {0})))
      → IsSeen seen
      → Gives (λ r. r ≡ ok tt → WasSeen) (watched X server o seen)
  unfolding watched
  watched-WasSeen (some seen) k = Gives-pure seen k
  watched-WasSeen none k = watch_deletion-WasSeen

  forced-IsMissing :
      (h : Trace Call) (r : Result X.Error Work)
      → server h (get_work o.cluster o.work_name) ≡ r
      → Gives (λ ended. ended ≡ true → IsMissing) (forced X server o r)
  unfolding forced ◌>>◌
  forced-IsMissing h (ok work) e = Gives-bind_of _ _ λ _ _ _. Gives-pure false (λ f. absurd (cc))
  forced-IsMissing h (err x) e =
      Gives-if (X.is_not_found x) _ (fail x)
        (λ missing. Gives-bind_of _ _ λ _ _ _. Gives-pure true (λ _. (h, x, e, missing)))
        (λ _. record { at = λ h' a done. absurd (unfold fail in cc) })

  force_removal-IsMissing : Gives (λ ended. ended ≡ true → IsMissing) (force_removal X server o)
  unfolding force_removal
  force_removal-IsMissing =
      Gives-bind_of _ _
        λ r h e. forced-IsMissing h r (call_answer server (get_work o.cluster o.work_name) h r e)

  receive-WasSeen :
      (timed_out : Bool) (seen : Result X.Error (Unit {0}))
      → (seen ≡ ok tt → WasSeen)
      → IfOk (IsMissing ⊎ WasSeen) (receive X server o timed_out seen)
  unfolding receive
  receive-WasSeen true seen k = IfOk-fail _
  receive-WasSeen false seen k =
      IfOk-then_left _ _ (record { at = λ h a e. inr (k (lift_answer seen h tt e)) })

  after_get-IsMissing :
      (s : Schedule) (h : Trace Call) (r : Result X.Error Work)
      → server h (get_work o.cluster o.work_name) ≡ r
      → IfOk (IsMissing ⊎ WasSeen) (after_get X server o s r)
  unfolding after_get delete_existing unless_done
  after_get-IsMissing s h (err x) e =
      IfOk-if (X.is_not_found x) _ (fail x)
        (λ missing. record { at = λ _ _ _. inl (h, x, e, missing) }) (λ _. IfOk-fail x)
  after_get-IsMissing s h (ok work) e = IfOk-bind_of _ _ λ seen h₁ e₁.
      IfOk-bind_of _ _ λ ended h₂ e₂.
        IfOk-if ended (pure tt) _
          (λ d. record {
            at = λ _ _ _. inl (
                (Gives-if o.force (force_removal X server o) (pure false)
                    (λ _. force_removal-IsMissing) (λ _. Gives-pure false (λ f. absurd (cc)))).at
                  h₂ ended e₂ d);
          })
          (λ _. IfOk-bind_of _ _ λ r h₃ e₃. receive-WasSeen s.timed_out r (
            (watched-WasSeen seen ((watch_and_delete-WasSeen s.watch_start).at h₁ seen e₁)).at h₃ r
              e₃))

  -- However the goroutines are scheduled, `delete work` reports success only if the hub has answered that
  -- the work is not found, or the watch of the cluster's works has seen the deletion of a work, which
  -- need not be this one.
  pub delete-IsMissing : (s : Schedule) → IfOk (IsMissing ⊎ WasSeen) (delete X server o s)
  unfolding delete
  delete-IsMissing s =
      IfOk-bind_of _ _ λ r h e.
        after_get-IsMissing s h r (call_answer server (get_work o.cluster o.work_name) h r e)
