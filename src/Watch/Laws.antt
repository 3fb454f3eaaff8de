-- ===== src/Watch/Laws.antt =====
-- What `WatchUntil` waits for.
use clusteradm.Base.{
  ◌≡◌, refl, subst, ◌↔◌, inl, inr, Bool, true, List, [], ◌∷◌, In, arith, Bool-cases,
}
use clusteradm.Effect.{Result, ok, err}
use clusteradm.Errors.{Errors}
use clusteradm.Watch.{watch_events, watch_until}

module _ (X : Errors) {Ev : Type 0} (assert_event : Ev → Bool) where
  watch_events_seen :
      (events : List Ev)
      → watch_events X assert_event events ≡ ok tt
      → (event : Ev) × In event events × (assert_event event ≡ true)
  unfolding watch_events
  watch_events_seen [] h = absurd (cc)
  watch_events_seen (event ∷ events) h = elim (Bool-cases (assert_event event)) [
    | inl e ↦ (event, inl refl, e)
    | inr e ↦ let (later, i, f) = watch_events_seen events (rw e at h) in (later, inr i, f)
  ]

  watch_events_ok :
      (events : List Ev) (event : Ev)
      → In event events
      → assert_event event ≡ true
      → watch_events X assert_event events ≡ ok tt
  unfolding watch_events
  watch_events_ok [] event i e = elim i [ ]
  watch_events_ok (other ∷ events) event (inl same) e = rw (← same, e)
  watch_events_ok (other ∷ events) event (inr i) e =
      ground (arith, watch_events_ok events event i e)

  -- `WatchUntil` answers nil exactly when the watch started and an event that satisfies the assertion
  -- came before the channel was closed.
  pub watch_until_iff :
      (r : Result X.Error (List Ev))
      → (watch_until X r assert_event ≡ ok tt) ↔ (
          (events : List Ev) × (event : Ev) × (r ≡ ok events)
          × In event events
          × (assert_event event ≡ true))
  unfolding watch_until
  watch_until_iff (err e) = ((λ h. absurd (cc)), (λ x. absurd (cc (x.2))))
  watch_until_iff (ok events) = (
    (λ h. let (event, i, e) = watch_events_seen events h in (events, event, refl, i, e)),
    (λ (seen, event, same, i, e).
        let listed : seen ≡ events = cc in
        watch_events_ok events event (subst (λ l. In event l) listed i) e),
  )
