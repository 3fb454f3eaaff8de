-- ===== src/Watch.antt =====
-- `WatchUntil` of pkg/helpers/client.go.
pub mod Laws
mod Tests
use clusteradm.Base.{Bool, true, false, List, [], ◌∷◌, if◌then◌else◌}
use clusteradm.Effect.{Result, ok, err}
use clusteradm.Errors.{Errors}

module _ (X : Errors) where
  open X use {Error, errorf}

  -- The loop over the events of the channel, which ends with its events when it is closed.
  unfoldable pub watch_events : {Ev : Type 0} → (Ev → Bool) → List Ev → Result Error (Unit {0})
  watch_events assert_event [] = err (errorf "unexpected watch event received")
  watch_events assert_event (event ∷ events) =
      let rest = watch_events assert_event events in if assert_event event then ok tt else rest

  -- `WatchUntil`, by what the start of the watch answered
  unfoldable pub watch_until :
      {Ev : Type 0} → Result Error (List Ev) → (Ev → Bool) → Result Error (Unit {0})
  watch_until (err e) assert_event = err e
  watch_until (ok events) assert_event = watch_events assert_event events
