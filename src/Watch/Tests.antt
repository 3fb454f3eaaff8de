-- ===== src/Watch/Tests.antt =====
-- A watch that sees the awaited event.
use clusteradm.Base.{◌≡◌, refl, Bool, true, false, List, [], ◌∷◌}
use clusteradm.Effect.{Result, ok}
use clusteradm.Errors.{Status, status_errors}
use clusteradm.Hub.{WatchEvent, modified, deleted}
use clusteradm.Watch.{watch_until, watch_events}

abbrev is_deleted : WatchEvent → Bool
is_deleted deleted = true
is_deleted _ = false

abbrev seen : Result Status (List WatchEvent)
seen = ok (modified ∷ deleted ∷ [])

test_seen : watch_until status_errors seen is_deleted ≡ ok tt
unfolding watch_until watch_events
test_seen = refl
