-- ===== src/Watch/Tests.antt =====
-- Watchers at concrete words.
use riss.Base.{◌≡◌, ◌==◌, true, false, arith}
use riss.Watch.{
  mk_watcher, blocker, set_blocker, is_binary, is_long, match_watch_type, mk_watcher_round_trip,
  set_blocker_drops_type,
}

mk_watcher_round_trip_example :
    (blocker (mk_watcher 9 7 1) ≡ 7)
    × (is_binary (mk_watcher 9 7 1) ≡ (1 == 0))
    × (is_long (mk_watcher 9 7 1) ≡ (1 == 1))
    × (match_watch_type (mk_watcher 9 7 1) 2 ≡ (1 == 2))
mk_watcher_round_trip_example =
    mk_watcher_round_trip 9 7 1 2 (omega arith) (omega arith) (omega arith)

set_blocker_drops_type_example :
    (blocker (set_blocker (mk_watcher 9 7 1) 4) ≡ 4)
    × (is_binary (set_blocker (mk_watcher 9 7 1) 4) ≡ true)
    × (is_long (set_blocker (mk_watcher 9 7 1) 4) ≡ false)
set_blocker_drops_type_example = set_blocker_drops_type (mk_watcher 9 7 1) 4 (omega arith)
