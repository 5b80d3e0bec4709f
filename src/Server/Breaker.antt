-- ===== src/Server/Breaker.antt =====
-- The circuit breaker of internal/server/get.go: `isTorrentStale` and `recordTorrentFailure`.
-- Times are nanoseconds since Go's zero time, which is 0 and stands for "not stale".
pub mod Window
mod Tests
use warpbox_custom.Prelude.{
  ℕ, ◌+◌, ◌*◌, ◌≡◌, Bool, true, false, not, Option, none, some, List, [], ◌∷◌, ◌++◌, ltb, leb, ◌==◌,
  if◌then◌else◌, length, keep, lookup, insert, delete, nat_eq,
}
use warpbox_custom.Server.Config.{Config, second, minute}

-- `torrentFailureTracker`
pub record Tracker : Type 0 where
  pub failures : List ℕ
  pub stale_until : ℕ

abbrev pub Trackers : Type 0
Trackers = List (ℕ × Tracker)

-- Whether the item is stale at the time `now`, and the map afterwards.
unfoldable pub is_torrent_stale : (now item : ℕ) → Trackers → Bool × Trackers
is_torrent_stale now item trackers = elim (lookup item trackers) [
  | none ↦ (false, trackers)
  | some tracker ↦
      if tracker.stale_until == 0
      then (false, trackers)
      else if ltb now tracker.stale_until
      then (true, trackers)
      else (false, delete item trackers)
]

-- `t.After(now.Add(-window))`
abbrev pub is_active : Config → ℕ → ℕ → Bool
is_active cfg now t = ltb now (t + cfg.circuit_breaker_window_sec * second)

-- The loop that prunes the failures outside the sliding window.
unfoldable pub prune : Config → ℕ → List ℕ → List ℕ
prune cfg now = keep (is_active cfg now)

abbrev pub tracker_of : Option Tracker → Tracker
tracker_of none = record { failures = []; stale_until = 0 }
tracker_of (some tracker) = tracker

-- The update of one tracker.
unfoldable pub add_failure : Config → ℕ → Tracker → Tracker
unfolding prune
add_failure cfg now tracker =
    let active = prune cfg now tracker.failures ++ now ∷ [] in
    record {
      failures = active;
      stale_until =
          if leb cfg.circuit_breaker_failures (length active)
          then now + cfg.circuit_breaker_stale_min * minute
          else tracker.stale_until;
    }

unfoldable pub record_torrent_failure : Config → (now item : ℕ) → Trackers → Trackers
unfolding add_failure
record_torrent_failure cfg now item trackers =
    insert item (add_failure cfg now (tracker_of (lookup item trackers))) trackers
