-- ===== src/Server/Breaker/Tests.antt =====
-- The breaker at concrete failures, and its theorems there.
use warpbox_custom.Prelude.{
  ℕ, ◌+◌, ◌*◌, ◌≡◌, refl, true, List, [], ◌∷◌, arith, lookup, insert, if◌then◌else◌, nat_eq, length,
  leb,
}
use warpbox_custom.Server.Config.{minute}
use warpbox_custom.Server.Samples.{defaults}
use warpbox_custom.Server.Breaker.{
  Trackers, is_torrent_stale, prune, tracker_of, record_torrent_failure,
}
use warpbox_custom.Server.Breaker.Window.{
  recent, stale_until, record_all, last_of, record_all-window, breaker_opens,
}

abbrev noon : ℕ
noon = 1_000_000_000_000

abbrev four : List ℕ
four = noon ∷ (noon + 1) ∷ (noon + 2) ∷ (noon + 3) ∷ []

abbrev after_four : Trackers
after_four = record_all defaults 7 four []

record_all-window_example :
    (tracker_of (lookup 7 after_four)).failures ≡ recent defaults (last_of noon four) four
record_all-window_example =
    record_all-window defaults 7 noon ((noon + 1) ∷ (noon + 2) ∷ (noon + 3) ∷ []) [] (omega arith)
      (omega arith) (unfold lookup in refl)

breaker_opens_example :
    let tracker = tracker_of (lookup 7 after_four) in
    let m' = record_torrent_failure defaults (noon + 4) 7 after_four in
    is_torrent_stale (noon + 5) 7 m'
    ≡ stale_until
        (if leb defaults.circuit_breaker_failures
            (length (recent defaults (noon + 4) tracker.failures) + 1)
          then noon + 4 + defaults.circuit_breaker_stale_min * minute
          else tracker.stale_until)
        (noon + 5)
        7
        m'
breaker_opens_example = breaker_opens defaults (noon + 4) 7 (noon + 5) after_four

-- The fifth failure opens the breaker.
fifth_opens :
    (is_torrent_stale (noon + 5) 7 (record_torrent_failure defaults (noon + 4) 7 after_four)).0
    ≡ true
unfolding lookup insert record_torrent_failure prune is_torrent_stale
fifth_opens = refl
