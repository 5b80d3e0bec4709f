-- ===== src/Server/Recording.antt =====
-- The recording of statistics in internal/server/server.go: recordStats, its tick in
-- startCleanupLoop, and the points of handleStatsJSON. The numbers of the Go runtime are arguments.
pub mod Deltas
mod Tests
use warpbox_custom.Prelude.{
  ℕ, ◌+◌, ◌-◌, ◌*◌, ◌/◌, ◌%◌, ◌^◌, Bool, true, false, Option, none, some, List, [], ◌∷◌, map, Text,
  codes, ltb, if◌then◌else◌, length, ℤ, pos, ◌-ℤ◌, Result, ok, err,
}
use warpbox_custom.Throttle.{Queue, Stats}
use warpbox_custom.Throttle
use warpbox_custom.Metadata.Store.{Store}
use warpbox_custom.Metadata.Stats.{
  StatsRecord, Table, record_stats, query_all_stats_since, prune_stats,
}
use warpbox_custom.Server.Fetch.{Caches}

-- The fields of `runtime.MemStats` that are read.
pub record MemStats : Type 0 where
  pub sys : ℕ
  pub alloc : ℕ
  pub heap_objects : ℕ
  pub num_gc : ℕ

-- The counters at the last recording.
pub record Previous : Type 0 where
  pub successful_calls : ℕ
  pub failed_calls : ℕ
  pub http429_calls : ℕ
  pub db_lock_errors : ℕ
  pub num_gc : ℕ

abbrev pub no_counts : Previous
no_counts = record {
  successful_calls = 0;
  failed_calls = 0;
  http429_calls = 0;
  db_lock_errors = 0;
  num_gc = 0;
}

-- What a recording reads: the time, the runtime, the queue, the store and the caches.
pub record Snapshot : Type 0 where
  pub now : ℕ
  pub mem : MemStats
  pub queue : Queue
  pub store : Store
  pub caches : Caches

-- `uint32` subtraction
abbrev pub sub32 : ℕ → ℕ → ℕ
sub32 a b = (a % 2 ^ 32 + 2 ^ 32 - b % 2 ^ 32) % 2 ^ 32

abbrev pub mib : ℕ
mib = 1024 * 1024

-- The map of the metrics: the changes of the counters, and the gauges.
unfoldable pub metrics_of : Previous → Throttle.Stats → Snapshot → List (Text × ℤ)
metrics_of prev t x =
    (codes "api_calls_success", pos t.successful_calls -ℤ pos prev.successful_calls)
    ∷ (codes "api_calls_failed", pos t.failed_calls -ℤ pos prev.failed_calls)
    ∷ (codes "api_calls_429", pos t.http429_calls -ℤ pos prev.http429_calls)
    ∷ (codes "db_lock_errors", pos x.store.lock_errors -ℤ pos prev.db_lock_errors)
    ∷ (codes "gc_cycles", pos (sub32 x.mem.num_gc prev.num_gc))
    ∷ (codes "sys_mb", pos (x.mem.sys / mib))
    ∷ (codes "alloc_mb", pos (x.mem.alloc / mib))
    ∷ (codes "heap_objects", pos x.mem.heap_objects)
    ∷ (codes "negative_cache_entries", pos (length x.caches.negative_cache))
    ∷ (codes "circuit_breaker_entries", pos (length x.caches.torrent_failures))
    ∷ []

abbrev pub counts_of : Throttle.Stats → Snapshot → Previous
counts_of t x = record {
  successful_calls = t.successful_calls;
  failed_calls = t.failed_calls;
  http429_calls = t.http429_calls;
  db_lock_errors = x.store.lock_errors;
  num_gc = x.mem.num_gc;
}

pub record Recorder : Type 0 where
  pub previous : Previous
  pub table : Table

-- `recordStats`, with the order in which Go visits the metrics and the error of the database: the
-- previous counters are set before the rows are written.
unfoldable pub record_snapshot :
    (visits : List (Text × ℤ) → List (Text × ℤ)) → Option Text → Snapshot → Recorder → Recorder
unfolding metrics_of
record_snapshot visits e x s =
    let t = Throttle.stats x.now x.queue in
    record {
      previous = counts_of t x;
      table = (record_stats e x.now (visits (metrics_of s.previous t x)) s.table).1;
    }

-- A tick of the statistics: the retention is a number of seconds, and 0 keeps all.
unfoldable pub stats_tick :
    (retention : ℕ)
    → (visits : List (Text × ℤ) → List (Text × ℤ)) → (e e' : Option Text) → (later : ℕ) → Snapshot
    → Recorder
    → Recorder
unfolding record_snapshot
stats_tick retention visits e e' later x s =
    let s' = record_snapshot visits e x s in
    if ltb 0 retention
    then record s' { table = (prune_stats e' (later - retention) s'.table).1 }
    else s'

-- The window of `handleStatsJSON`, in minutes.
abbrev pub chart_minutes : ℤ → ℕ
chart_minutes (pos n) = if ltb 0 n then n else 60
chart_minutes _ = 60

-- The points of each metric: the times and the values of its records; an error is the reply 500.
abbrev pub points_of : List (Text × Table) → List (Text × List (ℕ × ℤ))
points_of grouped =
    map (λ (g : Text × Table). (g.0, map (λ (r : StatsRecord). (r.timestamp, r.value)) g.1)) grouped

unfoldable pub stats_json :
    Option Text
    → (order : Table → Table) → (minutes : ℤ) → (now : ℕ) → Table
    → Result Text (List (Text × List (ℕ × ℤ)))
stats_json e order minutes now rows =
    elim (query_all_stats_since e order (now - chart_minutes minutes * 60) rows) [
      | err message ↦ err message
      | ok grouped ↦ ok (points_of grouped)
    ]
