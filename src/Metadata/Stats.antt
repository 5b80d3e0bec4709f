-- ===== src/Metadata/Stats.antt =====
-- internal/metadata/stats.go: the table of statistics, as the list of its rows in the order of their
-- insertion. A timestamp is its number of seconds, in whose order the texts of the table stand; all
-- values that are recorded are integers. The order that a query asks for, and whether the database
-- executes a statement, are arguments.
pub mod Series
mod Tests
use warpbox_custom.Prelude.{
  ℕ, ◌-◌, ◌≡◌, Bool, true, false, not, ◌&&◌, Option, none, some, List, [], ◌∷◌, ◌++◌, map, Text,
  text_eq, text_eq_instance, ltb, if◌then◌else◌, length, keep, lookup, insert, ℤ, Result, ok, err,
}

pub record StatsRecord : Type 0 where
  pub timestamp : ℕ
  pub metric : Text
  pub value : ℤ

abbrev pub Table : Type 0
Table = List StatsRecord

abbrev pub row_at : ℕ → Text × ℤ → StatsRecord
row_at now x = record { timestamp = now; metric = x.0; value = x.1 }

-- `RecordStats`, for the metrics in the order in which Go visits their map. An error of the
-- transaction, of a statement or of the commit rolls all back.
unfoldable pub record_stats : Option Text → ℕ → List (Text × ℤ) → Table → Option Text × Table
record_stats (some e) now metrics rows = (some e, rows)
record_stats none now metrics rows = (none, rows ++ map (row_at now) metrics)

-- The conditions of the statements.
abbrev pub is_since : ℕ → StatsRecord → Bool
is_since since r = not (ltb r.timestamp since)

abbrev pub is_of : Text → StatsRecord → Bool
is_of metric r = text_eq r.metric metric

-- `QueryStats`
unfoldable pub query_stats :
    Option Text
    → (order : Table → Table) → (metric : Text) → (since : ℕ) → Table
    → Result Text Table
query_stats (some e) order metric since rows = err e
query_stats none order metric since rows =
    ok (order (keep (λ r. is_of metric r && is_since since r) rows))

-- The value of a map at a key: nothing, if the key is not there.
abbrev pub records_of : Option Table → Table
records_of none = []
records_of (some records) = records

-- The loop of `QueryAllStatsSince` over the rows of the query.
unfoldable pub group_records : Table → List (Text × Table) → List (Text × Table)
group_records [] m = m
group_records (r ∷ rows) m =
    group_records rows (insert r.metric (records_of (lookup r.metric m) ++ r ∷ []) m)

unfoldable pub query_all_stats_since :
    Option Text → (order : Table → Table) → (since : ℕ) → Table → Result Text (List (Text × Table))
unfolding group_records
query_all_stats_since (some e) order since rows = err e
query_all_stats_since none order since rows =
    ok (group_records (order (keep (is_since since) rows)) [])

-- `PruneStats`: the number of the rows before the cutoff, which are deleted.
unfoldable pub prune_stats : Option Text → (cutoff : ℕ) → Table → Result Text ℕ × Table
prune_stats (some e) cutoff rows = (err e, rows)
prune_stats none cutoff rows =
    let left = keep (is_since cutoff) rows in (ok (length rows - length left), left)
