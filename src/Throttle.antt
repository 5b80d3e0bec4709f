-- ===== src/Throttle.antt =====
-- internal/throttle/queue.go: the rate-limited queue in front of the TorBox API.
-- Times are nanoseconds since Go's zero time, which is 0. `t.After(now.Add(-d))` is written
-- `now < t + d`, so nothing is subtracted. Counters (int64) do not reach their bound.
pub mod Invariant
pub mod Rate
mod Tests
use warpbox_custom.Prelude.{
  ℕ, ◌+◌, ◌-◌, ◌/◌, ◌≤◌, ◌≡◌, Bool, true, false, Option, none, some, List, [], ◌∷◌, ◌++◌, Text, ltb,
  length, keep, if◌then◌else◌,
}

abbrev pub minute : ℕ
minute = 60_000_000_000

abbrev pub queue_buffer_size : ℕ
queue_buffer_size = 1024

-- The callback `Execute` runs outside the queue: its duration and its error are given to `process`.
pub record Request : Type 0 where
  pub label : Text

-- `items` is the buffered channel, its oldest request first.
pub record Queue : Type 0 where
  pub items : List Request
  pub rate : ℕ
  pub last_call : ℕ
  pub total_calls : ℕ
  pub call_window : List ℕ
  pub successful_calls : ℕ
  pub failed_calls : ℕ
  pub http429_calls : ℕ

pub record Stats : Type 0 where
  pub total_calls : ℕ
  pub successful_calls : ℕ
  pub failed_calls : ℕ
  pub http429_calls : ℕ
  pub calls_last_minute : ℕ
  pub requests_per_minute : ℕ

unfoldable pub new_queue : ℕ → Queue
new_queue requests_per_minute = record {
  items = [];
  rate = minute / requests_per_minute;
  last_call = 0;
  total_calls = 0;
  call_window = [];
  successful_calls = 0;
  failed_calls = 0;
  http429_calls = 0;
}

-- `t.After(now.Add(-60 * time.Second))`
abbrev pub is_recent : ℕ → ℕ → Bool
is_recent now t = ltb now (t + minute)

-- The loop of `Stats` over the window.
unfoldable pub count_recent : ℕ → List ℕ → ℕ
count_recent now [] = 0
count_recent now (t ∷ ts) =
    let rest = count_recent now ts in if is_recent now t then rest + 1 else rest

unfoldable pub stats : ℕ → Queue → Stats
stats now q = record {
  total_calls = q.total_calls;
  successful_calls = q.successful_calls;
  failed_calls = q.failed_calls;
  http429_calls = q.http429_calls;
  calls_last_minute = count_recent now q.call_window;
  requests_per_minute = minute / q.rate;
}

-- `none` is a caller that blocks on the full channel.
unfoldable pub enqueue : Request → Queue → Option Queue
enqueue r q =
    if ltb (length q.items) queue_buffer_size
    then some (record q { items = q.items ++ r ∷ [] })
    else none

-- `r := <-q.items`; `none` is a loop that blocks on the empty channel.
unfoldable pub receive : Queue → Option (Request × Queue)
receive q = elim q.items [ [] ↦ none | r ∷ rest ↦ some (r, record q { items = rest }) ]

-- When the call starts, if its request was received at `now`: `time.After(d)` fires `late` after d.
unfoldable pub start_time : (now late : ℕ) → Queue → ℕ
start_time now late q =
    let elapsed = now - q.last_call in
    if ltb elapsed q.rate then now + (q.rate - elapsed) + late else now

-- The loop that trims the window: `callWindow[0].Before(cutoff)`.
unfoldable pub trim : ℕ → List ℕ → List ℕ
trim last [] = []
trim last (t ∷ ts) = elim (ltb (t + minute) last) [ true ↦ trim last ts | false ↦ t ∷ ts ]

-- The bookkeeping after `r.Execute(ctx)` has returned at the time `done`.
unfoldable pub complete : ℕ → Option Text → Queue → Queue
unfolding trim
complete done err q =
    let q' = record q { last_call = done; total_calls = q.total_calls + 1 } in
    let counted : Queue = elim err [
      | some e ↦ record q' { failed_calls = q.failed_calls + 1 }
      | none ↦ record q' { successful_calls = q.successful_calls + 1 }
    ] in
    record counted { call_window = trim done (q.call_window ++ done ∷ []) }

-- One round of `processLoop` whose context is not cancelled.
unfoldable pub process : (now late took : ℕ) → Option Text → Queue → Queue
unfolding start_time complete
process now late took err q = complete (start_time now late q + took) err q

unfoldable pub record_429 : Queue → Queue
record_429 q = record q { http429_calls = q.http429_calls + 1 }

-- What happened to the requests: those accepted, those received, and when the calls finished.
pub record History : Type 0 where
  pub accepted : List Request
  pub received : List Request
  pub finished : List ℕ

-- The states that callers, the processing loop and the clock can reach. The clock does not run
-- backwards, and a context cancelled during the wait drops the request that was received.
pub data Reach (requests_per_minute : ℕ) : Queue → History → Type 0 where
  start :
      Reach requests_per_minute
        (new_queue requests_per_minute)
        (record { accepted = []; received = []; finished = [] })
  enqueued :
      {q q' : Queue} {h : History} (r : Request)
      → Reach requests_per_minute q h
      → enqueue r q ≡ some q'
      → Reach requests_per_minute q' (record h { accepted = h.accepted ++ r ∷ [] })
  processed :
      {q q' : Queue} {h : History} (r : Request) (now late took : ℕ) (err : Option Text)
      → Reach requests_per_minute q h
      → receive q ≡ some (r, q')
      → q'.last_call ≤ now
      → Reach requests_per_minute (process now late took err q') (record h {
        received = h.received ++ r ∷ [];
        finished = h.finished ++ (start_time now late q' + took) ∷ [];
      })
  cancelled :
      {q q' : Queue} {h : History} (r : Request)
      → Reach requests_per_minute q h
      → receive q ≡ some (r, q')
      → Reach requests_per_minute q' (record h { received = h.received ++ r ∷ [] })
  limited :
      {q : Queue} {h : History}
      → Reach requests_per_minute q h
      → Reach requests_per_minute (record_429 q) h
