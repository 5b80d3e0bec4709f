-- ===== src/Throttle/Tests.antt =====
-- Runs of the throttle queue at concrete inputs, and its theorems there.
use warpbox_custom.Prelude.{ℕ, ◌+◌, ◌≤◌, ◌≡◌, refl, none, [], ◌∷◌, ◌++◌, arith, codes}
use warpbox_custom.Throttle.{
  Queue, Request, History, Reach, new_queue, enqueue, receive, process, stats,
}
use warpbox_custom.Throttle.Invariant.{Inv, Reach-Inv, Reach-fifo}
use warpbox_custom.Throttle.Rate.{calls_last_minute-le}

abbrev fetch : Request
fetch = record { label = codes "fetch" }

-- The clock, far from Go's zero time.
abbrev noon : ℕ
noon = 1_000_000_000_000

abbrev waiting : Queue
waiting = record {
  items = fetch ∷ [];
  rate = 240_000_000;
  last_call = 0;
  total_calls = 0;
  call_window = [];
  successful_calls = 0;
  failed_calls = 0;
  http429_calls = 0;
}

abbrev idle : Queue
idle = record waiting { items = [] }

abbrev called : Queue
called = process noon 0 5 none idle

abbrev one_call : History
one_call = record { accepted = fetch ∷ []; received = fetch ∷ []; finished = (noon + 5) ∷ [] }

called_state : called ≡ record idle {
  last_call = noon + 5;
  total_calls = 1;
  call_window = (noon + 5) ∷ [];
  successful_calls = 1;
}
unfolding process
called_state = refl

-- A request received too soon after the last call waits for the rest of the interval.
second_waits : (process (noon + 10) 0 0 none called).last_call ≡ noon + 5 + 240_000_000
unfolding process
second_waits = refl

one_call-Reach : Reach 250 called one_call
unfolding new_queue enqueue receive process
one_call-Reach =
    Reach.processed fetch noon 0 5 none (Reach.enqueued {q' = waiting} fetch Reach.start refl) refl
      (omega arith)

Reach-Inv_example : Inv (new_queue 250).rate called
Reach-Inv_example = Reach-Inv 250 one_call-Reach

Reach-fifo_example : one_call.accepted ≡ one_call.received ++ called.items
Reach-fifo_example = Reach-fifo 250 one_call-Reach

calls_last_minute-le_example : (stats (noon + 7) called).calls_last_minute ≤ 250 + 1
calls_last_minute-le_example =
    calls_last_minute-le 250 (noon + 7) (omega arith) (omega arith) one_call-Reach
