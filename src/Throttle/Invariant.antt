-- ===== src/Throttle/Invariant.antt =====
-- What holds of the queue in every reachable state: counters, window, and the order of requests.
use warpbox_custom.Prelude.{
  ℕ, ◌+◌, ◌≤◌, ◌≡◌, refl, Option, none, some, List, [], ◌∷◌, ◌++◌, append_assoc, arith, length,
  length-append, Text, All, sym,
}
use warpbox_custom.Throttle.{
  Queue, Request, History, Reach, minute, queue_buffer_size, new_queue, enqueue, receive, process,
  start_time, complete, trim, record_429,
}

-- Times that ascend by at least `rate`, from `lo` on.
abbrev pub Spaced : ℕ → ℕ → List ℕ → Type 0
Spaced rate lo [] = Unit
Spaced rate lo (t ∷ ts) = (lo ≤ t) × Spaced rate (t + rate) ts

abbrev pub NoneAfter : ℕ → List ℕ → Type 0
NoneAfter hi = All λ t. t ≤ hi

-- No time is so old that the window drops it.
abbrev pub Fresh : ℕ → List ℕ → Type 0
Fresh last = All λ t. last ≤ t + minute

Spaced-weaken : (rate lo lo' : ℕ) (ts : List ℕ) → lo' ≤ lo → Spaced rate lo ts → Spaced rate lo' ts
Spaced-weaken rate lo lo' [] h s = tt
Spaced-weaken rate lo lo' (t ∷ ts) h s = (omega arith, s.1)

Spaced-snoc :
    (rate lo hi x : ℕ) (ts : List ℕ)
    → Spaced rate lo ts
    → NoneAfter hi ts
    → hi + rate ≤ x
    → lo ≤ x
    → Spaced rate lo (ts ++ x ∷ [])
Spaced-snoc rate lo hi x [] s b h l = (l, tt)
Spaced-snoc rate lo hi x (t ∷ ts) s b h l =
    (s.0, Spaced-snoc rate (t + rate) hi x ts s.1 b.1 h (omega arith))

NoneAfter-snoc : (hi x : ℕ) (ts : List ℕ) → NoneAfter hi ts → hi ≤ x → NoneAfter x (ts ++ x ∷ [])
NoneAfter-snoc hi x [] b h = omega arith
NoneAfter-snoc hi x (t ∷ ts) b h = (omega arith, NoneAfter-snoc hi x ts b.1 h)

NoneAfter-trim : (last hi : ℕ) (ts : List ℕ) → NoneAfter hi ts → NoneAfter hi (trim last ts)
unfolding trim
NoneAfter-trim last hi [] b = tt
NoneAfter-trim last hi (t ∷ ts) b = ground (arith, NoneAfter-trim last hi ts)

Spaced-trim : (last rate lo : ℕ) (ts : List ℕ) → Spaced rate lo ts → Spaced rate lo (trim last ts)
unfolding trim
Spaced-trim last rate lo [] s = tt
Spaced-trim last rate lo (t ∷ ts) s =
    ground (arith, Spaced-trim last rate lo ts, Spaced-weaken rate (t + rate) lo ts)

Fresh-of-Spaced :
    (last rate t : ℕ) (ts : List ℕ) → last ≤ t + minute → Spaced rate t ts → Fresh last ts
Fresh-of-Spaced last rate t [] h s = tt
Fresh-of-Spaced last rate t (u ∷ ts) h s =
    (omega arith, Fresh-of-Spaced last rate (u + rate) ts (omega arith) s.1)

Fresh-trim : (last rate lo : ℕ) (ts : List ℕ) → Spaced rate lo ts → Fresh last (trim last ts)
unfolding trim
Fresh-trim last rate lo [] s = tt
Fresh-trim last rate lo (t ∷ ts) s =
    ground (arith, Fresh-trim last rate (t + rate) ts, Fresh-of-Spaced last rate (t + rate) ts)

pub record Inv (rate : ℕ) (q : Queue) : Type 0 where
  pub same_rate : q.rate ≡ rate
  pub counted : q.total_calls ≡ q.successful_calls + q.failed_calls
  pub buffered : length q.items ≤ queue_buffer_size
  pub past : NoneAfter q.last_call q.call_window
  pub spaced : Spaced rate 0 q.call_window
  pub fresh : Fresh q.last_call q.call_window

pub start_time-ge :
    (now late : ℕ) (q : Queue) → q.last_call ≤ now → q.last_call + q.rate ≤ start_time now late q
unfolding start_time
start_time-ge now late q h = ground arith

new_queue-Inv : (rpm : ℕ) → Inv (new_queue rpm).rate (new_queue rpm)
unfolding new_queue
new_queue-Inv rpm = ground arith

enqueue-Inv :
    (rate : ℕ) (r : Request) (q q' : Queue) → Inv rate q → enqueue r q ≡ some q' → Inv rate q'
unfolding enqueue
enqueue-Inv rate r q q' v e = ground (arith, length-append q.items (r ∷ []))

receive-Inv :
    (rate : ℕ) (r : Request) (q q' : Queue) → Inv rate q → receive q ≡ some (r, q') → Inv rate q'
unfolding receive
receive-Inv rate r q q' v e = ground arith

complete-Inv :
    (rate done : ℕ) (err : Option Text) (q : Queue)
    → Inv rate q
    → q.last_call + rate ≤ done
    → Inv rate (complete done err q)
unfolding complete
complete-Inv rate done err q v h =
    let window = q.call_window ++ done ∷ [] in
    let s : Spaced rate 0 window =
      Spaced-snoc rate 0 q.last_call done q.call_window v.spaced v.past h (omega arith) in
    let p : NoneAfter done window =
      NoneAfter-snoc q.last_call done q.call_window v.past (omega arith) in
    let s' = Spaced-trim done rate 0 window s in
    let p' = NoneAfter-trim done done window p in
    let f = Fresh-trim done rate 0 window s in
    elim err as (λ e. Inv rate (complete done e q)) [
      | some e ↦ record {
        same_rate = v.same_rate;
        counted = omega arith;
        buffered = v.buffered;
        past = p';
        spaced = s';
        fresh = f;
      }
      | none ↦ record {
        same_rate = v.same_rate;
        counted = omega arith;
        buffered = v.buffered;
        past = p';
        spaced = s';
        fresh = f;
      }
    ]

process-Inv :
    (rate now late took : ℕ) (err : Option Text) (q : Queue)
    → Inv rate q
    → q.last_call ≤ now
    → Inv rate (process now late took err q)
unfolding process
process-Inv rate now late took err q v h =
    complete-Inv rate (start_time now late q + took) err q v
      (omega (arith, start_time-ge now late q h))

record_429-Inv : (rate : ℕ) (q : Queue) → Inv rate q → Inv rate (record_429 q)
unfolding record_429
record_429-Inv rate q v = ground arith

-- In every reachable state the counters add up, the channel is within its buffer, and the calls of
-- the window are spaced by the rate and none is older than a minute before the last call.
pub Reach-Inv : (rpm : ℕ) {q : Queue} {h : History} → Reach rpm q h → Inv (new_queue rpm).rate q
Reach-Inv rpm Reach.start = new_queue-Inv rpm
Reach-Inv rpm (Reach.enqueued {q} {q'} r s e) =
    enqueue-Inv (new_queue rpm).rate r q q' (Reach-Inv rpm s) e
Reach-Inv rpm (Reach.processed {q} {q'} r now late took err s e later) =
    process-Inv (new_queue rpm).rate now late took err q'
      (receive-Inv (new_queue rpm).rate r q q' (Reach-Inv rpm s) e) later
Reach-Inv rpm (Reach.cancelled {q} {q'} r s e) =
    receive-Inv (new_queue rpm).rate r q q' (Reach-Inv rpm s) e
Reach-Inv rpm (Reach.limited {q} s) = record_429-Inv (new_queue rpm).rate q (Reach-Inv rpm s)

enqueue_items : (r : Request) (q q' : Queue) → enqueue r q ≡ some q' → q'.items ≡ q.items ++ r ∷ []
unfolding enqueue
enqueue_items r q q' e = ground arith

receive_items : (r : Request) (q q' : Queue) → receive q ≡ some (r, q') → q.items ≡ r ∷ q'.items
unfolding receive
receive_items r q q' e = ground arith

process_items :
    (now late took : ℕ) (err : Option Text) (q : Queue)
    → (process now late took err q).items ≡ q.items
unfolding process
process_items now late took none q = refl
process_items now late took (some e) q = refl

received_next :
    (r : Request) (before rest items accepted : List Request)
    → accepted ≡ before ++ items
    → items ≡ r ∷ rest
    → accepted ≡ (before ++ r ∷ []) ++ rest
received_next r before rest items accepted a e = rw (a, e) (sym (append_assoc before (r ∷ []) rest))

-- The processing loop receives requests in the order in which they were accepted: those accepted
-- are those received, followed by those still in the channel.
pub Reach-fifo :
    (rpm : ℕ) {q : Queue} {h : History} → Reach rpm q h → h.accepted ≡ h.received ++ q.items
unfolding new_queue record_429
Reach-fifo rpm Reach.start = refl
Reach-fifo rpm (Reach.enqueued {q} {q'} {h} r s e) =
    rw (enqueue_items r q q' e, Reach-fifo rpm s) (append_assoc h.received q.items (r ∷ []))
Reach-fifo rpm (Reach.processed {q} {q'} {h} r now late took err s e later) =
    rw (process_items now late took err q') (
      received_next r h.received q'.items q.items h.accepted (Reach-fifo rpm s)
        (receive_items r q q' e))
Reach-fifo rpm (Reach.cancelled {q} {q'} {h} r s e) =
    received_next r h.received q'.items q.items h.accepted (Reach-fifo rpm s)
      (receive_items r q q' e)
Reach-fifo rpm (Reach.limited s) = Reach-fifo rpm s
