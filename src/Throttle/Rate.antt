-- ===== src/Throttle/Rate.antt =====
-- The rate limit: how many calls fit in a minute, and what `Stats` counts.
use warpbox_custom.Prelude.{
  ℕ, ◌+◌, ◌*◌, ◌/◌, ◌≤◌, ◌<◌, ◌≡◌, refl, ap, Option, none, some, List, [], ◌∷◌, ◌++◌, arith, length,
  Text,
}
use warpbox_custom.Throttle.{
  Queue, Request, History, Reach, minute, new_queue, enqueue, receive, process, start_time, trim,
  record_429, count_recent, stats,
}
use warpbox_custom.Throttle.Invariant.{Spaced, NoneAfter, Fresh, Reach-Inv, start_time-ge}

count_recent-le : (now : ℕ) (ts : List ℕ) → count_recent now ts ≤ length ts
unfolding count_recent
count_recent-le now [] = omega arith
count_recent-le now (t ∷ ts) = ground (arith, count_recent-le now ts)

length-Spaced :
    (rate lo hi : ℕ) (t : ℕ) (ts : List ℕ)
    → Spaced rate lo (t ∷ ts)
    → NoneAfter hi (t ∷ ts)
    → lo + length ts * rate ≤ hi
length-Spaced rate lo hi t [] s b = omega arith
length-Spaced rate lo hi t (u ∷ ts) s b =
    let ih = length-Spaced rate (t + rate) hi u ts s.1 b.1 in grind arith

window_span :
    (rate hi : ℕ) (t : ℕ) (ts : List ℕ)
    → Spaced rate 0 (t ∷ ts)
    → NoneAfter hi (t ∷ ts)
    → Fresh hi (t ∷ ts)
    → length ts * rate ≤ minute
window_span rate hi t ts s b f =
    let own : t ≤ t = omega arith in omega (arith, length-Spaced rate t hi t ts (own, s.1) b, f.0)

rate-ge : (rpm : ℕ) → 0 < rpm → rpm ≤ 1000 → 1000 ≤ minute / rpm
rate-ge rpm p b = grind arith

few : (rpm n : ℕ) → 0 < rpm → rpm ≤ 1000 → n * (minute / rpm) ≤ minute → n ≤ rpm
few rpm n p b h = grind (arith, rate-ge rpm p b)

few_in_window :
    (rpm hi : ℕ) (ts : List ℕ)
    → 0 < rpm
    → rpm ≤ 1000
    → Spaced (minute / rpm) 0 ts
    → NoneAfter hi ts
    → Fresh hi ts
    → length ts ≤ rpm + 1
few_in_window rpm hi [] p b s n f = omega arith
few_in_window rpm hi (t ∷ ts) p b s n f =
    omega (arith, few rpm (length ts) p b (window_span (minute / rpm) hi t ts s n f))

new_queue_rate : (rpm : ℕ) → (new_queue rpm).rate ≡ minute / rpm
unfolding new_queue
new_queue_rate rpm = refl

-- In every reachable state of a queue made for 1 to 1000 requests per minute, `Stats` reports at
-- any time at most one call more than that number within the last minute.
pub calls_last_minute-le :
    (rpm now : ℕ) {q : Queue} {h : History}
    → 0 < rpm
    → rpm ≤ 1000
    → Reach rpm q h
    → (stats now q).calls_last_minute ≤ rpm + 1
unfolding stats new_queue
calls_last_minute-le rpm now {q} p b r =
    let v = Reach-Inv rpm r in
    omega (
      arith,
      count_recent-le now q.call_window,
      few_in_window rpm q.last_call q.call_window p b v.spaced v.past v.fresh,
    )

count_recent-append :
    (now : ℕ) (ts us : List ℕ)
    → count_recent now (ts ++ us) ≡ count_recent now ts + count_recent now us
unfolding count_recent
count_recent-append now [] us = omega arith
count_recent-append now (t ∷ ts) us = ground (arith, count_recent-append now ts us)

count_recent-trim :
    (now last : ℕ) (ts : List ℕ)
    → last ≤ now
    → count_recent now (trim last ts) ≡ count_recent now ts
unfolding count_recent trim
count_recent-trim now last [] h = refl
count_recent-trim now last (t ∷ ts) h = ground (arith, count_recent-trim now last ts)

process_window :
    (now late took : ℕ) (err : Option Text) (q : Queue)
    → (process now late took err q).call_window
      ≡ trim (start_time now late q + took) (q.call_window ++ (start_time now late q + took) ∷ [])
unfolding process
process_window now late took none q = refl
process_window now late took (some e) q = refl

process_last :
    (now late took : ℕ) (err : Option Text) (q : Queue)
    → (process now late took err q).last_call ≡ start_time now late q + took
unfolding process
process_last now late took none q = refl
process_last now late took (some e) q = refl

enqueue_window :
    (r : Request) (q q' : Queue)
    → enqueue r q ≡ some q'
    → (q'.call_window ≡ q.call_window) × (q'.last_call ≡ q.last_call)
unfolding enqueue
enqueue_window r q q' e = ground arith

receive_window :
    (r : Request) (q q' : Queue)
    → receive q ≡ some (r, q')
    → (q'.call_window ≡ q.call_window) × (q'.last_call ≡ q.last_call)
unfolding receive
receive_window r q q' e = ground arith

-- Trimming drops no call that `Stats` would count: in every reachable state, at any time from the
-- last call on, `Stats` reports the number of all finished calls less than a minute old.
calls_last_minute-eq :
    (rpm now : ℕ) {q : Queue} {h : History}
    → Reach rpm q h
    → q.last_call ≤ now
    → (stats now q).calls_last_minute ≡ count_recent now h.finished
unfolding stats record_429 new_queue start_time
calls_last_minute-eq rpm now Reach.start l = refl
calls_last_minute-eq rpm now (Reach.enqueued {q} {q'} r s e) l =
    let (w, k) = enqueue_window r q q' e in rw w (calls_last_minute-eq rpm now s (omega arith))
calls_last_minute-eq rpm now (Reach.processed {q} {q'} {h} r at late took err s e later) l =
    let done = start_time at late q' + took in
    let (w, k) = receive_window r q q' e in
    let at_end : done ≤ now = rw (process_last at late took err q') at l in
    let past : q'.last_call ≤ done = omega (arith, start_time-ge at late q' later) in
    rw
      (
        process_window at late took err q',
        count_recent-trim now done _ at_end,
        count_recent-append,
        count_recent-append,
        w,
      )
      (ap (λ n. n + count_recent now (done ∷ [])) (calls_last_minute-eq rpm now s (omega arith)))
calls_last_minute-eq rpm now (Reach.cancelled {q} {q'} r s e) l =
    let (w, k) = receive_window r q q' e in rw w (calls_last_minute-eq rpm now s (omega arith))
calls_last_minute-eq rpm now (Reach.limited s) l = calls_last_minute-eq rpm now s l

-- `Stats` gives back the number of requests per minute that the queue was made for.
requests_per_minute-new_queue :
    (rpm now : ℕ) → 0 < rpm → rpm ≤ 1000 → (stats now (new_queue rpm)).requests_per_minute ≡ rpm
unfolding stats new_queue
requests_per_minute-new_queue rpm now p b = grind (arith, rate-ge rpm p b)
