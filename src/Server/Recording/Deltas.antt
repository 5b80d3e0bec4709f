-- ===== src/Server/Recording/Deltas.antt =====
-- The recorded changes of a counter add up to the counter.
use warpbox_custom.Prelude.{
  arith, ℕ, ◌+◌, ◌≡◌, refl, ap, ◌∙◌, subst, Bool, Option, none, some, List, [], ◌∷◌, ◌++◌, map,
  Text, codes, text_eq, keep, All, ℤ, pos, pos_part, neg_part, sub_ℕ, ◌+ℤ◌, ◌-ℤ◌, eq_of_parts,
}
use mathlib.Core.List.{Permᴰ}
use mathlib.Core.List.Permᴰ
use warpbox_custom.Prelude.Members.{Permᴰ-keep, Permᴰ-singleton}
use warpbox_custom.Throttle
use warpbox_custom.Metadata.Stats.{StatsRecord, Table, row_at, record_stats, is_of}
use warpbox_custom.Server.Recording.{
  Previous, no_counts, Snapshot, Recorder, metrics_of, counts_of, record_snapshot,
}

-- The counters whose changes are recorded as signed numbers.
pub data Counter : Type 0 where
  successful failed too_many_requests lock_errors : Counter

abbrev pub name_of : Counter → Text
name_of successful = codes "api_calls_success"
name_of failed = codes "api_calls_failed"
name_of too_many_requests = codes "api_calls_429"
name_of lock_errors = codes "db_lock_errors"

abbrev pub count_of : Counter → Previous → ℕ
count_of successful p = p.successful_calls
count_of failed p = p.failed_calls
count_of too_many_requests p = p.http429_calls
count_of lock_errors p = p.db_lock_errors

-- A tick: the order of the visits, the error of the database and what is read.
pub record Tick : Type 0 where
  pub visits : List (Text × ℤ) → List (Text × ℤ)
  pub error : Option Text
  pub snapshot : Snapshot

unfoldable pub record_ticks : List Tick → Recorder → Recorder
record_ticks [] s = s
record_ticks (k ∷ ticks) s = record_ticks ticks (record_snapshot k.visits k.error k.snapshot s)

abbrev delta_of : Counter → Previous → Previous → ℤ
delta_of c p p' = pos (count_of c p') -ℤ pos (count_of c p)

abbrev still_lost : Option Text → (acc delta : ℤ) → ℤ
still_lost none acc delta = acc
still_lost (some e) acc delta = acc +ℤ delta

-- The changes in the ticks whose write failed.
unfoldable pub lost : Counter → List Tick → Recorder → ℤ → ℤ
lost c [] s acc = acc
lost c (k ∷ ticks) s acc =
    let s' = record_snapshot k.visits k.error k.snapshot s in
    lost c ticks s' (still_lost k.error acc (delta_of c s.previous s'.previous))

-- The sum of the values of rows.
unfoldable pub total : Table → ℤ → ℤ
total [] acc = acc
total (r ∷ rows) acc = total rows (acc +ℤ r.value)

total-append : (xs ys : Table) (acc : ℤ) → total (xs ++ ys) acc ≡ total ys (total xs acc)
unfolding total
total-append [] ys acc = refl
total-append (r ∷ xs) ys acc = total-append xs ys (acc +ℤ r.value)

keep-append : (p : StatsRecord → Bool) (xs ys : Table) → keep p (xs ++ ys) ≡ keep p xs ++ keep p ys
keep-append p [] ys = refl
keep-append p (x ∷ xs) ys = ground (arith, keep-append p xs ys)

-- `c` is `a + b`, by its parts.
abbrev IsSum : ℤ → ℤ → ℤ → Type 0
IsSum a b c = pos_part c + neg_part a + neg_part b ≡ neg_part c + pos_part a + pos_part b

+ℤ-IsSum : (a b : ℤ) → IsSum a b (a +ℤ b)
+ℤ-IsSum a b =
    sub_ℕ_parts (pos_part a + pos_part b) (neg_part a + neg_part b) (neg_part a) (neg_part b)
      (pos_part a) (pos_part b) refl refl
  where
    sub_ℕ_parts :
        (m n a b c d : ℕ)
        → m ≡ c + d
        → n ≡ a + b
        → pos_part (sub_ℕ m n) + a + b ≡ neg_part (sub_ℕ m n) + c + d
    sub_ℕ_parts m n a b c d e f = ground (arith, e, f)

delta_parts : (n n' : ℕ) → pos_part (pos n' -ℤ pos n) + n ≡ neg_part (pos n' -ℤ pos n) + n'
delta_parts n n' = ground arith

-- A change that is added to one summand is added to the sum.
step_parts :
    (t l z w r : ℤ) (n n' : ℕ)
    → IsSum t l (pos n)
    → pos_part z + n ≡ neg_part z + n'
    → IsSum t z w
    → IsSum w l r
    → r ≡ pos n'
step_parts t l z w r n n' h d e f = eq_of_parts r (pos n') (omega arith)

written_step : (t l : ℤ) (n n' : ℕ) → t +ℤ l ≡ pos n → (t +ℤ (pos n' -ℤ pos n)) +ℤ l ≡ pos n'
written_step t l n n' h =
    let z = pos n' -ℤ pos n in
    step_parts t l z (t +ℤ z) ((t +ℤ z) +ℤ l) n n' (subst (IsSum t l) h (+ℤ-IsSum t l))
      (delta_parts n n') (+ℤ-IsSum t z) (+ℤ-IsSum (t +ℤ z) l)

swap_parts :
    (t l z w r : ℤ) (n n' : ℕ)
    → IsSum t l (pos n)
    → pos_part z + n ≡ neg_part z + n'
    → IsSum l z w
    → IsSum t w r
    → r ≡ pos n'
swap_parts t l z w r n n' h d e f = eq_of_parts r (pos n') (omega arith)

lost_step : (t l : ℤ) (n n' : ℕ) → t +ℤ l ≡ pos n → t +ℤ (l +ℤ (pos n' -ℤ pos n)) ≡ pos n'
lost_step t l n n' h =
    let z = pos n' -ℤ pos n in
    swap_parts t l z (l +ℤ z) (t +ℤ (l +ℤ z)) n n' (subst (IsSum t l) h (+ℤ-IsSum t l))
      (delta_parts n n') (+ℤ-IsSum l z) (+ℤ-IsSum t (l +ℤ z))

own_row :
    (c : Counter) (now : ℕ) (prev : Previous) (t : Throttle.Stats) (x : Snapshot)
    → keep (is_of (name_of c)) (map (row_at now) (metrics_of prev t x))
      ≡ row_at now (name_of c, delta_of c prev (counts_of t x)) ∷ []
unfolding metrics_of text_eq
own_row successful now prev t x = refl
own_row failed now prev t x = refl
own_row too_many_requests now prev t x = refl
own_row lock_errors now prev t x = refl

-- The one row of a counter among those of a tick.
counter_row :
    (c : Counter) (now : ℕ) (visits : List (Text × ℤ) → List (Text × ℤ)) (prev : Previous)
    (t : Throttle.Stats) (x : Snapshot)
    → ((ms : List (Text × ℤ)) → Permᴰ (visits ms) ms)
    → keep (is_of (name_of c)) (map (row_at now) (visits (metrics_of prev t x)))
      ≡ row_at now (name_of c, delta_of c prev (counts_of t x)) ∷ []
counter_row c now visits prev t x v =
    let rows = keep (is_of (name_of c)) (map (row_at now) (visits (metrics_of prev t x))) in
    let p = Permᴰ-keep (is_of (name_of c)) (Permᴰ.map (row_at now) (v (metrics_of prev t x))) in
    Permᴰ-singleton rows _ (subst (Permᴰ rows) (own_row c now prev t x) p)

abbrev recorded : Counter → Recorder → ℤ
recorded c s = total (keep (is_of (name_of c)) s.table) (pos 0)

record_snapshot-recorded :
    (c : Counter) (visits : List (Text × ℤ) → List (Text × ℤ)) (e : Option Text) (x : Snapshot)
    (s : Recorder) (l : ℤ)
    → ((ms : List (Text × ℤ)) → Permᴰ (visits ms) ms)
    → recorded c s +ℤ l ≡ pos (count_of c s.previous)
    → recorded c (record_snapshot visits e x s)
        +ℤ still_lost e l (delta_of c s.previous (record_snapshot visits e x s).previous)
      ≡ pos (count_of c (record_snapshot visits e x s).previous)
unfolding record_snapshot record_stats
record_snapshot-recorded c visits (some e) x s l v h =
    lost_step (recorded c s) l (count_of c s.previous) _ h
record_snapshot-recorded c visits none x s l v h =
    let t = Throttle.stats x.now x.queue in
    let rows = map (row_at x.now) (visits (metrics_of s.previous t x)) in
    let e : total (keep (is_of (name_of c)) (s.table ++ rows)) (pos 0)
        ≡ recorded c s +ℤ delta_of c s.previous (counts_of t x) =
      ap (λ k. total k (pos 0)) (keep-append (is_of (name_of c)) s.table rows)
      ∙ total-append (keep (is_of (name_of c)) s.table) (keep (is_of (name_of c)) rows) (pos 0)
      ∙ ap (λ k. total k (recorded c s)) (counter_row c x.now visits s.previous t x v)
      ∙ unfold total in refl in
    ap (λ k. k +ℤ l) e ∙ written_step (recorded c s) l (count_of c s.previous) _ h

-- The map of the metrics is visited in some order.
abbrev pub IsVisited : Tick → Type 0
IsVisited k = (ms : List (Text × ℤ)) → Permᴰ (k.visits ms) ms

record_ticks-recorded :
    (c : Counter) (ticks : List Tick) (s : Recorder) (l : ℤ)
    → All IsVisited ticks
    → recorded c s +ℤ l ≡ pos (count_of c s.previous)
    → recorded c (record_ticks ticks s) +ℤ lost c ticks s l
      ≡ pos (count_of c (record_ticks ticks s).previous)
unfolding record_ticks lost
record_ticks-recorded c [] s l vs h = h
record_ticks-recorded c (k ∷ ticks) s l (v, vs) h =
    record_ticks-recorded c ticks (record_snapshot k.visits k.error k.snapshot s)
      (still_lost k.error l
        (delta_of c s.previous (record_snapshot k.visits k.error k.snapshot s).previous))
      vs (record_snapshot-recorded c k.visits k.error k.snapshot s l v h)

abbrev pub started : Recorder
started = record { previous = no_counts; table = [] }

record_ticks-previous :
    (ticks : List Tick) (k : Tick) (s : Recorder)
    → (record_ticks (ticks ++ k ∷ []) s).previous
      ≡ counts_of (Throttle.stats k.snapshot.now k.snapshot.queue) k.snapshot
unfolding record_ticks record_snapshot
record_ticks-previous [] k s = refl
record_ticks-previous (j ∷ ticks) k s =
    record_ticks-previous ticks k (record_snapshot j.visits j.error j.snapshot s)

-- Of each counter (calls that succeeded, calls that failed, replies with 429, lock errors): the values
-- that the ticks since the start have recorded, and the changes in the ticks whose write failed, add
-- up to what the queue or the store counts at the last tick, in whatever order the metrics are
-- visited.
pub recorded_lost :
    (c : Counter) (ticks : List Tick) (k : Tick)
    → All IsVisited (ticks ++ k ∷ [])
    → total (keep (is_of (name_of c)) (record_ticks (ticks ++ k ∷ []) started).table) (pos 0)
        +ℤ lost c (ticks ++ k ∷ []) started (pos 0)
      ≡ pos (count_of c (counts_of (Throttle.stats k.snapshot.now k.snapshot.queue) k.snapshot))
unfolding total
recorded_lost c ticks k vs =
    record_ticks-recorded c (ticks ++ k ∷ []) started (pos 0) vs (starts c)
    ∙ ap (λ p. pos (count_of c p)) (record_ticks-previous ticks k started)
  where
    starts : (c : Counter) → recorded c started +ℤ pos 0 ≡ pos (count_of c started.previous)
    starts successful = refl
    starts failed = refl
    starts too_many_requests = refl
    starts lock_errors = refl
