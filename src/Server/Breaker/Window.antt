-- ===== src/Server/Breaker/Window.antt =====
-- The breaker opens exactly when enough failures lie in its sliding window, and stays open for the
-- configured time.
use warpbox_custom.Prelude.{
  ℕ, ◌+◌, ◌*◌, ◌≤◌, ◌<◌, ◌≡◌, refl, true, false, none, some, List, [], ◌∷◌, ◌++◌, append_assoc,
  append-nil, arith, ltb, leb, Bool, Bool-cases, ◌==◌, if◌then◌else◌, length, length-append,
  length-keep, keep, lookup, delete, nat_eq, inl, inr, ◌∙◌, ap, lookup-insert_self,
  lookup-insert_ne, sym, Option-cases,
}
use warpbox_custom.Server.Config.{Config, minute}
use warpbox_custom.Server.Breaker.{
  Tracker, Trackers, is_torrent_stale, is_active, prune, tracker_of, add_failure,
  record_torrent_failure,
}

-- The map after failures of one item at the given times, in order.
abbrev pub record_all : Config → ℕ → List ℕ → Trackers → Trackers
record_all cfg item [] m = m
record_all cfg item (t ∷ ts) m = record_all cfg item ts (record_torrent_failure cfg t item m)

abbrev pub Ascending : ℕ → List ℕ → Type 0
Ascending lo [] = Unit
Ascending lo (t ∷ ts) = (lo ≤ t) × Ascending t ts

-- The last of the times, or `t` if there are none.
abbrev pub last_of : ℕ → List ℕ → ℕ
last_of t [] = t
last_of t (u ∷ us) = last_of u us

-- Failures that one window drops are dropped by every later one.
prune-prune :
    (cfg : Config) (t now : ℕ) (ts : List ℕ)
    → t ≤ now
    → prune cfg now (prune cfg t ts) ≡ prune cfg now ts
unfolding prune
prune-prune cfg t now [] h = refl
prune-prune cfg t now (x ∷ ts) h = ground (arith, prune-prune cfg t now ts)

prune-append :
    (cfg : Config) (now : ℕ) (ts us : List ℕ)
    → prune cfg now (ts ++ us) ≡ prune cfg now ts ++ prune cfg now us
unfolding prune
prune-append cfg now [] us = refl
prune-append cfg now (x ∷ ts) us = ground (arith, prune-append cfg now ts us)

prune_self :
    (cfg : Config) (now : ℕ)
    → 0 < cfg.circuit_breaker_window_sec
    → prune cfg now (now ∷ []) ≡ now ∷ []
unfolding prune
prune_self cfg now h = ground arith

add_failure-failures :
    (cfg : Config) (lo now : ℕ) (old : List ℕ) (tracker : Tracker)
    → 0 < cfg.circuit_breaker_window_sec
    → lo ≤ now
    → tracker.failures ≡ prune cfg lo old
    → (add_failure cfg now tracker).failures ≡ prune cfg now (old ++ now ∷ [])
unfolding add_failure
add_failure-failures cfg lo now old tracker w h e =
    rw (e, prune-prune cfg lo now old h, prune-append cfg now old (now ∷ []), prune_self cfg now w)
      refl

lookup-record :
    (cfg : Config) (now item : ℕ) (m : Trackers)
    → lookup item (record_torrent_failure cfg now item m)
      ≡ some (add_failure cfg now (tracker_of (lookup item m)))
unfolding record_torrent_failure
lookup-record cfg now item m = lookup-insert_self item _ m

-- After failures of an item, at ascending times, its tracker holds exactly those failures that lie
-- in the sliding window that ends at the last of them: pruning on the way lost none.
record_all-failures :
    (cfg : Config) (item lo : ℕ) (old ts : List ℕ) (m : Trackers)
    → 0 < cfg.circuit_breaker_window_sec
    → Ascending lo ts
    → (tracker_of (lookup item m)).failures ≡ prune cfg lo old
    → (tracker_of (lookup item (record_all cfg item ts m))).failures
      ≡ prune cfg (last_of lo ts) (old ++ ts)
record_all-failures cfg item lo old [] m w a e = rw (append-nil old) e
record_all-failures cfg item lo old (t ∷ ts) m w a e =
    record_all-failures cfg item t (old ++ t ∷ []) ts (record_torrent_failure cfg t item m) w a.1 (
      rw (lookup-record cfg t item m)
        (add_failure-failures cfg lo t old (tracker_of (lookup item m)) w a.0 e))
    ∙ ap (prune cfg (last_of t ts)) (append_assoc old (t ∷ []) ts)

-- The times less than the configured number of seconds before `now`, or after it.
abbrev pub recent : Config → ℕ → List ℕ → List ℕ
recent cfg now [] = []
recent cfg now (t ∷ ts) =
    let rest = recent cfg now ts in
    if ltb now (t + cfg.circuit_breaker_window_sec * 1_000_000_000) then t ∷ rest else rest

prune-recent : (cfg : Config) (now : ℕ) (ts : List ℕ) → prune cfg now ts ≡ recent cfg now ts
unfolding prune
prune-recent cfg now [] = refl
prune-recent cfg now (t ∷ ts) = ground (arith, prune-recent cfg now ts)

-- When failures of an item that had no tracker are recorded at ascending times, and the window is
-- not empty, the tracker holds exactly those that lie less than the configured number of seconds
-- before the last one, in their order.
pub record_all-window :
    (cfg : Config) (item t : ℕ) (ts : List ℕ) (m : Trackers)
    → 0 < cfg.circuit_breaker_window_sec
    → Ascending t ts
    → lookup item m ≡ none
    → (tracker_of (lookup item (record_all cfg item (t ∷ ts) m))).failures
      ≡ recent cfg (last_of t ts) (t ∷ ts)
record_all-window cfg item t ts m w a e =
    record_all-failures cfg item 0 [] (t ∷ ts) m w (omega arith, a) (rw e (unfold prune in refl))
    ∙ prune-recent cfg (last_of t ts) (t ∷ ts)

is_torrent_stale-some :
    (now item : ℕ) (m : Trackers) (tracker : Tracker)
    → lookup item m ≡ some tracker
    → is_torrent_stale now item m ≡ (
        if tracker.stale_until == 0
        then (false, m)
        else if ltb now tracker.stale_until
        then (true, m)
        else (false, delete item m))
unfolding is_torrent_stale
is_torrent_stale-some now item m tracker e = rw (e, is_torrent_stale) refl

is_torrent_stale-none :
    (now item : ℕ) (m : Trackers) → lookup item m ≡ none → is_torrent_stale now item m ≡ (false, m)
unfolding is_torrent_stale
is_torrent_stale-none now item m e = rw (e, is_torrent_stale) refl

add_failure-opens :
    (cfg : Config) (now : ℕ) (tracker : Tracker)
    → cfg.circuit_breaker_failures ≤ length (prune cfg now tracker.failures) + 1
    → (add_failure cfg now tracker).stale_until ≡ now + cfg.circuit_breaker_stale_min * minute
unfolding add_failure
add_failure-opens cfg now tracker h =
    ground (arith, length-append (prune cfg now tracker.failures) (now ∷ []))

add_failure_closed :
    (cfg : Config) (now n : ℕ) (tracker : Tracker)
    → tracker.stale_until ≡ 0
    → length tracker.failures ≤ n
    → n + 1 < cfg.circuit_breaker_failures
    → ((add_failure cfg now tracker).stale_until ≡ 0)
      × (length (add_failure cfg now tracker).failures ≤ n + 1)
unfolding add_failure prune
add_failure_closed cfg now n tracker z l h =
    let fewer = length-keep (is_active cfg now) tracker.failures in
    ground (arith, fewer, length-append (keep (is_active cfg now) tracker.failures) (now ∷ []))

record_all_closed :
    (cfg : Config) (item n : ℕ) (ts : List ℕ) (m : Trackers)
    → (tracker_of (lookup item m)).stale_until ≡ 0
    → length (tracker_of (lookup item m)).failures ≤ n
    → n + length ts < cfg.circuit_breaker_failures
    → (tracker_of (lookup item (record_all cfg item ts m))).stale_until ≡ 0
record_all_closed cfg item n [] m z l h = z
record_all_closed cfg item n (t ∷ ts) m z l h =
    let (z', l') = add_failure_closed cfg t n (tracker_of (lookup item m)) z l (omega arith) in
    record_all_closed cfg item (n + 1) ts (record_torrent_failure cfg t item m)
      (rw (lookup-record cfg t item m) z') (rw (lookup-record cfg t item m) l') (omega arith)

not_stale :
    (now item : ℕ) (m : Trackers)
    → (tracker_of (lookup item m)).stale_until ≡ 0
    → is_torrent_stale now item m ≡ (false, m)
unfolding is_torrent_stale
not_stale now item m z = elim (Option-cases (lookup item m)) [
  | inl e ↦ rw (e, is_torrent_stale) refl
  | inr (tracker, e) ↦
      let z' : tracker.stale_until ≡ 0 = rw e at z in rw (e, is_torrent_stale, z') refl
]

add_failure_few :
    (cfg : Config) (now : ℕ) (tracker : Tracker)
    → length (prune cfg now tracker.failures) + 1 < cfg.circuit_breaker_failures
    → (add_failure cfg now tracker).stale_until ≡ tracker.stale_until
unfolding add_failure
add_failure_few cfg now tracker h =
    ground (arith, length-append (prune cfg now tracker.failures) (now ∷ []))

-- How an item that is stale until `until` answers at the time `at`: stale before it, with the map as
-- it is; afterwards not stale, its tracker being removed; 0 stands for an item that is not stale.
abbrev pub stale_until : (until at item : ℕ) → Trackers → Bool × Trackers
stale_until until at item m =
    if until == 0 then (false, m) else if ltb at until then (true, m) else (false, delete item m)

-- When a failure is recorded at `now`: if, with it, the configured number of failures or more lie
-- less than the configured number of seconds before `now`, the item is stale from then on for the
-- configured minutes and no longer; if fewer do, it is stale until the time until which it was before.
pub breaker_opens :
    (cfg : Config) (now item at : ℕ) (m : Trackers)
    → let tracker = tracker_of (lookup item m) in
      let m' = record_torrent_failure cfg now item m in
      is_torrent_stale at item m'
      ≡ stale_until
          (if leb cfg.circuit_breaker_failures (length (recent cfg now tracker.failures) + 1)
            then now + cfg.circuit_breaker_stale_min * minute
            else tracker.stale_until)
          at
          item
          m'
breaker_opens cfg now item at m =
    let tracker = tracker_of (lookup item m) in
    let m' = record_torrent_failure cfg now item m in
    let same = ap length (prune-recent cfg now tracker.failures) in
    is_torrent_stale-some at item m' (add_failure cfg now tracker) (lookup-record cfg now item m)
    ∙ ap (λ until. stale_until until at item m')
        (elim (Bool-cases
          (leb cfg.circuit_breaker_failures (length (recent cfg now tracker.failures) + 1))) [
            | inl t ↦ rw t (add_failure-opens cfg now tracker (ground (arith, t, same)))
            | inr f ↦ rw f (add_failure_few cfg now tracker (ground (arith, f, same)))
          ])

-- With fewer recorded failures than configured, an item that had no tracker is never stale.
breaker_stays_closed :
    (cfg : Config) (item at : ℕ) (ts : List ℕ) (m : Trackers)
    → length ts < cfg.circuit_breaker_failures
    → lookup item m ≡ none
    → is_torrent_stale at item (record_all cfg item ts m) ≡ (false, record_all cfg item ts m)
breaker_stays_closed cfg item at ts m h e =
    not_stale at item (record_all cfg item ts m)
      (record_all_closed cfg item 0 ts m (rw e refl) (rw e (omega arith)) (omega arith))

-- Recording a failure of one item leaves every other item's staleness as it was.
breaker_isolates :
    (cfg : Config) (now item other at : ℕ) (m : Trackers)
    → (item == other) ≡ false
    → (is_torrent_stale at other (record_torrent_failure cfg now item m)).0
      ≡ (is_torrent_stale at other m).0
breaker_isolates cfg now item other at m h =
    let same : lookup other (record_torrent_failure cfg now item m) ≡ lookup other m =
      unfold record_torrent_failure in lookup-insert_ne item other _ m h in
    elim (Option-cases (lookup other m)) [
      | inl e ↦
          ap (λ r. r.0) (is_torrent_stale-none at other _ (same ∙ e))
          ∙ sym (ap (λ r. r.0) (is_torrent_stale-none at other m e))
      | inr (tracker, e) ↦ ground (
        arith,
        is_torrent_stale-some at other m tracker e,
        is_torrent_stale-some at other (record_torrent_failure cfg now item m) tracker (same ∙ e),
      )
    ]
