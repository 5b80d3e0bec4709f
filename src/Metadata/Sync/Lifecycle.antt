-- ===== src/Metadata/Sync/Lifecycle.antt =====
-- `Start`, `Stop` and `Restart` of the worker, by the sections that hold its mutex. A loop runs until
-- its context is cancelled; the time that `Stop` waits for its end changes no state.
mod Tests
use warpbox_custom.Prelude.{
  ℕ, ◌+◌, ◌≡◌, refl, sym, ap, ◌∙◌, subst, ◌⊎◌, inl, inr, Bool, true, false, not, Option, none, some,
  List, [], ◌∷◌, ◌==◌, ==_refl, if◌then◌else◌, keep, Option-cases, Bool-cases, arith,
}

-- `parentCtx` is set, it is cancelled, the loop that `cancel` cancels, the loops whose contexts are not cancelled,
-- and the number of the next loop.
pub record Lifecycle : Type 0 where
  pub started : Bool
  pub closed : Bool
  pub cancel : Option ℕ
  pub active : List ℕ
  pub next : ℕ

abbrev pub new_lifecycle : Lifecycle
new_lifecycle = record { started = false; closed = false; cancel = none; active = []; next = 0 }

-- A new loop, and `w.cancel` for it; a context that comes from a cancelled one is cancelled.
unfoldable pub run_loop : Lifecycle → Lifecycle
run_loop s = record s {
  cancel = some s.next;
  active = if s.closed then s.active else s.next ∷ s.active;
  next = s.next + 1;
}

unfoldable pub start : Lifecycle → Lifecycle
unfolding run_loop
start s = run_loop (record s { started = true })

-- The section of `Stop`, which may come before `Start` and more than once.
unfoldable pub stop : Lifecycle → Lifecycle
stop s = elim s.cancel [
  | none ↦ s
  | some loop ↦ record s { cancel = none; active = keep (λ n. not (n == loop)) s.active }
]

-- The section of `Restart` behind its call of `Stop`.
unfoldable pub spawn : Lifecycle → Lifecycle
unfolding run_loop
spawn s = if s.started then run_loop s else s

unfoldable pub restart : Lifecycle → Lifecycle
unfolding spawn stop
restart s = spawn (stop s)

-- The end of the parent context, with the contexts that come from it.
unfoldable pub shut_down : Lifecycle → Lifecycle
shut_down s = record s { closed = true; active = [] }

-- The states that are reached when the calls do not overlap, and `Start` is called once.
pub data Reach : Lifecycle → Type 0 where
  at_first : Reach new_lifecycle
  by_start : (s : Lifecycle) → Reach s → s.started ≡ false → Reach (start s)
  by_stop : (s : Lifecycle) → Reach s → Reach (stop s)
  by_restart : (s : Lifecycle) → Reach s → Reach (restart s)
  by_shut_down : (s : Lifecycle) → Reach s → Reach (shut_down s)

-- At most one loop is active, and then `cancel` cancels it.
abbrev pub Single : Lifecycle → Type 0
Single s = (s.active ≡ []) ⊎ ((loop : ℕ) × (s.active ≡ loop ∷ []) × (s.cancel ≡ some loop))

stop-active : (s : Lifecycle) → Single s → (stop s).active ≡ []
unfolding stop
stop-active s (inl idle) = elim (Option-cases s.cancel) [
  | inl e ↦ rw (stop, e) idle
  | inr (loop, e) ↦ rw (stop, e, idle) refl
]
stop-active s (inr (loop, one, e)) = rw (stop, e, one, keep, ==_refl loop) refl

run_loop-Single : (s : Lifecycle) → s.active ≡ [] → Single (run_loop s)
unfolding run_loop
run_loop-Single s idle = elim (Bool-cases s.closed) [
  | inl t ↦ rw (run_loop, t) (inl idle)
  | inr f ↦ rw (run_loop, f) (inr (s.next, ap (λ rest. s.next ∷ rest) idle, refl))
]

spawn-Single : (s : Lifecycle) → s.active ≡ [] → Single (spawn s)
unfolding spawn
spawn-Single s idle = elim (Bool-cases s.started) [
  | inr f ↦ rw (spawn, f) (inl idle)
  | inl t ↦ rw (spawn, t) (run_loop-Single s idle)
]

-- A worker that has not started has no loop.
abbrev Inv : Lifecycle → Type 0
Inv s = Single s × (s.started ≡ false → s.active ≡ [])

stop-started : (s : Lifecycle) → (stop s).started ≡ s.started
unfolding stop
stop-started s = elim (Option-cases s.cancel) [
  | inl e ↦ rw (stop, e) refl
  | inr (loop, e) ↦ rw (stop, e) refl
]

stop-closed : (s : Lifecycle) → (stop s).closed ≡ s.closed
unfolding stop
stop-closed s = elim (Option-cases s.cancel) [
  | inl e ↦ rw (stop, e) refl
  | inr (loop, e) ↦ rw (stop, e) refl
]

spawn_lem :
    (s : Lifecycle)
    → s.started ≡ true
    → s.closed ≡ false
    → spawn s ≡ record s { cancel = some s.next; active = s.next ∷ s.active; next = s.next + 1 }
unfolding spawn run_loop
spawn_lem s t alive = rw (t, alive) refl

spawn-idle : (s : Lifecycle) → s.active ≡ [] → (spawn s).started ≡ false → (spawn s).active ≡ []
unfolding spawn run_loop
spawn-idle s idle f = elim (Bool-cases s.started) [
  | inr g ↦ rw (spawn, g) idle
  | inl t ↦ absurd (cc (rw (spawn, t) at f))
]

Reach-Inv : (s : Lifecycle) → Reach s → Inv s
unfolding start run_loop restart shut_down
Reach-Inv s at_first = (inl refl, λ f. refl)
Reach-Inv s' (by_start s r f) =
    let (single, idle) = Reach-Inv s r in
    (run_loop-Single (record s { started = true }) (idle f), λ t. absurd (cc t))
Reach-Inv s' (by_stop s r) =
    let (single, idle) = Reach-Inv s r in (inl (stop-active s single), λ f. stop-active s single)
Reach-Inv s' (by_restart s r) =
    let (single, idle) = Reach-Inv s r in
    (spawn-Single (stop s) (stop-active s single), spawn-idle (stop s) (stop-active s single))
Reach-Inv s' (by_shut_down s r) = (inl refl, λ f. refl)

-- In every state that is reached when `Start` is called once at most and no two calls overlap, at
-- most one loop runs on a context that is not cancelled; `Stop` leaves none; and after `Restart` there is again at most one, which
-- `Stop` can cancel, and there is one if the worker has started and its parent is not cancelled.
pub Reach-Single :
    (s : Lifecycle)
    → Reach s
    → Single s
      × ((stop s).active ≡ [])
      × Single (restart s)
      × (s.started ≡ true → s.closed ≡ false → (loop : ℕ) × ((restart s).active ≡ loop ∷ []))
unfolding restart spawn run_loop
Reach-Single s r =
    let (single, idle) = Reach-Inv s r in
    let none_left = stop-active s single in
    (
      single,
      none_left,
      spawn-Single (stop s) none_left,
      λ t alive. (
        (stop s).next,
        rw (stop-started s ∙ t, stop-closed s ∙ alive)
            (ap (λ rest. (stop s).next ∷ rest) none_left),
      ),
    )

keep_first :
    (n : ℕ) (rest : List ℕ) → rest ≡ [] → keep (λ m. not (m == n + 1)) ((n + 1) ∷ n ∷ rest) ≡ n ∷ []
keep_first n rest idle =
    let other : (n == n + 1) ≡ false = ground arith in rw (keep, ==_refl (n + 1), other, idle) refl

-- Two calls of `Restart` that overlap, in each of which `Stop` comes before the other's new loop: if
-- the worker has started, its parent is not cancelled and at most one loop was active, then two are
-- active, and `Stop` leaves the first of them.
pub restarts_leak :
    (s : Lifecycle)
    → Single s
    → s.started ≡ true
    → s.closed ≡ false
    → (first : ℕ) × (second : ℕ) × ((spawn (spawn (stop (stop s)))).active ≡ second ∷ first ∷ [])
      × ((stop (spawn (spawn (stop (stop s))))).active ≡ first ∷ [])
unfolding stop
restarts_leak s single t alive =
    let s' = stop (stop s) in
    let idle : s'.active ≡ [] = stop-active (stop s) (inl (stop-active s single)) in
    let on : s'.started ≡ true = stop-started (stop s) ∙ stop-started s ∙ t in
    let still : s'.closed ≡ false = stop-closed (stop s) ∙ stop-closed s ∙ alive in
    let twice =
      ap spawn (spawn_lem s' on still)
      ∙ spawn_lem
          (record s' { cancel = some s'.next; active = s'.next ∷ s'.active; next = s'.next + 1 }) on
          still in
    (
      s'.next,
      s'.next + 1,
      ap (λ (x : Lifecycle). x.active) twice ∙ ap (λ rest. (s'.next + 1) ∷ s'.next ∷ rest) idle,
      ap (λ (x : Lifecycle). (stop x).active) twice ∙ keep_first s'.next s'.active idle,
    )
