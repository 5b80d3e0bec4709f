-- ===== src/Metadata/Sync/Lifecycle/Tests.antt =====
-- A worker that is started and restarted.
use warpbox_custom.Prelude.{ℕ, ◌≡◌, refl, true, false, [], ◌∷◌}
use warpbox_custom.Metadata.Sync.Lifecycle.{
  Lifecycle, Reach, at_first, by_start, by_stop, by_restart, new_lifecycle, start, stop, spawn,
  restart, run_loop, Single, Reach-Single, restarts_leak,
}

abbrev restarted : Lifecycle
restarted = restart (start (stop new_lifecycle))

restarted-Reach : Reach restarted
unfolding stop
restarted-Reach =
    by_restart (start (stop new_lifecycle))
      (by_start (stop new_lifecycle) (by_stop new_lifecycle at_first) refl)

Reach-Single_example :
    Single restarted
    × ((stop restarted).active ≡ [])
    × Single (restart restarted)
    × (restarted.started ≡ true
        → restarted.closed ≡ false
        → (loop : ℕ) × ((restart restarted).active ≡ loop ∷ []))
Reach-Single_example = Reach-Single restarted restarted-Reach

restarts_leak_example :
    (first : ℕ) × (second : ℕ) × ((spawn (spawn (stop (stop restarted)))).active
      ≡ second ∷ first ∷ [])
    × ((stop (spawn (spawn (stop (stop restarted))))).active ≡ first ∷ [])
unfolding restart start stop spawn run_loop
restarts_leak_example = restarts_leak restarted (Reach-Single restarted restarted-Reach).0 refl refl
