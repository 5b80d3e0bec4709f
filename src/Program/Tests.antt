-- ===== src/Program/Tests.antt =====
-- A program that is made from a file with an API key and one virtual path.
use warpbox_custom.Prelude.{
  ℕ, ◌+◌, ◌≡◌, ◌≤◌, refl, true, some, [], ◌∷◌, codes, text_eq, to_lower, contains, is_space,
  pos_part, ok,
}
use warpbox_custom.Settings.{set_defaults}
use warpbox_custom.Settings.Samples.{written}
use warpbox_custom.Settings.Validate.{validate}
use warpbox_custom.Throttle.{Queue, History, Reach, stats}
use warpbox_custom.Server.Config.{Config}
use warpbox_custom.Program.{load, server_config, run_items_hook}
use warpbox_custom.Program.Loaded.{Wired, load-Wired}

loads : load (λ pattern. true) written ≡ ok (set_defaults written)
unfolding load validate set_defaults text_eq to_lower contains
loads = refl

load-Wired_example :
    ((cfg : Config) × (server_config (set_defaults written) ≡ some cfg)
      × Wired (set_defaults written) cfg)
    × ((now : ℕ) (q : Queue) (h : History)
        → Reach (pos_part (set_defaults written).requests_per_minute) q h
        → (stats now q).calls_last_minute ≤ pos_part (set_defaults written).requests_per_minute + 1)
load-Wired_example = load-Wired (λ pattern. true) written (set_defaults written) loads

-- The words of the command, then the directories.
hook_run :
    run_items_hook (codes " sh  hook.sh ") (codes "a b" ∷ [])
    ≡ some (codes "sh" ∷ codes "hook.sh" ∷ codes "a b" ∷ [])
unfolding run_items_hook is_space
hook_run = refl
