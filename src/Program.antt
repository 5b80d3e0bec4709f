-- ===== src/Program.antt =====
-- cmd/warpbox/main.go, and `Load` of internal/config/config.go from the decoded file on: what the
-- parts of the program are made with, and the commands of the hooks. A pointer of the settings is
-- followed as in the source: `none` is the panic on a nil pointer.
pub mod Loaded
mod Tests
use warpbox_custom.Prelude.{
  ℕ, ◌*◌, Bool, true, false, not, Option, none, some, List, [], ◌∷◌, ◌++◌, Text, codes, is_space,
  is_empty, if◌then◌else◌, ℤ, pos_part, Result, ok, err,
}
use warpbox_custom.Settings.{Settings, Invalid, set_defaults}
use warpbox_custom.Settings.Validate.{validate}
use warpbox_custom.Throttle.{Queue, new_queue}
use warpbox_custom.Metadata.Sync.Hooks.{Hooks, Fired}
use warpbox_custom.Server.Config.{Config}

-- `Load`, with the test whether a regular expression compiles.
unfoldable pub load : (Text → Bool) → Settings → Result Invalid Settings
load compiles written =
    let c = set_defaults written in elim (validate compiles c) [ none ↦ ok c | some e ↦ err e ]

-- A chain of options.
infixl 5 ◌>>=◌
abbrev ◌>>=◌ {ℓ κ} : {A : Type ℓ} {B : Type κ} → Option A → (A → Option B) → Option B
none >>= f = none
some a >>= f = f a

-- `serverCfg`; the numbers of a valid file are not negative.
unfoldable pub server_config : Settings → Option Config
server_config c = do
  auto_repair ← c.cache.cdn_url_auto_repair
  repair_retries ← c.cache.cdn_url_repair_retries
  retry_backoff ← c.cache.cdn_url_retry_backoff
  retry_count ← c.cache.cdn_url_retry_count
  cache_ttl ← c.cache.negative_cache_ttl_seconds
  failures ← c.cache.circuit_breaker_failures
  window ← c.cache.circuit_breaker_window_sec
  stale ← c.cache.circuit_breaker_stale_min
  cache_entries ← c.cache.negative_cache_max_entries
  breaker_entries ← c.cache.circuit_breaker_max_entries
  cleanup_interval ← c.cache.cleanup_interval_seconds
  cdn_connections ← c.cache.max_cdn_connections
  some (record {
    cdn_ttl_minutes = pos_part c.cache.cdn_url_ttl_minutes;
    cdn_url_auto_repair = auto_repair;
    cdn_url_repair_retries = pos_part repair_retries;
    cdn_url_retry_backoff = pos_part retry_backoff;
    cdn_url_retry_count = pos_part retry_count;
    negative_cache_ttl_seconds = pos_part cache_ttl;
    circuit_breaker_failures = pos_part failures;
    circuit_breaker_window_sec = pos_part window;
    circuit_breaker_stale_min = pos_part stale;
    negative_cache_max_entries = pos_part cache_entries;
    circuit_breaker_max_entries = pos_part breaker_entries;
    auth_enabled = c.auth.enabled;
    auth_username = c.auth.username;
    auth_password = c.auth.password;
  })

-- `throttleQueue`
unfoldable pub throttle_queue : Settings → Queue
throttle_queue c = new_queue (pos_part c.requests_per_minute)

-- The hooks that are set for commands that are not empty.
unfoldable pub hooks_of : Settings → Hooks
hooks_of c = record {
  on_items_added = not (is_empty c.library.on_items_added);
  on_items_removed = not (is_empty c.library.on_items_removed);
}

-- `strings.Fields`: the words between white space.
abbrev flush : (word : Text) → List Text → List Text
flush [] rest = rest
flush (c ∷ word) rest = (c ∷ word) ∷ rest

unfoldable pub fields_from : (word : Text) → Text → List Text
fields_from word [] = flush word []
fields_from word (c ∷ s) =
    let next = fields_from [] s in
    let more = fields_from (word ++ c ∷ []) s in if is_space c then flush word next else more

-- `runItemsHook`: the program that is executed and its arguments, if one is.
unfoldable pub run_items_hook : (command : Text) → (items : List Text) → Option (List Text)
unfolding fields_from
run_items_hook command [] = none
run_items_hook command (item ∷ items) =
    if is_empty command then none else elim (fields_from [] command) [
      | [] ↦ none
      | ◌∷◌ program args ↦ some (program ∷ args ++ item ∷ items)
    ]

-- What the two hooks of a sync execute.
unfoldable pub hook_commands : Settings → Fired → Option (List Text) × Option (List Text)
unfolding run_items_hook
hook_commands c fired = (
  run_items_hook c.library.on_items_added fired.added,
  run_items_hook c.library.on_items_removed fired.removed,
)
