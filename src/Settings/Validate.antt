-- ===== src/Settings/Validate.antt =====
-- internal/config/config.go: `validate` and `validateLibrary`.
use warpbox_custom.Prelude.{
  ℕ, suc, Bool, true, false, ◌&&◌, ◌||◌, Option, none, some, List, [], ◌∷◌, Text, codes, slash,
  is_empty, contains, text_eq, if◌then◌else◌,
}
use warpbox_custom.Settings.{
  Settings, VirtualPath, LibrarySettings, CacheSettings, Invalid, missing_setting, bad_value,
  name_missing, name_with_slash, name_duplicated, bad_regex, first_error, in_range, in_range_if_set,
  is_format, parse_level,
}

-- Whether a name is in `seen`.
abbrev pub is_seen : Text → List Text → Bool
is_seen name [] = false
is_seen name (s ∷ seen) = if text_eq s name then true else is_seen name seen

abbrev pub regex_check : (Text → Bool) → ℕ → Text → Text → Option Invalid
regex_check compiles i setting pattern =
    if is_empty pattern || compiles pattern then none else some (bad_regex i setting)

-- The loop of `validateLibrary` from the index `i` on, with the names seen.
unfoldable pub validate_paths : (Text → Bool) → ℕ → List Text → List VirtualPath → Option Invalid
unfolding first_error
validate_paths compiles i seen [] = none
validate_paths compiles i seen (vp ∷ paths) =
    let skip = validate_paths compiles (suc i) seen paths in
    let rest = validate_paths compiles (suc i) (vp.name ∷ seen) paths in
    if is_empty vp.name
    then some (name_missing i)
    else if contains vp.name (slash ∷ [])
    then some (name_with_slash i)
    else if text_eq vp.name (codes "__all__")
    then skip
    else if is_seen vp.name seen
    then some (name_duplicated i)
    else first_error (
        regex_check compiles i (codes "directory_include") vp.directory_include
        ∷ regex_check compiles i (codes "directory_exclude") vp.directory_exclude
        ∷ regex_check compiles i (codes "file_regex") vp.file_regex
        ∷ rest
        ∷ [])

unfoldable pub validate_library : (Text → Bool) → LibrarySettings → Option Invalid
unfolding validate_paths first_error
validate_library compiles l = first_error (
    validate_paths compiles 0 [] l.virtual_paths
    ∷ in_range (codes "library.hook_timeout_seconds") 1 3600 l.hook_timeout_sec
    ∷ [])

-- The checks of the cache's settings behind the time to live.
unfoldable pub cache_checks : CacheSettings → List (Option Invalid)
cache_checks c =
    in_range_if_set (codes "cache.cdn_url_repair_retries") 0 10 c.cdn_url_repair_retries
    ∷ in_range_if_set (codes "cache.cdn_url_retry_attempts") 0 10 c.cdn_url_retry_count
    ∷ in_range_if_set (codes "cache.cdn_url_retry_backoff") 1 60 c.cdn_url_retry_backoff
    ∷ in_range_if_set (codes "cache.negative_cache_ttl_seconds") 1 300 c.negative_cache_ttl_seconds
    ∷ in_range_if_set (codes "cache.circuit_breaker_failures") 1 100 c.circuit_breaker_failures
    ∷ in_range_if_set (codes "cache.circuit_breaker_window_seconds") 1 3600
        c.circuit_breaker_window_sec
    ∷ in_range_if_set (codes "cache.circuit_breaker_stale_minutes") 1 60 c.circuit_breaker_stale_min
    ∷ in_range_if_set (codes "cache.negative_cache_max_entries") 100 50000
        c.negative_cache_max_entries
    ∷ in_range_if_set (codes "cache.circuit_breaker_max_entries") 50 20000
        c.circuit_breaker_max_entries
    ∷ in_range_if_set (codes "cache.cleanup_interval_seconds") 10 3600 c.cleanup_interval_seconds
    ∷ in_range_if_set (codes "cache.max_cdn_connections") 1 64 c.max_cdn_connections
    ∷ []

-- The checks of `validate`, in their order.
unfoldable pub checks : (Text → Bool) → Settings → List (Option Invalid)
unfolding first_error cache_checks validate_library is_format parse_level
checks compiles c =
    ((if is_empty c.api_key then some (missing_setting (codes "torbox.api_key")) else none)
      ∷ (if is_format c.log_format
          then none
          else some (bad_value (codes "logging.format") c.log_format))
      ∷ (elim (parse_level c.log_level) [
        | some level ↦ none
        | none ↦ some (bad_value (codes "logging.level") c.log_level)
      ])
      ∷ in_range (codes "cache.cdn_url_ttl_minutes") 1 1440 c.cache.cdn_url_ttl_minutes
      ∷ in_range (codes "sync.interval_minutes") 1 1440 c.sync.interval_minutes
      ∷ in_range (codes "sync.list_page_size") 1 10000 c.sync.list_page_size
      ∷ in_range_if_set (codes "sync.retry_attempts") 0 10 c.sync.retry_attempts
      ∷ in_range_if_set (codes "sync.retry_backoff") 1 60 c.sync.retry_backoff
      ∷ in_range (codes "stats.interval_seconds") 10 3600 c.stats.interval_seconds
      ∷ in_range (codes "stats.retention_hours") 1 720 c.stats.retention_hours
      ∷ in_range (codes "stats.chart_minutes") 1 1440 c.stats.chart_minutes
      ∷ first_error (cache_checks c.cache)
      ∷ in_range (codes "throttle.requests_per_minute") 10 1000 c.requests_per_minute
      ∷ (if c.auth.enabled && is_empty c.auth.password
          then some (missing_setting (codes "auth.password"))
          else none)
      ∷ validate_library compiles c.library
      ∷ [])

unfoldable pub validate : (Text → Bool) → Settings → Option Invalid
unfolding first_error checks
validate compiles c = first_error (checks compiles c)
