-- ===== src/Settings.antt =====
-- internal/config/config.go: the defaults and the validation of the settings. A field that is a
-- pointer in the source is an option. The compiling of a regular expression is an argument.
pub mod Bounds
pub mod Validate
pub mod Samples
pub mod LogLevel
mod Tests
use warpbox_custom.Prelude.{
  ℕ, suc, Bool, true, false, not, ◌&&◌, ◌||◌, Option, none, some, List, [], ◌∷◌, Text, codes, slash,
  is_empty, contains, to_lower, text_eq, if◌then◌else◌, ℤ, pos, ltb_ℤ, length,
}

pub record CacheSettings : Type 0 where
  pub cdn_url_ttl_minutes : ℤ
  pub cdn_url_auto_repair : Option Bool
  pub cdn_url_repair_retries : Option ℤ
  pub cdn_url_retry_backoff : Option ℤ
  pub cdn_url_retry_count : Option ℤ
  pub negative_cache_ttl_seconds : Option ℤ
  pub circuit_breaker_failures : Option ℤ
  pub circuit_breaker_window_sec : Option ℤ
  pub circuit_breaker_stale_min : Option ℤ
  pub negative_cache_max_entries : Option ℤ
  pub circuit_breaker_max_entries : Option ℤ
  pub cleanup_interval_seconds : Option ℤ
  pub max_cdn_connections : Option ℤ

pub record SyncSettings : Type 0 where
  pub interval_minutes : ℤ
  pub list_page_size : ℤ
  pub bypass_cache : Bool
  pub retry_attempts : Option ℤ
  pub retry_backoff : Option ℤ

pub record StatsSettings : Type 0 where
  pub interval_seconds : ℤ
  pub retention_hours : ℤ
  pub chart_minutes : ℤ

pub record VirtualPath : Type 0 where
  pub name : Text
  pub directory_include : Text
  pub directory_exclude : Text
  pub file_regex : Text
  pub largest_file_only : Bool

pub record LibrarySettings : Type 0 where
  pub virtual_paths : List VirtualPath
  pub on_items_added : Text
  pub on_items_removed : Text
  pub hook_timeout_sec : ℤ

pub record AuthSettings : Type 0 where
  pub enabled : Bool
  pub username : Text
  pub password : Text

pub record Settings : Type 0 where
  pub api_key : Text
  pub listen_addr : Text
  pub enable_pprof : Bool
  pub cache : CacheSettings
  pub requests_per_minute : ℤ
  pub log_format : Text
  pub log_level : Text
  pub sync : SyncSettings
  pub stats : StatsSettings
  pub auth : AuthSettings
  pub library : LibrarySettings

-- What stands for an empty text, for 0 and for a nil pointer.
abbrev pub text_or : Text → Text → Text
text_or [] default = default
text_or (c ∷ s) default = c ∷ s

abbrev pub number_or : ℤ → ℕ → ℤ
number_or n default = if ltb_ℤ n (pos 0) || ltb_ℤ (pos 0) n then n else pos default

abbrev pub option_or {ℓ} : {A : Type ℓ} → Option A → A → Option A
option_or none default = some default
option_or (some n) default = some n

unfoldable pub cache_defaults : CacheSettings → CacheSettings
cache_defaults c = record {
  cdn_url_ttl_minutes = number_or c.cdn_url_ttl_minutes 120;
  cdn_url_auto_repair = option_or c.cdn_url_auto_repair true;
  cdn_url_repair_retries = option_or c.cdn_url_repair_retries (pos 2);
  cdn_url_retry_backoff = option_or c.cdn_url_retry_backoff (pos 1);
  cdn_url_retry_count = option_or c.cdn_url_retry_count (pos 1);
  negative_cache_ttl_seconds = option_or c.negative_cache_ttl_seconds (pos 30);
  circuit_breaker_failures = option_or c.circuit_breaker_failures (pos 5);
  circuit_breaker_window_sec = option_or c.circuit_breaker_window_sec (pos 60);
  circuit_breaker_stale_min = option_or c.circuit_breaker_stale_min (pos 5);
  negative_cache_max_entries = option_or c.negative_cache_max_entries (pos 5000);
  circuit_breaker_max_entries = option_or c.circuit_breaker_max_entries (pos 2000);
  cleanup_interval_seconds = option_or c.cleanup_interval_seconds (pos 60);
  max_cdn_connections = option_or c.max_cdn_connections (pos 4);
}

unfoldable pub set_defaults : Settings → Settings
unfolding cache_defaults
set_defaults c = record {
  api_key = c.api_key;
  listen_addr = text_or c.listen_addr (codes ":1412");
  enable_pprof = c.enable_pprof;
  cache = cache_defaults c.cache;
  requests_per_minute = number_or c.requests_per_minute 250;
  log_format = text_or c.log_format (codes "text");
  log_level = text_or c.log_level (codes "info");
  sync = record {
    interval_minutes = number_or c.sync.interval_minutes 5;
    list_page_size = number_or c.sync.list_page_size 5000;
    bypass_cache = c.sync.bypass_cache;
    retry_attempts = option_or c.sync.retry_attempts (pos 3);
    retry_backoff = option_or c.sync.retry_backoff (pos 1);
  };
  stats = record {
    interval_seconds = number_or c.stats.interval_seconds 60;
    retention_hours = number_or c.stats.retention_hours 24;
    chart_minutes = number_or c.stats.chart_minutes 60;
  };
  auth = record c.auth { username = text_or c.auth.username (codes "admin") };
  library = record c.library { hook_timeout_sec = number_or c.library.hook_timeout_sec 30 };
}

-- The errors, which name the setting.
pub data Invalid : Type 0 where
  missing_setting : Text → Invalid
  bad_value : Text → Text → Invalid
  out_of_range : Text → ℤ → Invalid
  name_missing name_with_slash name_duplicated : ℕ → Invalid
  bad_regex : ℕ → Text → Invalid

-- The first error of the checks in their order, as each returns early.
unfoldable pub first_error : List (Option Invalid) → Option Invalid
first_error [] = none
first_error (none ∷ checks) = first_error checks
first_error (some e ∷ checks) = some e

abbrev pub in_range : Text → ℕ → ℕ → ℤ → Option Invalid
in_range setting low high n =
    if ltb_ℤ n (pos low) || ltb_ℤ (pos high) n then some (out_of_range setting n) else none

abbrev pub in_range_if_set : Text → ℕ → ℕ → Option ℤ → Option Invalid
in_range_if_set setting low high none = none
in_range_if_set setting low high (some n) = in_range setting low high n

unfoldable pub is_format : Text → Bool
is_format s = text_eq (to_lower s) (codes "text") || text_eq (to_lower s) (codes "json")

pub data Level : Type 0 where
  debug_level info_level warn_level error_level : Level

unfoldable pub parse_level : Text → Option Level
parse_level s =
    if text_eq (to_lower s) (codes "debug")
    then some debug_level
    else if text_eq (to_lower s) (codes "info")
    then some info_level
    else if text_eq (to_lower s) (codes "warn")
    then some warn_level
    else if text_eq (to_lower s) (codes "error")
    then some error_level
    else none
