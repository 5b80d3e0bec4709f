-- ===== src/Server/Config.antt =====
-- The fields of `Config` of internal/server/server.go that the modelled handlers read. The loader of
-- internal/config admits no negative value in them.
use warpbox_custom.Prelude.{ℕ, Bool, ◌*◌, Text}

abbrev pub second : ℕ
second = 1_000_000_000

abbrev pub minute : ℕ
minute = 60 * second

pub record Config : Type 0 where
  pub cdn_ttl_minutes : ℕ
  pub cdn_url_auto_repair : Bool
  pub cdn_url_repair_retries : ℕ
  pub cdn_url_retry_backoff : ℕ
  pub cdn_url_retry_count : ℕ
  pub negative_cache_ttl_seconds : ℕ
  pub circuit_breaker_failures : ℕ
  pub circuit_breaker_window_sec : ℕ
  pub circuit_breaker_stale_min : ℕ
  pub negative_cache_max_entries : ℕ
  pub circuit_breaker_max_entries : ℕ
  pub auth_enabled : Bool
  pub auth_username : Text
  pub auth_password : Text
