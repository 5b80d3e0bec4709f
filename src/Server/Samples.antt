-- ===== src/Server/Samples.antt =====
-- A configuration with the defaults of internal/config, for tests.
use warpbox_custom.Prelude.{true, false, codes}
use warpbox_custom.Server.Config.{Config}

abbrev pub defaults : Config
defaults = record {
  cdn_ttl_minutes = 120;
  cdn_url_auto_repair = true;
  cdn_url_repair_retries = 2;
  cdn_url_retry_backoff = 1;
  cdn_url_retry_count = 1;
  negative_cache_ttl_seconds = 30;
  circuit_breaker_failures = 5;
  circuit_breaker_window_sec = 60;
  circuit_breaker_stale_min = 5;
  negative_cache_max_entries = 5000;
  circuit_breaker_max_entries = 2000;
  auth_enabled = false;
  auth_username = codes "admin";
  auth_password = codes "";
}
