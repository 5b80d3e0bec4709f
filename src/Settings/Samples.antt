-- ===== src/Settings/Samples.antt =====
-- The settings of a file with an API key and one virtual path, for tests.
use warpbox_custom.Prelude.{true, false, none, [], ◌∷◌, codes, pos}
use warpbox_custom.Settings.{Settings}

abbrev pub written : Settings
written = record {
  api_key = codes "key";
  listen_addr = [];
  enable_pprof = false;
  cache = record {
    cdn_url_ttl_minutes = pos 0;
    cdn_url_auto_repair = none;
    cdn_url_repair_retries = none;
    cdn_url_retry_backoff = none;
    cdn_url_retry_count = none;
    negative_cache_ttl_seconds = none;
    circuit_breaker_failures = none;
    circuit_breaker_window_sec = none;
    circuit_breaker_stale_min = none;
    negative_cache_max_entries = none;
    circuit_breaker_max_entries = none;
    cleanup_interval_seconds = none;
    max_cdn_connections = none;
  };
  requests_per_minute = pos 0;
  log_format = [];
  log_level = [];
  sync = record {
    interval_minutes = pos 0;
    list_page_size = pos 0;
    bypass_cache = false;
    retry_attempts = none;
    retry_backoff = none;
  };
  stats = record { interval_seconds = pos 0; retention_hours = pos 0; chart_minutes = pos 0 };
  auth = record { enabled = false; username = []; password = [] };
  library = record {
    virtual_paths =
        (record {
          name = codes "movies";
          directory_include = [];
          directory_exclude = [];
          file_regex = [];
          largest_file_only = true;
        })
        ∷ [];
    on_items_added = [];
    on_items_removed = [];
    hook_timeout_sec = pos 0;
  };
}
