-- ===== src/Program/Loaded.antt =====
-- What the parts are made with when the settings of a file pass the validation.
use warpbox_custom.Prelude.{
  arith, ℕ, ◌+◌, ◌≡◌, ◌≢◌, ◌≤◌, refl, subst, if◌then◌else◌, inl, inr, Bool, true, ◌&&◌, Option,
  none, some, Option-cases, [], Text, is_empty, ℤ, pos, negsuc, pos_part, Result, ok, codes,
}
use warpbox_custom.Settings.{
  Settings, CacheSettings, option_or, Invalid, in_range, in_range_if_set, first_error, set_defaults,
  cache_defaults, missing_setting,
}
use warpbox_custom.Settings.Validate.{validate, checks, cache_checks}
use warpbox_custom.Settings.Bounds.{first_error-get_elem?, in_range-le}
use warpbox_custom.Throttle.{Queue, History, Reach, stats}
use warpbox_custom.Throttle.Rate.{calls_last_minute-le}
use warpbox_custom.Server.Config.{Config}
use warpbox_custom.Program.{load, server_config}

-- A setting is a number, and that number lies in a range.
abbrev pub Ranged : ℕ → ℕ → ℤ → ℕ → Type 0
Ranged low high n m = (n ≡ pos m) × (low ≤ m) × (m ≤ high)

in_range-Ranged :
    (setting : Text) (low high : ℕ) (n : ℤ)
    → in_range setting low high n ≡ none
    → Ranged low high n (pos_part n)
in_range-Ranged setting low high (pos m) h =
    let le = in_range-le setting low high (pos m) h in (refl, omega arith, omega arith)
in_range-Ranged setting low high (negsuc k) h =
    let le = in_range-le setting low high (negsuc k) h in absurd (omega arith)

abbrev Within : ℕ → ℕ → ℕ → Type 0
Within low high m = (low ≤ m) × (m ≤ high)

in_range_if_set-Within :
    (setting : Text) (low high : ℕ) (o : Option ℤ) (n : ℤ)
    → o ≡ some n
    → in_range_if_set setting low high o ≡ none
    → Within low high (pos_part n)
in_range_if_set-Within setting low high none n e h = cc
in_range_if_set-Within setting low high (some n') n e h =
    let one : n' ≡ n = cc (e) in
    let r = in_range-Ranged setting low high n' h in
    subst (λ k. Within low high (pos_part k)) one (r.1, r.2)

-- The pointers that the defaults have set.
record Filled (k : CacheSettings) : Type 0 where
  auto_repair : (b : Bool) × (k.cdn_url_auto_repair ≡ some b)
  repair_retries : (n : ℤ) × (k.cdn_url_repair_retries ≡ some n)
  retry_backoff : (n : ℤ) × (k.cdn_url_retry_backoff ≡ some n)
  retry_count : (n : ℤ) × (k.cdn_url_retry_count ≡ some n)
  cache_ttl : (n : ℤ) × (k.negative_cache_ttl_seconds ≡ some n)
  failures : (n : ℤ) × (k.circuit_breaker_failures ≡ some n)
  window : (n : ℤ) × (k.circuit_breaker_window_sec ≡ some n)
  stale : (n : ℤ) × (k.circuit_breaker_stale_min ≡ some n)
  cache_entries : (n : ℤ) × (k.negative_cache_max_entries ≡ some n)
  breaker_entries : (n : ℤ) × (k.circuit_breaker_max_entries ≡ some n)
  cleanup_interval : (n : ℤ) × (k.cleanup_interval_seconds ≡ some n)
  cdn_connections : (n : ℤ) × (k.max_cdn_connections ≡ some n)

option_or-some {ℓ} : {A : Type ℓ} (o : Option A) (d : A) → (a : A) × (option_or o d ≡ some a)
option_or-some none d = (d, refl)
option_or-some (some a) d = (a, refl)

cache_defaults-Filled : (k : CacheSettings) → Filled (cache_defaults k)
unfolding cache_defaults
cache_defaults-Filled k = record {
  auto_repair = option_or-some k.cdn_url_auto_repair _;
  repair_retries = option_or-some k.cdn_url_repair_retries _;
  retry_backoff = option_or-some k.cdn_url_retry_backoff _;
  retry_count = option_or-some k.cdn_url_retry_count _;
  cache_ttl = option_or-some k.negative_cache_ttl_seconds _;
  failures = option_or-some k.circuit_breaker_failures _;
  window = option_or-some k.circuit_breaker_window_sec _;
  stale = option_or-some k.circuit_breaker_stale_min _;
  cache_entries = option_or-some k.negative_cache_max_entries _;
  breaker_entries = option_or-some k.circuit_breaker_max_entries _;
  cleanup_interval = option_or-some k.cleanup_interval_seconds _;
  cdn_connections = option_or-some k.max_cdn_connections _;
}

-- What the server, the sync and the queue rely on.
pub record Wired (c : Settings) (cfg : Config) : Type 0 where
  pub ttl : Ranged 1 1440 c.cache.cdn_url_ttl_minutes cfg.cdn_ttl_minutes
  pub retries : cfg.cdn_url_repair_retries ≤ 10
  pub attempts : cfg.cdn_url_retry_count ≤ 10
  pub backoff : (1 ≤ cfg.cdn_url_retry_backoff) × (cfg.cdn_url_retry_backoff ≤ 60)
  pub cache_ttl : (1 ≤ cfg.negative_cache_ttl_seconds) × (cfg.negative_cache_ttl_seconds ≤ 300)
  pub failures : (1 ≤ cfg.circuit_breaker_failures) × (cfg.circuit_breaker_failures ≤ 100)
  pub window : (1 ≤ cfg.circuit_breaker_window_sec) × (cfg.circuit_breaker_window_sec ≤ 3600)
  pub stale : (1 ≤ cfg.circuit_breaker_stale_min) × (cfg.circuit_breaker_stale_min ≤ 60)
  pub cache_entries :
      (100 ≤ cfg.negative_cache_max_entries) × (cfg.negative_cache_max_entries ≤ 50_000)
  pub breaker_entries :
      (50 ≤ cfg.circuit_breaker_max_entries) × (cfg.circuit_breaker_max_entries ≤ 20_000)
  pub rate : Ranged 10 1000 c.requests_per_minute (pos_part c.requests_per_minute)
  pub password : cfg.auth_enabled ≡ true → cfg.auth_password ≢ []

set_defaults-Filled : (c : Settings) → Filled (set_defaults c).cache
unfolding set_defaults
set_defaults-Filled c = cache_defaults-Filled c.cache

password_set :
    (c : Settings)
    → (if c.auth.enabled && is_empty c.auth.password
        then some (missing_setting (codes "auth.password"))
        else none)
      ≡ none
    → c.auth.enabled ≡ true
    → c.auth.password ≢ []
password_set c h on e = absurd (ground (arith, h, on, e))

abbrev filled_config : (c : Settings) → Filled c.cache → Config
filled_config c f = record {
  cdn_ttl_minutes = pos_part c.cache.cdn_url_ttl_minutes;
  cdn_url_auto_repair = f.auto_repair.0;
  cdn_url_repair_retries = pos_part f.repair_retries.0;
  cdn_url_retry_backoff = pos_part f.retry_backoff.0;
  cdn_url_retry_count = pos_part f.retry_count.0;
  negative_cache_ttl_seconds = pos_part f.cache_ttl.0;
  circuit_breaker_failures = pos_part f.failures.0;
  circuit_breaker_window_sec = pos_part f.window.0;
  circuit_breaker_stale_min = pos_part f.stale.0;
  negative_cache_max_entries = pos_part f.cache_entries.0;
  circuit_breaker_max_entries = pos_part f.breaker_entries.0;
  auth_enabled = c.auth.enabled;
  auth_username = c.auth.username;
  auth_password = c.auth.password;
}

server_config-Wired :
    (compiles : Text → Bool) (c : Settings)
    → Filled c.cache
    → validate compiles c ≡ none
    → (cfg : Config) × (server_config c ≡ some cfg) × Wired c cfg
unfolding validate checks cache_checks server_config
server_config-Wired compiles c f h =
    let passed = first_error-get_elem? (checks compiles c) in
    let cache = first_error-get_elem? (cache_checks c.cache) in
    let ok_cache : first_error (cache_checks c.cache) ≡ none = passed 11 _ h refl in
    (
      filled_config c f,
      ground (
        arith, f.auto_repair.1, f.repair_retries.1, f.retry_backoff.1, f.retry_count.1,
        f.cache_ttl.1, f.failures.1, f.window.1, f.stale.1, f.cache_entries.1, f.breaker_entries.1,
        f.cleanup_interval.1, f.cdn_connections.1,
      ),
      record {
        ttl = in_range-Ranged _ 1 1440 c.cache.cdn_url_ttl_minutes (passed 3 _ h refl);
        retries =
            (in_range_if_set-Within _ 0 10 _ _ f.repair_retries.1 (cache 0 _ ok_cache refl)).1;
        attempts = (in_range_if_set-Within _ 0 10 _ _ f.retry_count.1 (cache 1 _ ok_cache refl)).1;
        backoff = in_range_if_set-Within _ 1 60 _ _ f.retry_backoff.1 (cache 2 _ ok_cache refl);
        cache_ttl = in_range_if_set-Within _ 1 300 _ _ f.cache_ttl.1 (cache 3 _ ok_cache refl);
        failures = in_range_if_set-Within _ 1 100 _ _ f.failures.1 (cache 4 _ ok_cache refl);
        window = in_range_if_set-Within _ 1 3600 _ _ f.window.1 (cache 5 _ ok_cache refl);
        stale = in_range_if_set-Within _ 1 60 _ _ f.stale.1 (cache 6 _ ok_cache refl);
        cache_entries =
            in_range_if_set-Within _ 100 50_000 _ _ f.cache_entries.1 (cache 7 _ ok_cache refl);
        breaker_entries =
            in_range_if_set-Within _ 50 20_000 _ _ f.breaker_entries.1 (cache 8 _ ok_cache refl);
        rate = in_range-Ranged _ 10 1000 c.requests_per_minute (passed 12 _ h refl);
        password = password_set c (passed 13 _ h refl);
      },
    )

load-eq :
    (compiles : Text → Bool) (written c : Settings)
    → load compiles written ≡ ok c
    → (set_defaults written ≡ c) × (validate compiles (set_defaults written) ≡ none)
unfolding load
load-eq compiles written c h = elim (Option-cases (validate compiles (set_defaults written))) [
  | inl e ↦
      let same : ◌≡◌ {A = Result Invalid Settings} (ok (set_defaults written)) (ok c) =
        rw (load, e) at h in
      (cc (same), e)
  | inr (e, failed) ↦ cc (rw (load, failed) at h)
]

-- Settings that a file loads with: the configuration of the server is made without a nil pointer,
-- its numbers lie within the bounds of the validation, and there is a password if authentication is
-- enabled; and whatever happens to the queue that is made, it reports at any time at most one call
-- more within the last minute than the settings allow for a minute.
pub load-Wired :
    (compiles : Text → Bool) (written c : Settings)
    → load compiles written ≡ ok c
    → ((cfg : Config) × (server_config c ≡ some cfg) × Wired c cfg)
      × ((now : ℕ) (q : Queue) (h : History)
          → Reach (pos_part c.requests_per_minute) q h
          → (stats now q).calls_last_minute ≤ pos_part c.requests_per_minute + 1)
load-Wired compiles written c h =
    let (same, valid) = load-eq compiles written c h in
    let valid' : validate compiles c ≡ none = subst (λ k. validate compiles k ≡ none) same valid in
    let filled : Filled c.cache =
      subst (λ (k : Settings). Filled k.cache) same (set_defaults-Filled written) in
    let (cfg, made, w) = server_config-Wired compiles c filled valid' in
    (
      (cfg, made, w),
      λ now q history r.
          calls_last_minute-le (pos_part c.requests_per_minute) now (omega (arith, w.rate.1))
            w.rate.2 r,
    )
