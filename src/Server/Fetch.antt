-- ===== src/Server/Fetch.antt =====
-- `cdnCacheKey`, `getCDNURLWithRetry` and `fetchCDNURL` of internal/server/get.go: a CDN URL behind
-- the negative cache, the circuit breaker and the retries. What the API answers to each attempt,
-- through the throttle queue, is an argument; an error is its message.
pub mod Retry
pub mod Cache
mod Tests
use warpbox_custom.Prelude.{
  ℕ, zero, suc, ◌+◌, ◌*◌, ◌^◌, ◌≡◌, Bool, true, false, not, ◌||◌, Option, none, some, List, [], ◌∷◌,
  ◌++◌, Text, codes, contains, ltb, leb, ◌==◌, if◌then◌else◌, lookup, insert, delete,
  text_eq_instance, format, Result, ok, err,
}
use warpbox_custom.Metadata.{FileSource, source_torrent, source_usenet}
use warpbox_custom.Server.Config.{Config, second}
use warpbox_custom.Server.Breaker.{Trackers, is_torrent_stale, record_torrent_failure}
use warpbox_custom.Torbox.{is_retryable}

abbrev pub source_name : FileSource → Text
source_name source_torrent = codes "torrent"
source_name source_usenet = codes "usenet"

unfoldable pub cdn_cache_key : FileSource → (item_id file_id : ℕ) → Text
cdn_cache_key source item_id file_id =
    source_name source ++ b':' ∷ (format item_id ++ b':' ∷ format file_id)

-- `negativeCacheEntry`
pub record Entry : Type 0 where
  pub error : Text
  pub expires_at : ℕ

-- The two maps of the server, each under its mutex.
pub record Caches : Type 0 where
  pub negative_cache : List (Text × Entry)
  pub torrent_failures : Trackers

-- The wait before the next attempt, in nanoseconds.
unfoldable pub backoff : Config → ℕ → Text → ℕ
backoff cfg attempt e =
    if contains e (codes "unexpected status 429")
    then 30 * second
    else cfg.cdn_url_retry_backoff * second * 2 ^ attempt

-- What the retries end with, how many calls were made and what was waited between them.
pub record Tried : Type 0 where
  pub outcome : Result Text Text
  pub calls : ℕ
  pub waits : List ℕ
  pub failed : Bool

-- The loop of `getCDNURLWithRetry`, from an attempt on, with the rounds that are left. `failed` says
-- whether `recordTorrentFailure` is called.
unfoldable pub retry_loop : Config → (ℕ → Result Text Text) → (rounds attempt : ℕ) → Tried
retry_loop cfg api zero attempt = record {
  outcome = err (
      codes "torbox: CDN URL fetch exhausted after "
      ++ format cfg.cdn_url_retry_count
      ++ codes " retries");
  calls = 0;
  waits = [];
  failed = false;
}
retry_loop cfg api (suc rounds) attempt =
    let rest = retry_loop cfg api rounds (attempt + 1) in
    elim (api attempt) [
      | ok url ↦ record { outcome = ok url; calls = 1; waits = []; failed = false }
      | err e ↦
          if not (is_retryable e) || leb cfg.cdn_url_retry_count attempt
          then record { outcome = err e; calls = 1; waits = []; failed = true }
          else record rest { calls = rest.calls + 1; waits = backoff cfg attempt e ∷ rest.waits }
    ]

unfoldable pub get_cdn_url_with_retry : Config → (ℕ → Result Text Text) → Tried
unfolding retry_loop
get_cdn_url_with_retry cfg api = retry_loop cfg api (cfg.cdn_url_retry_count + 1) 0

-- When the negative cache is read, the breaker is asked, the failure is recorded and it is cached.
pub record FetchTimes : Type 0 where
  pub at_lookup : ℕ
  pub at_breaker : ℕ
  pub at_failure : ℕ
  pub at_caching : ℕ

-- The error of a stale item.
unfoldable pub stale_error : ℕ → Text
stale_error item_id = codes "item " ++ format item_id ++ codes " is marked stale by circuit breaker"

-- What a fetch gives, the calls that it made, and the maps afterwards.
pub record Fetched : Type 0 where
  pub outcome : Result Text Text
  pub calls : ℕ
  pub caches : Caches

-- What `fetchCDNURL` does with the end of the retries: a failure is recorded and cached.
unfoldable pub settle :
    Config → FetchTimes → Tried → (key : Text) → (item_id : ℕ) → Caches → Fetched
settle cfg times tried key item_id c =
    let c' =
      if tried.failed
      then record c {
        torrent_failures = record_torrent_failure cfg times.at_failure item_id c.torrent_failures;
      }
      else c in
    elim tried.outcome [
      | ok url ↦ record { outcome = ok url; calls = tried.calls; caches = c' }
      | err e ↦ record {
        outcome = err e;
        calls = tried.calls;
        caches = record c' {
          negative_cache =
              insert key
                (record {
                  error = e;
                  expires_at = times.at_caching + cfg.negative_cache_ttl_seconds * second;
                })
                c'.negative_cache;
        };
      }
    ]

-- Steps 2 and 3: the breaker, then the API.
unfoldable pub fetch_uncached :
    Config → FetchTimes → (ℕ → Result Text Text) → (key : Text) → (item_id : ℕ) → Caches → Fetched
fetch_uncached cfg times api key item_id c =
    let (stale, trackers) = is_torrent_stale times.at_breaker item_id c.torrent_failures in
    let c' = record c { torrent_failures = trackers } in
    if stale
    then record { outcome = err (stale_error item_id); calls = 0; caches = c' }
    else settle cfg times (get_cdn_url_with_retry cfg api) key item_id c'

unfoldable pub fetch_cdn_url :
    Config
    → FetchTimes
    → (ℕ → Result Text Text)
    → FileSource
    → (item_id file_id : ℕ) → Caches
    → Fetched
fetch_cdn_url cfg times api source item_id file_id c =
    let key = cdn_cache_key source item_id file_id in
    elim (lookup key c.negative_cache) [
      | none ↦ fetch_uncached cfg times api key item_id c
      | some entry ↦
          if ltb times.at_lookup entry.expires_at
          then record { outcome = err entry.error; calls = 0; caches = c }
          else fetch_uncached cfg times api key item_id
              (record c { negative_cache = delete key c.negative_cache })
    ]
