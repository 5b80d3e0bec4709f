-- ===== src/Server/Fetch/Tests.antt =====
-- Fetches at concrete answers of the API, and the theorems there.
use warpbox_custom.Prelude.{
  ℕ, ◌+◌, ◌≤◌, ◌≡◌, refl, zero, suc, false, [], ◌∷◌, arith, Text, codes, Result, ok, err, lookup,
  text_eq_instance, nat_eq, has_prefix,
}
use warpbox_custom.Server.Config.{second}
use warpbox_custom.Server.Samples.{defaults}
use warpbox_custom.Server.Breaker.{is_torrent_stale}
use warpbox_custom.Metadata.{source_torrent}
use warpbox_custom.Server.Fetch.{
  Caches, FetchTimes, Fetched, settle, fetch_uncached, fetch_cdn_url, get_cdn_url_with_retry,
  backoff,
}
use warpbox_custom.Server.Fetch.Retry.{Ends, get_cdn_url_with_retry-Ends}
use warpbox_custom.Server.Fetch.Cache.{fetch_calls-le, fetch_fails_fast}
use warpbox_custom.Torbox.{is_retryable}

abbrev bad_gateway : Text
bad_gateway = codes "torbox: unexpected status 502"

-- The API fails once and then gives a URL.
abbrev flaky : ℕ → Result Text Text
flaky zero = err bad_gateway
flaky (suc n) = ok (codes "https://cdn/1")

abbrev down : ℕ → Result Text Text
down n = err bad_gateway

abbrev empty_caches : Caches
empty_caches = record { negative_cache = []; torrent_failures = [] }

abbrev noon : FetchTimes
noon = record {
  at_lookup = 1_000_000_000_000;
  at_breaker = 1_000_000_000_001;
  at_failure = 1_003_000_000_000;
  at_caching = 1_003_000_000_001;
}

abbrev later : FetchTimes
later = record noon { at_lookup = 1_020_000_000_000 }

flaky_recovers : get_cdn_url_with_retry defaults flaky ≡ record {
  outcome = ok (codes "https://cdn/1");
  calls = 2;
  waits = second ∷ [];
  failed = false;
}
unfolding get_cdn_url_with_retry backoff is_retryable has_prefix
flaky_recovers = refl

get_cdn_url_with_retry-Ends_example : Ends defaults flaky 0 (get_cdn_url_with_retry defaults flaky)
get_cdn_url_with_retry-Ends_example = get_cdn_url_with_retry-Ends defaults flaky

fetch_calls-le_example :
    (fetch_cdn_url defaults noon down source_torrent 7 3 empty_caches).calls ≤ 1 + 1
fetch_calls-le_example = fetch_calls-le defaults noon down source_torrent 7 3 empty_caches

-- What the failed fetch leaves behind.
abbrev after_failure : Fetched
after_failure = fetch_cdn_url defaults noon down source_torrent 7 3 empty_caches

down_fails : (after_failure.calls ≡ 2) × (after_failure.outcome ≡ err bad_gateway)
unfolding fetch_cdn_url fetch_uncached settle get_cdn_url_with_retry is_retryable has_prefix lookup
    is_torrent_stale
down_fails = (refl, refl)

fetch_fails_fast_example :
    fetch_cdn_url defaults later flaky source_torrent 7 3 after_failure.caches
    ≡ record { outcome = err bad_gateway; calls = 0; caches = after_failure.caches }
fetch_fails_fast_example =
    fetch_fails_fast defaults noon later down flaky source_torrent 7 3 empty_caches bad_gateway
      (omega (arith, down_fails.0)) down_fails.1 (omega arith)
