-- ===== src/Server/Stream/Tests.antt =====
-- Requests for a file at concrete answers of the API and of the CDN, and the theorems there.
use warpbox_custom.Prelude.{
  ℕ, ◌+◌, ◌*◌, ◌≡◌, refl, zero, suc, true, false, [], ◌∷◌, arith, Text, codes, Result, ok, err, pos,
  none, some, lookup, has_prefix, to_lower, insert, text_eq, format, contains, Bool,
}
use warpbox_custom.Metadata.{FileRecord, source_torrent, zero_record}
use warpbox_custom.Metadata.Store.{get_cdn_url}
use warpbox_custom.Server.Config.{second, minute}
use warpbox_custom.Server.Samples.{defaults}
use warpbox_custom.Server.Breaker.{is_torrent_stale, record_torrent_failure}
use warpbox_custom.Server.Fetch.{
  cdn_cache_key, FetchTimes, settle, fetch_uncached, fetch_cdn_url, get_cdn_url_with_retry,
}
use warpbox_custom.Server.Range.{full_range, range_header}
use warpbox_custom.Torbox.{is_retryable}
use warpbox_custom.Server.Stream.{
  Outcome, World, Session, served, hung, CdnReply, answered, fetch_url, save_url, request_cdn,
  head_for, requested_range, hang, Polled, poll_loop, cdn_poll_interval, is_success, is_error_body,
}
use warpbox_custom.Server.Stream.Proxy.{stream, proxy, repair_loop, finish, max_attempts}
use warpbox_custom.Server.Stream.Serving.{outcome_of, stream_served}
use warpbox_custom.Server.Stream.Success.{Patient, Succeeds, stream-Succeeds}
use warpbox_custom.Server.Stream.Polling.{after_polls, Waited, poll_loop_ends}
use warpbox_custom.Server.Stream.Hanging.{hang_recovers}
use warpbox_custom.Server.Stream.Work.{Returns, stream-Returns}

abbrev film : FileRecord
film = record zero_record {
  id = 1;
  item_id = 7;
  file_id = 3;
  source = source_torrent;
  size = pos 1000;
  mime_type = codes "video/mp4";
}

-- A fetch at minute `n`.
abbrev times : ℕ → FetchTimes
times n = record {
  at_lookup = n * minute;
  at_breaker = n * minute;
  at_failure = n * minute + 3 * second;
  at_caching = n * minute + 3 * second;
}

-- The API gives a URL from the second fetch on, and the client leaves after the third poll.
abbrev late_api : ℕ → ℕ → Result Text Text
late_api zero attempt = err (codes "torbox: unexpected status 404")
late_api (suc n) attempt = ok (codes "https://cdn/1")

abbrev prompt_api : ℕ → ℕ → Result Text Text
prompt_api n attempt = ok (codes "https://cdn/1")

abbrev leaves_at_two : ℕ → Bool
leaves_at_two zero = false
leaves_at_two (suc zero) = false
leaves_at_two (suc (suc n)) = true

abbrev video : ℕ → Text → Text → CdnReply
video k url header = answered 206 (codes "video/mp4") (codes "data")

abbrev steady : World
steady = record {
  read_error = none;
  read_time = 0;
  fetch_times = times;
  api = prompt_api;
  write_time = λ n. n * minute;
  write_error = λ n attempt. none;
  cdn = video;
  failure_time = 0;
  gone = leaves_at_two;
}

abbrev slow : World
slow = record steady { api = late_api }

abbrev fresh : Session
fresh = record {
  store = record { files = film ∷ []; next_id = 2; tag_counter = 0; lock_errors = 0 };
  caches = record { negative_cache = []; torrent_failures = [] };
  fetches = 0;
  writes = 0;
  requests = 0;
}

film_range : requested_range [] film ≡ ok (full_range (pos 1000), false)
unfolding requested_range
film_range = refl

steady_serves :
    outcome_of (stream steady defaults 3 film [] fresh)
    ≡ some (served (head_for film (full_range (pos 1000)) false) (codes "data"))
unfolding stream proxy repair_loop finish fetch_url fetch_cdn_url fetch_uncached settle
    get_cdn_url_with_retry is_retryable has_prefix lookup is_torrent_stale save_url request_cdn
    requested_range is_error_body get_cdn_url contains to_lower
steady_serves = refl

stream_served_example :
    (k : ℕ) × (url : Text) × (status : ℕ) × (content_type : Text) × (head_for film
        (full_range (pos 1000))
        false
      ≡ head_for film (full_range (pos 1000)) false)
    × (video k url (range_header (full_range (pos 1000)))
        ≡ answered status content_type (codes "data"))
    × (is_success status ≡ true)
    × (is_error_body content_type ≡ false)
stream_served_example =
    stream_served steady defaults 3 film [] fresh (full_range (pos 1000)) false
      (head_for film (full_range (pos 1000)) false) (codes "data") film_range steady_serves

video_patient : Patient steady defaults 3 film []
video_patient k url header = (206, codes "video/mp4", codes "data", refl, refl)

stream-Succeeds_example :
    (o : Outcome) × (s' : Session) × (stream steady defaults 3 film [] fresh ≡ some (o, s'))
    × Succeeds steady defaults 3 film [] (full_range (pos 1000)) false o
stream-Succeeds_example =
    stream-Succeeds steady defaults 3 film [] 2 fresh (full_range (pos 1000)) false refl
      (omega arith) refl film_range video_patient

late_url :
    (fetch_url slow defaults film (after_polls slow defaults film 1 fresh)).0
    ≡ ok (codes "https://cdn/1")
unfolding fetch_url after_polls fetch_cdn_url fetch_uncached settle get_cdn_url_with_retry
    is_retryable has_prefix lookup is_torrent_stale insert text_eq cdn_cache_key format
    record_torrent_failure
late_url = refl

stays_at_zero : (j : ℕ) → j ≡ 0 → slow.gone j ≡ false
stays_at_zero j h = rw h refl

hang_recovers_example :
    (u : Text) × (s' : Session) × (hang slow defaults 3 film [] fresh
      ≡ some (hung (head_for film (full_range (pos 1000)) false) (some (codes "data")), s'))
hang_recovers_example =
    hang_recovers slow defaults film 1 3 [] fresh (full_range (pos 1000)) false
      (codes "https://cdn/1") film_range (λ j h. stays_at_zero j (omega arith)) late_url
      (omega arith)

poll_loop_ends_example :
    (p : Polled) × (poll_loop slow defaults film 3 0 cdn_poll_interval fresh ≡ some p)
    × Waited slow defaults film 2 fresh p
poll_loop_ends_example =
    poll_loop_ends slow defaults film 2 3 0 cdn_poll_interval fresh (omega arith, omega arith) refl
      (omega arith)

stream-Returns_example :
    Returns (0 + max_attempts defaults + 1) (stream slow defaults 3 film [] fresh)
stream-Returns_example = stream-Returns slow defaults film [] 2 3 refl (omega arith) fresh
