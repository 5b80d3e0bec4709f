-- ===== src/Server/Stream.antt =====
-- `streamFileContent` and `handleGetCDNHang` of internal/server/get.go: the bytes of a file, through
-- a CDN URL. What the API, the CDN, the clock, the database and the client do is an argument. A slot
-- for a connection to the CDN is taken and given back around each copy, which changes no result.
pub mod Proxy
pub mod Serving
pub mod Polling
pub mod Hanging
pub mod Success
pub mod Work
mod Tests
use warpbox_custom.Prelude.{
  ℕ, zero, suc, ◌+◌, ◌*◌, ◌-◌, ◌≡◌, min, Bool, true, false, not, ◌&&◌, ◌||◌, Option, none, some,
  List, [], ◌∷◌, ◌++◌, Text, codes, contains, has_prefix, to_lower, is_empty, ltb, leb, ◌==◌,
  if◌then◌else◌, insert, format, text_eq_instance, Result, ok, err, ◌>>=◌,
}
use warpbox_custom.Metadata.{FileRecord}
use warpbox_custom.Metadata.Store.{Store, get_cdn_url, set_cdn_url}
use warpbox_custom.Server.Config.{Config, second, minute}
use warpbox_custom.Server.Fetch.{Caches, FetchTimes, cdn_cache_key, fetch_cdn_url}
use warpbox_custom.Server.Range.{
  HttpRange, RangeError, parse_range, full_range, range_header, content_range, format_int,
}

-- A request to the CDN: it cannot be made, or is not answered, or is answered with a status and a
-- content type, and `io.Copy` gives the client these bytes.
pub data CdnReply : Type 0 where
  bad_request no_answer : CdnReply
  answered : (status : ℕ) → (content_type body : Text) → CdnReply

-- What the world does, by the number of the fetch, of the write, of the request or of the poll. The
-- reading of a URL has one error and one time, also where GetCDNURL is called a second time.
pub record World : Type 0 where
  pub read_error : Option Text
  pub read_time : ℕ
  pub fetch_times : ℕ → FetchTimes
  pub api : ℕ → ℕ → Result Text Text
  pub write_time : ℕ → ℕ
  pub write_error : ℕ → ℕ → Option Text
  pub cdn : ℕ → Text → Text → CdnReply
  pub failure_time : ℕ
  pub gone : ℕ → Bool

-- The state that a handler works on, and how often it has fetched, written and requested.
pub record Session : Type 0 where
  pub store : Store
  pub caches : Caches
  pub fetches : ℕ
  pub writes : ℕ
  pub requests : ℕ

-- The headers of a success.
pub record Head : Type 0 where
  pub status : ℕ
  pub content_type : Text
  pub content_length : Text
  pub content_range : Option Text

-- What the client gets; `hung` are the headers that are sent at once, and the bytes that follow, if
-- the copy is reached.
pub data Outcome : Type 0 where
  http_error : ℕ → Text → Outcome
  redirect : Text → Outcome
  listing : Outcome
  headed : Head → Outcome
  served : Head → Text → Outcome
  hung : Head → Option Text → Outcome

unfoldable pub fetch_url : World → Config → FileRecord → Session → Result Text Text × Session
fetch_url w cfg file s =
    let fetched =
      fetch_cdn_url cfg (w.fetch_times s.fetches) (w.api s.fetches) file.source file.item_id
        file.file_id s.caches in
    (fetched.outcome, record s { caches = fetched.caches; fetches = s.fetches + 1 })

-- `SetCDNURL` with an expiry, if URLs are cached; its error is logged.
abbrev pub write_url : World → Config → FileRecord → Text → ℕ → Session → Session
write_url w cfg file url expiry s =
    if ltb 0 cfg.cdn_ttl_minutes
    then record s {
      store = (set_cdn_url (w.write_error s.writes) file.id url expiry s.store).2;
      writes = s.writes + 1;
    }
    else s

unfoldable pub save_url : World → Config → FileRecord → Text → Session → Session
save_url w cfg file url s =
    write_url w cfg file url (w.write_time s.writes + cfg.cdn_ttl_minutes * minute) s

-- The cached URL is overwritten with the empty text.
unfoldable pub drop_url : World → Config → FileRecord → Session → Session
drop_url w cfg file s = write_url w cfg file [] (w.write_time s.writes - 60 * minute) s

unfoldable pub request_cdn : World → Text → HttpRange → Session → CdnReply × Session
request_cdn w url r s =
    (w.cdn s.requests url (range_header r), record s { requests = s.requests + 1 })

abbrev pub mime_or_default : Text → Text
mime_or_default [] = codes "application/octet-stream"
mime_or_default (c ∷ mime) = c ∷ mime

unfoldable pub head_for : FileRecord → HttpRange → Bool → Head
head_for file r is_range = record {
  status = if is_range then 206 else 200;
  content_type = mime_or_default file.mime_type;
  content_length = format_int r.size;
  content_range = if is_range then some (content_range r file.size) else none;
}

-- The range of a request, and whether it asks for one.
unfoldable pub requested_range : Text → FileRecord → Result RangeError (HttpRange × Bool)
requested_range rang file =
    if is_empty rang
    then ok (full_range file.size, false)
    else (do r ← parse_range rang file.size; ok (r, true))

abbrev pub cdn_poll_interval : ℕ
cdn_poll_interval = 15 * second

abbrev pub max_poll_interval : ℕ
max_poll_interval = 5 * minute

-- The interval after a failed poll.
unfoldable pub next_poll : Text → ℕ → ℕ
next_poll e interval =
    if contains e (codes "unexpected status 429")
    then min (interval * 2) max_poll_interval
    else interval

-- The URL, unless the client went away, and the waits between the polls.
pub record Polled : Type 0 where
  pub url : Option Text
  pub waits : List ℕ
  pub session : Session

abbrev pub after_wait : ℕ → Option Polled → Option Polled
after_wait wait none = none
after_wait wait (some p) = some (record p { waits = wait ∷ p.waits })

-- The loop of `handleGetCDNHang` from a poll on; `none` means that the fuel ran out.
unfoldable pub poll_loop :
    World → Config → FileRecord → (fuel poll interval : ℕ) → Session → Option Polled
poll_loop w cfg file zero poll interval s = none
poll_loop w cfg file (suc fuel) poll interval s =
    let (fetched, s') = fetch_url w cfg file s in
    elim fetched [
      | ok url ↦ some (record { url = some url; waits = []; session = s' })
      | err e ↦ elim (w.gone poll) [
        | true ↦ some (record { url = none; waits = []; session = s' })
        | false ↦
            after_wait (next_poll e interval)
              (poll_loop w cfg file fuel (suc poll) (next_poll e interval) s')
      ]
    ]

-- The copy once a URL is there: neither the status of the CDN nor its content type is looked at.
abbrev pub copied : CdnReply → Option Text
copied bad_request = none
copied no_answer = none
copied (answered status content_type body) = some body

unfoldable pub deliver :
    World → Config → FileRecord → HttpRange → Head → Text → Session → Outcome × Session
unfolding save_url request_cdn
deliver w cfg file r head url s =
    let (reply, s') = request_cdn w url r (save_url w cfg file url s) in
    (hung head (copied reply), s')

-- `handleGetCDNHang`
unfoldable pub hang :
    World → Config → (fuel : ℕ) → FileRecord → Text → Session → Option (Outcome × Session)
hang w cfg fuel file rang s = elim (requested_range rang file) [
  | err e ↦ some (http_error 416 (codes "Invalid range"), s)
  | ok (r, is_range) ↦ elim (poll_loop w cfg file fuel 0 cdn_poll_interval s) [
    | none ↦ none
    | some p ↦ elim p.url [
      | none ↦ some (hung (head_for file r is_range) none, p.session)
      | some url ↦ some (deliver w cfg file r (head_for file r is_range) url p.session)
    ]
  ]
]

-- A status of a URL that may be stale.
abbrev pub is_gone : ℕ → Bool
is_gone status = status == 403 || status == 404

abbrev pub is_transient : ℕ → Bool
is_transient status = status == 429 || leb 500 status

abbrev pub is_success : ℕ → Bool
is_success status = status == 200 || status == 206

-- A content type that stands for an error in place of the file's bytes.
unfoldable pub is_error_body : Text → Bool
is_error_body content_type =
    has_prefix (to_lower content_type) (codes "text/")
    || contains (to_lower content_type) (codes "html")
    || contains (to_lower content_type) (codes "json")

-- The failure after the last attempt is cached.
unfoldable pub cache_failure : World → Config → FileRecord → ℕ → ℕ → Session → Session
cache_failure w cfg file status attempts s = record s {
  caches = record s.caches {
    negative_cache =
        insert (cdn_cache_key file.source file.item_id file.file_id)
          (record {
            error =
                codes "CDN returned "
                ++ format status
                ++ codes " after "
                ++ format attempts
                ++ codes " repair attempts";
            expires_at = w.failure_time + cfg.negative_cache_ttl_seconds * second;
          })
          s.caches.negative_cache;
  };
}
