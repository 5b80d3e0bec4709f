-- ===== src/Torbox.antt =====
-- internal/torbox/client.go: the client of the TorBox API. An `error` is its message. What the
-- remote server answers and how `encoding/json` decodes it are arguments.
pub mod Pages
pub mod Retry
mod Tests
use warpbox_custom.Prelude.{
  ℕ, zero, suc, ◌+◌, ◌≡◌, Bool, true, false, ◌||◌, not, Option, none, some, List, [], ◌∷◌, ◌++◌,
  Text, codes, contains, is_empty, ltb, ◌==◌, if◌then◌else◌, ℤ, pos, pos_part, leb_ℤ, length,
  format, Result, ok, err, ◌>>=◌,
}

pub record TorrentFile : Type 0 where
  pub id : ℕ
  pub name : Text
  pub size : ℤ
  pub mime_type : Text
  pub s3_path : Text
  pub short_name : Text

-- The fields of a torrent or of a Usenet download that the program reads.
pub record Torrent : Type 0 where
  pub id : ℕ
  pub name : Text
  pub download_state : Text
  pub download_present : Bool
  pub files : List TorrentFile
  pub created_at : Text

-- `apiResponse`: the data, and the error if it is there.
pub record ApiResponse {ℓ} (A : Type ℓ) : Type ℓ where
  pub content : A
  pub error : Option Text

-- What `httpClient.Do` and `io.ReadAll` give: an error of either, or a status and the body.
pub data Reply : Type 0 where
  no_reply : Text → Reply
  broken_body : ℕ → Text → Reply
  replied : ℕ → Text → Reply

abbrev pub status_ok : ℕ
status_ok = 200

abbrev pub status_too_many_requests : ℕ
status_too_many_requests = 429

-- The message of `do` for a status other than 200.
unfoldable pub status_error : ℕ → Text
status_error status = codes "torbox: unexpected status " ++ format status

-- `do`: the body or an error, and whether `HTTP429Callback` is called.
unfoldable pub do_request : Text → Text → Reply → Result Text Text × Bool
unfolding status_error
do_request method path (no_reply e) =
    (err (codes "torbox: request " ++ method ++ codes " " ++ path ++ codes " failed: " ++ e), false)
do_request method path (broken_body status e) =
    (err (codes "torbox: reading response: " ++ e), false)
do_request method path (replied status body) = (
  if status == status_ok then ok body else err (status_error status),
  status == status_too_many_requests,
)

-- What follows `do` in each API call: decoding, and the error of the envelope.
unfoldable pub open_envelope {ℓ} :
    {A : Type ℓ} (decoding api_error : Text)
    → (Text → Result Text (ApiResponse A))
    → Text
    → Result Text A
open_envelope decoding api_error decode body = elim (decode body) [
  | err e ↦ err (decoding ++ e)
  | ok env ↦ elim env.error [
    | none ↦ ok env.content
    | some e ↦ if is_empty e then ok env.content else err (api_error ++ e)
  ]
]

abbrev pub default_list_page_size : ℕ
default_list_page_size = 1000

-- `pageSize`, with its default.
unfoldable pub page_size_of : ℤ → ℕ
page_size_of n = if leb_ℤ n (pos 0) then default_list_page_size else pos_part n

-- The loop of `listGeneric`; `page offset limit` is the outcome of one request. `none` means that
-- the fuel ran out.
unfoldable pub list_pages {ℓ} :
    {A : Type ℓ}
    → (ℕ → ℕ → Result Text (List A))
    → (fuel page_size offset : ℕ) → List A
    → Option (Result Text (List A))
list_pages page zero page_size offset all = none
list_pages page (suc fuel) page_size offset all = elim (page offset page_size) [
  | err e ↦ some (err e)
  | ok got ↦ elim (ltb (length got) page_size) [
    | true ↦ some (ok (all ++ got))
    | false ↦ list_pages page fuel page_size (offset + length got) (all ++ got)
  ]
]

-- One request of `listGeneric`.
unfoldable pub request_page :
    Text
    → Text
    → (Text → Result Text (ApiResponse (List Torrent)))
    → Reply
    → Result Text (List Torrent)
unfolding do_request open_envelope
request_page endpoint label decode reply = do
  body ← (do_request (codes "GET") endpoint reply).0
  open_envelope (codes "torbox: decoding " ++ label ++ codes " response: ")
      (codes "torbox " ++ label ++ codes " API error: ") decode body

-- `listGeneric`: what the server replies to a request depends on its offset and its limit.
unfoldable pub list_generic :
    (fuel : ℕ)
    → Text
    → Text
    → (Text → Result Text (ApiResponse (List Torrent)))
    → (ℕ → ℕ → Reply)
    → (page_size : ℤ) → (offset : ℕ) → Option (Result Text (List Torrent))
unfolding list_pages request_page page_size_of
list_generic fuel endpoint label decode server page_size offset =
    list_pages (λ o l. request_page endpoint label decode (server o l)) fuel
      (page_size_of page_size) offset []

-- `GetDownloadURL` and `GetUsenetDownloadURL`, from the reply on.
unfoldable pub get_download_url :
    Text → Text → Text → (Text → Result Text (ApiResponse Text)) → Reply → Result Text Text
unfolding do_request open_envelope
get_download_url endpoint decoding api_error decode reply = do
  body ← (do_request (codes "GET") endpoint reply).0
  open_envelope decoding api_error decode body

-- `IsRetryable` on the message of an error that is not nil.
unfoldable pub is_retryable : Text → Bool
unfolding contains
is_retryable s =
    contains s (codes "unexpected status 429")
    || contains s (codes "unexpected status 5")
    || contains s (codes "context deadline exceeded")
    || contains s (codes "Client.Timeout")
    || contains s (codes "invalid character '<'")
    || contains s (codes "connection refused")
    || contains s (codes "no such host")
    || contains s (codes "i/o timeout")
    || contains s (codes "EOF")
