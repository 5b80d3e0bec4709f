-- ===== src/Server/Stream/Proxy.antt =====
-- The loop of `streamFileContent` over the requests to the CDN, and the handlers of GET and HEAD
-- around it.
use warpbox_custom.Prelude.{
  ℕ, zero, suc, ◌+◌, Bool, true, false, not, ◌&&◌, Option, none, some, ◌++◌, Text, codes, is_empty,
  ltb, ◌==◌, if◌then◌else◌, format, Result, ok, err,
}
use warpbox_custom.Metadata.{FileRecord}
use warpbox_custom.Metadata.Store.{get_cdn_url}
use warpbox_custom.Server.Config.{Config}
use warpbox_custom.Server.Range.{HttpRange, format_int}
use warpbox_custom.Server.Stream.{
  World, Session, Outcome, http_error, redirect, listing, headed, served, bad_request, no_answer,
  answered, fetch_url, save_url, drop_url, request_cdn, head_for, requested_range, hang, is_gone,
  is_transient, is_success, is_error_body, cache_failure, mime_or_default,
}

-- `maxAttempts`
abbrev pub max_attempts : Config → ℕ
max_attempts cfg = cfg.cdn_url_repair_retries + 1

-- A URL that has gone stale is refreshed unless this is the last attempt.
abbrev pub repairs : Config → ℕ → ℕ → Bool
repairs cfg attempt status =
    is_gone status && cfg.cdn_url_auto_repair && ltb (attempt + 1) (max_attempts cfg)

-- The error for a status that is neither repaired nor waited for.
unfoldable pub refuse : World → Config → FileRecord → ℕ → ℕ → Session → Outcome × Session
refuse w cfg file attempt status s = (
  http_error 502 (codes "CDN returned status " ++ format status),
  if is_gone status && attempt + 1 == max_attempts cfg
      then cache_failure w cfg file status (max_attempts cfg) s
      else s,
)

-- The answers that end the loop.
unfoldable pub finish :
    World
    → Config
    → (fuel : ℕ) → FileRecord
    → Text
    → HttpRange
    → Bool
    → ℕ
    → ℕ
    → Text
    → Text
    → Session
    → Option (Outcome × Session)
unfolding refuse
finish w cfg fuel file rang r is_range attempt status content_type body s =
    if is_transient status
    then hang w cfg fuel file rang (drop_url w cfg file s)
    else if not (is_success status)
    then some (refuse w cfg file attempt status s)
    else if is_error_body content_type
    then hang w cfg fuel file rang (drop_url w cfg file s)
    else some (served (head_for file r is_range) body, s)

-- The loop from an attempt on, with the rounds that are left.
unfoldable pub repair_loop :
    World
    → Config
    → (fuel : ℕ) → FileRecord
    → Text
    → HttpRange
    → Bool
    → (rounds attempt : ℕ) → Text
    → Session
    → Option (Outcome × Session)
repair_loop w cfg fuel file rang r is_range zero attempt url s =
    some (http_error 502 (codes "CDN proxy error after retries"), s)
repair_loop w cfg fuel file rang r is_range (suc rounds) attempt url s =
    let (reply, s') = request_cdn w url r s in
    elim reply [
      | bad_request ↦ some (http_error 500 (codes "Failed to create upstream request"), s')
      | no_answer ↦ some (http_error 502 (codes "CDN proxy error"), s')
      | answered status content_type body ↦ elim (repairs cfg attempt status) [
        | true ↦
            let (fetched, s'') = fetch_url w cfg file s' in
            elim fetched [
              | err e ↦ some (http_error 502 (codes "CDN URL refresh failed"), s'')
              | ok new ↦
                  repair_loop w cfg fuel file rang r is_range rounds (attempt + 1) new
                    (save_url w cfg file new s'')
            ]
        | false ↦ finish w cfg fuel file rang r is_range attempt status content_type body s'
      ]
    ]

-- From a URL on.
unfoldable pub proxy :
    World → Config → (fuel : ℕ) → FileRecord → Text → Text → Session → Option (Outcome × Session)
unfolding repair_loop finish
proxy w cfg fuel file rang url s = elim (requested_range rang file) [
  | err e ↦ some (http_error 416 (codes "Invalid range"), s)
  | ok (r, is_range) ↦ repair_loop w cfg fuel file rang r is_range (max_attempts cfg) 0 url s
]

-- `streamFileContent`
unfoldable pub stream :
    World → Config → (fuel : ℕ) → FileRecord → Text → Session → Option (Outcome × Session)
unfolding proxy
stream w cfg fuel file rang s = elim w.read_error [
  | some e ↦ some (http_error 500 (codes "Internal Server Error"), s)
  | none ↦
      if is_empty (get_cdn_url w.read_time file.id s.store)
      then (let (fetched, s') = fetch_url w cfg file s in
          elim fetched [
            | err e ↦ hang w cfg fuel file rang s'
            | ok url ↦ proxy w cfg fuel file rang url (save_url w cfg file url s')
          ])
      else proxy w cfg fuel file rang (get_cdn_url w.read_time file.id s.store) s
]

-- `handleGet` for a path of the store: the outcome of its query is an argument, and so is whether
-- the path has children, or the error of that query.
unfoldable pub handle_get :
    World
    → Config
    → (fuel : ℕ) → (path rang : Text) → Result Text (Option FileRecord)
    → Result Text Bool
    → Session
    → Option (Outcome × Session)
unfolding stream
handle_get w cfg fuel path rang found children s =
    if is_empty path then some (listing, s) else elim found [
      | err e ↦ some (http_error 500 (codes "Internal Server Error"), s)
      | ok none ↦ elim children [
        | err e ↦ some (http_error 500 (codes "Internal Server Error"), s)
        | ok has_children ↦
            some (if has_children then listing else http_error 404 (codes "not found"), s)
      ]
      | ok (some file) ↦ elim w.read_error [
        | some e ↦ stream w cfg fuel file rang s
        | none ↦
            if is_empty rang && not (is_empty (get_cdn_url w.read_time file.id s.store))
            then some (redirect (get_cdn_url w.read_time file.id s.store), s)
            else stream w cfg fuel file rang s
      ]
    ]

-- `handleHead`
unfoldable pub handle_head : Text → Result Text (Option FileRecord) → Outcome
handle_head path found = if is_empty path then http_error 404 (codes "not found") else elim found [
  | err e ↦ http_error 500 (codes "Internal Server Error")
  | ok none ↦ http_error 404 (codes "not found")
  | ok (some file) ↦ headed (record {
    status = 200;
    content_type = mime_or_default file.mime_type;
    content_length = format_int file.size;
    content_range = none;
  })
]
