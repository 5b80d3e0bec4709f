-- ===== src/Server/Stream/Work.antt =====
-- How much work a request for a file is: it returns, after a bounded number of requests to the CDN.
use warpbox_custom.Prelude.{
  ℕ, zero, suc, ◌+◌, ◌≤◌, ◌<◌, ◌≡◌, refl, inl, inr, Bool, true, Option, some, Text, codes, arith,
  is_empty, Bool-cases, Option-cases, Result-cases, ltb, ◌&&◌, ◌==◌,
}
use warpbox_custom.Metadata.{FileRecord}
use warpbox_custom.Metadata.Store.{get_cdn_url}
use warpbox_custom.Server.Config.{Config}
use warpbox_custom.Server.Range.{HttpRange, range_header}
use warpbox_custom.Server.Stream.{
  World, Session, Outcome, http_error, served, fetch_url, save_url, drop_url, request_cdn, head_for,
  requested_range, hang, is_transient, is_success, is_error_body, is_gone, cache_failure,
}
use warpbox_custom.Server.Stream.Proxy.{
  repairs, finish, refuse, repair_loop, proxy, stream, max_attempts,
}
use warpbox_custom.Server.Stream.Serving.{CdnReply-cases}
use warpbox_custom.Server.Stream.Polling.{fetch_url-requests}
use warpbox_custom.Server.Stream.Hanging.{save_url-requests, hang_returns}

-- A handler returns, and the number of requests made is at most `n`.
abbrev pub Returns : ℕ → Option (Outcome × Session) → Type 0
Returns n result = (o : Outcome) × (s' : Session) × (result ≡ some (o, s')) × (s'.requests ≤ n)

Returns-le :
    (m n : ℕ) (result : Option (Outcome × Session)) → m ≤ n → Returns m result → Returns n result
Returns-le m n result h (o, s', e, l) = (o, s', e, omega arith)

module _ (w : World) (cfg : Config) (file : FileRecord) (rang : Text) (k fuel : ℕ)
    (leaves : w.gone k ≡ true) (enough : k < fuel) where
  hang-Returns :
      (n : ℕ) (s : Session) → s.requests + 1 ≤ n → Returns n (hang w cfg fuel file rang s)
  hang-Returns n s h =
      Returns-le (s.requests + 1) n _ h (hang_returns w cfg file k fuel rang s leaves enough)

  drop_url-requests : (s : Session) → (drop_url w cfg file s).requests ≡ s.requests
  unfolding drop_url
  drop_url-requests s = elim (Bool-cases (ltb 0 cfg.cdn_ttl_minutes)) [
    | inl t ↦ rw t refl
    | inr f ↦ rw f refl
  ]

  refuse-requests :
      (attempt status : ℕ) (s : Session)
      → (refuse w cfg file attempt status s).1.requests ≡ s.requests
  unfolding refuse cache_failure
  refuse-requests attempt status s =
      elim (Bool-cases (is_gone status && attempt + 1 == max_attempts cfg)) [
        | inl t ↦ rw t refl
        | inr f ↦ rw f refl
      ]

  finish-Returns :
      (r : HttpRange) (is_range : Bool) (attempt status : ℕ) (content_type body : Text) (n : ℕ)
      (s : Session)
      → s.requests + 1 ≤ n
      → Returns n (finish w cfg fuel file rang r is_range attempt status content_type body s)
  unfolding finish
  finish-Returns r is_range attempt status content_type body n s h =
      elim (Bool-cases (is_transient status)) [
        | inl t ↦
            rw (finish, t)
              (hang-Returns n (drop_url w cfg file s) (omega (arith, drop_url-requests s)))
        | inr f ↦ elim (Bool-cases (is_success status)) [
          | inr bad ↦
              rw (finish, f, bad)
                (
                  (refuse w cfg file attempt status s).0,
                  (refuse w cfg file attempt status s).1,
                  refl,
                  omega (arith, refuse-requests attempt status s),
                )
          | inl good ↦ elim (Bool-cases (is_error_body content_type)) [
            | inl t ↦
                rw (finish, f, good, t)
                  (hang-Returns n (drop_url w cfg file s) (omega (arith, drop_url-requests s)))
            | inr plain ↦
                rw (finish, f, good, plain)
                  (served (head_for file r is_range) body, s, refl, omega arith)
          ]
        ]
      ]

  repair_loop-Returns :
      (r : HttpRange) (is_range : Bool) (rounds attempt : ℕ) (url : Text) (n : ℕ) (s : Session)
      → s.requests + rounds + 1 ≤ n
      → Returns n (repair_loop w cfg fuel file rang r is_range rounds attempt url s)
  unfolding repair_loop request_cdn
  repair_loop-Returns r is_range zero attempt url n s h =
      (http_error 502 (codes "CDN proxy error after retries"), s, refl, omega arith)
  repair_loop-Returns r is_range (suc rounds) attempt url n s h =
      elim (CdnReply-cases (w.cdn s.requests url (range_header r))) [
        | inl bad ↦
            rw (repair_loop, bad) (_, record s { requests = s.requests + 1 }, refl, omega arith)
        | inr (inl silent) ↦
            rw (repair_loop, silent) (_, record s { requests = s.requests + 1 }, refl, omega arith)
        | inr (inr (status, content_type, body, c)) ↦
            elim (Bool-cases (repairs cfg attempt status)) [
              | inr last ↦
                  rw (repair_loop, c, last)
                    (finish-Returns r is_range attempt status content_type body n
                      (record s { requests = s.requests + 1 }) (omega arith))
              | inl again ↦
                  elim (Result-cases
                    (fetch_url w cfg file (record s { requests = s.requests + 1 })).0) [
                      | inr (x, f) ↦
                          rw (repair_loop, c, again, f)
                            (
                              _,
                              (fetch_url w cfg file (record s { requests = s.requests + 1 })).1,
                              refl,
                              omega (
                                arith,
                                fetch_url-requests w cfg file
                                    (record s { requests = s.requests + 1 }),
                              ),
                            )
                      | inl (new, f) ↦
                          rw (repair_loop, c, again, f)
                            (repair_loop-Returns r is_range rounds (attempt + 1) new n
                              (save_url w cfg file new
                                (fetch_url w cfg file (record s { requests = s.requests + 1 })).1)
                              (omega (
                                arith,
                                fetch_url-requests w cfg file
                                    (record s { requests = s.requests + 1 }),
                                save_url-requests w cfg file new
                                    (fetch_url w cfg file
                                      (record s { requests = s.requests + 1 })).1,
                              )))
                    ]
            ]
      ]

  proxy-Returns :
      (url : Text) (n : ℕ) (s : Session)
      → s.requests + max_attempts cfg + 1 ≤ n
      → Returns n (proxy w cfg fuel file rang url s)
  unfolding proxy
  proxy-Returns url n s h = elim (Result-cases (requested_range rang file)) [
    | inr (e, q) ↦ rw (proxy, q) (http_error 416 (codes "Invalid range"), s, refl, omega arith)
    | inl ((r, is_range), q) ↦
        rw (proxy, q) (repair_loop-Returns r is_range (max_attempts cfg) 0 url n s h)
  ]

  -- A request for a file is answered, after at most one request to the CDN for each attempt and one
  -- more, if the client does not wait beyond some poll `k`; fuel for more than `k` polls is enough.
  pub stream-Returns :
      (s : Session) → Returns (s.requests + max_attempts cfg + 1) (stream w cfg fuel file rang s)
  unfolding stream
  stream-Returns s = elim (Option-cases w.read_error) [
    | inr (x, q) ↦
        rw (stream, q) (http_error 500 (codes "Internal Server Error"), s, refl, omega arith)
    | inl q ↦ elim (Bool-cases (is_empty (get_cdn_url w.read_time file.id s.store))) [
      | inr cached ↦
          rw (stream, q, cached)
            (proxy-Returns (get_cdn_url w.read_time file.id s.store)
              (s.requests + max_attempts cfg + 1) s (omega arith))
      | inl missing ↦ elim (Result-cases (fetch_url w cfg file s).0) [
        | inr (x, f) ↦
            rw (stream, q, missing, f)
              (hang-Returns (s.requests + max_attempts cfg + 1) (fetch_url w cfg file s).1
                (omega (arith, fetch_url-requests w cfg file s)))
        | inl (url, f) ↦
            rw (stream, q, missing, f)
              (proxy-Returns url (s.requests + max_attempts cfg + 1)
                (save_url w cfg file url (fetch_url w cfg file s).1)
                (omega (
                  arith,
                  fetch_url-requests w cfg file s,
                  save_url-requests w cfg file url (fetch_url w cfg file s).1,
                )))
      ]
    ]
  ]
