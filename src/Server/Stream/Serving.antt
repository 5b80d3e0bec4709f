-- ===== src/Server/Stream/Serving.antt =====
-- What a request for a file is answered with: bytes of the file, or the headers of a success.
use warpbox_custom.Prelude.{
  ℕ, zero, suc, ◌+◌, ◌≡◌, refl, ◌⊎◌, inl, inr, Bool, true, false, Option, none, some, Text,
  Bool-cases, Option-cases, Result-cases, ok, is_empty,
}
use warpbox_custom.Metadata.{FileRecord}
use warpbox_custom.Metadata.Store.{get_cdn_url}
use warpbox_custom.Server.Config.{Config}
use warpbox_custom.Server.Range.{HttpRange, range_header}
use warpbox_custom.Server.Stream.{
  World, Session, Outcome, hung, served, Head, CdnReply, bad_request, no_answer, answered,
  fetch_url, save_url, drop_url, request_cdn, copied, head_for, requested_range, hang, poll_loop,
  deliver, cdn_poll_interval, is_transient, is_success, is_error_body,
}
use warpbox_custom.Server.Stream.Proxy.{
  repairs, finish, refuse, repair_loop, proxy, stream, max_attempts,
}

-- What a handler has returned.
abbrev pub outcome_of : Option (Outcome × Session) → Option Outcome
outcome_of none = none
outcome_of (some (o, s)) = some o

pub CdnReply-cases :
    (reply : CdnReply)
    → (reply ≡ bad_request)
      ⊎ (reply ≡ no_answer)
      ⊎ ((status : ℕ) × (content_type : Text) × (body : Text) × (reply
            ≡ answered status content_type body))
CdnReply-cases bad_request = inl refl
CdnReply-cases no_answer = inr (inl refl)
CdnReply-cases (answered status content_type body) = inr (inr (status, content_type, body, refl))

module _ (w : World) (cfg : Config) (fuel : ℕ) (file : FileRecord) (rang : Text) where
  hang_polled :
      (s : Session) (r : HttpRange) (is_range : Bool)
      → requested_range rang file ≡ ok (r, is_range)
      → (outcome_of (hang w cfg fuel file rang s) ≡ none)
        ⊎ ((body : Option Text) × (outcome_of (hang w cfg fuel file rang s)
              ≡ some (hung (head_for file r is_range) body)))
  unfolding hang deliver
  hang_polled s r is_range e =
      elim (Option-cases (poll_loop w cfg file fuel 0 cdn_poll_interval s)) [
        | inl out ↦ inl (rw (hang, e, out) refl)
        | inr (p, q) ↦ elim (Option-cases p.url) [
          | inl gone ↦ inr (none, rw (hang, e, q, gone) refl)
          | inr (url, found) ↦ inr (
            copied (request_cdn w url r (save_url w cfg file url p.session)).0,
            rw (hang, e, q, found) refl,
          )
        ]
      ]

  -- Once it polls, the handler has sent the headers of a success.
  pub hang-hung :
      (s : Session) (r : HttpRange) (is_range : Bool) (o : Outcome)
      → requested_range rang file ≡ ok (r, is_range)
      → outcome_of (hang w cfg fuel file rang s) ≡ some o
      → (body : Option Text) × (o ≡ hung (head_for file r is_range) body)
  hang-hung s r is_range o e h = elim (hang_polled s r is_range e) [
    | inl out ↦ absurd (cc (h, out))
    | inr (body, q) ↦ (body, cc (h, q))
  ]

  -- Bytes that were served at once come from a request to the CDN for the range, which was answered
  -- with a success and with no content type of an error.
  abbrev pub Genuine : HttpRange → Bool → Outcome → Type 0
  Genuine r is_range o =
      (head : Head) (body : Text)
      → o ≡ served head body
      → (k : ℕ) × (url : Text) × (status : ℕ) × (content_type : Text) × (head
          ≡ head_for file r is_range)
        × (w.cdn k url (range_header r) ≡ answered status content_type body)
        × (is_success status ≡ true)
        × (is_error_body content_type ≡ false)

  hang-Genuine :
      (s : Session) (r : HttpRange) (is_range : Bool) (o : Outcome)
      → requested_range rang file ≡ ok (r, is_range)
      → outcome_of (hang w cfg fuel file rang s) ≡ some o
      → Genuine r is_range o
  hang-Genuine s r is_range o e h head body q =
      let (b, shape) = hang-hung s r is_range o e h in absurd (cc (q, shape))

  finish-Genuine :
      (r : HttpRange) (is_range : Bool) (attempt status : ℕ) (content_type body : Text) (k : ℕ)
      (url : Text) (s : Session) (o : Outcome)
      → requested_range rang file ≡ ok (r, is_range)
      → w.cdn k url (range_header r) ≡ answered status content_type body
      → outcome_of (finish w cfg fuel file rang r is_range attempt status content_type body s)
        ≡ some o
      → Genuine r is_range o
  unfolding finish refuse
  finish-Genuine r is_range attempt status content_type body k url s o e c h =
      elim (Bool-cases (is_transient status)) [
        | inl t ↦ hang-Genuine (drop_url w cfg file s) r is_range o e (rw (finish, t) at h)
        | inr f ↦ elim (Bool-cases (is_success status)) [
          | inr bad ↦ λ head b q. absurd (cc (q, rw (finish, f, bad) at h))
          | inl good ↦ elim (Bool-cases (is_error_body content_type)) [
            | inl t ↦
                hang-Genuine (drop_url w cfg file s) r is_range o e (rw (finish, f, good, t) at h)
            | inr plain ↦ λ head b q.
                let shape : some (served (head_for file r is_range) body) ≡ some o =
                  rw (finish, f, good, plain) at h in
                (k, url, status, content_type, cc (shape, q), cc (c, shape, q), good, plain)
          ]
        ]
      ]

  repair_loop-Genuine :
      (r : HttpRange) (is_range : Bool) (rounds attempt : ℕ) (url : Text) (s : Session)
      (o : Outcome)
      → requested_range rang file ≡ ok (r, is_range)
      → outcome_of (repair_loop w cfg fuel file rang r is_range rounds attempt url s) ≡ some o
      → Genuine r is_range o
  unfolding repair_loop request_cdn
  repair_loop-Genuine r is_range zero attempt url s o e h = λ head b q. absurd (cc (h, q))
  repair_loop-Genuine r is_range (suc rounds) attempt url s o e h =
      elim (CdnReply-cases (w.cdn s.requests url (range_header r))) [
        | inl bad ↦ λ head b q. absurd (cc (q, rw (repair_loop, bad) at h))
        | inr (inl silent) ↦ λ head b q. absurd (cc (q, rw (repair_loop, silent) at h))
        | inr (inr (status, content_type, body, c)) ↦
            elim (Bool-cases (repairs cfg attempt status)) [
              | inr last ↦
                  finish-Genuine r is_range attempt status content_type body s.requests url
                    (record s { requests = s.requests + 1 }) o e c (rw (repair_loop, c, last) at h)
              | inl again ↦
                  elim (Result-cases
                    (fetch_url w cfg file (record s { requests = s.requests + 1 })).0) [
                      | inr (x, f) ↦ λ head b q. absurd (cc (q, rw (repair_loop, c, again, f) at h))
                      | inl (new, f) ↦
                          repair_loop-Genuine r is_range rounds (attempt + 1) new
                            (save_url w cfg file new
                              (fetch_url w cfg file (record s { requests = s.requests + 1 })).1)
                            o e (rw (repair_loop, c, again, f) at h)
                    ]
            ]
      ]

  proxy-Genuine :
      (url : Text) (s : Session) (r : HttpRange) (is_range : Bool) (o : Outcome)
      → requested_range rang file ≡ ok (r, is_range)
      → outcome_of (proxy w cfg fuel file rang url s) ≡ some o
      → Genuine r is_range o
  unfolding proxy
  proxy-Genuine url s r is_range o e h =
      repair_loop-Genuine r is_range (max_attempts cfg) 0 url s o e (rw (proxy, e) at h)

  stream-Genuine :
      (s : Session) (r : HttpRange) (is_range : Bool) (o : Outcome)
      → requested_range rang file ≡ ok (r, is_range)
      → outcome_of (stream w cfg fuel file rang s) ≡ some o
      → Genuine r is_range o
  unfolding stream
  stream-Genuine s r is_range o e h = elim (Option-cases w.read_error) [
    | inr (x, q) ↦ λ head b g. absurd (cc (g, rw (stream, q) at h))
    | inl q ↦ elim (Bool-cases (is_empty (get_cdn_url w.read_time file.id s.store))) [
      | inr cached ↦
          proxy-Genuine (get_cdn_url w.read_time file.id s.store) s r is_range o e
            (rw (stream, q, cached) at h)
      | inl missing ↦ elim (Result-cases (fetch_url w cfg file s).0) [
        | inr (x, f) ↦
            hang-Genuine (fetch_url w cfg file s).1 r is_range o e (rw (stream, q, missing, f) at h)
        | inl (url, f) ↦
            proxy-Genuine url (save_url w cfg file url (fetch_url w cfg file s).1) r is_range o e
              (rw (stream, q, missing, f) at h)
      ]
    ]
  ]

  -- Bytes that a request for a file gets at once are those of a reply of the CDN, to a request for
  -- the range asked for, whose status is 200 or 206 and whose content type is not one of an error
  -- in disguise; the headers are those of that range.
  pub stream_served :
      (s : Session) (r : HttpRange) (is_range : Bool) (head : Head) (body : Text)
      → requested_range rang file ≡ ok (r, is_range)
      → outcome_of (stream w cfg fuel file rang s) ≡ some (served head body)
      → (k : ℕ) × (url : Text) × (status : ℕ) × (content_type : Text) × (head
          ≡ head_for file r is_range)
        × (w.cdn k url (range_header r) ≡ answered status content_type body)
        × (is_success status ≡ true)
        × (is_error_body content_type ≡ false)
  stream_served s r is_range head body e h =
      stream-Genuine s r is_range (served head body) e h head body refl
