-- ===== src/Server/Stream/Success.antt =====
-- A client of a CDN that is only slow or busy sees no error.
use warpbox_custom.Prelude.{
  ℕ, suc, ◌+◌, ◌<◌, ◌≡◌, ap, subst, refl, ◌⊎◌, inl, inr, Bool, true, false, ◌||◌, Option, none,
  some, Text, Bool-cases, Result-cases, ok, is_empty, arith,
}
use warpbox_custom.Metadata.{FileRecord}
use warpbox_custom.Metadata.Store.{get_cdn_url}
use warpbox_custom.Server.Config.{Config}
use warpbox_custom.Server.Range.{HttpRange, range_header}
use warpbox_custom.Server.Stream.{
  World, Session, Outcome, hung, served, answered, fetch_url, save_url, drop_url, request_cdn,
  head_for, requested_range, hang, is_gone, is_transient, is_success, is_error_body,
}
use warpbox_custom.Server.Stream.Proxy.{repairs, finish, repair_loop, proxy, stream, max_attempts}
use warpbox_custom.Server.Stream.Work.{stream-Returns}
use warpbox_custom.Server.Stream.Serving.{outcome_of, hang-hung}

module _ (w : World) (cfg : Config) (fuel : ℕ) (file : FileRecord) (rang : Text) where
  -- The CDN answers every request with a success, or with a status that is waited for.
  abbrev pub Patient : Type 0
  Patient =
      (k : ℕ) (url header : Text)
      → (status : ℕ) × (content_type : Text) × (body : Text) × (w.cdn k url header
          ≡ answered status content_type body)
        × ((is_success status || is_transient status) ≡ true)

  -- An outcome with the headers of a success for the range.
  abbrev pub Succeeds : HttpRange → Bool → Outcome → Type 0
  Succeeds r is_range o =
      ((body : Text) × (o ≡ served (head_for file r is_range) body))
      ⊎ ((body : Option Text) × (o ≡ hung (head_for file r is_range) body))

  hang-Succeeds :
      (s : Session) (r : HttpRange) (is_range : Bool) (o : Outcome)
      → requested_range rang file ≡ ok (r, is_range)
      → outcome_of (hang w cfg fuel file rang s) ≡ some o
      → Succeeds r is_range o
  hang-Succeeds s r is_range o e h = inr (hang-hung w cfg fuel file rang s r is_range o e h)

  not_gone :
      (status : ℕ) → (is_success status || is_transient status) ≡ true → is_gone status ≡ false
  not_gone status h = ground arith

  finish-Succeeds :
      (r : HttpRange) (is_range : Bool) (attempt status : ℕ) (content_type body : Text)
      (s : Session) (o : Outcome)
      → requested_range rang file ≡ ok (r, is_range)
      → (is_success status || is_transient status) ≡ true
      → outcome_of (finish w cfg fuel file rang r is_range attempt status content_type body s)
        ≡ some o
      → Succeeds r is_range o
  unfolding finish
  finish-Succeeds r is_range attempt status content_type body s o e p h =
      elim (Bool-cases (is_transient status)) [
        | inl t ↦ hang-Succeeds (drop_url w cfg file s) r is_range o e (rw (finish, t) at h)
        | inr f ↦ elim (Bool-cases (is_success status)) [
          | inr bad ↦ cc (rw (bad, f) at p)
          | inl good ↦ elim (Bool-cases (is_error_body content_type)) [
            | inl t ↦
                hang-Succeeds (drop_url w cfg file s) r is_range o e (rw (finish, f, good, t) at h)
            | inr plain ↦ inl (body, cc (rw (finish, f, good, plain) at h))
          ]
        ]
      ]

  first-Succeeds :
      (rounds : ℕ) (url : Text) (s : Session) (r : HttpRange) (is_range : Bool) (o : Outcome)
      → Patient
      → requested_range rang file ≡ ok (r, is_range)
      → outcome_of (repair_loop w cfg fuel file rang r is_range (suc rounds) 0 url s) ≡ some o
      → Succeeds r is_range o
  unfolding repair_loop request_cdn
  first-Succeeds rounds url s r is_range o patient e h =
      let (status, content_type, body, c, p) = patient s.requests url (range_header r) in
      let kept : repairs cfg 0 status ≡ false = rw (repairs, not_gone status p) refl in
      finish-Succeeds r is_range 0 status content_type body (record s { requests = s.requests + 1 })
        o e p (rw (repair_loop, c, kept) at h)

  proxy-Succeeds :
      (url : Text) (s : Session) (r : HttpRange) (is_range : Bool) (o : Outcome)
      → Patient
      → requested_range rang file ≡ ok (r, is_range)
      → outcome_of (proxy w cfg fuel file rang url s) ≡ some o
      → Succeeds r is_range o
  unfolding proxy
  proxy-Succeeds url s r is_range o patient e h =
      let same : max_attempts cfg ≡ suc cfg.cdn_url_repair_retries = omega arith in
      let loop : outcome_of (repair_loop w cfg fuel file rang r is_range (max_attempts cfg) 0 url s)
          ≡ some o =
        rw (proxy, e) at h in
      first-Succeeds cfg.cdn_url_repair_retries url s r is_range o patient e (
        subst (λ n. outcome_of (repair_loop w cfg fuel file rang r is_range n 0 url s) ≡ some o)
          same loop)

  outcome-Succeeds :
      (s : Session) (r : HttpRange) (is_range : Bool) (o : Outcome)
      → w.read_error ≡ none
      → requested_range rang file ≡ ok (r, is_range)
      → Patient
      → outcome_of (stream w cfg fuel file rang s) ≡ some o
      → Succeeds r is_range o
  unfolding stream
  outcome-Succeeds s r is_range o q e patient h =
      elim (Bool-cases (is_empty (get_cdn_url w.read_time file.id s.store))) [
        | inr cached ↦
            proxy-Succeeds (get_cdn_url w.read_time file.id s.store) s r is_range o patient e
              (rw (stream, q, cached) at h)
        | inl missing ↦ elim (Result-cases (fetch_url w cfg file s).0) [
          | inr (x, f) ↦
              hang-Succeeds (fetch_url w cfg file s).1 r is_range o e
                (rw (stream, q, missing, f) at h)
          | inl (url, f) ↦
              proxy-Succeeds url (save_url w cfg file url (fetch_url w cfg file s).1) r is_range o
                patient e (rw (stream, q, missing, f) at h)
        ]
      ]

  -- If the row can be read, the range is valid, the CDN answers every request with a status of
  -- success, 429 or one from 500 on, the client does not wait beyond some poll `k`, and the fuel is
  -- above `k`: then the request is answered, with the headers of a success for its range and never
  -- with an error, whether the API gives a URL or not.
  pub stream-Succeeds :
      (k : ℕ) (s : Session) (r : HttpRange) (is_range : Bool)
      → w.gone k ≡ true
      → k < fuel
      → w.read_error ≡ none
      → requested_range rang file ≡ ok (r, is_range)
      → Patient
      → (o : Outcome) × (s' : Session) × (stream w cfg fuel file rang s ≡ some (o, s'))
        × Succeeds r is_range o
  stream-Succeeds k s r is_range leaves enough q e patient =
      let (o, s', ends, work) = stream-Returns w cfg file rang k fuel leaves enough s in
      (o, s', ends, outcome-Succeeds s r is_range o q e patient (ap outcome_of ends))
