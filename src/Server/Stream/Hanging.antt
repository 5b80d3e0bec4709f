-- ===== src/Server/Stream/Hanging.antt =====
-- `handleGetCDNHang`: what it gives the client, and that it returns.
use warpbox_custom.Prelude.{
  ℕ, ◌+◌, ◌≤◌, ◌<◌, ◌≡◌, refl, subst, ap, ◌∙◌, inl, inr, Bool, true, false, none, some, Text, codes,
  arith, Bool-cases, Result-cases, ok, ltb, Option-cases,
}
use warpbox_custom.Metadata.{FileRecord}
use warpbox_custom.Server.Config.{Config}
use warpbox_custom.Server.Range.{HttpRange, range_header}
use warpbox_custom.Server.Stream.{
  World, Session, Outcome, http_error, hung, copied, fetch_url, save_url, request_cdn, head_for,
  requested_range, hang, deliver, cdn_poll_interval,
}
use warpbox_custom.Server.Stream.Polling.{after_polls, poll_loop_ends, poll_loop_recovers}

module _ (w : World) (cfg : Config) (file : FileRecord) where
  pub save_url-requests :
      (url : Text) (s : Session) → (save_url w cfg file url s).requests ≡ s.requests
  unfolding save_url
  save_url-requests url s = elim (Bool-cases (ltb 0 cfg.cdn_ttl_minutes)) [
    | inl t ↦ rw t refl
    | inr f ↦ rw f refl
  ]

  -- The one request that a URL leads to.
  deliver_lem :
      (r : HttpRange) (is_range : Bool) (u : Text) (n : ℕ) (s : Session)
      → s.requests ≡ n
      → (s' : Session) × (deliver w cfg file r (head_for file r is_range) u s
          ≡ (hung (head_for file r is_range) (copied (w.cdn n u (range_header r))), s'))
        × (s'.requests ≡ n + 1)
  unfolding deliver request_cdn
  deliver_lem r is_range u n s q =
      let at_request = save_url-requests u s ∙ q in
      (
        (deliver w cfg file r (head_for file r is_range) u s).1,
        ap
            (λ k. (
              hung (head_for file r is_range) (copied (w.cdn k u (range_header r))),
              (deliver w cfg file r (head_for file r is_range) u s).1,
            ))
            at_request,
        ap (λ k. k + 1) at_request,
      )

  -- A file without a CDN URL, for a valid range: if the fetch after `k` failed polls gives a URL and
  -- the client waits that long, it gets the headers of a success and then whatever bytes the CDN
  -- answers the one request with, be its status or its content type those of an error. Fuel for
  -- more than `k` polls is enough.
  pub hang_recovers :
      (k fuel : ℕ) (rang : Text) (s : Session) (r : HttpRange) (is_range : Bool) (url : Text)
      → requested_range rang file ≡ ok (r, is_range)
      → ((j : ℕ) → j < k → w.gone j ≡ false)
      → (fetch_url w cfg file (after_polls w cfg file k s)).0 ≡ ok url
      → k < fuel
      → (u : Text) × (s' : Session) × (hang w cfg fuel file rang s
          ≡ some
              (hung (head_for file r is_range) (copied (w.cdn s.requests u (range_header r))), s'))
  unfolding hang
  hang_recovers k fuel rang s r is_range url e stays g h =
      let (p, u, q, found, waited) =
        poll_loop_recovers w cfg file k fuel 0 cdn_poll_interval s url (omega arith, omega arith)
          (λ j l. subst (λ n. w.gone n ≡ false) (from_zero j) (stays j l)) g h in
      let (s', delivered, count) = deliver_lem r is_range u s.requests p.session waited.requests in
      (u, s', rw (hang, e, q, found) (ap some delivered))
    where
      from_zero : (j : ℕ) → j ≡ 0 + j
      from_zero j = omega arith

  -- With fuel for the polls that the client waits for, the handler returns, after one request to
  -- the CDN at most.
  pub hang_returns :
      (k fuel : ℕ) (rang : Text) (s : Session)
      → w.gone k ≡ true
      → k < fuel
      → (o : Outcome) × (s' : Session) × (hang w cfg fuel file rang s ≡ some (o, s'))
        × (s'.requests ≤ s.requests + 1)
  unfolding hang
  hang_returns k fuel rang s g h = elim (Result-cases (requested_range rang file)) [
    | inr (e, q) ↦ (http_error 416 (codes "Invalid range"), s, rw (hang, q) refl, omega arith)
    | inl ((r, is_range), e) ↦
        let same : k ≡ 0 + k = omega arith in
        let (p, q, waited) =
          poll_loop_ends w cfg file k fuel 0 cdn_poll_interval s (omega arith, omega arith)
            (subst (λ n. w.gone n ≡ true) same g) h in
        elim (Option-cases p.url) [
          | inl left ↦ (
            hung (head_for file r is_range) none,
            p.session,
            rw (hang, e, q, left) refl,
            omega (arith, waited.requests),
          )
          | inr (u, found) ↦
              let (s', delivered, count) =
                deliver_lem r is_range u s.requests p.session waited.requests in
              (
                hung (head_for file r is_range) (copied (w.cdn s.requests u (range_header r))),
                s',
                rw (hang, e, q, found) (ap some delivered),
                omega (arith, count),
              )
        ]
  ]
