-- ===== src/Server/Stream/Polling.antt =====
-- The polls of `handleGetCDNHang`: how long they wait, and when they end.
use warpbox_custom.Prelude.{
  ℕ, zero, suc, ◌+◌, ◌≤◌, ◌<◌, ◌≡◌, refl, subst, ◌∙◌, inl, inr, true, false, none, some, [], ◌∷◌,
  Text, codes, contains, arith, All, Bool-cases, Result-cases, ok, err, length,
}
use warpbox_custom.Metadata.{FileRecord}
use warpbox_custom.Server.Config.{Config}
use warpbox_custom.Server.Stream.{
  World, Session, Polled, fetch_url, poll_loop, next_poll, cdn_poll_interval, max_poll_interval,
}

-- From 15 seconds to 5 minutes.
abbrev pub InPollRange : ℕ → Type 0
InPollRange wait = (cdn_poll_interval ≤ wait) × (wait ≤ max_poll_interval)

next_poll-InPollRange :
    (e : Text) (interval : ℕ) → InPollRange interval → InPollRange (next_poll e interval)
unfolding next_poll
next_poll-InPollRange e interval (l, u) =
    elim (Bool-cases (contains e (codes "unexpected status 429"))) [
      | inl t ↦ rw t (omega arith, omega arith)
      | inr f ↦ rw f (l, u)
    ]

module _ (w : World) (cfg : Config) (file : FileRecord) where
  -- The state after a number of failed polls.
  unfoldable pub after_polls : ℕ → Session → Session
  after_polls zero s = s
  after_polls (suc k) s = after_polls k (fetch_url w cfg file s).1

  -- What the polls leave as it was, and how they waited.
  pub record Waited (polls : ℕ) (s : Session) (p : Polled) : Type 0 where
    pub in_range : All InPollRange p.waits
    pub few : length p.waits ≤ polls
    pub requests : p.session.requests ≡ s.requests

  pub fetch_url-requests : (s : Session) → (fetch_url w cfg file s).1.requests ≡ s.requests
  unfolding fetch_url
  fetch_url-requests s = refl

  -- A poll that gives a URL, and a poll whose wait the client does not sit out.
  found_lem :
      (k fuel poll interval : ℕ) (s : Session) (url : Text)
      → (fetch_url w cfg file s).0 ≡ ok url
      → (p : Polled) × (poll_loop w cfg file (suc fuel) poll interval s ≡ some p)
        × (p.url ≡ some url)
        × Waited k s p
  unfolding poll_loop
  found_lem k fuel poll interval s url f = (
    record { url = some url; waits = []; session = (fetch_url w cfg file s).1 },
    rw (poll_loop, f) refl,
    refl,
    record { in_range = tt; few = omega arith; requests = fetch_url-requests s },
  )

  left_lem :
      (k fuel poll interval : ℕ) (s : Session) (e : Text)
      → (fetch_url w cfg file s).0 ≡ err e
      → w.gone poll ≡ true
      → (p : Polled) × (poll_loop w cfg file (suc fuel) poll interval s ≡ some p) × Waited k s p
  unfolding poll_loop
  left_lem k fuel poll interval s e f left = (
    record { url = none; waits = []; session = (fetch_url w cfg file s).1 },
    rw (poll_loop, f, left) refl,
    record { in_range = tt; few = omega arith; requests = fetch_url-requests s },
  )

  -- What a later poll ends with, one wait on.
  waited_lem :
      (k fuel poll interval : ℕ) (s : Session) (e : Text) (p : Polled)
      → InPollRange interval
      → (fetch_url w cfg file s).0 ≡ err e
      → w.gone poll ≡ false
      → poll_loop w cfg file fuel (suc poll) (next_poll e interval) (fetch_url w cfg file s).1
        ≡ some p
      → Waited k (fetch_url w cfg file s).1 p
      → (poll_loop w cfg file (suc fuel) poll interval s
          ≡ some (record p { waits = next_poll e interval ∷ p.waits }))
        × Waited (suc k) s (record p { waits = next_poll e interval ∷ p.waits })
  unfolding poll_loop
  waited_lem k fuel poll interval s e p i f stays q waited = (
    rw (poll_loop, f, stays, q) refl,
    record {
      in_range = (next_poll-InPollRange e interval i, waited.in_range);
      few = omega (arith, waited.few);
      requests = waited.requests ∙ fetch_url-requests s;
    },
  )

  -- If the first interval is in the range from 15 seconds to 5 minutes, the client does not wait
  -- beyond the `k`-th poll from here, and the fuel is for more than `k` polls, then the polls end;
  -- each wait between them is in that range, there are at most `k`, and no request to the CDN has
  -- been made.
  pub poll_loop_ends :
      (k fuel poll interval : ℕ) (s : Session)
      → InPollRange interval
      → w.gone (poll + k) ≡ true
      → k < fuel
      → (p : Polled) × (poll_loop w cfg file fuel poll interval s ≡ some p) × Waited k s p
  poll_loop_ends k zero poll interval s i g h = absurd (omega arith)
  poll_loop_ends zero (suc fuel) poll interval s i g h =
      elim (Result-cases (fetch_url w cfg file s).0) [
        | inl (url, f) ↦
            let (p, q, u, waited) = found_lem 0 fuel poll interval s url f in (p, q, waited)
        | inr (e, f) ↦
            let same : poll + 0 ≡ poll = omega arith in
            left_lem 0 fuel poll interval s e f (rw same at g)
      ]
  poll_loop_ends (suc k) (suc fuel) poll interval s i g h =
      elim (Result-cases (fetch_url w cfg file s).0) [
        | inl (url, f) ↦
            let (p, q, u, waited) = found_lem (suc k) fuel poll interval s url f in (p, q, waited)
        | inr (e, f) ↦ elim (Bool-cases (w.gone poll)) [
          | inl left ↦ left_lem (suc k) fuel poll interval s e f left
          | inr stays ↦
              let same : poll + suc k ≡ suc poll + k = omega arith in
              let (p, q, waited) =
                poll_loop_ends k fuel (suc poll) (next_poll e interval) (fetch_url w cfg file s).1
                  (next_poll-InPollRange e interval i) (rw same at g) (omega arith) in
              let (q', waited') = waited_lem k fuel poll interval s e p i f stays q waited in
              (record p { waits = next_poll e interval ∷ p.waits }, q', waited')
        ]
      ]

  -- If the fetch after `k` failed polls gives a URL and the client has not gone away, the polls end
  -- with a URL.
  pub poll_loop_recovers :
      (k fuel poll interval : ℕ) (s : Session) (url : Text)
      → InPollRange interval
      → ((j : ℕ) → j < k → w.gone (poll + j) ≡ false)
      → (fetch_url w cfg file (after_polls k s)).0 ≡ ok url
      → k < fuel
      → (p : Polled) × (u : Text) × (poll_loop w cfg file fuel poll interval s ≡ some p)
        × (p.url ≡ some u)
        × Waited k s p
  unfolding after_polls
  poll_loop_recovers k zero poll interval s url i stays g h = absurd (omega arith)
  poll_loop_recovers zero (suc fuel) poll interval s url i stays g h =
      let (p, q, u, waited) = found_lem 0 fuel poll interval s url g in (p, url, q, u, waited)
  poll_loop_recovers (suc k) (suc fuel) poll interval s url i stays g h =
      elim (Result-cases (fetch_url w cfg file s).0) [
        | inl (early, f) ↦
            let (p, q, u, waited) = found_lem (suc k) fuel poll interval s early f in
            (p, early, q, u, waited)
        | inr (e, f) ↦
            let same : poll + 0 ≡ poll = omega arith in
            let (p, u, q, found, waited) =
              poll_loop_recovers k fuel (suc poll) (next_poll e interval) (fetch_url w cfg file s).1
                url (next_poll-InPollRange e interval i)
                (λ j l. subst (λ n. w.gone n ≡ false) (shift poll j) (stays (suc j) (omega arith)))
                g (omega arith) in
            let (q', waited') =
              waited_lem k fuel poll interval s e p i f (rw same at (stays 0 (omega arith))) q
                waited in
            (record p { waits = next_poll e interval ∷ p.waits }, u, q', found, waited')
      ]
    where
      shift : (a b : ℕ) → a + suc b ≡ suc a + b
      shift a b = omega arith
