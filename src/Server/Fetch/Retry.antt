-- ===== src/Server/Fetch/Retry.antt =====
-- How the retries end, for every sequence of answers.
use warpbox_custom.Prelude.{
  ℕ, zero, suc, ◌+◌, ◌≤◌, ◌<◌, ◌≡◌, refl, sym, ◌⊎◌, inl, inr, true, false, arith, Text, length, ok,
  err, Result, Result-cases, Bool-cases, dec_le, [], ◌∷◌,
}
use warpbox_custom.Server.Config.{Config}
use warpbox_custom.Server.Fetch.{Tried, retry_loop, get_cdn_url_with_retry, backoff}
use warpbox_custom.Torbox.{is_retryable}

-- The attempt failed with an error that is retried.
abbrev pub Transient : (ℕ → Result Text Text) → ℕ → Type 0
Transient api j = (e : Text) × (api j ≡ err e) × (is_retryable e ≡ true)

-- How the attempts from `attempt` on end: attempt `last` decides, all before it were transient.
pub record Ends (cfg : Config) (api : ℕ → Result Text Text) (attempt : ℕ) (t : Tried) : Type 0 where
  pub last : ℕ
  pub from : attempt ≤ last
  pub bounded : last ≤ cfg.cdn_url_retry_count
  pub transient : (j : ℕ) → attempt ≤ j → j < last → Transient api j
  pub decided : t.outcome ≡ api last
  pub counted : t.calls + attempt ≡ last + 1
  pub waited : length t.waits + attempt ≡ last
  pub why :
      ((url : Text) × (api last ≡ ok url) × (t.failed ≡ false))
      ⊎ ((e : Text) × (api last ≡ err e)
          × (t.failed ≡ true)
          × ((is_retryable e ≡ false) ⊎ (last ≡ cfg.cdn_url_retry_count)))

module _ (cfg : Config) (api : ℕ → Result Text Text) (rounds attempt : ℕ) where
  loop_ok :
      (url : Text)
      → api attempt ≡ ok url
      → retry_loop cfg api (suc rounds) attempt
        ≡ record { outcome = ok url; calls = 1; waits = []; failed = false }
  unfolding retry_loop
  loop_ok url e = rw (e, retry_loop) refl

  loop_stop :
      (e : Text)
      → api attempt ≡ err e
      → (is_retryable e ≡ false) ⊎ (cfg.cdn_url_retry_count ≤ attempt)
      → retry_loop cfg api (suc rounds) attempt
        ≡ record { outcome = err e; calls = 1; waits = []; failed = true }
  unfolding retry_loop
  loop_stop e h s = rw (h, retry_loop) (ground arith)

  loop_again :
      (e : Text)
      → api attempt ≡ err e
      → is_retryable e ≡ true
      → attempt < cfg.cdn_url_retry_count
      → let rest = retry_loop cfg api rounds (attempt + 1) in
        retry_loop cfg api (suc rounds) attempt
        ≡ record rest { calls = rest.calls + 1; waits = backoff cfg attempt e ∷ rest.waits }
  unfolding retry_loop
  loop_again e h r l = rw (h, retry_loop) (ground arith)

  Ends-now :
      (t : Tried)
      → t.outcome ≡ api attempt
      → t.calls ≡ 1
      → t.waits ≡ []
      → attempt ≤ cfg.cdn_url_retry_count
      → ((url : Text) × (api attempt ≡ ok url) × (t.failed ≡ false))
        ⊎ ((e : Text) × (api attempt ≡ err e)
            × (t.failed ≡ true)
            × ((is_retryable e ≡ false) ⊎ (attempt ≡ cfg.cdn_url_retry_count)))
      → Ends cfg api attempt t
  Ends-now t o c w b y = record {
    last = attempt;
    from = omega arith;
    bounded = b;
    transient = λ j l h. absurd (omega arith);
    decided = o;
    counted = omega arith;
    waited = rw w (omega arith);
    why = y;
  }

  Ends-later :
      (rest : Tried) (e : Text) (wait : ℕ)
      → api attempt ≡ err e
      → is_retryable e ≡ true
      → Ends cfg api (attempt + 1) rest
      → Ends cfg api attempt (record rest { calls = rest.calls + 1; waits = wait ∷ rest.waits })
  Ends-later rest e wait h r n = record {
    last = n.last;
    from = omega (arith, n.from);
    bounded = n.bounded;
    transient = λ j l b. elim (dec_le (attempt + 1) j) [
      | yes later ↦ n.transient j later b
      | no first ↦ let same : j ≡ attempt = omega arith in rw same (e, h, r)
    ];
    decided = n.decided;
    counted = omega (arith, n.counted);
    waited = omega (arith, n.waited);
    why = n.why;
  }

  Ends-stop :
      (e : Text)
      → attempt ≤ cfg.cdn_url_retry_count
      → api attempt ≡ err e
      → (is_retryable e ≡ false) ⊎ (attempt ≡ cfg.cdn_url_retry_count)
      → Ends cfg api attempt (retry_loop cfg api (suc rounds) attempt)
  Ends-stop e b h y =
      rw (loop_stop e h (omega_or y)) (Ends-now _ (sym h) refl refl b (inr (e, h, refl, y)))
    where
      omega_or :
          (is_retryable e ≡ false) ⊎ (attempt ≡ cfg.cdn_url_retry_count)
          → (is_retryable e ≡ false) ⊎ (cfg.cdn_url_retry_count ≤ attempt)
      omega_or (inl f) = inl f
      omega_or (inr q) = inr (omega arith)

  -- The first attempt decides, or what follows a transient error does.
  Ends-by :
      attempt ≤ cfg.cdn_url_retry_count
      → ((e : Text)
          → api attempt ≡ err e
          → is_retryable e ≡ true
          → Ends cfg api attempt (retry_loop cfg api (suc rounds) attempt))
      → Ends cfg api attempt (retry_loop cfg api (suc rounds) attempt)
  Ends-by b again = elim (Result-cases (api attempt)) [
    | inl (url, h) ↦ rw (loop_ok url h) (Ends-now _ (sym h) refl refl b (inl (url, h, refl)))
    | inr (e, h) ↦ elim (Bool-cases (is_retryable e)) [
      | inl t ↦ again e h t
      | inr f ↦ Ends-stop e b h (inl f)
    ]
  ]

retry_loop-Ends :
    (cfg : Config) (api : ℕ → Result Text Text) (rounds attempt : ℕ)
    → attempt + rounds ≡ cfg.cdn_url_retry_count
    → Ends cfg api attempt (retry_loop cfg api (suc rounds) attempt)
retry_loop-Ends cfg api zero attempt r =
    Ends-by cfg api zero attempt (omega arith)
      (λ e h t. Ends-stop cfg api zero attempt e (omega arith) h (inr (omega arith)))
retry_loop-Ends cfg api (suc rounds) attempt r =
    Ends-by cfg api (suc rounds) attempt (omega arith) (λ e h t.
      rw (loop_again cfg api (suc rounds) attempt e h t (omega arith)) (
        Ends-later cfg api (suc rounds) attempt (retry_loop cfg api (suc rounds) (attempt + 1)) e
          (backoff cfg attempt e) h t (retry_loop-Ends cfg api rounds (attempt + 1) (omega arith))))

-- Whatever the API answers, the retries end with the answer to some attempt within the configured
-- count: every attempt before it failed with a retryable error, one call was made for each attempt
-- and one wait between two; it is a URL, and no failure is recorded, or it is an error that is not
-- retryable or belongs to the last attempt, and a failure is recorded.
pub get_cdn_url_with_retry-Ends :
    (cfg : Config) (api : ℕ → Result Text Text) → Ends cfg api 0 (get_cdn_url_with_retry cfg api)
unfolding get_cdn_url_with_retry
get_cdn_url_with_retry-Ends cfg api =
    let one : cfg.cdn_url_retry_count + 1 ≡ suc cfg.cdn_url_retry_count = omega arith in
    rw one (retry_loop-Ends cfg api cfg.cdn_url_retry_count 0 (omega arith))
