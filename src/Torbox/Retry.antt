-- ===== src/Torbox/Retry.antt =====
-- Which statuses of the API are retried.
use warpbox_custom.Prelude.{
  ℕ, zero, suc, ◌+◌, ◌≤◌, ◌<◌, ◌≡◌, refl, sym, dec_lt, ◌-◌, Bool, true, false, ◌&&◌, ◌||◌, arith,
  leb, ◌==◌, has_prefix, format,
}
use warpbox_custom.Torbox.{is_retryable, status_error}

-- The statuses that count as transient.
abbrev pub is_transient : ℕ → Bool
is_transient status = status == 429 || leb 500 status && leb status 599

same : Bool → Bool → Bool
same true b = b
same false true = false
same false false = true

all_below : ℕ → ℕ → (ℕ → Bool) → Bool
all_below zero lo p = true
all_below (suc n) lo p = p (lo + n) && all_below n lo p

same→eq : (a b : Bool) → same a b ≡ true → a ≡ b
unfolding same
same→eq true b h = sym h
same→eq false true h = cc
same→eq false false h = refl

all_below-get :
    (n lo : ℕ) (p : ℕ → Bool) (k : ℕ) → all_below n lo p ≡ true → k < n → p (lo + k) ≡ true
unfolding all_below
all_below-get zero lo p k h l = absurd (omega arith)
all_below-get (suc n) lo p k h l = elim (dec_lt k n) [
  | yes less ↦ all_below-get n lo p k (ground arith) less
  | no not_less ↦ let e : k ≡ n = omega arith in rw e (ground arith)
]

table : all_below 900 100 (λ s. same (is_retryable (status_error s)) (is_transient s)) ≡ true
unfolding all_below same is_retryable status_error has_prefix format
table = refl

-- Of the statuses from 100 to 999 other than 200, `do`'s error is retried for 429 and for 500 to
-- 599 and for no other.
is_retryable-status_error :
    (status : ℕ)
    → 100 ≤ status
    → status < 1000
    → is_retryable (status_error status) ≡ is_transient status
is_retryable-status_error status l h =
    let e : 100 + (status - 100) ≡ status = omega arith in
    rw e at (
      same→eq _ _ (
        all_below-get 900 100 (λ s. same (is_retryable (status_error s)) (is_transient s))
          (status - 100) table (omega arith)))
