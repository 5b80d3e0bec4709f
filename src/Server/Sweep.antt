-- ===== src/Server/Sweep.antt =====
-- `sweepNegativeCache` and `sweepCircuitBreaker` of internal/server/server.go, and the round of the
-- cleanup loop that runs them. The order in which Go visits a map is an argument, and so is the
-- time at which each sweep reads the clock.
pub mod Maps
pub mod Evicted
mod Tests
use warpbox_custom.Prelude.{
  ℕ, ◌-◌, Bool, true, false, not, ◌&&◌, List, [], ◌∷◌, Text, ltb, leb, ◌==◌, if◌then◌else◌, length,
  take, keep, Eq, delete, text_eq_instance, nat_eq,
}
use warpbox_custom.Server.Config.{Config}
use warpbox_custom.Server.Breaker.{Tracker, Trackers}
use warpbox_custom.Server.Fetch.{Entry, Caches}

module _ {K V : Type 0} ⦃e : Eq K⦄ where
  -- The loop that deletes the keys of entries.
  unfoldable pub delete_entries : List (K × V) → List (K × V) → List (K × V)
  delete_entries [] m = m
  delete_entries (x ∷ xs) m = delete_entries xs (delete x.0 m)

module _ {K V : Type 0} ⦃e : Eq K⦄ (expires : V → ℕ) where
  -- `sort.Slice` by the time of expiry.
  unfoldable pub insert_by : K × V → List (K × V) → List (K × V)
  insert_by x [] = x ∷ []
  insert_by x (y ∷ ys) =
      let rest = insert_by x ys in if leb (expires x.1) (expires y.1) then x ∷ y ∷ ys else y ∷ rest

  unfoldable pub sort_by : List (K × V) → List (K × V)
  unfolding insert_by
  sort_by [] = []
  sort_by (x ∷ xs) = insert_by x (sort_by xs)

  -- The eviction of the oldest entries over the maximum.
  unfoldable pub evict : ℕ → (List (K × V) → List (K × V)) → List (K × V) → List (K × V)
  unfolding sort_by delete_entries
  evict max_entries visits m =
      if ltb max_entries (length m)
      then delete_entries (take (length m - max_entries) (sort_by (visits m))) m
      else m

-- Whether an entry is not dropped at a time.
abbrev pub is_fresh : ℕ → Text × Entry → Bool
is_fresh now x = not (ltb x.1.expires_at now)

abbrev pub is_tracked : ℕ → ℕ × Tracker → Bool
is_tracked now x = not (not (x.1.stale_until == 0) && ltb x.1.stale_until now)

abbrev pub expires_at_of : Entry → ℕ
expires_at_of entry = entry.expires_at

abbrev pub stale_until_of : Tracker → ℕ
stale_until_of tracker = tracker.stale_until

unfoldable pub sweep_negative_cache :
    Config
    → ℕ
    → (List (Text × Entry) → List (Text × Entry))
    → List (Text × Entry)
    → List (Text × Entry)
unfolding evict
sweep_negative_cache cfg now visits m =
    evict expires_at_of cfg.negative_cache_max_entries visits (keep (is_fresh now) m)

unfoldable pub sweep_circuit_breaker : Config → ℕ → (Trackers → Trackers) → Trackers → Trackers
unfolding evict
sweep_circuit_breaker cfg now visits m =
    evict stale_until_of cfg.circuit_breaker_max_entries visits (keep (is_tracked now) m)

-- A tick of the cleanup.
unfoldable pub cleanup :
    Config
    → (now later : ℕ) → (List (Text × Entry) → List (Text × Entry))
    → (Trackers → Trackers)
    → Caches
    → Caches
unfolding sweep_negative_cache sweep_circuit_breaker
cleanup cfg now later visits visits' caches = record {
  negative_cache = sweep_negative_cache cfg now visits caches.negative_cache;
  torrent_failures = sweep_circuit_breaker cfg later visits' caches.torrent_failures;
}
