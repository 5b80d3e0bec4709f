-- ===== src/Server/Sweep/Tests.antt =====
-- A sweep that drops an expired entry, and evicts one of two that are left.
use warpbox_custom.Prelude.{ℕ, ◌≡◌, refl, [], ◌∷◌, codes, delete, text_eq, text_eq_instance, nat_eq}
use mathlib.Core.List.Permᴰ
use warpbox_custom.Server.Config.{Config}
use warpbox_custom.Server.Samples.{defaults}
use warpbox_custom.Server.Fetch.{Entry, Caches}
use warpbox_custom.Server.Sweep.{
  is_fresh, is_tracked, expires_at_of, stale_until_of, cleanup, sweep_negative_cache, evict,
  sort_by, insert_by, delete_entries,
}
use warpbox_custom.Server.Sweep.Evicted.{Swept, cleanup-Swept}

abbrev small : Config
small = record defaults { negative_cache_max_entries = 1; circuit_breaker_max_entries = 1 }

abbrev entry_until : ℕ → Entry
entry_until t = record { error = codes "down"; expires_at = t }

abbrev crowded : Caches
crowded = record {
  negative_cache =
      (codes "a", entry_until 5) ∷ (codes "b", entry_until 30) ∷ (codes "c", entry_until 20) ∷ [];
  torrent_failures = (7, record { failures = 3 ∷ []; stale_until = 0 }) ∷ [];
}

swept_at_ten :
    (cleanup small 10 10 (λ m. m) (λ m. m) crowded).negative_cache
    ≡ (codes "b", entry_until 30) ∷ []
unfolding cleanup sweep_negative_cache evict sort_by insert_by delete_entries delete text_eq
swept_at_ten = refl

cleanup-Swept_example :
    Swept expires_at_of
      (is_fresh 10)
      1
      crowded.negative_cache
      (cleanup small 10 10 (λ m. m) (λ m. m) crowded).negative_cache
    × Swept stale_until_of
        (is_tracked 10)
        1
        crowded.torrent_failures
        (cleanup small 10 10 (λ m. m) (λ m. m) crowded).torrent_failures
unfolding text_eq
cleanup-Swept_example =
    cleanup-Swept small 10 10 (λ m. m) (λ m. m) crowded ((refl, (refl, tt)), ((refl, tt), (tt, tt)))
      (tt, tt) (λ m. Permᴰ.refl m) (λ m. Permᴰ.refl m)
