-- ===== src/Server/Recording/Tests.antt =====
-- Two ticks, the second of which cannot write.
use warpbox_custom.Prelude.{
  ℕ, ◌≡◌, refl, none, some, [], ◌∷◌, keep, codes, All, text_eq_instance, pos, ◌+ℤ◌,
}
use mathlib.Core.List.Permᴰ
use warpbox_custom.Throttle.{Queue, new_queue}
use warpbox_custom.Throttle
use warpbox_custom.Metadata.Stats.{is_of}
use warpbox_custom.Server.Recording.{Snapshot, counts_of, sub32}
use warpbox_custom.Server.Recording.Deltas.{
  successful, name_of, count_of, Tick, IsVisited, record_ticks, lost, total, started, recorded_lost,
}

abbrev queue_after : ℕ → Queue
queue_after calls = record new { total_calls = calls; successful_calls = calls }
  where
    new : Queue
    new = new_queue 60

abbrev snapshot : ℕ → ℕ → Snapshot
snapshot now calls = record {
  now = now;
  mem = record { sys = 0; alloc = 0; heap_objects = 0; num_gc = 0 };
  queue = queue_after calls;
  store = record { files = []; next_id = 1; tag_counter = 0; lock_errors = 0 };
  caches = record { negative_cache = []; torrent_failures = [] };
}

abbrev written_tick : Tick
written_tick = record { visits = λ ms. ms; error = none; snapshot = snapshot 60 3 }

abbrev failed_tick : Tick
failed_tick = record {
  visits = λ ms. ms;
  error = some (codes "database is locked");
  snapshot = snapshot 120 7;
}

both-IsVisited : All IsVisited (written_tick ∷ failed_tick ∷ [])
both-IsVisited = (λ ms. Permᴰ.refl ms, (λ ms. Permᴰ.refl ms, tt))

recorded_lost_example :
    total
        (keep
          (is_of (name_of successful))
          (record_ticks (written_tick ∷ failed_tick ∷ []) started).table)
        (pos 0)
      +ℤ lost successful (written_tick ∷ failed_tick ∷ []) started (pos 0)
    ≡ pos (
        count_of successful
          (counts_of (Throttle.stats 120 (snapshot 120 7).queue) (snapshot 120 7)))
recorded_lost_example = recorded_lost successful (written_tick ∷ []) failed_tick both-IsVisited

gc_wraps : sub32 2 4_294_967_295 ≡ 3
gc_wraps = refl
