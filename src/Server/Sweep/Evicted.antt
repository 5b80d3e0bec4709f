-- ===== src/Server/Sweep/Evicted.antt =====
-- What a sweep leaves in a map.
use warpbox_custom.Prelude.{
  ℕ, zero, suc, ◌-◌, ◌≤◌, ◌<◌, ◌≡◌, refl, sym, subst, ◌⊎◌, inl, inr, Bool, true, List, [], ◌∷◌,
  Text, ltb, ltb→lt, ltb→le, leb, leb→le, length, length-drop, take, drop, keep, All, Eq, arith,
  Bool-cases, text_eq_instance, nat_eq,
}
use mathlib.Core.List.{Memᴰ, Permᴰ}
use mathlib.Core.List.Memᴰ
use mathlib.Core.List.Permᴰ
use warpbox_custom.Server.Config.{Config}
use warpbox_custom.Server.Breaker.{Trackers}
use warpbox_custom.Server.Fetch.{Entry, Caches}
use warpbox_custom.Server.Sweep.{
  insert_by, sort_by, delete_entries, evict, is_fresh, is_tracked, expires_at_of, stale_until_of,
  cleanup, sweep_negative_cache, sweep_circuit_breaker,
}
use warpbox_custom.Prelude.Members.{
  Permᴰ-length, Permᴰ-Memᴰ, All-Memᴰ, take_or_drop, Memᴰ-drop, Memᴰ-keep, Memᴰ-keep_of, All-of_Memᴰ,
}
use warpbox_custom.Server.Sweep.Maps.{
  Unique, delete_entries-Permᴰ, delete_entries-take, Unique-Permᴰ, Unique-keep,
}

module _ {K V : Type 0} ⦃e : Eq K⦄ (expires : V → ℕ) where
  -- In the order of expiry.
  abbrev Ordered : List (K × V) → Type 0
  Ordered [] = Unit
  Ordered (x ∷ m) = All (λ y. expires x.1 ≤ expires y.1) m × Ordered m

  insert_by-Permᴰ : (x : K × V) (m : List (K × V)) → Permᴰ (x ∷ m) (insert_by expires x m)
  unfolding insert_by
  insert_by-Permᴰ x [] = Permᴰ.refl (x ∷ [])
  insert_by-Permᴰ x (y ∷ m) = elim (Bool-cases (leb (expires x.1) (expires y.1))) [
    | inl t ↦ rw (insert_by, t) (Permᴰ.refl (x ∷ y ∷ m))
    | inr f ↦
        rw (insert_by, f)
          (Permᴰ.trans (Permᴰ.swap refl refl) (Permᴰ.cons refl (insert_by-Permᴰ x m)))
  ]

  sort_by-Permᴰ : (m : List (K × V)) → Permᴰ m (sort_by expires m)
  unfolding sort_by
  sort_by-Permᴰ [] = Permᴰ.nil
  sort_by-Permᴰ (x ∷ m) =
      Permᴰ.trans (Permᴰ.cons refl (sort_by-Permᴰ m)) (insert_by-Permᴰ x (sort_by expires m))

  All-le :
      (a b : ℕ) (m : List (K × V))
      → a ≤ b
      → All (λ y. b ≤ expires y.1) m
      → All (λ y. a ≤ expires y.1) m
  All-le a b [] h all = tt
  All-le a b (y ∷ m) h (first, all) = (omega arith, All-le a b m h all)

  insert_by-Ordered : (x : K × V) (m : List (K × V)) → Ordered m → Ordered (insert_by expires x m)
  unfolding insert_by
  insert_by-Ordered x [] o = (tt, tt)
  insert_by-Ordered x (y ∷ m) (first, o) = elim (Bool-cases (leb (expires x.1) (expires y.1))) [
    | inl t ↦
        let h = leb→le (expires x.1) (expires y.1) t in
        rw (insert_by, t) ((h, All-le (expires x.1) (expires y.1) m h first), (first, o))
    | inr f ↦
        rw (insert_by, f)
          (
            All-of_Memᴰ (λ z. expires y.1 ≤ expires z.1) (insert_by expires x m)
                (λ z there.
                  elim (Memᴰ.cases_cons (Permᴰ-Memᴰ (Permᴰ.symm (insert_by-Permᴰ x m)) there)) [
                    | inl same ↦
                        subst (λ (w : K × V). expires y.1 ≤ expires w.1) (sym same) (ground arith)
                    | inr old ↦ All-Memᴰ (λ w. expires y.1 ≤ expires w.1) m z first old
                  ]),
            insert_by-Ordered x m o,
          )
  ]

  sort_by-Ordered : (m : List (K × V)) → Ordered (sort_by expires m)
  unfolding sort_by
  sort_by-Ordered [] = tt
  sort_by-Ordered (x ∷ m) = insert_by-Ordered x (sort_by expires m) (sort_by-Ordered m)

  take-le-drop :
      (n : ℕ) (m : List (K × V)) (x y : K × V)
      → Ordered m
      → Memᴰ x (take n m)
      → Memᴰ y (drop n m)
      → expires x.1 ≤ expires y.1
  take-le-drop zero m x y o h k = elim h [ ]
  take-le-drop (suc n) [] x y o h k = elim h [ ]
  take-le-drop (suc n) (z ∷ m) x y (first, o) (Memᴰ.head same) k =
      subst (λ (w : K × V). expires w.1 ≤ expires y.1) (sym same)
        (All-Memᴰ (λ w. expires z.1 ≤ expires w.1) m y first (Memᴰ-drop n m y k))
  take-le-drop (suc n) (z ∷ m) x y (first, o) (Memᴰ.tail h) k = take-le-drop n m x y o h k

  -- What is left of a map: no more than the maximum, of the entries that pass the test. Such an
  -- entry is only lost when the map is full, and then what is left expires no earlier.
  pub record Swept (passes : K × V → Bool) (max_entries : ℕ) (m m' : List (K × V)) : Type 0 where
    pub bounded : length m' ≤ max_entries
    pub kept : (x : K × V) → Memᴰ x m' → Memᴰ x m × (passes x ≡ true)
    pub spared :
        (x : K × V)
        → Memᴰ x m
        → passes x ≡ true
        → Memᴰ x m'
          ⊎ ((length m' ≡ max_entries) × ((y : K × V) → Memᴰ y m' → expires x.1 ≤ expires y.1))

  -- What is left when the first entries of the sorted map are deleted.
  left_lem :
      (n : ℕ) (live s : List (K × V))
      → Unique live
      → Permᴰ live s
      → Permᴰ (delete_entries (take n s) live) (drop n s)
  left_lem n live s u p =
      subst (λ (rest : List (K × V)). Permᴰ (delete_entries (take n s) live) rest)
        (delete_entries-take n s (Unique-Permᴰ p u)) (delete_entries-Permᴰ (take n s) p)

  full_lem :
      (passes : K × V → Bool) (max_entries : ℕ) (m s : List (K × V))
      → Unique m
      → Permᴰ (keep passes m) s
      → Ordered s
      → max_entries < length (keep passes m)
      → Swept passes max_entries m
          (delete_entries (take (length (keep passes m) - max_entries) s) (keep passes m))
  full_lem passes max_entries m s u p o over =
      let n = length (keep passes m) - max_entries in
      let left = left_lem n (keep passes m) s (Unique-keep passes m u) p in
      let size : length (delete_entries (take n s) (keep passes m)) ≡ max_entries =
        omega (arith, Permᴰ-length left, Permᴰ-length p, length-drop n s) in
      record {
        bounded = omega (arith, size);
        kept = λ x h.
            Memᴰ-keep passes m x (Permᴰ-Memᴰ (Permᴰ.symm p) (Memᴰ-drop n s x (Permᴰ-Memᴰ left h)));
        spared = λ x h ok. elim (take_or_drop n s x (Permᴰ-Memᴰ p (Memᴰ-keep_of passes m x h ok))) [
          | inr stays ↦ inl (Permᴰ-Memᴰ (Permᴰ.symm left) stays)
          | inl goes ↦ inr (size, λ y there. take-le-drop n s x y o goes (Permᴰ-Memᴰ left there))
        ];
      }

  pub evict-Swept :
      (passes : K × V → Bool) (max_entries : ℕ) (visits : List (K × V) → List (K × V))
      (m : List (K × V))
      → Unique m
      → ((n : List (K × V)) → Permᴰ n (visits n))
      → Swept passes max_entries m (evict expires max_entries visits (keep passes m))
  unfolding evict
  evict-Swept passes max_entries visits m u p =
      elim (Bool-cases (ltb max_entries (length (keep passes m)))) [
        | inr f ↦
            rw (evict, f)
              (record {
                bounded = ltb→le max_entries (length (keep passes m)) f;
                kept = λ x h. Memᴰ-keep passes m x h;
                spared = λ x h ok. inl (Memᴰ-keep_of passes m x h ok);
              })
        | inl t ↦
            rw (evict, t)
              (full_lem passes max_entries m (sort_by expires (visits (keep passes m))) u
                (Permᴰ.trans (p (keep passes m)) (sort_by-Permᴰ (visits (keep passes m))))
                (sort_by-Ordered (visits (keep passes m)))
                (ltb→lt max_entries (length (keep passes m)) t))
      ]

-- A round of the cleanup on caches whose keys are distinct, with any order of the visits: each map
-- has at most the configured number of entries afterwards; all were there and have not expired; and
-- an entry that has not expired is only lost when the map is full of entries that expire no earlier.
pub cleanup-Swept :
    (cfg : Config) (now later : ℕ) (visits : List (Text × Entry) → List (Text × Entry))
    (visits' : Trackers → Trackers) (caches : Caches)
    → Unique caches.negative_cache
    → Unique caches.torrent_failures
    → ((m : List (Text × Entry)) → Permᴰ m (visits m))
    → ((m : Trackers) → Permᴰ m (visits' m))
    → Swept expires_at_of
        (is_fresh now)
        cfg.negative_cache_max_entries
        caches.negative_cache
        (cleanup cfg now later visits visits' caches).negative_cache
      × Swept stale_until_of
          (is_tracked later)
          cfg.circuit_breaker_max_entries
          caches.torrent_failures
          (cleanup cfg now later visits visits' caches).torrent_failures
unfolding cleanup sweep_negative_cache sweep_circuit_breaker
cleanup-Swept cfg now later visits visits' caches u u' p p' = (
  evict-Swept expires_at_of (is_fresh now) cfg.negative_cache_max_entries visits
      caches.negative_cache u p,
  evict-Swept stale_until_of (is_tracked later) cfg.circuit_breaker_max_entries visits'
      caches.torrent_failures u' p',
)
