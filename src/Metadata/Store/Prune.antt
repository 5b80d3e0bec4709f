-- ===== src/Metadata/Store/Prune.antt =====
-- `PruneBySyncTag` in batches: what is left of the table, whatever fails.
use warpbox_custom.Prelude.{
  ℕ, ◌+◌, ◌<◌, ◌≤◌, ◌≡◌, refl, ap, ◌∙◌, zero, suc, inl, inr, Bool, not, Option, none, some, List,
  [], ◌∷◌, ◌++◌, Text, arith, codes, keep, length, ◌==◌, Bool-cases, ==→eq,
}
use warpbox_custom.Metadata.{FileRecord}
use warpbox_custom.Metadata.Store.{
  Answer, Answer-cases, counted, Store, stale, delete_stale, prune_loop, prune_by_sync_tag,
  batch_size, count_lock, is_locked_error,
}

-- The rows that the sync with this tag has written.
abbrev pub current : ℕ → FileRecord → Bool
current tag r = not (stale tag r)

-- A batch deletes stale rows and no others, until none is left.
delete_stale-keep :
    (tag n : ℕ) (rows : List FileRecord)
    → (keep (current tag) (delete_stale tag n rows).0 ≡ keep (current tag) rows)
      × ((delete_stale tag n rows).1 + length (delete_stale tag n rows).0 ≡ length rows)
      × ((delete_stale tag n rows).1 + length (keep (stale tag) (delete_stale tag n rows).0)
          ≡ length (keep (stale tag) rows))
unfolding delete_stale
delete_stale-keep tag zero rows = (refl, omega arith, omega arith)
delete_stale-keep tag (suc n) [] = (refl, omega arith, omega arith)
delete_stale-keep tag (suc n) (r ∷ rows) = elim (Bool-cases (stale tag r)) [
  | inl t ↦
      let (kept, all, gone) = delete_stale-keep tag n rows in
      rw (delete_stale, keep, t) (kept, omega (arith, all), omega (arith, gone))
  | inr f ↦
      let (kept, all, gone) = delete_stale-keep tag (suc n) rows in
      rw (delete_stale, f, keep, f) (ap (λ xs. r ∷ xs) kept, omega (arith, all), gone)
]

delete_stale_none :
    (tag n : ℕ) (rows : List FileRecord)
    → (delete_stale tag (suc n) rows).1 ≡ 0
    → ((delete_stale tag (suc n) rows).0 ≡ keep (current tag) rows)
      × (length (keep (stale tag) rows) ≡ 0)
unfolding delete_stale
delete_stale_none tag n [] h = (refl, refl)
delete_stale_none tag n (r ∷ rows) h = elim (Bool-cases (stale tag r)) [
  | inl t ↦ absurd (omega (arith, rw (delete_stale, t) at h))
  | inr f ↦
      let (kept, none_left) = delete_stale_none tag n rows (rw (delete_stale, f) at h) in
      rw (delete_stale, f, keep) (ap (λ xs. r ∷ xs) kept, none_left)
]

prune_loop_complete :
    (fuel batch tag total : ℕ) (s : Store)
    → length s.files < fuel
    → prune_loop (λ n. counted) fuel batch tag total s
      ≡ some (
        total + length (keep (stale tag) s.files),
        none,
        record s { files = keep (current tag) s.files },
      )
unfolding prune_loop
prune_loop_complete zero batch tag total s h = absurd (omega arith)
prune_loop_complete (suc fuel) batch tag total s h =
    elim (Bool-cases ((delete_stale tag batch_size s.files).1 == 0)) [
      | inl t ↦
          let (rest, none_left) = delete_stale_none tag 249 s.files (==→eq _ _ t) in
          rw (prune_loop, t, rest, none_left, ==→eq _ _ t) refl
      | inr f ↦
          let (kept, all, gone) = delete_stale-keep tag batch_size s.files in
          let more : ¬ ((delete_stale tag batch_size s.files).1 ≡ 0) = ground arith in
          rw (prune_loop, f)
            (prune_loop_complete fuel (suc batch) tag
                (total + (delete_stale tag batch_size s.files).1)
                (record s { files = (delete_stale tag batch_size s.files).0 })
                (omega (arith, all, more))
              ∙ rw (kept, ← gone)
                  (ap (λ n. some (n, none, record s { files = keep (current tag) s.files }))
                    (omega arith)))
    ]

-- When the database answers every batch, a prune leaves the rows of the current tag, in their order, and
-- returns the number of the others, if the fuel is above the number of rows.
pub prune_by_sync_tag_complete :
    (fuel tag : ℕ) (s : Store)
    → 0 < tag
    → length s.files < fuel
    → prune_by_sync_tag (λ n. counted) fuel tag s
      ≡ some
          (length (keep (stale tag) s.files), none, record s { files = keep (current tag) s.files })
unfolding prune_by_sync_tag
prune_by_sync_tag_complete fuel tag s p h = elim (Bool-cases (tag == 0)) [
  | inl t ↦ absurd (omega (arith, ==→eq tag 0 t))
  | inr f ↦ rw f (
      prune_loop_complete fuel 0 tag 0 s h
      ∙ ap (λ n. some (n, none, record s { files = keep (current tag) s.files })) (omega arith))
]

-- What a prune may do to a store, with a number of deletions that it returns and an error: of one
-- batch at most, it may have deleted rows that it has not counted.
pub record Pruned (tag : ℕ) (s : Store) (total : ℕ) (e : Option Text) (s' : Store) : Type 0 where
  pub kept : keep (current tag) s'.files ≡ keep (current tag) s.files
  pub deleted : total + length s'.files ≤ length s.files
  pub batch : length s.files ≤ total + length s'.files + batch_size
  pub exact : e ≡ none → total + length s'.files ≡ length s.files
  pub complete : e ≡ none → s'.files ≡ keep (current tag) s.files

some_error : {A : Type 0} (m : Text) → ◌≡◌ {A = Option Text} (some m) none → A
some_error m h = cc (h)

count_lock-Pruned : (tag : ℕ) (m e : Text) (s : Store) → Pruned tag s 0 (some m) (count_lock e s)
unfolding count_lock
count_lock-Pruned tag m e s = elim (Bool-cases (is_locked_error e)) [
  | inl t ↦ rw t (record {
    kept = refl;
    deleted = omega arith;
    batch = omega arith;
    exact = some_error m;
    complete = some_error m;
  })
  | inr f ↦ rw f (record {
    kept = refl;
    deleted = omega arith;
    batch = omega arith;
    exact = some_error m;
    complete = some_error m;
  })
]

delete_stale-le : (tag n : ℕ) (rows : List FileRecord) → (delete_stale tag n rows).1 ≤ n
unfolding delete_stale
delete_stale-le tag zero rows = omega arith
delete_stale-le tag (suc n) [] = omega arith
delete_stale-le tag (suc n) (r ∷ rows) = elim (Bool-cases (stale tag r)) [
  | inl t ↦ rw (delete_stale, t) (omega (arith, delete_stale-le tag n rows))
  | inr f ↦ rw (delete_stale, f) (delete_stale-le tag (suc n) rows)
]

prune_loop-Pruned :
    (exec : ℕ → Answer) (fuel batch tag total : ℕ) (s : Store)
    → length s.files < fuel
    → (n : ℕ) × (e : Option Text) × (s' : Store) × (prune_loop exec fuel batch tag total s
        ≡ some (total + n, e, s'))
      × Pruned tag s n e s'
unfolding prune_loop count_lock
prune_loop-Pruned exec zero batch tag total s h = absurd (omega arith)
prune_loop-Pruned exec (suc fuel) batch tag total s h =
    let (kept, all, gone) = delete_stale-keep tag batch_size s.files in
    elim (Answer-cases (exec batch)) [
      | inr (inr (e, q)) ↦ (
        0,
        some (codes "pruning by sync tag: " ++ e),
        count_lock e s,
        rw (prune_loop, q)
            (ap (λ n. some (n, some (codes "pruning by sync tag: " ++ e), count_lock e s))
              (omega arith)),
        count_lock-Pruned tag (codes "pruning by sync tag: " ++ e) e s,
      )
      | inr (inl (e, q)) ↦
          let message = codes "rows affected after prune: " ++ e in
          let s' = record s { files = (delete_stale tag batch_size s.files).0 } in
          (
            0,
            some message,
            s',
            rw (prune_loop, q) (ap (λ n. some (n, some message, s')) (omega arith)),
            record {
              kept = kept;
              deleted = omega (arith, all);
              batch = omega (arith, all, delete_stale-le tag batch_size s.files);
              exact = some_error message;
              complete = some_error message;
            },
          )
      | inl q ↦ elim (Bool-cases ((delete_stale tag batch_size s.files).1 == 0)) [
        | inl t ↦ (
          (delete_stale tag batch_size s.files).1,
          none,
          record s { files = (delete_stale tag batch_size s.files).0 },
          rw (prune_loop, q, t) refl,
          record {
            kept = kept;
            deleted = omega (arith, all);
            batch = omega (arith, all);
            exact = λ none_left. all;
            complete = λ none_left. (delete_stale_none tag 249 s.files (==→eq _ _ t)).0;
          },
        )
        | inr f ↦
            let more : ¬ ((delete_stale tag batch_size s.files).1 ≡ 0) = ground arith in
            let (n, e, s', ran, left) =
              prune_loop-Pruned exec fuel (suc batch) tag
                (total + (delete_stale tag batch_size s.files).1)
                (record s { files = (delete_stale tag batch_size s.files).0 })
                (omega (arith, all, more)) in
            (
              (delete_stale tag batch_size s.files).1 + n,
              e,
              s',
              rw (prune_loop, q, f) (ran ∙ ap (λ k. some (k, e, s')) (omega arith)),
              record {
                kept = left.kept ∙ kept;
                deleted = omega (arith, left.deleted, all);
                batch = omega (arith, left.batch, all);
                exact = λ p. omega (arith, left.exact p, all);
                complete = λ p. left.complete p ∙ kept;
              },
            )
      ]
    ]

-- Whatever the database answers to each batch, a prune ends if the fuel is above the number of rows,
-- and no row of the current tag is deleted. It has deleted as many rows as it says, or up to a batch
-- of 250 more, which is so only if it returns an error; and without an error, the rows of the
-- current tag are what is left.
pub prune_by_sync_tag-Pruned :
    (exec : ℕ → Answer) (fuel tag : ℕ) (s : Store)
    → length s.files < fuel
    → (n : ℕ) × (e : Option Text) × (s' : Store) × (prune_by_sync_tag exec fuel tag s
        ≡ some (n, e, s'))
      × Pruned tag s n e s'
unfolding prune_by_sync_tag
prune_by_sync_tag-Pruned exec fuel tag s h = elim (Bool-cases (tag == 0)) [
  | inl t ↦
      let message = codes "refusing to prune with invalid sync tag 0" in
      (
        0,
        some message,
        s,
        rw t refl,
        record {
          kept = refl;
          deleted = omega arith;
          batch = omega arith;
          exact = some_error message;
          complete = some_error message;
        },
      )
  | inr f ↦
      let (n, e, s', ran, left) = prune_loop-Pruned exec fuel 0 tag 0 s h in
      (n, e, s', rw f (ran ∙ ap (λ k. some (k, e, s')) (omega arith)), left)
]
