-- ===== src/Metadata/Sync/Consistency.antt =====
-- The consistency of the store, kept by every cycle whatever the database answers.
use warpbox_custom.Prelude.{
  ℕ, ◌+◌, ◌≤◌, ◌≡◌, refl, zero, suc, inl, inr, not, ◌&&◌, ◌||◌, Option, none, some, List, [], ◌∷◌,
  Text, arith, ◌==◌, Bool-cases, text_eq, All, Result, ltb, length,
}
use warpbox_custom.Torbox.{Torrent}
use warpbox_custom.Metadata.{FileRecord}
use warpbox_custom.Metadata.Store.{
  Answer, Answer-cases, Store, stale, upsert_rows, upsert_file, delete_stale, prune_loop,
  prune_by_sync_tag, get_next_sync_tag, count_lock, is_locked_error, batch_size,
}
use warpbox_custom.Metadata.Store.Rows.{UniquePaths, upsert_rows-UniquePaths}
use warpbox_custom.Metadata.Sync.{
  SyncWorker, Database, upsert_all, listed, failed, sync_once, prune_after,
}
use warpbox_custom.Metadata.Sync.Written.{listed-tag}

-- The table's paths are unique, and its tags are those of the cycles so far.
pub record Consistent (s : Store) : Type 0 where
  pub unique : UniquePaths s.files
  pub tagged : All (λ r. r.sync_tag ≤ s.tag_counter) s.files

delete_stale-All :
    (P : FileRecord → Type 0) (tag n : ℕ) (rows : List FileRecord)
    → All P rows
    → All P (delete_stale tag n rows).0
unfolding delete_stale
delete_stale-All P tag zero rows h = h
delete_stale-All P tag (suc n) [] h = tt
delete_stale-All P tag (suc n) (r ∷ rows) h = elim (Bool-cases (stale tag r)) [
  | inl t ↦ rw (delete_stale, t) (delete_stale-All P tag n rows h.1)
  | inr f ↦ rw (delete_stale, f) (h.0, delete_stale-All P tag (suc n) rows h.1)
]

delete_stale-UniquePaths :
    (tag n : ℕ) (rows : List FileRecord)
    → UniquePaths rows
    → UniquePaths (delete_stale tag n rows).0
unfolding delete_stale
delete_stale-UniquePaths tag zero rows h = h
delete_stale-UniquePaths tag (suc n) [] h = tt
delete_stale-UniquePaths tag (suc n) (r ∷ rows) h = elim (Bool-cases (stale tag r)) [
  | inl t ↦ rw (delete_stale, t) (delete_stale-UniquePaths tag n rows h.1)
  | inr f ↦
      rw (delete_stale, f)
        (delete_stale-All _ tag (suc n) rows h.0, delete_stale-UniquePaths tag (suc n) rows h.1)
]

deleted-Consistent :
    (tag n : ℕ) (s : Store)
    → Consistent s
    → Consistent (record s { files = (delete_stale tag n s.files).0 })
deleted-Consistent tag n s c = record {
  unique = delete_stale-UniquePaths tag n s.files c.unique;
  tagged = delete_stale-All _ tag n s.files c.tagged;
}

count_lock-Consistent : (e : Text) (s : Store) → Consistent s → Consistent (count_lock e s)
unfolding count_lock
count_lock-Consistent e s c = elim (Bool-cases (is_locked_error e)) [
  | inl t ↦ rw t (record { unique = c.unique; tagged = c.tagged })
  | inr f ↦ rw f c
]

-- The store that a prune leaves, or the one it was given if there is none.
store_of : Store → Option (ℕ × Option Text × Store) → Store
store_of s none = s
store_of s (some (deleted, e, s')) = s'

prune_loop-Consistent :
    (exec : ℕ → Answer) (fuel batch tag total : ℕ) (s t : Store)
    → Consistent s
    → Consistent t
    → Consistent (store_of t (prune_loop exec fuel batch tag total s))
unfolding prune_loop store_of
prune_loop-Consistent exec zero batch tag total s t c d = d
prune_loop-Consistent exec (suc fuel) batch tag total s t c d = elim (Answer-cases (exec batch)) [
  | inr (inr (e, q)) ↦ rw (prune_loop, q) (count_lock-Consistent e s c)
  | inr (inl (e, q)) ↦ rw (prune_loop, q) (deleted-Consistent tag batch_size s c)
  | inl q ↦ elim (Bool-cases ((delete_stale tag batch_size s.files).1 == 0)) [
    | inl z ↦ rw (prune_loop, q, z) (deleted-Consistent tag batch_size s c)
    | inr f ↦
        rw (prune_loop, q, f)
          (prune_loop-Consistent exec fuel (suc batch) tag
            (total + (delete_stale tag batch_size s.files).1)
            (record s { files = (delete_stale tag batch_size s.files).0 }) t
            (deleted-Consistent tag batch_size s c) d)
  ]
]

prune_after-Consistent :
    (exec : ℕ → Answer) (tag : ℕ) (s : Store) → Consistent s → Consistent (prune_after exec tag s)
unfolding prune_after prune_by_sync_tag store_of
prune_after-Consistent exec tag s c = elim (Bool-cases (tag == 0)) [
  | inl t ↦ rw (prune_after, t) c
  | inr f ↦ rw (prune_after, f) (prune_loop-Consistent exec (suc (length s.files)) 0 tag 0 s s c c)
]

upsert_rows-All :
    (P : FileRecord → Type 0) (id : ℕ) (f : FileRecord) (rows : List FileRecord)
    → All P rows
    → ((n : ℕ) → P (record f { id = n }))
    → All P (upsert_rows id f rows).0
unfolding upsert_rows
upsert_rows-All P id f [] h own = (own id, tt)
upsert_rows-All P id f (r ∷ rows) h own = elim (Bool-cases (text_eq r.path f.path)) [
  | inl t ↦ rw (upsert_rows, t) (own r.id, h.1)
  | inr n ↦ rw (upsert_rows, n) (h.0, upsert_rows-All P id f rows h.1 own)
]

upsert_file-Consistent :
    (e : Option Text) (f : FileRecord) (s : Store)
    → f.sync_tag ≤ s.tag_counter
    → Consistent s
    → Consistent (upsert_file e f s).1 × ((upsert_file e f s).1.tag_counter ≡ s.tag_counter)
unfolding upsert_file count_lock
upsert_file-Consistent (some e) f s h c = elim (Bool-cases (is_locked_error e)) [
  | inl t ↦ rw t (record { unique = c.unique; tagged = c.tagged }, refl)
  | inr n ↦ rw n (c, refl)
]
upsert_file-Consistent none f s h c = (
  record {
    unique = upsert_rows-UniquePaths s.next_id f s.files c.unique;
    tagged = upsert_rows-All _ s.next_id f s.files c.tagged (λ n. h);
  },
  refl,
)

upsert_all-Consistent :
    (exec : FileRecord → Option Text) (tag : ℕ) (files : List FileRecord) (s : Store)
    → All (λ f. f.sync_tag ≡ tag) files
    → tag ≤ s.tag_counter
    → Consistent s
    → Consistent (upsert_all exec files s)
unfolding upsert_all
upsert_all-Consistent exec tag [] s own h c = c
upsert_all-Consistent exec tag (f ∷ files) s own h c =
    let (c', same) = upsert_file-Consistent (exec f) f s (omega (arith, own.0)) c in
    upsert_all-Consistent exec tag files (upsert_file (exec f) f s).1 own.1 (omega (arith, same)) c'

All-le :
    (n : ℕ) (rows : List FileRecord)
    → All (λ r. r.sync_tag ≤ n) rows
    → All (λ r. r.sync_tag ≤ n + 1) rows
All-le n [] h = tt
All-le n (r ∷ rows) h = (omega (arith, h.0), All-le n rows h.1)

-- Whatever the two listings give and whatever the database answers, a cycle leaves a consistent
-- store consistent: its paths are unique and no tag is above the counter.
pub sync_once-Consistent :
    (tag_error : Option Text) (db : Database) (now : ℕ)
    (torrents usenet : Result Text (List Torrent)) (w : SyncWorker)
    → Consistent w.store
    → Consistent (sync_once tag_error db now torrents usenet w).store
unfolding sync_once get_next_sync_tag
sync_once-Consistent (some e) db now torrents usenet w c = c
sync_once-Consistent none db now torrents usenet w c =
    elim (Bool-cases (ltb 0 tag && (not (failed torrents) || not (failed usenet)))) [
      | inl t ↦ rw t (prune_after-Consistent db.prune_answer tag written written-Consistent)
      | inr f ↦ rw f written-Consistent
    ]
  where
    tag : ℕ
    tag = w.store.tag_counter + 1

    written : Store
    written =
        upsert_all db.upsert_error (listed tag torrents usenet)
          (record w.store { tag_counter = tag })

    written-Consistent : Consistent written
    written-Consistent =
        upsert_all-Consistent db.upsert_error tag (listed tag torrents usenet)
          (record w.store { tag_counter = tag }) (listed-tag tag torrents usenet) (omega arith)
          (record { unique = c.unique; tagged = All-le w.store.tag_counter w.store.files c.tagged })
