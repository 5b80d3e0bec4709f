-- ===== src/Metadata/Sync/Written.antt =====
-- `syncOnce`: the rows that its upserts write, path by path.
use warpbox_custom.Prelude.{
  ℕ, ◌+◌, ◌≤◌, ◌<◌, ◌≡◌, refl, sym, ap, ◌∙◌, inl, inr, Bool, true, false, Option, none, some, List,
  [], ◌∷◌, ◌++◌, map, Text, arith, Bool-cases, if◌then◌else◌, text_eq, keep, All, Result,
}
use warpbox_custom.Torbox.{Torrent, TorrentFile}
use warpbox_custom.Metadata.{FileRecord, FileSource, source_torrent, source_usenet}
use warpbox_custom.Metadata.Store.{Store, find_path, upsert_rows, upsert_file, with_id}
use warpbox_custom.Metadata.Store.Rows.{
  UniquePaths, upsert_rows-UniquePaths, find_path-upsert_rows, find_path-keep, only_if, without_id,
}
use warpbox_custom.Metadata.Store.Prune.{current}
use warpbox_custom.Metadata.Sync.{upsert_all, flatten, ready, listed, items_of, build_file_record}

-- The row of this cycle at a path, without its id.
unfoldable pub view : ℕ → Text → List FileRecord → Option FileRecord
view tag p rows = without_id (find_path p (keep (current tag) rows))

only_if-without_id :
    (tag : ℕ) (o : Option FileRecord)
    → without_id (only_if (current tag) o) ≡ only_if (current tag) (without_id o)
only_if-without_id tag none = refl
only_if-without_id tag (some r) = elim (Bool-cases (current tag r)) [
  | inl t ↦ rw (only_if, t) refl
  | inr f ↦ rw (only_if, f) refl
]

view-eq :
    (tag : ℕ) (p : Text) (rows : List FileRecord)
    → UniquePaths rows
    → view tag p rows ≡ only_if (current tag) (without_id (find_path p rows))
unfolding view
view-eq tag p rows u =
    ap without_id (find_path-keep p (current tag) rows u)
    ∙ only_if-without_id tag (find_path p rows)

current_own : (tag : ℕ) (f : FileRecord) → 0 < tag → f.sync_tag ≡ tag → current tag f ≡ true
current_own tag f h q = ground arith

view-upsert_rows :
    (tag : ℕ) (p : Text) (id : ℕ) (f : FileRecord) (rows : List FileRecord)
    → UniquePaths rows
    → 0 < tag
    → f.sync_tag ≡ tag
    → view tag p (upsert_rows id f rows).0
      ≡ (if text_eq f.path p then some (with_id 0 f) else view tag p rows)
view-upsert_rows tag p id f rows u h q =
    view-eq tag p (upsert_rows id f rows).0 (upsert_rows-UniquePaths id f rows u)
    ∙ ap (only_if (current tag)) (find_path-upsert_rows p id f rows)
    ∙ elim (Bool-cases (text_eq f.path p)) [
      | inl t ↦ rw (t, current_own tag (with_id 0 f) h q) refl
      | inr n ↦ rw n (sym (view-eq tag p rows u))
    ]

-- The last of the files with a path: a later one overwrites an earlier.
abbrev pub last_with_path : Text → List FileRecord → Option FileRecord
last_with_path p [] = none
last_with_path p (f ∷ files) = elim (last_with_path p files) [
  | some r ↦ some r
  | none ↦ if text_eq f.path p then some f else none
]

-- What is written over what was there.
unfoldable pub over : Option FileRecord → Option FileRecord → Option FileRecord
over none old = old
over (some r) old = some (with_id 0 r)

pub view-upsert_all :
    (tag : ℕ) (p : Text) (files : List FileRecord) (s : Store)
    → 0 < tag
    → All (λ f. f.sync_tag ≡ tag) files
    → UniquePaths s.files
    → (view tag p (upsert_all (λ f. none) files s).files
        ≡ over (last_with_path p files) (view tag p s.files))
      × UniquePaths (upsert_all (λ f. none) files s).files
unfolding upsert_all upsert_file over
view-upsert_all tag p [] s h own u = (refl, u)
view-upsert_all tag p (f ∷ files) s h own u =
    let (then_view, unique) =
      view-upsert_all tag p files (upsert_file none f s).1 h own.1
        (upsert_rows-UniquePaths s.next_id f s.files u) in
    (
      then_view
          ∙ ap (over (last_with_path p files))
              (view-upsert_rows tag p s.next_id f s.files u h own.0)
          ∙ combine (last_with_path p files),
      unique,
    )
  where
    combine :
        (o : Option FileRecord)
        → over o (if text_eq f.path p then some (with_id 0 f) else view tag p s.files)
          ≡ over
              (elim o [ some r ↦ some r | none ↦ if text_eq f.path p then some f else none ])
              (view tag p s.files)
    combine (some r) = refl
    combine none = elim (Bool-cases (text_eq f.path p)) [ inl t ↦ rw t refl | inr n ↦ rw n refl ]

pub All-append :
    (P : FileRecord → Type 0) (xs ys : List FileRecord) → All P xs → All P ys → All P (xs ++ ys)
All-append P [] ys h k = k
All-append P (x ∷ xs) ys h k = (h.0, All-append P xs ys h.1 k)

flatten-tag :
    (tag : ℕ) (source : FileSource) (items : List Torrent)
    → All (λ f. f.sync_tag ≡ tag) (flatten tag source items)
unfolding flatten
flatten-tag tag source [] = tt
flatten-tag tag source (t ∷ items) = All-append _ _ _ (own (ready t)) (flatten-tag tag source items)
  where
    unfolding_files :
        (files : List TorrentFile)
        → All
            (λ f. f.sync_tag ≡ tag)
            (map (λ f. build_file_record t.id f tag source t.created_at) files)
    unfolding_files [] = tt
    unfolding_files (f ∷ files) = (refl, unfolding_files files)

    own :
        (b : Bool)
        → All
            (λ f. f.sync_tag ≡ tag)
            (if b then map (λ f. build_file_record t.id f tag source t.created_at) t.files else [])
    own true = unfolding_files t.files
    own false = tt

-- No row is of a cycle to come.
pub nothing_current :
    (counter : ℕ) (rows : List FileRecord)
    → All (λ r. r.sync_tag ≤ counter) rows
    → keep (current (counter + 1)) rows ≡ []
nothing_current counter [] h = refl
nothing_current counter (r ∷ rows) h =
    let not_own : current (counter + 1) r ≡ false = old h.0 in
    rw (keep, not_own) (nothing_current counter rows h.1)
  where
    old : r.sync_tag ≤ counter → current (counter + 1) r ≡ false
    old q = ground arith

pub listed-tag :
    (tag : ℕ) (torrents usenet : Result Text (List Torrent))
    → All (λ f. f.sync_tag ≡ tag) (listed tag torrents usenet)
unfolding listed
listed-tag tag torrents usenet =
    All-append _ _ _ (flatten-tag tag source_torrent (items_of torrents))
      (flatten-tag tag source_usenet (items_of usenet))
