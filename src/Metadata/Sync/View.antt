-- ===== src/Metadata/Sync/View.antt =====
-- `syncOnce`: what the table of files holds after a cycle.
use warpbox_custom.Prelude.{
  ℕ, ◌+◌, ◌<◌, ◌≡◌, refl, sym, ap, ◌∙◌, subst, suc, inl, inr, Bool, true, false, not, ◌&&◌, ◌||◌,
  Option, none, some, List, [], ◌∷◌, map, Text, arith, Bool-cases, Option-cases, if◌then◌else◌,
  text_eq, keep, All, Result, ok, err, ltb, lt→ltb, length,
}
use warpbox_custom.Torbox.{Torrent, TorrentFile}
use warpbox_custom.Metadata.{FileRecord, FileSource, source_usenet}
use warpbox_custom.Metadata.Store.{counted, Store, find_path, with_id, get_next_sync_tag}
use warpbox_custom.Metadata.Store.Rows.{without_id}
use warpbox_custom.Metadata.Store.Prune.{current, prune_by_sync_tag_complete}
use warpbox_custom.Metadata.Sync.Consistency.{Consistent}
use warpbox_custom.Metadata.Sync.Written.{
  view, view-upsert_all, last_with_path, over, All-append, nothing_current, listed-tag,
}
use warpbox_custom.Metadata.Sync.{
  SyncWorker, Database, upsert_all, flatten, ready, listed, failed, sync_once, prune_after,
  build_file_record,
}

abbrev pub no_errors : Database
no_errors = record { upsert_error = λ f. none; prune_answer = λ n. counted }

prune_after-files :
    (tag : ℕ) (s : Store)
    → 0 < tag
    → (prune_after (λ n. counted) tag s).files ≡ keep (current tag) s.files
unfolding prune_after
prune_after-files tag s h =
    ap left (prune_by_sync_tag_complete (suc (length s.files)) tag s h (omega arith))
  where
    left : Option (ℕ × Option Text × Store) → List FileRecord
    left o = (elim o as (λ x. Store) [ none ↦ s | some (deleted, e, s') ↦ s' ]).files

-- The store with the next tag reserved.
abbrev pub reserve : Store → Store
reserve s = record s { tag_counter = s.tag_counter + 1 }

sync_once-store :
    (now : ℕ) (torrents usenet : Result Text (List Torrent)) (w : SyncWorker)
    → (failed torrents && failed usenet) ≡ false
    → (sync_once none no_errors now torrents usenet w).store
      ≡ prune_after
          (λ n. counted)
          (w.store.tag_counter + 1)
          (upsert_all
            (λ f. none)
            (listed (w.store.tag_counter + 1) torrents usenet)
            (reserve w.store))
unfolding sync_once get_next_sync_tag
sync_once-store now torrents usenet w one =
    let later : ltb 0 (w.store.tag_counter + 1) ≡ true =
      lt→ltb 0 (w.store.tag_counter + 1) (omega arith) in
    rw (later, some_listing torrents usenet one) refl
  where
    some_listing :
        (a b : Result Text (List Torrent))
        → (failed a && failed b) ≡ false
        → (not (failed a) || not (failed b)) ≡ true
    some_listing (ok x) b h = refl
    some_listing (err x) (ok y) h = refl
    some_listing (err x) (err y) h = cc

over_empty : (o : Option FileRecord) → over o none ≡ without_id o
unfolding over
over_empty none = refl
over_empty (some r) = refl

-- After a cycle on a consistent store without an error of the database, in which one of the two
-- listings at least has succeeded, the row at each path is, but for its id, the last file listed
-- with that path, and no row if no file is: of a failed listing, no file is left.
pub find_path-sync_once :
    (now : ℕ) (torrents usenet : Result Text (List Torrent)) (w : SyncWorker) (p : Text)
    → Consistent w.store
    → (failed torrents && failed usenet) ≡ false
    → without_id (find_path p (sync_once none no_errors now torrents usenet w).store.files)
      ≡ without_id (last_with_path p (listed (w.store.tag_counter + 1) torrents usenet))
unfolding view find_path
find_path-sync_once now torrents usenet w p c one =
    let tag = w.store.tag_counter + 1 in
    let files = listed tag torrents usenet in
    let (written, unique) =
      view-upsert_all tag p files (reserve w.store) (omega arith) (listed-tag tag torrents usenet)
        c.unique in
    let fresh : view tag p w.store.files ≡ none =
      ap (λ rows. without_id (find_path p rows))
        (nothing_current w.store.tag_counter w.store.files c.tagged) in
    ap (λ s. without_id (find_path p s.files)) (sync_once-store now torrents usenet w one)
    ∙ ap (λ rows. without_id (find_path p rows))
        (prune_after-files tag (upsert_all (λ f. none) files (reserve w.store)) (omega arith))
    ∙ written
    ∙ ap (over (last_with_path p files)) fresh
    ∙ over_empty (last_with_path p files)

flatten-source :
    (tag : ℕ) (source : FileSource) (items : List Torrent)
    → All (λ f. f.source ≡ source) (flatten tag source items)
unfolding flatten
flatten-source tag source [] = tt
flatten-source tag source (t ∷ items) =
    All-append _ _ _ (own (ready t)) (flatten-source tag source items)
  where
    of_files :
        (files : List TorrentFile)
        → All
            (λ f. f.source ≡ source)
            (map (λ f. build_file_record t.id f tag source t.created_at) files)
    of_files [] = tt
    of_files (f ∷ files) = (refl, of_files files)

    own :
        (b : Bool)
        → All
            (λ f. f.source ≡ source)
            (if b then map (λ f. build_file_record t.id f tag source t.created_at) t.files else [])
    own true = of_files t.files
    own false = tt

last_with_path-source :
    (p : Text) (source : FileSource) (files : List FileRecord) (r : FileRecord)
    → All (λ f. f.source ≡ source) files
    → last_with_path p files ≡ some r
    → r.source ≡ source
last_with_path-source p source [] r h q = cc
last_with_path-source p source (f ∷ files) r h q = elim (Option-cases (last_with_path p files)) [
  | inr (x, e) ↦ last_with_path-source p source files r h.1 (e ∙ rw (last_with_path, e) at q)
  | inl e ↦ elim (Bool-cases (text_eq f.path p)) [
    | inl t ↦ here (rw (last_with_path, e, t) at q)
    | inr n ↦ cc (rw (last_with_path, e, n) at q)
  ]
]
  where
    source_in : Option FileRecord → FileSource
    source_in none = source
    source_in (some x) = x.source

    here : some f ≡ some r → r.source ≡ source
    here e = subst (λ o. (source_in o) ≡ source) e h.0

-- If the listing of the torrents has failed and that of the Usenet downloads has not, no torrent's
-- file is left after the cycle: every row, at whatever path, is a Usenet file.
find_path-sync_once_failed :
    (now : ℕ) (e : Text) (usenet : List Torrent) (w : SyncWorker) (p : Text) (r : FileRecord)
    → Consistent w.store
    → find_path p (sync_once none no_errors now (err e) (ok usenet) w).store.files ≡ some r
    → r.source ≡ source_usenet
unfolding listed flatten
find_path-sync_once_failed now e usenet w p r c q =
    of_last (last_with_path p (listed (w.store.tag_counter + 1) (err e) (ok usenet))) refl
      (sym (ap without_id q) ∙ find_path-sync_once now (err e) (ok usenet) w p c refl)
  where
    source_in : Option FileRecord → FileSource
    source_in none = source_usenet
    source_in (some x) = x.source

    of_last :
        (o : Option FileRecord)
        → last_with_path p (listed (w.store.tag_counter + 1) (err e) (ok usenet)) ≡ o
        → some (with_id 0 r) ≡ without_id o
        → r.source ≡ source_usenet
    of_last none l eq = cc
    of_last (some x) l eq =
        ap source_in eq
        ∙ last_with_path-source p source_usenet
            (flatten (w.store.tag_counter + 1) source_usenet usenet) x
            (flatten-source (w.store.tag_counter + 1) source_usenet usenet) l
