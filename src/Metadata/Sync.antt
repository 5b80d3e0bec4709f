-- ===== src/Metadata/Sync.antt =====
-- internal/metadata/sync.go: the worker that copies the TorBox listings into the store. The
-- listings, the clock and the errors of the database are arguments.
pub mod Paths
pub mod View
pub mod Written
pub mod Consistency
pub mod Lifecycle
pub mod Hooks
pub mod Changes
use warpbox_custom.Prelude.{
  ℕ, ◌+◌, ◌*◌, ◌^◌, ◌-◌, ◌≡◌, zero, suc, Bool, true, false, not, ◌&&◌, ◌||◌, Option, none, some,
  List, [], ◌∷◌, ◌++◌, map, Text, codes, slash, cut, ◌==◌, if◌then◌else◌, is_empty, text_eq, ltb,
  Result, ok, err, Eq, lookup, insert, ◌==◌, ==→eq, ==_refl, length,
}
use warpbox_custom.Torbox.{Torrent, TorrentFile, is_retryable}
use warpbox_custom.Metadata.{
  FileRecord, FileSource, source_torrent, source_usenet, source_same, zero_record,
}
use warpbox_custom.Metadata.Store.{Answer, Store, upsert_file, get_next_sync_tag, prune_by_sync_tag}

-- The characters that `sanitizePathSegment` replaces.
unfoldable pub is_reserved : ℕ → Bool
is_reserved c =
    c == b'\\'
    || c == b'/'
    || c == b':'
    || c == b'*'
    || c == b'?'
    || c == b'"'
    || c == b'<'
    || c == b'>'
    || c == b'|'
    || c == b'&'

abbrev pub underscore : ℕ
underscore = b'_'

-- Every reserved character is printable, so that none is left out.
unfoldable pub sanitize_path_segment : Text → Text
unfolding is_reserved
sanitize_path_segment = map λ c. if is_reserved c then underscore else c

-- `strings.Split` at one byte, which gives a part at least.
unfoldable pub split : ℕ → Text → List Text
split c [] = [] ∷ []
split c (x ∷ s) =
    let rest = split c s in
    if x == c
    then [] ∷ rest
    else elim rest [ [] ↦ (x ∷ []) ∷ [] | ◌∷◌ part parts ↦ (x ∷ part) ∷ parts ]

-- `strings.Join` with one byte.
unfoldable pub join : ℕ → List Text → Text
join c [] = []
join c (part ∷ []) = part
join c (part ∷ next ∷ parts) = part ++ c ∷ join c (next ∷ parts)

-- The path below the hash: `rest` has a slash or not.
unfoldable pub path_of_rest : Text → Text
unfolding split join sanitize_path_segment
path_of_rest rest = elim (cut slash rest) [
  | some (directory, file) ↦ join slash (map sanitize_path_segment (split slash rest))
  | none ↦ sanitize_path_segment rest
]

-- `virtualPath` of `buildFileRecord`.
unfoldable pub virtual_path : TorrentFile → Text
unfolding path_of_rest
virtual_path f = elim (cut slash f.s3_path) [
  | some (hash, rest) ↦
      if not (is_empty hash) && not (is_empty rest)
      then path_of_rest rest
      else sanitize_path_segment f.short_name
  | none ↦ sanitize_path_segment f.short_name
]

unfoldable pub build_file_record : ℕ → TorrentFile → ℕ → FileSource → Text → FileRecord
unfolding virtual_path
build_file_record item_id f sync_tag source created_at = record zero_record {
  item_id = item_id;
  file_id = f.id;
  source = source;
  name = sanitize_path_segment f.short_name;
  path = virtual_path f;
  size = f.size;
  mime_type = f.mime_type;
  created_at = created_at;
  sync_tag = sync_tag;
}

-- Whether the loops of `syncOnce` look at the files of an item.
unfoldable pub ready : Torrent → Bool
ready t = not (not (text_eq t.download_state (codes "cached")) && not t.download_present)

-- The records of the items in a listing, in the order of the loops.
unfoldable pub flatten : ℕ → FileSource → List Torrent → List FileRecord
unfolding ready build_file_record
flatten tag source [] = []
flatten tag source (t ∷ items) =
    (if ready t then map (λ f. build_file_record t.id f tag source t.created_at) t.files else [])
    ++ flatten tag source items

-- The upserts of the loops: an error is logged and the next file is taken.
unfoldable pub upsert_all : (FileRecord → Option Text) → List FileRecord → Store → Store
unfolding upsert_file
upsert_all exec [] s = s
upsert_all exec (f ∷ files) s = upsert_all exec files (upsert_file (exec f) f s).1

-- What `Execute` of a listing request does: the listing or its error, and the waits, as multiples
-- of `retryBackoff`. `cancelled` is `ctx.Err()` if the context ends in the wait before an attempt.
unfoldable pub list_loop :
    (ℕ → Result Text (List Torrent))
    → (ℕ → Option Text)
    → (left attempt : ℕ) → Result Text (List Torrent)
    → Result Text (List Torrent) × List ℕ
list_loop api cancelled zero attempt last = (last, [])
list_loop api cancelled (suc left) attempt last =
    let waited = if ltb 0 attempt then 2 ^ (attempt - 1) ∷ [] else [] in
    let go : Result Text (List Torrent) × List ℕ = elim (api attempt) [
      | ok items ↦ (ok items, waited)
      | err e ↦
          let (result, waits) = list_loop api cancelled left (suc attempt) (err e) in
          if is_retryable e then (result, waited ++ waits) else (err e, waited)
    ] in
    if ltb 0 attempt then elim (cancelled attempt) [ none ↦ go | some e ↦ (err e, []) ] else go

unfoldable pub list_with_retry :
    (ℕ → Result Text (List Torrent))
    → (ℕ → Option Text)
    → (retry_attempts : ℕ) → Result Text (List Torrent) × List ℕ
unfolding list_loop
list_with_retry api cancelled retry_attempts =
    list_loop api cancelled (suc retry_attempts) 0 (ok [])

-- The items of a listing, none of a failed one.
abbrev pub items_of : Result Text (List Torrent) → List Torrent
items_of (ok items) = items
items_of (err e) = []

abbrev pub failed : Result Text (List Torrent) → Bool
failed (ok items) = false
failed (err e) = true

-- The state of a `SyncWorker`; `none` is Go's zero time, or no error.
pub record SyncWorker : Type 0 where
  pub store : Store
  pub last_error : Option Text
  pub last_success : Option ℕ

-- What the database answers to the upserts and to the batches of the prune in one cycle.
pub record Database : Type 0 where
  pub upsert_error : FileRecord → Option Text
  pub prune_answer : ℕ → Answer

-- The status that a cycle leaves.
unfoldable pub track_status :
    ℕ → Result Text (List Torrent) → Result Text (List Torrent) → SyncWorker → SyncWorker
track_status now (err e) usenet w = record w { last_error = some e }
track_status now (ok items) (err e) w = record w { last_error = some e }
track_status now (ok items) (ok others) w = record w { last_error = none; last_success = some now }

-- The records that a cycle writes: the torrents' and then the Usenet downloads'.
unfoldable pub listed :
    ℕ → Result Text (List Torrent) → Result Text (List Torrent) → List FileRecord
unfolding flatten
listed tag torrents usenet =
    flatten tag source_torrent (items_of torrents) ++ flatten tag source_usenet (items_of usenet)

-- The prune at the end of a cycle, with fuel for every batch.
unfoldable pub prune_after : (ℕ → Answer) → ℕ → Store → Store
unfolding prune_by_sync_tag
prune_after exec tag s = elim (prune_by_sync_tag exec (suc (length s.files)) tag s) [
  | none ↦ s
  | some (deleted, e, s') ↦ s'
]

-- `syncOnce` from the listings on, without the change hooks; the error of the tag's query is first.
unfoldable pub sync_once :
    Option Text
    → Database
    → (now : ℕ) → (torrents usenet : Result Text (List Torrent)) → SyncWorker
    → SyncWorker
unfolding get_next_sync_tag listed upsert_all track_status prune_after
sync_once tag_error db now torrents usenet w =
    let (reserved, counted) = get_next_sync_tag tag_error w.store in
    elim reserved [
      | err e ↦ record w { store = counted }
      | ok tag ↦
          let written = upsert_all db.upsert_error (listed tag torrents usenet) counted in
          let w' = track_status now torrents usenet w in
          if ltb 0 tag && (not (failed torrents) || not (failed usenet))
          then record w' { store = prune_after db.prune_answer tag written }
          else record w' { store = written }
    ]
