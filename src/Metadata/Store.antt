-- ===== src/Metadata/Store.antt =====
-- internal/metadata/store.go: the table of files and the counter of sync tags. Each SQL statement
-- is the change it makes to the rows, and whether SQLite executes it is an argument, the error of
-- each attempt. AUTOINCREMENT gives an id above all before it; paths and ids are unique.
pub mod Prune
pub mod Rows
pub mod CdnUrl
pub mod Listing
pub mod Items
use warpbox_custom.Prelude.{
  ℕ, ◌*◌, ◌/◌, ◌+◌, ◌≡◌, refl, zero, suc, Bool, true, false, not, ◌&&◌, ◌||◌, Option, none, some,
  List, [], ◌∷◌, ◌++◌, map, Text, codes, ◌==◌, if◌then◌else◌, is_empty, contains, text_eq, ltb,
  Result, ok, err, ◌⊎◌, inl, inr,
}
use warpbox_custom.Metadata.{FileRecord, FileSource, source_same}

-- The columns that `ON CONFLICT(path) DO UPDATE` sets are all but the id and the path.
pub record Store : Type 0 where
  pub files : List FileRecord
  pub next_id : ℕ
  pub tag_counter : ℕ
  pub lock_errors : ℕ

unfoldable pub is_locked_error : Text → Bool
unfolding contains
is_locked_error msg =
    contains msg (codes "database is locked")
    || contains msg (codes "SQLITE_BUSY")
    || contains msg (codes "SQLITE_LOCKED")

-- The lock counter after an error.
unfoldable pub count_lock : Text → Store → Store
count_lock e s = if is_locked_error e then record s { lock_errors = s.lock_errors + 1 } else s

abbrev pub with_id : ℕ → FileRecord → FileRecord
with_id id f = record f { id = id }

-- `INSERT ... ON CONFLICT(path) DO UPDATE` on the rows, and whether the row is new.
unfoldable pub upsert_rows : ℕ → FileRecord → List FileRecord → List FileRecord × Bool
upsert_rows id f [] = (with_id id f ∷ [], true)
upsert_rows id f (r ∷ rows) =
    let (rest, is_new) = upsert_rows id f rows in
    if text_eq r.path f.path then (with_id r.id f ∷ rows, false) else (r ∷ rest, is_new)

unfoldable pub upsert_file : Option Text → FileRecord → Store → Option Text × Store
unfolding upsert_rows count_lock
upsert_file (some e) f s = (some e, count_lock e s)
upsert_file none f s =
    let (rows, is_new) = upsert_rows s.next_id f s.files in
    (none, record s { files = rows; next_id = if is_new then s.next_id + 1 else s.next_id })

-- The row with a path, of which there is at most one.
unfoldable pub find_path : Text → List FileRecord → Option FileRecord
find_path p [] = none
find_path p (r ∷ rows) = let rest = find_path p rows in if text_eq r.path p then some r else rest

-- `GetFileByPath`: the tag is no column of the query.
unfoldable pub get_file_by_path : Text → Store → Option FileRecord
get_file_by_path path s = elim (find_path path s.files) [
  | none ↦ none
  | some r ↦ some (record r { sync_tag = 0 })
]

-- The first row with an id, of which there is at most one.
unfoldable pub find_id : ℕ → List FileRecord → Option FileRecord
find_id id [] = none
find_id id (r ∷ rows) = let rest = find_id id rows in if r.id == id then some r else rest

-- `GetFileByFileID`
unfoldable pub get_file_by_file_id : FileSource → ℕ → List FileRecord → Option FileRecord
get_file_by_file_id source file_id [] = none
get_file_by_file_id source file_id (r ∷ rows) =
    let rest = get_file_by_file_id source file_id rows in
    if source_same r.source source && r.file_id == file_id
    then some (record r { sync_tag = 0 })
    else rest

-- `GetItemIDByFileID`: 0 for no row.
unfoldable pub get_item_id_by_file_id : FileSource → ℕ → Store → ℕ
get_item_id_by_file_id source file_id s = elim (get_file_by_file_id source file_id s.files) [
  | none ↦ 0
  | some r ↦ r.item_id
]

-- The second that a time in nanoseconds falls in: RFC 3339 text has no smaller unit.
abbrev pub to_second : ℕ → ℕ
to_second t = t / 1_000_000_000 * 1_000_000_000

-- `UPDATE files SET cdn_url = ?, cdn_url_expires = ? WHERE id = ?`
unfoldable pub update_cdn_url : ℕ → Text → ℕ → List FileRecord → List FileRecord
update_cdn_url id url expires [] = []
update_cdn_url id url expires (r ∷ rows) =
    let rest = update_cdn_url id url expires rows in
    (if r.id == id then record r { cdn_url = url; cdn_url_expiry = some expires } else r) ∷ rest

-- The loop of `SetCDNURL` with the attempts that are left: the last error, and the waits between
-- the attempts in milliseconds. Only a lock is waited for, and not after the last attempt.
unfoldable pub set_loop :
    (ℕ → Option Text)
    → (left attempt : ℕ) → Option Text
    → ℕ
    → Text
    → ℕ
    → Store
    → Option Text × List ℕ × Store
unfolding count_lock update_cdn_url
set_loop exec zero attempt last id url expires s = (last, [], s)
set_loop exec (suc left) attempt last id url expires s = elim (exec attempt) [
  | none ↦ (none, [], record s { files = update_cdn_url id url expires s.files })
  | some e ↦
      let (result, waits, s') =
        set_loop exec left (suc attempt) (some e) id url expires (count_lock e s) in
      (
        result,
        if is_locked_error e && ltb attempt 2 then 100 * backoff_factor attempt ∷ waits else waits,
        s',
      )
]
  where
    backoff_factor : ℕ → ℕ
    backoff_factor zero = 1
    backoff_factor (suc n) = 2 * backoff_factor n

unfoldable pub set_cdn_url : (ℕ → Option Text) → ℕ → Text → ℕ → Store → Option Text × List ℕ × Store
unfolding set_loop
set_cdn_url exec id url expires_at s = set_loop exec 3 0 none id url (to_second expires_at) s

-- What `GetCDNURL` answers for a row: the empty text when there is no URL or it has expired.
unfoldable pub live_url : ℕ → FileRecord → Text
live_url now r = if is_empty r.cdn_url then [] else elim r.cdn_url_expiry [
  | none ↦ r.cdn_url
  | some expiry ↦ if ltb expiry now then [] else r.cdn_url
]

-- `GetCDNURL` when its query succeeds; the error of the query is an argument of the handlers.
unfoldable pub get_cdn_url : ℕ → ℕ → Store → Text
unfolding find_id live_url
get_cdn_url now id s = elim (find_id id s.files) [ none ↦ [] | some r ↦ live_url now r ]

-- `GetNextSyncTag`: the increment, or its error. The seed of the counter may fail unnoticed.
unfoldable pub get_next_sync_tag : Option Text → Store → Result Text ℕ × Store
get_next_sync_tag (some e) s = (err (codes "incrementing sync tag: " ++ e), s)
get_next_sync_tag none s = (ok (s.tag_counter + 1), record s { tag_counter = s.tag_counter + 1 })

-- `sync_tag != ? OR sync_tag = 0`
abbrev pub stale : ℕ → FileRecord → Bool
stale tag r = not (r.sync_tag == tag) || r.sync_tag == 0

-- The deletion of at most `n` stale rows, and their number.
unfoldable pub delete_stale : ℕ → ℕ → List FileRecord → List FileRecord × ℕ
delete_stale tag zero rows = (rows, 0)
delete_stale tag (suc n) [] = ([], 0)
delete_stale tag (suc n) (r ∷ rows) = elim (stale tag r) [
  | true ↦ let (rest, k) = delete_stale tag n rows in (rest, suc k)
  | false ↦ let (rest, k) = delete_stale tag (suc n) rows in (r ∷ rest, k)
]

abbrev pub batch_size : ℕ
batch_size = 250

-- How the database answers a batch: the rows are deleted and counted, they are deleted and their
-- number is not known, or the deletion fails.
pub data Answer : Type 0 where
  counted : Answer
  uncounted refused : Text → Answer

pub Answer-cases :
    (a : Answer)
    → (a ≡ counted) ⊎ (((e : Text) × (a ≡ uncounted e)) ⊎ ((e : Text) × (a ≡ refused e)))
Answer-cases counted = inl refl
Answer-cases (uncounted e) = inr (inl (e, refl))
Answer-cases (refused e) = inr (inr (e, refl))

-- The loop of `PruneBySyncTag`: the deletions, the error and the store. `none` means that the fuel
-- ran out.
unfoldable pub prune_loop :
    (ℕ → Answer) → (fuel batch tag total : ℕ) → Store → Option (ℕ × Option Text × Store)
unfolding delete_stale count_lock
prune_loop exec zero batch tag total s = none
prune_loop exec (suc fuel) batch tag total s = elim (exec batch) [
  | refused e ↦ some (total, some (codes "pruning by sync tag: " ++ e), count_lock e s)
  | uncounted e ↦
      let (rows, n) = delete_stale tag batch_size s.files in
      some (total, some (codes "rows affected after prune: " ++ e), record s { files = rows })
  | counted ↦
      let (rows, n) = delete_stale tag batch_size s.files in
      elim (n == 0) [
        | true ↦ some (total + n, none, record s { files = rows })
        | false ↦ prune_loop exec fuel (suc batch) tag (total + n) (record s { files = rows })
      ]
]

unfoldable pub prune_by_sync_tag :
    (ℕ → Answer) → (fuel tag : ℕ) → Store → Option (ℕ × Option Text × Store)
unfolding prune_loop
prune_by_sync_tag exec fuel tag s =
    if tag == 0
    then some (0, some (codes "refusing to prune with invalid sync tag 0"), s)
    else prune_loop exec fuel 0 tag 0 s
