-- ===== src/Metadata/Store/Items.antt =====
-- The queries of internal/metadata/store.go over the items: ListItemDirs, CountFiles, CountItems and
-- GetItemIDByFileID. Of the order in which DISTINCT gives the rows, the model takes the table's.
use warpbox_custom.Prelude.{
  ℕ, ◌≡◌, refl, sym, subst, ap, inl, inr, Bool, true, false, ◌&&◌, Option, none, some, Bool-cases,
  List, [], ◌∷◌, Text, slash, cut, text_eq, text_eq→eq, ◌==◌, if◌then◌else◌, length, arith, Result,
  ok, err,
}
use mathlib.Core.List.{Memᴰ}
use mathlib.Core.List.Memᴰ
use warpbox_custom.Metadata.{FileRecord, FileSource, source_same}
use warpbox_custom.Metadata.Sync.Hooks.{ItemKey, ItemDir, key_same, key_same→eq}

-- The path up to the first slash, or the whole path without one.
abbrev pub dir_name : Text → Text
dir_name path = elim (cut slash path) [ none ↦ path | some (before, behind) ↦ before ]

abbrev pub item_dir : FileRecord → ItemDir
item_dir r = record {
  key = record { item_id = r.item_id; source = r.source };
  dir = dir_name r.path;
}

abbrev dir_same : ItemDir → ItemDir → Bool
dir_same a b = key_same a.key b.key && text_eq a.dir b.dir

unfoldable pub has_dir : ItemDir → List ItemDir → Bool
has_dir it [] = false
has_dir it (x ∷ items) = let rest = has_dir it items in if dir_same x it then true else rest

unfoldable pub distinct_dirs : List FileRecord → List ItemDir
unfolding has_dir
distinct_dirs [] = []
distinct_dirs (r ∷ rows) =
    let rest = distinct_dirs rows in if has_dir (item_dir r) rest then rest else item_dir r ∷ rest

-- `ListItemDirs`
unfoldable pub list_item_dirs : Option Text → List FileRecord → Result Text (List ItemDir)
list_item_dirs (some e) rows = err e
list_item_dirs none rows = ok (distinct_dirs rows)

-- `CountFiles`
unfoldable pub count_files : Option Text → List FileRecord → Result Text ℕ
count_files (some e) rows = err e
count_files none rows = ok (length rows)

unfoldable pub has_key : ItemKey → List ItemKey → Bool
has_key k [] = false
has_key k (x ∷ keys) = let rest = has_key k keys in if key_same x k then true else rest

unfoldable pub distinct_keys : List FileRecord → List ItemKey
unfolding has_key
distinct_keys [] = []
distinct_keys (r ∷ rows) =
    let rest = distinct_keys rows in
    if has_key (item_dir r).key rest then rest else (item_dir r).key ∷ rest

-- `CountItems`
unfoldable pub count_items : Option Text → List FileRecord → Result Text ℕ
count_items (some e) rows = err e
count_items none rows = ok (length (distinct_keys rows))

unfoldable pub first_item_id : FileSource → ℕ → List FileRecord → ℕ
first_item_id source file_id [] = 0
first_item_id source file_id (r ∷ rows) =
    let rest = first_item_id source file_id rows in
    if source_same r.source source && r.file_id == file_id then r.item_id else rest

-- `GetItemIDByFileID`: 0 stands for no row.
unfoldable pub get_item_id_by_file_id :
    Option Text → FileSource → ℕ → List FileRecord → Result Text ℕ
get_item_id_by_file_id (some e) source file_id rows = err e
get_item_id_by_file_id none source file_id rows = ok (first_item_id source file_id rows)

Memᴰ-has_dir : (it : ItemDir) (items : List ItemDir) → has_dir it items ≡ true → Memᴰ it items
unfolding has_dir
Memᴰ-has_dir it [] h = cc
Memᴰ-has_dir it (x ∷ items) h = elim (Bool-cases (dir_same x it)) [
  | inl t ↦
      let same : x ≡ it = ground (arith, t, key_same→eq x.key it.key, text_eq→eq x.dir it.dir) in
      Memᴰ.head (sym same)
  | inr f ↦ Memᴰ.tail (Memᴰ-has_dir it items (rw (has_dir, f) at h))
]

-- Each entry is that of a row, and each row has one.
pub distinct_dirs_from :
    (rows : List FileRecord) (it : ItemDir)
    → Memᴰ it (distinct_dirs rows)
    → (r : FileRecord) × Memᴰ r rows × (item_dir r ≡ it)
unfolding distinct_dirs
distinct_dirs_from [] it h = elim h [ ]
distinct_dirs_from (r ∷ rows) it h = elim (Bool-cases (has_dir (item_dir r) (distinct_dirs rows))) [
  | inl t ↦
      let (found, there, e) = distinct_dirs_from rows it (rw (distinct_dirs, t) at h) in
      (found, Memᴰ.tail there, e)
  | inr f ↦ elim (Memᴰ.cases_cons (rw (distinct_dirs, f) at h)) [
    | inl e ↦ (r, Memᴰ.head refl, sym e)
    | inr later ↦
        let (found, there, e) = distinct_dirs_from rows it later in (found, Memᴰ.tail there, e)
  ]
]

pub distinct_dirs_has :
    (rows : List FileRecord) (r : FileRecord) → Memᴰ r rows → Memᴰ (item_dir r) (distinct_dirs rows)
unfolding distinct_dirs
distinct_dirs_has (x ∷ rows) r h = elim (Bool-cases (has_dir (item_dir x) (distinct_dirs rows))) [
  | inl t ↦ elim (Memᴰ.cases_cons h) [
    | inl e ↦
        rw (distinct_dirs, t)
          (subst (λ z. Memᴰ z (distinct_dirs rows)) (ap item_dir (sym e))
            (Memᴰ-has_dir (item_dir x) (distinct_dirs rows) t))
    | inr later ↦ rw (distinct_dirs, t) (distinct_dirs_has rows r later)
  ]
  | inr f ↦ elim (Memᴰ.cases_cons h) [
    | inl e ↦ rw (distinct_dirs, f) (Memᴰ.head (ap item_dir e))
    | inr later ↦ rw (distinct_dirs, f) (Memᴰ.tail (distinct_dirs_has rows r later))
  ]
]
distinct_dirs_has [] r h = elim h [ ]
