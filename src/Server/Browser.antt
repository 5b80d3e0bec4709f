-- ===== src/Server/Browser.antt =====
-- `handleHTTP` of internal/server/http_browser.go: a path below /http/ is a file that is streamed, or
-- a directory whose entries are shown as a page. Sums are in 64 bits.
-- The sort, the links and the rows are in Page; the HTML is left out.
pub mod Dirs
pub mod Sizes
pub mod Resolve
pub mod Page
pub mod Trail
pub mod Order
pub mod Lost
mod Tests
use warpbox_custom.Prelude.{
  ℕ, ◌+◌, Bool, true, false, not, ◌&&◌, Option, none, some, List, [], ◌∷◌, ◌++◌, map, Text, codes,
  slash, ltb, leb, if◌then◌else◌, length, cut, trim_prefix, trim_right, is_empty, text_eq,
  text_eq_instance, lookup, insert, Result, ok, err, ℤ, pos, ◌+ℤ◌, ◌==◌,
}
use warpbox_custom.Metadata.{FileRecord}
use warpbox_custom.Library.{
  Filter, extract_directory, extract_relative_path, match_directory, match_file,
}
use warpbox_custom.Server.Routing.{all_mount}
use warpbox_custom.Server.Range.{int64}
use warpbox_custom.Server.Listing.{or_octets}
use warpbox_custom.Server.Listing.Handlers.{filtered}

-- `strings.Count` of a byte.
unfoldable pub count_of : ℕ → Text → ℕ
count_of c [] = 0
count_of c (x ∷ s) = let rest = count_of c s in if x == c then rest + 1 else rest

-- `rawVirtualPath`
unfoldable pub raw_virtual_path : Text → Text
unfolding count_of
raw_virtual_path path =
    let trimmed = trim_right slash path in
    let req_path = if ltb (count_of slash trimmed) 2 then codes "/http/" else trimmed in
    trim_prefix (trim_prefix req_path (codes "/http")) (slash ∷ [])

-- The text before the first slash.
unfoldable pub first_segment : Text → Text
first_segment path = elim (cut slash path) [ none ↦ path | some (before, behind) ↦ before ]

-- The path of the store, the filter, and what the hrefs have in front.
pub record View : Type 0 where
  pub virtual_path : Text
  pub filter : Option Filter
  pub mount_prefix : Text

unfoldable pub view_of : List (Text × Filter) → Text → View
unfolding first_segment
view_of mounts raw =
    let first = first_segment raw in
    if text_eq first all_mount
    then record {
      virtual_path = trim_prefix (trim_prefix raw all_mount) (slash ∷ []);
      filter = none;
      mount_prefix = codes "/__all__";
    }
    else elim (lookup first mounts) [
      | some f ↦ record {
        virtual_path = trim_prefix (trim_prefix raw first) (slash ∷ []);
        filter = some f;
        mount_prefix = slash ∷ first;
      }
      | none ↦ record { virtual_path = raw; filter = none; mount_prefix = [] }
    ]

-- `entry`
pub record Item : Type 0 where
  pub name : Text
  pub href : Text
  pub size : ℤ
  pub is_dir : Bool
  pub mime : Text

-- `dirAgg`
pub record DirAgg : Type 0 where
  pub href : Text
  pub total_size : ℤ

-- The directories in the order of their first file, and the files.
pub record Gathered : Type 0 where
  pub dir_map : List (Text × DirAgg)
  pub dir_order : List Text
  pub files : List Item

-- The href of a directory's child.
unfoldable pub sub_href : View → Text → Text
sub_href v name =
    codes "/http"
    ++ v.mount_prefix
    ++ slash
      ∷ (if is_empty v.virtual_path
          then name ++ slash ∷ []
          else v.virtual_path ++ slash ∷ (name ++ slash ∷ []))

-- The entry of a file with a display name.
abbrev pub file_item : View → Text → FileRecord → Item
file_item v name rec = record {
  name = name;
  href = codes "/http" ++ v.mount_prefix ++ slash ∷ rec.path;
  size = rec.size;
  is_dir = false;
  mime = or_octets rec.mime_type;
}

abbrev pub first_agg : View → Text → FileRecord → DirAgg
first_agg v name rec = record { href = sub_href v name; total_size = rec.size }

-- A round of the loop over the records.
unfoldable pub gather_step : View → FileRecord → Gathered → Gathered
gather_step v rec g =
    let rel = trim_prefix (trim_prefix rec.path v.virtual_path) (slash ∷ []) in
    elim (cut slash rel) [
      | some (name, below) ↦ elim (lookup name g.dir_map) [
        | some ag ↦ record g {
          dir_map =
              insert name (record ag { total_size = int64 (ag.total_size +ℤ rec.size) }) g.dir_map;
        }
        | none ↦ record g {
          dir_map = insert name (first_agg v name rec) g.dir_map;
          dir_order = g.dir_order ++ name ∷ [];
        }
      ]
      | none ↦ record g { files = g.files ++ file_item v rel rec ∷ [] }
    ]

unfoldable pub gather : View → List FileRecord → Gathered → Gathered
unfolding gather_step
gather v [] g = g
gather v (rec ∷ records) g = gather v records (gather_step v rec g)

abbrev pub item_of_dir : Text → Option DirAgg → Item
item_of_dir name none = record {
  name = name ++ slash ∷ [];
  href = [];
  size = pos 0;
  is_dir = true;
  mime = [];
}
item_of_dir name (some ag) = record {
  name = name ++ slash ∷ [];
  href = ag.href;
  size = ag.total_size;
  is_dir = true;
  mime = [];
}

-- The directories, then the files.
unfoldable pub items_of : Gathered → List Item
items_of g = map (λ name. item_of_dir name (lookup name g.dir_map)) g.dir_order ++ g.files

-- The sizes at the root: of all records, and of those that a virtual path matches.
unfoldable pub total_size : List FileRecord → ℤ → ℤ
total_size [] total = total
total_size (rec ∷ records) total = total_size records (int64 (total +ℤ rec.size))

abbrev pub matched : Filter → FileRecord → Bool
matched f rec =
    match_directory f (extract_directory rec.path) && match_file f (extract_relative_path rec.path)

unfoldable pub filter_total : Filter → List FileRecord → ℤ → ℤ
filter_total f [] total = total
filter_total f (rec ∷ records) total =
    filter_total f records (if matched f rec then int64 (total +ℤ rec.size) else total)

abbrev pub root_item : Text → ℤ → Item
root_item name size = record {
  name = name ++ slash ∷ [];
  href = codes "/http/" ++ name ++ slash ∷ [];
  size = size;
  is_dir = true;
  mime = [];
}

unfoldable pub root_items : List Filter → List FileRecord → List Item
unfolding total_size filter_total
root_items filters records =
    root_item all_mount (total_size records (pos 0))
    ∷ map (λ f. root_item (trim_prefix f.mount (slash ∷ [])) (filter_total f records (pos 0)))
        filters

-- What the page shows, before it is sorted.
unfoldable pub page_items : List Filter → View → (raw : Text) → List FileRecord → List Item
unfolding gather items_of root_items
page_items filters v raw records =
    if is_empty raw
    then root_items filters records
    else items_of (gather v records (record { dir_map = []; dir_order = []; files = [] }))

pub data Browsed : Type 0 where
  failed : Browsed
  streamed : FileRecord → Browsed
  page : List Item → Browsed

-- `handleHTTP`; `find` and `list` are the calls of GetFileByPath and ListDir.
unfoldable pub handle_http :
    List Filter
    → List (Text × Filter)
    → (find : Text → Result Text (Option FileRecord))
    → (list : Text → Result Text (List FileRecord)) → (path : Text) → Browsed
unfolding raw_virtual_path view_of page_items
handle_http filters mounts find list path =
    let raw = raw_virtual_path path in
    let v = view_of mounts raw in
    elim (find v.virtual_path) [
      | err e ↦ failed
      | ok (some file) ↦ streamed file
      | ok none ↦ elim (list v.virtual_path) [
        | err e ↦ failed
        | ok records ↦ page (page_items filters v raw (filtered v.filter records))
      ]
    ]
