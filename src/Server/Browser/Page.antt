-- ===== src/Server/Browser/Page.antt =====
-- The page of a directory in handleHTTP of internal/server/http_browser.go: the trail of links, the
-- sort, and the rows. What the library's sort does with a comparison, how a size is
-- written and the capacity of an array are arguments.
mod Tests
use warpbox_custom.Prelude.{
  Bool, true, false, not, ◌&&◌, List, [], ◌∷◌, ◌++◌, map, Text, codes, slash, if◌then◌else◌,
  trim_prefix, has_prefix, trim_right, is_empty, text_eq, to_lower, keep, ℤ, pos, ltb_ℤ, eqb_ℤ, ltb,
  ◌==◌, suc, set, leb, length, ℕ,
}
use warpbox_custom.Metadata.Sync.{split}
use warpbox_custom.Server.Browser.{Item}

-- `breadcrumb`
pub record Breadcrumb : Type 0 where
  pub name : Text
  pub href : Text

abbrev pub crumb_of : (accum p : Text) → Breadcrumb
crumb_of accum p = record { name = p; href = codes "/http" ++ accum ++ slash ∷ [] }

abbrev pub root_crumb : Breadcrumb
root_crumb = record { name = codes "root"; href = codes "/http/" }

-- The loop over the parts of the path; `accum` is the path of the parts before.
unfoldable pub crumb_loop : (accum : Text) → List Text → List Breadcrumb
crumb_loop accum [] = []
crumb_loop accum (p ∷ parts) =
    let skipped = crumb_loop accum parts in
    let below = accum ++ slash ∷ p in
    let kept = crumb_of below p ∷ crumb_loop below parts in if is_empty p then skipped else kept

unfoldable pub breadcrumbs : (raw : Text) → List Breadcrumb
unfolding crumb_loop split
breadcrumbs raw = root_crumb ∷ crumb_loop [] (split slash raw)

pub data SortField : Type 0 where
  by_name by_size by_type : SortField

pub record Sort : Type 0 where
  pub field : SortField
  pub desc : Bool

-- The field of the parameter: a text that names none is the name.
abbrev field_of : Text → SortField
field_of s =
    if text_eq s (codes "size")
    then by_size
    else if text_eq s (codes "type")
    then by_type
    else by_name

-- `sortField` and `sortDesc`
unfoldable pub parse_sort : Text → Sort
unfolding to_lower has_prefix trim_prefix text_eq
parse_sort query =
    let raw = to_lower query in
    record { field = field_of (trim_prefix raw (codes "-")); desc = has_prefix raw (codes "-") }

abbrev pub field_name : SortField → Text
field_name by_name = codes "name"
field_name by_size = codes "size"
field_name by_type = codes "type"

abbrev pub field_same : SortField → SortField → Bool
field_same by_name by_name = true
field_same by_size by_size = true
field_same by_type by_type = true
field_same _ _ = false

-- `next`: the parameter that the heading of a field links to, behind "sort=".
unfoldable pub next : Sort → SortField → Text
next s field =
    if field_same s.field field && not s.desc then b'-' ∷ field_name field else field_name field

-- `<` on strings.
unfoldable pub text_less : Text → Text → Bool
text_less a [] = false
text_less [] (y ∷ b) = true
text_less (x ∷ a) (y ∷ b) = let rest = text_less a b in if x == y then rest else ltb x y

-- The comparison before it is reversed.
unfoldable pub less : SortField → Item → Item → Bool
unfolding text_less
less by_size a b =
    if not (eqb_ℤ a.size b.size) then ltb_ℤ a.size b.size else text_less a.name b.name
less by_type a b =
    if not (same a.is_dir b.is_dir)
    then a.is_dir
    else if a.is_dir
    then text_less a.name b.name
    else text_less a.mime b.mime
  where
    same : Bool → Bool → Bool
    same true b = b
    same false b = not b
less by_name a b = text_less a.name b.name

-- What `sort.Slice` is called with.
unfoldable pub comes_before : Sort → Item → Item → Bool
unfolding less
comes_before s a b = let l = less s.field a b in if s.desc then not l else l

-- The loop that splits the items when the slice `dirs` still has their array: `n` slots are written,
-- `done` are those before the current one.
unfoldable pub split_shared : (n : ℕ) (done : List Item) → List Item → List Item
split_shared n done [] = done
split_shared n done (it ∷ todo) =
    let dir = split_shared (suc n) (set (done ++ it ∷ []) n it) todo in
    let file = split_shared n (done ++ it ∷ []) todo in if it.is_dir then dir else file

abbrev pub dirs_of : List Item → List Item
dirs_of = keep λ it. it.is_dir

abbrev pub files_of : List Item → List Item
files_of = keep λ it. not it.is_dir

-- The rows in their order. `append` puts the items into the array of `dirs` if its unused capacity,
-- `spare`, suffices for the files; for the type in descending order, the rows are read from there
-- after the split.
unfoldable pub ordered_rows :
    (sort : (Item → Item → Bool) → List Item → List Item)
    → (spare : ℕ) → Sort
    → List Item
    → List Item
unfolding comes_before split_shared
ordered_rows sort spare s items =
    let all = sort (comes_before s) items in
    if field_same s.field by_type && s.desc
    then if leb (length (files_of items)) spare then split_shared 0 [] all else all
    else dirs_of all ++ files_of all

pub record Row : Type 0 where
  pub href : Text
  pub name : Text
  pub size : Text
  pub kind : Text

-- A dash stands for the size 0: of a directory, and of a file where files stand before directories.
unfoldable pub row_of : (format_size : ℤ → Text) → Sort → Item → Row
row_of format_size s it = record {
  href = it.href;
  name = it.name;
  size =
      if eqb_ℤ it.size (pos 0) && (if it.is_dir then true else field_same s.field by_type && s.desc)
      then codes "—"
      else format_size it.size;
  kind = if it.is_dir then codes "directory" else it.mime;
}

unfoldable pub page_rows :
    (sort : (Item → Item → Bool) → List Item → List Item)
    → (spare : ℕ) → (format_size : ℤ → Text) → (query : Text) → List Item
    → List Row
unfolding parse_sort ordered_rows row_of
page_rows sort spare format_size query items =
    let s = parse_sort query in map (row_of format_size s) (ordered_rows sort spare s items)
