-- ===== src/Server/Listing.antt =====
-- The directory listings of internal/server/propfind.go, and `serveDirListing` of get.go. The times
-- and the order in which Go visits the entries of a map are arguments; the XML is left out.
pub mod Handlers
pub mod Entries
pub mod Children
pub mod Shown
pub mod Directory
pub mod Follow
mod Tests
use warpbox_custom.Prelude.{
  ℕ, Bool, true, false, not, ◌&&◌, ◌||◌, Option, none, some, List, [], ◌∷◌, ◌++◌, Text, codes,
  slash, ltb, if◌then◌else◌, length, take, cut, trim_prefix, trim_right, is_empty, text_eq,
  text_eq_instance, lookup, insert, Result, ok, err, ℤ, pos, ◌==◌,
}
use warpbox_custom.Metadata.{FileRecord}
use warpbox_custom.Library.{Filter, apply}
use warpbox_custom.Server.Routing.{Routed, root_for_request, webdav_root}

-- What a text means as a time, as an HTTP date, and the date of now at an entry.
pub record Clock : Type 0 where
  pub parse : Text → Option Text
  pub now : ℕ → Text

-- The date of a text's first 19 characters, or the date of now.
abbrev pub parsed_or_now : Clock → ℕ → Text → Text
parsed_or_now clock k created_at = elim (clock.parse (take 19 created_at)) [
  | none ↦ clock.now k
  | some t ↦ t
]

-- `none` stands for the panic of `createdAt[:19]` on a shorter text.
unfoldable pub format_last_modified : Clock → ℕ → Text → Option Text
format_last_modified clock k created_at =
    if is_empty created_at
    then some (clock.now k)
    else if ltb (length created_at) 19
    then none
    else some (parsed_or_now clock k created_at)

-- `prop` and `response`; a directory has the resource type "collection". The status is always
-- "HTTP/1.1 200 OK".
pub record Response : Type 0 where
  pub href : Text
  pub display_name : Text
  pub content_length : ℤ
  pub content_type : Text
  pub last_modified : Text
  pub is_collection : Bool

-- `responses` and `seen`.
pub record Listed : Type 0 where
  pub responses : List Response
  pub seen : List Text

unfoldable pub is_listed : Text → List Text → Bool
is_listed href [] = false
is_listed href (h ∷ seen) = text_eq h href || is_listed href seen

-- The text behind the last slash.
unfoldable pub behind_slash : Text → Text
behind_slash [] = []
behind_slash (c ∷ s) =
    let rest = behind_slash s in
    elim (cut slash s) [ none ↦ if c == slash then s else c ∷ s | some parts ↦ rest ]

-- `path.Base`
unfoldable pub base : Text → Text
unfolding behind_slash
base [] = codes "."
base (c ∷ s) = elim (trim_right slash (c ∷ s)) [ [] ↦ slash ∷ [] | ◌∷◌ d t ↦ behind_slash (d ∷ t) ]

unfoldable pub response_for :
    (href : Text) → (is_dir : Bool) → ℤ → (name mime_type modified : Text) → Response
unfolding base
response_for href is_dir size name mime_type modified =
    if is_dir
    then record {
      href = href;
      display_name = base href;
      content_length = pos 0;
      content_type = [];
      last_modified = modified;
      is_collection = true;
    }
    else record {
      href = href;
      display_name = name;
      content_length = size;
      content_type = mime_type;
      last_modified = modified;
      is_collection = false;
    }

-- `appendResponse`
unfoldable pub append_response :
    Clock
    → (href : Text) → (is_dir : Bool) → ℤ
    → (name mime_type created_at : Text) → Listed
    → Option Listed
append_response clock href is_dir size name mime_type created_at l =
    if is_listed href l.seen
    then some l
    else elim (format_last_modified clock (length l.responses) created_at) [
      | none ↦ none
      | some modified ↦ some (record {
        responses = l.responses ++ response_for href is_dir size name mime_type modified ∷ [];
        seen = href ∷ l.seen;
      })
    ]

-- A directory, which has no size, name and type of its own.
abbrev pub append_directory : Clock → (href created_at : Text) → Listed → Option Listed
append_directory clock href created_at l =
    append_response clock href true (pos 0) [] [] created_at l

pub record ChildInfo : Type 0 where
  pub is_dir : Bool
  pub size : ℤ
  pub name : Text
  pub mime : Text
  pub created_at : Text

abbrev pub or_octets : Text → Text
or_octets [] = codes "application/octet-stream"
or_octets (c ∷ mime) = c ∷ mime

-- The path of a record below a prefix.
unfoldable pub rel_path : Text → FileRecord → Text
rel_path prefix rec = trim_prefix (trim_prefix rec.path prefix) (slash ∷ [])

-- What an entry says of a directory that is dated, and of a file.
abbrev pub dir_info : Text → ChildInfo
dir_info created_at = record {
  is_dir = true;
  size = pos 0;
  name = [];
  mime = [];
  created_at = created_at;
}

abbrev pub file_info : FileRecord → ChildInfo
file_info rec = record {
  is_dir = false;
  size = rec.size;
  name = rec.name;
  mime = or_octets rec.mime_type;
  created_at = rec.created_at;
}

-- The first segment of that path, and what an entry for it says if this record makes it.
unfoldable pub child_of : (dir_time : FileRecord → Text) → Text → FileRecord → Text × ChildInfo
unfolding rel_path
child_of dir_time prefix rec = elim (cut slash (rel_path prefix rec)) [
  | some (name, below) ↦ (name, dir_info (dir_time rec))
  | none ↦ (rel_path prefix rec, file_info rec)
]

-- A round of the loop over the records, on `immediate`.
unfoldable pub add_child : Text × ChildInfo → List (Text × ChildInfo) → List (Text × ChildInfo)
add_child (name, info) immediate = elim (lookup name immediate) [
  | some there ↦ immediate
  | none ↦ insert name info immediate
]

unfoldable pub children :
    (dir_time : FileRecord → Text)
    → Text
    → List FileRecord
    → List (Text × ChildInfo)
    → List (Text × ChildInfo)
children dir_time prefix [] immediate = immediate
children dir_time prefix (rec ∷ records) immediate =
    children dir_time prefix records (add_child (child_of dir_time prefix rec) immediate)

-- The entry for a child.
unfoldable pub append_child : Clock → Text → Text × ChildInfo → Listed → Option Listed
append_child clock base_href (name, info) l =
    if info.is_dir
    then append_directory clock (base_href ++ name ++ slash ∷ []) info.created_at l
    else append_response clock (base_href ++ name) false info.size info.name info.mime
        info.created_at l

unfoldable pub append_children : Clock → Text → List (Text × ChildInfo) → Listed → Option Listed
append_children clock base_href [] l = some l
append_children clock base_href (c ∷ cs) l = elim (append_child clock base_href c l) [
  | none ↦ none
  | some l' ↦ append_children clock base_href cs l'
]

-- The entry for a virtual path.
unfoldable pub append_mounts : Clock → Text → List Filter → Listed → Option Listed
append_mounts clock base_href [] l = some l
append_mounts clock base_href (f ∷ filters) l =
    elim (append_directory clock (base_href ++ trim_prefix f.mount (slash ∷ []) ++ slash ∷ []) []
      l) [ none ↦ none | some l' ↦ append_mounts clock base_href filters l' ]
