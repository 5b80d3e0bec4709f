-- ===== src/Server/Listing/Handlers.antt =====
-- `handlePropfind` of internal/server/propfind.go and `serveDirListing` of get.go.
use warpbox_custom.Prelude.{
  Bool, not, ◌&&◌, ◌||◌, Option, none, some, List, [], ◌∷◌, ◌++◌, Text, codes, slash, if◌then◌else◌,
  trim_prefix, trim_right, is_empty, text_eq, Result, ok, err,
}
use warpbox_custom.Metadata.{FileRecord}
use warpbox_custom.Library.{Filter, apply}
use warpbox_custom.Server.Routing.{Routed, root_for_request, webdav_root}
use warpbox_custom.Server.Listing.{
  Clock, Response, Listed, ChildInfo, append_response, append_directory, append_children,
  append_mounts, children,
}

-- What the server is set up with: the virtual paths, the clock, and the order of the visits.
pub record Site : Type 0 where
  pub virtual_filters : List Filter
  pub clock : Clock
  pub visits : List (Text × ChildInfo) → List (Text × ChildInfo)

-- The href with one slash at its end: `dirHref` and `baseHref`, which agree on a normalised path.
unfoldable pub dir_href : Text → Text
dir_href path = trim_right slash path ++ slash ∷ []

abbrev pub is_deep : Text → Bool
is_deep depth = text_eq depth (codes "1") || text_eq depth (codes "infinity")

-- The entries of a listing; `at_root` says whether the virtual paths are shown.
unfoldable pub entries :
    Site
    → (dir_time : FileRecord → Text) → (path prefix depth : Text) → (at_root : Bool)
    → List FileRecord
    → Option Listed
unfolding append_response append_children append_mounts children dir_href
entries site dir_time path prefix depth at_root records =
    elim (append_directory site.clock (dir_href path) [] (record { responses = []; seen = [] })) [
      | none ↦ none
      | some self ↦
          if not (is_deep depth)
          then some self
          else if at_root
          then elim (append_directory site.clock (dir_href path ++ codes "__all__/") [] self) [
            | none ↦ none
            | some l ↦ append_mounts site.clock (dir_href path) site.virtual_filters l
          ]
          else append_children site.clock (dir_href path)
              (site.visits (children dir_time prefix records [])) self
    ]

pub data Page : Type 0 where
  internal_error : Page
  multi_status : List Response → Page

abbrev pub page_of : Option Listed → Option Page
page_of none = none
page_of (some l) = some (multi_status l.responses)

-- The path without slashes at its end, or "/".
unfoldable pub normalised : Text → Text
normalised path = elim (trim_right slash path) [ [] ↦ slash ∷ [] | ◌∷◌ c s ↦ c ∷ s ]

abbrev pub filtered : Option Filter → List FileRecord → List FileRecord
filtered none records = records
filtered (some f) records = apply f records

-- The prefix in the store of a path below a root.
unfoldable pub prefix_below : (root path : Text) → Text
prefix_below root path = trim_prefix (trim_prefix path root) (slash ∷ [])

abbrev pub depth_or_one : Text → Text
depth_or_one [] = codes "1"
depth_or_one (c ∷ depth) = c ∷ depth

-- `handlePropfind`; `list` is the call of ListDir. A directory has the time of its first file.
unfoldable pub handle_propfind :
    Site → (list : Text → Result Text (List FileRecord)) → Routed → (depth : Text) → Option Page
unfolding entries normalised prefix_below
handle_propfind site list r depth =
    let path = normalised r.path in
    let prefix = prefix_below (root_for_request r) path in
    elim (list prefix) [
      | err e ↦ some internal_error
      | ok records ↦ page_of (
          entries site (λ rec. rec.created_at) path prefix (depth_or_one depth)
            (is_empty prefix && is_empty r.mount_root) (filtered r.filter records))
    ]

-- `serveDirListing`. A directory has no time.
unfoldable pub serve_dir_listing :
    Site
    → (list : Text → Result Text (List FileRecord)) → (req_path depth : Text) → Option Filter
    → (root : Text) → Option Page
unfolding entries normalised prefix_below
serve_dir_listing site list req_path depth filter root =
    let path = normalised req_path in
    let prefix = prefix_below root path in
    elim (list prefix) [
      | err e ↦ some internal_error
      | ok records ↦ page_of (
          entries site (λ rec. []) path prefix depth (is_empty prefix && text_eq root webdav_root)
            (filtered filter records))
    ]
