-- ===== src/Server/Setup.antt =====
-- `buildFilters` and `makeVirtualPathMap` of internal/server/server.go, which set up the virtual
-- paths from the settings. How a regular expression is compiled is an argument.
pub mod Passed
pub mod Served
mod Tests
use warpbox_custom.Prelude.{
  Bool, true, false, List, [], ◌∷◌, ◌++◌, Text, codes, slash, trim_prefix, insert, text_eq_instance,
  Result, ok, err, ◌>>=◌,
}
use warpbox_custom.Library.{Filter, Regexp, new_filter}
use warpbox_custom.Settings.{VirtualPath}

abbrev pub filter_of : (Text → Result Text Regexp) → VirtualPath → Result Text Filter
filter_of compile vp =
    new_filter compile (slash ∷ vp.name) vp.directory_include vp.directory_exclude vp.file_regex
      vp.largest_file_only

-- The first error ends the loop.
unfoldable pub build_filters :
    (Text → Result Text Regexp) → List VirtualPath → Result Text (List Filter)
build_filters compile [] = ok []
build_filters compile (vp ∷ paths) = elim (filter_of compile vp) [
  | err e ↦ err (codes "building filter for " ++ vp.name ++ codes ": " ++ e)
  | ok f ↦ elim (build_filters compile paths) [ err e ↦ err e | ok filters ↦ ok (f ∷ filters) ]
]

-- The loop of `makeVirtualPathMap`: a later path takes the place of an earlier one.
unfoldable pub map_paths : List Filter → List (Text × Filter) → List (Text × Filter)
map_paths [] m = m
map_paths (f ∷ filters) m = map_paths filters (insert (trim_prefix f.mount (slash ∷ [])) f m)

unfoldable pub make_virtual_path_map : List Filter → List (Text × Filter)
unfolding map_paths
make_virtual_path_map filters = map_paths filters []
