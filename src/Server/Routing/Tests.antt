-- ===== src/Server/Routing/Tests.antt =====
-- The routing of a path below a virtual path.
use warpbox_custom.Prelude.{
  ◌≡◌, refl, true, none, some, [], ◌∷◌, List, Text, codes, text_eq, lookup, cut, trim_prefix,
}
use warpbox_custom.Library.{Filter}
use warpbox_custom.Server.Routing.{handle_webdav, store_path}

abbrev movies : Filter
movies = record {
  mount = codes "movies";
  directory_include = none;
  directory_exclude = none;
  file_regex = none;
  largest_file_only = true;
}

abbrev mounts : List (Text × Filter)
mounts = (codes "movies", movies) ∷ []

infuse_filter : (handle_webdav mounts (codes "/infuse/movies/a") (codes "GET")).filter ≡ some movies
unfolding handle_webdav text_eq lookup cut trim_prefix
infuse_filter = refl

infuse_path : store_path (handle_webdav mounts (codes "/infuse/movies/a") (codes "GET")) ≡ codes "a"
unfolding store_path handle_webdav text_eq lookup cut trim_prefix
infuse_path = refl
