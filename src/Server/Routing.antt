-- ===== src/Server/Routing.antt =====
-- The dispatch of requests in internal/server/server.go, and the path of the store that the handlers
-- of get.go and propfind.go take from a request's path.
pub mod Mounts
mod Tests
use warpbox_custom.Prelude.{
  Bool, true, false, Option, none, some, List, [], ◌∷◌, ◌++◌, Text, codes, slash, cut, trim_prefix,
  has_prefix, after, text_eq, if◌then◌else◌, lookup, text_eq_instance,
}
use warpbox_custom.Library.{Filter}

abbrev pub webdav_root : Text
webdav_root = codes "/webdav"

abbrev pub all_mount : Text
all_mount = codes "__all__"

unfoldable pub virtual_path_name : Text → Text
virtual_path_name path =
    let p = trim_prefix (trim_prefix path webdav_root) (slash ∷ []) in
    elim (cut slash p) [ none ↦ p | some (name, rest) ↦ name ]

-- Which handler a method is given to; the last is the reply "Method not allowed".
pub data Target : Type 0 where
  get_handler head_handler options_handler propfind_handler method_not_allowed : Target

unfoldable pub target_of : Text → Target
target_of method =
    if text_eq method (codes "GET")
    then get_handler
    else if text_eq method (codes "HEAD")
    then head_handler
    else if text_eq method (codes "OPTIONS")
    then options_handler
    else if text_eq method (codes "PROPFIND")
    then propfind_handler
    else method_not_allowed

-- The request that a handler gets: its path, and what its context holds.
pub record Routed : Type 0 where
  pub path : Text
  pub mount_root : Text
  pub filter : Option Filter
  pub target : Target

-- The path in which the first "/infuse" is replaced if the path starts with it.
unfoldable pub rewrite_infuse : Text → Text
rewrite_infuse path =
    if has_prefix path (codes "/infuse") then webdav_root ++ after path (codes "/infuse") else path

-- The mount root, empty if there is none, and the filter of a virtual path's name.
unfoldable pub mount_of : List (Text × Filter) → Text → Text × Option Filter
mount_of mounts name =
    if text_eq name all_mount
    then (webdav_root ++ codes "/__all__", none)
    else elim (lookup name mounts) [
      | some f ↦ (webdav_root ++ slash ∷ name, some f)
      | none ↦ ([], none)
    ]

unfoldable pub handle_webdav : List (Text × Filter) → (path method : Text) → Routed
unfolding rewrite_infuse virtual_path_name mount_of target_of
handle_webdav mounts path method =
    let path' = rewrite_infuse path in
    let (mount_root, filter) = mount_of mounts (virtual_path_name path') in
    record { path = path'; mount_root = mount_root; filter = filter; target = target_of method }

-- `rootForRequest`
unfoldable pub root_for_request : Routed → Text
root_for_request r = elim r.mount_root [ [] ↦ webdav_root | ◌∷◌ c root ↦ c ∷ root ]

-- The path of the store, as handleGet and handleHead compute it; handlePropfind trims the slashes at
-- the end of the path first.
unfoldable pub store_path : Routed → Text
unfolding root_for_request
store_path r = trim_prefix (trim_prefix r.path (root_for_request r)) (slash ∷ [])
