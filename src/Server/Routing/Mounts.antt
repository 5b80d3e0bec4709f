-- ===== src/Server/Routing/Mounts.antt =====
-- The view that a path is routed to.
use warpbox_custom.Prelude.{
  ◌≡◌, refl, ap, ◌∙◌, false, Option, none, some, List, [], ◌∷◌, ◌++◌, Text, codes, slash,
  trim_prefix, has_prefix, text_eq, lookup, text_eq_instance, Lacks, cut-append, trim_prefix-append,
}
use warpbox_custom.Library.{Filter}
use warpbox_custom.Server.Routing.{
  handle_webdav, mount_of, rewrite_infuse, root_for_request, store_path, target_of,
  virtual_path_name, webdav_root, all_mount,
}

trim_root : (p : Text) → trim_prefix (webdav_root ++ p) webdav_root ≡ p
trim_root p = trim_prefix-append webdav_root p

pub trim_slash : (p : Text) → trim_prefix (slash ∷ p) (slash ∷ []) ≡ p
trim_slash p = trim_prefix-append (slash ∷ []) p

pub virtual_path_name-mount :
    (name rest : Text)
    → Lacks slash name
    → virtual_path_name (webdav_root ++ slash ∷ (name ++ slash ∷ rest)) ≡ name
unfolding virtual_path_name
virtual_path_name-mount name rest l =
    rw
      (
        virtual_path_name,
        trim_root (slash ∷ (name ++ slash ∷ rest)),
        trim_slash (name ++ slash ∷ rest),
        cut-append slash name rest l,
      )
      refl

-- A path that starts with the root is not rewritten.
rewrite_infuse-root : (p : Text) → rewrite_infuse (webdav_root ++ p) ≡ webdav_root ++ p
unfolding rewrite_infuse has_prefix
rewrite_infuse-root p = refl

-- What is routed to a mount root that a path starts with: the rest is the path of the store.
pub routed-mount :
    (mounts : List (Text × Filter)) (name rest method : Text) (o : Option Filter)
    → mount_of mounts (virtual_path_name (webdav_root ++ slash ∷ (name ++ slash ∷ rest)))
      ≡ (webdav_root ++ slash ∷ name, o)
    → ((handle_webdav mounts (webdav_root ++ slash ∷ (name ++ slash ∷ rest)) method).filter ≡ o)
      × (store_path (handle_webdav mounts (webdav_root ++ slash ∷ (name ++ slash ∷ rest)) method)
          ≡ rest)
unfolding handle_webdav store_path root_for_request rewrite_infuse has_prefix
routed-mount mounts name rest method o e = (
  ap (λ x. x.1) e,
  ap
        (λ x.
          trim_prefix
            (trim_prefix (webdav_root ++ slash ∷ (name ++ slash ∷ rest)) (
              root_for_request
                (record { path = []; mount_root = x.0; filter = none; target = target_of method })))
            (slash ∷ []))
        e
      ∙ ap (λ q. trim_prefix q (slash ∷ []))
          (trim_prefix-append (webdav_root ++ slash ∷ name) (slash ∷ rest))
      ∙ trim_slash rest,
)

-- A path below a registered virtual path, whose name has no slash and is not "__all__", is handled
-- with its filter, and for GET and HEAD stands in the store at the rest of the path; below "/infuse" in place of
-- "/webdav", it is handled in the same way.
pub store_path-mount :
    (mounts : List (Text × Filter)) (name rest method : Text) (f : Filter)
    → Lacks slash name
    → text_eq name all_mount ≡ false
    → lookup name mounts ≡ some f
    → ((handle_webdav mounts (webdav_root ++ slash ∷ (name ++ slash ∷ rest)) method).filter
        ≡ some f)
      × (store_path (handle_webdav mounts (webdav_root ++ slash ∷ (name ++ slash ∷ rest)) method)
          ≡ rest)
      × (handle_webdav mounts (codes "/infuse" ++ slash ∷ (name ++ slash ∷ rest)) method
          ≡ handle_webdav mounts (webdav_root ++ slash ∷ (name ++ slash ∷ rest)) method)
unfolding mount_of handle_webdav rewrite_infuse has_prefix
store_path-mount mounts name rest method f l other known =
    let (with_filter, path) =
      routed-mount mounts name rest method (some f)
        (ap (mount_of mounts) (virtual_path_name-mount name rest l) ∙ rw (other, known) refl) in
    (with_filter, path, refl)

-- Below "__all__", whatever the virtual paths are, a path is handled without a filter, and for GET
-- and HEAD stands in the store at its rest.
store_path-all :
    (mounts : List (Text × Filter)) (rest method : Text)
    → ((handle_webdav mounts (webdav_root ++ slash ∷ (all_mount ++ slash ∷ rest)) method).filter
        ≡ none)
      × (store_path
            (handle_webdav mounts (webdav_root ++ slash ∷ (all_mount ++ slash ∷ rest)) method)
          ≡ rest)
unfolding mount_of text_eq
store_path-all mounts rest method = routed-mount mounts all_mount rest method none (
    ap (mount_of mounts) (
      virtual_path_name-mount all_mount rest
        (refl, (refl, (refl, (refl, (refl, (refl, (refl, tt)))))))))
