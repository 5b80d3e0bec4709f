-- ===== src/Server/Listing/Follow.antt =====
-- Where the hrefs of a listing lead.
use warpbox_custom.Prelude.{
  ℕ, is_empty-append, ◌≡◌, refl, sym, ap, ◌∙◌, ◌⊎◌, inl, inr, false, Option, none, some, List, [],
  ◌∷◌, ◌++◌, Text, slash, is_empty, cut, trim_prefix, trim_right, lookup, text_eq, text_eq_instance,
  Lacks, cut-append, cut-Lacks, trim_prefix-append, trim_right-append, trim_right-Lacks,
  trim_right-end, append_assoc, append-nil, has_prefix, codes, true,
}
use warpbox_custom.Metadata.{FileRecord}
use warpbox_custom.Library.{Filter}
use warpbox_custom.Server.Routing.{
  handle_webdav, mount_of, root_for_request, store_path, virtual_path_name, webdav_root, all_mount,
  rewrite_infuse, target_of,
}
use warpbox_custom.Server.Routing.Mounts.{virtual_path_name-mount, routed-mount, trim_slash}
use warpbox_custom.Server.Links.{Follows, is_plain}
use warpbox_custom.Server.Listing.{rel_path}
use warpbox_custom.Server.Listing.Children.{child_href, child_name, nested}
use warpbox_custom.Server.Listing.Handlers.{dir_href, normalised, prefix_below}

-- A name below the root that is routed to a view: that of all files, or a virtual path's.
abbrev pub IsMount : List (Text × Filter) → Text → Type 0
IsMount mounts m =
    Lacks slash m
    × (is_empty m ≡ false)
    × ((m ≡ all_mount)
        ⊎ ((f : Filter) × (text_eq m all_mount ≡ false) × (lookup m mounts ≡ some f)))

-- A path below a directory of the store, of which the empty text is the top.
abbrev pub join : Text → Text → Text
join [] rest = rest
join (c ∷ prefix) rest = (c ∷ prefix) ++ slash ∷ rest

-- The path of a request for a directory of a view.
abbrev pub view_path : Text → Text → Text
view_path m [] = webdav_root ++ slash ∷ m
view_path m (c ∷ prefix) = webdav_root ++ slash ∷ (m ++ slash ∷ (c ∷ prefix))

-- A name in a path.
abbrev pub IsName : Text → Type 0
IsName n = Lacks slash n × (is_empty n ≡ false)

no_slash_first : (n rest : Text) → IsName n → has_prefix (n ++ rest) (slash ∷ []) ≡ false
unfolding has_prefix
no_slash_first [] rest (l, e) = cc
no_slash_first (d ∷ n) rest (l, e) = rw l.0 refl

rel_path-join :
    (prefix n rest : Text) (rec : FileRecord)
    → IsName n
    → rec.path ≡ join prefix (n ++ rest)
    → rel_path prefix rec ≡ n ++ rest
unfolding rel_path trim_prefix has_prefix
rel_path-join [] n rest rec name e = rw (rel_path, e, no_slash_first n rest name) refl
rel_path-join (c ∷ prefix) n rest rec name e =
    rw (rel_path, e)
      (ap (λ p. trim_prefix p (slash ∷ [])) (trim_prefix-append (c ∷ prefix) (slash ∷ (n ++ rest)))
        ∙ trim_slash (n ++ rest))

normalised-trimmed : (p t : Text) → is_empty t ≡ false → trim_right slash p ≡ t → normalised p ≡ t
unfolding normalised
normalised-trimmed p [] full e = cc
normalised-trimmed p (c ∷ t) full e = rw (normalised, e) refl

file_href :
    (base_href prefix : Text) (rec : FileRecord)
    → cut slash (rel_path prefix rec) ≡ none
    → child_href base_href prefix rec ≡ base_href ++ rel_path prefix rec
unfolding child_href child_name nested
file_href base_href prefix rec e = rw (child_href, nested, child_name, e) refl

directory_href :
    (base_href prefix name below : Text) (rec : FileRecord)
    → cut slash (rel_path prefix rec) ≡ some (name, below)
    → child_href base_href prefix rec ≡ base_href ++ name ++ slash ∷ []
unfolding child_href child_name nested
directory_href base_href prefix name below rec e = rw (child_href, nested, child_name, e) refl

module _ (mounts : List (Text × Filter)) (m : Text) (is_mount : IsMount mounts m) where
  mount_of-name :
      (rest : Text)
      → (o : Option Filter) × (mount_of mounts
            (virtual_path_name (webdav_root ++ slash ∷ (m ++ slash ∷ rest)))
          ≡ (webdav_root ++ slash ∷ m, o))
  unfolding mount_of text_eq
  mount_of-name rest = elim is_mount.2 [
    | inl all ↦
        (none, ap (mount_of mounts) (virtual_path_name-mount m rest is_mount.0) ∙ rw all refl)
    | inr (f, other, known) ↦ (
      some f,
      ap (mount_of mounts) (virtual_path_name-mount m rest is_mount.0) ∙ rw (other, known) refl,
    )
  ]

  view_store_path :
      (rest method : Text)
      → store_path (handle_webdav mounts (webdav_root ++ slash ∷ (m ++ slash ∷ rest)) method) ≡ rest
  view_store_path rest method =
      let (o, e) = mount_of-name rest in (routed-mount mounts m rest method o e).1

  view_root :
      (rest method : Text)
      → root_for_request (handle_webdav mounts (webdav_root ++ slash ∷ (m ++ slash ∷ rest)) method)
        ≡ webdav_root ++ slash ∷ m
  unfolding handle_webdav root_for_request rewrite_infuse has_prefix
  view_root rest method =
      let (o, e) = mount_of-name rest in
      ap
        (λ x.
          root_for_request
            (record { path = []; mount_root = x.0; filter = none; target = target_of method }))
        e

  view_path-trimmed :
      (c : ℕ) (prefix : Text)
      → trim_right slash (c ∷ prefix) ≡ c ∷ prefix
      → trim_right slash (view_path m (c ∷ prefix)) ≡ view_path m (c ∷ prefix)
  view_path-trimmed c prefix h =
      trim_right-append slash (webdav_root ++ slash ∷ []) (m ++ slash ∷ c ∷ prefix)
        (is_empty-append m (slash ∷ c ∷ prefix) refl)
        (trim_right-append slash m (slash ∷ c ∷ prefix) refl
          (trim_right-append slash (slash ∷ []) (c ∷ prefix) refl h))

  dir_href-view :
      (prefix : Text)
      → trim_right slash prefix ≡ prefix
      → dir_href (view_path m prefix) ≡ webdav_root ++ slash ∷ (m ++ slash ∷ join prefix [])
  unfolding dir_href
  dir_href-view [] h =
      ap (λ t. t ++ slash ∷ [])
        (trim_right-append slash (webdav_root ++ slash ∷ []) m is_mount.1
          (trim_right-Lacks slash m is_mount.0))
  dir_href-view (c ∷ prefix) h =
      ap (λ t. t ++ slash ∷ []) (view_path-trimmed c prefix h)
      ∙ append_assoc (webdav_root ++ slash ∷ m) (slash ∷ c ∷ prefix) (slash ∷ [])

  join-append : (prefix n : Text) → join prefix [] ++ n ≡ join prefix n
  join-append [] n = refl
  join-append (c ∷ prefix) n = append_assoc (c ∷ prefix) (slash ∷ []) n

  base_lem :
      (prefix n : Text)
      → trim_right slash prefix ≡ prefix
      → dir_href (view_path m prefix) ++ n ≡ webdav_root ++ slash ∷ (m ++ slash ∷ join prefix n)
  base_lem prefix n h =
      ap (λ t. t ++ n) (dir_href-view prefix h)
      ∙ append_assoc (webdav_root ++ slash ∷ m) (slash ∷ join prefix []) n
      ∙ ap (λ t. webdav_root ++ slash ∷ (m ++ slash ∷ t)) (join-append prefix n)

  -- In a listing of a directory of the view of all files, or of a virtual path, where the directory
  -- is the top of the view or ends in no slash: the href of a file whose path is the directory's, a
  -- slash and a name, if it has no character that means something else in a URL, leads to that path
  -- in the store, with GET and with HEAD.
  pub child_href-store_path :
      (request_path : Text → Text) (prefix n : Text) (rec : FileRecord)
      → Follows request_path
      → trim_right slash prefix ≡ prefix
      → IsName n
      → rec.path ≡ join prefix n
      → is_plain (child_href (dir_href (view_path m prefix)) prefix rec) ≡ true
      → let path = request_path (child_href (dir_href (view_path m prefix)) prefix rec) in
        (store_path (handle_webdav mounts path (codes "GET")) ≡ rec.path)
        × (store_path (handle_webdav mounts path (codes "HEAD")) ≡ rec.path)
  child_href-store_path request_path prefix n rec follows h name e plain =
      let rel =
        rel_path-join prefix n [] rec name (e ∙ ap (join prefix) (sym (append-nil n)))
        ∙ append-nil n in
      let href =
        file_href (dir_href (view_path m prefix)) prefix rec
          (ap (cut slash) rel ∙ cut-Lacks slash n name.0)
        ∙ ap (λ t. dir_href (view_path m prefix) ++ t) rel
        ∙ base_lem prefix n h in
      let led = follows.plain _ plain ∙ href in
      (
        ap (λ p. store_path (handle_webdav mounts p (codes "GET"))) led
            ∙ view_store_path (join prefix n) (codes "GET")
            ∙ sym e,
        ap (λ p. store_path (handle_webdav mounts p (codes "HEAD"))) led
            ∙ view_store_path (join prefix n) (codes "HEAD")
            ∙ sym e,
      )

  join-trimmed : (prefix n : Text) → IsName n → trim_right slash (join prefix n) ≡ join prefix n
  join-trimmed [] n name = trim_right-Lacks slash n name.0
  join-trimmed (c ∷ prefix) n name =
      trim_right-append slash (c ∷ prefix) (slash ∷ n) refl
        (trim_right-append slash (slash ∷ []) n name.1 (trim_right-Lacks slash n name.0))

  join_full : (prefix n : Text) → IsName n → is_empty (join prefix n) ≡ false
  join_full [] n name = name.1
  join_full (c ∷ prefix) n name = refl

  normalised-view :
      (prefix n : Text)
      → IsName n
      → normalised (webdav_root ++ slash ∷ (m ++ slash ∷ (join prefix n ++ slash ∷ [])))
        ≡ webdav_root ++ slash ∷ (m ++ slash ∷ join prefix n)
  normalised-view prefix n name =
      normalised-trimmed (webdav_root ++ slash ∷ (m ++ slash ∷ (join prefix n ++ slash ∷ [])))
        (webdav_root ++ slash ∷ (m ++ slash ∷ join prefix n)) refl
        (ap (trim_right slash)
            (sym (append_assoc (webdav_root ++ slash ∷ m) (slash ∷ join prefix n) (slash ∷ [])))
          ∙ trim_right-end slash (webdav_root ++ slash ∷ (m ++ slash ∷ join prefix n))
          ∙ trim_right-append slash (webdav_root ++ slash ∷ []) (m ++ slash ∷ join prefix n)
              (is_empty-append m (slash ∷ join prefix n) refl)
              (trim_right-append slash m (slash ∷ join prefix n) refl (
                trim_right-append slash (slash ∷ []) (join prefix n) (join_full prefix n name)
                  (join-trimmed prefix n name))))

  -- In the same listing, the href of a file that stands deeper, with a further name, a slash and
  -- more behind the directory's path, leads to the directory with that name: a PROPFIND there lists
  -- that prefix of the store.
  child_href-prefix_below :
      (prefix n below : Text) (rec : FileRecord) (method : Text)
      → trim_right slash prefix ≡ prefix
      → IsName n
      → rec.path ≡ join prefix (n ++ slash ∷ below)
      → prefix_below
          (root_for_request
            (handle_webdav mounts (child_href (dir_href (view_path m prefix)) prefix rec) method))
          (normalised
            (handle_webdav mounts
              (child_href (dir_href (view_path m prefix)) prefix rec)
              method).path)
        ≡ join prefix n
  unfolding handle_webdav rewrite_infuse has_prefix prefix_below
  child_href-prefix_below prefix n below rec method h name e =
      let rel = rel_path-join prefix n (slash ∷ below) rec name e in
      let href =
        directory_href (dir_href (view_path m prefix)) prefix n below rec
          (ap (cut slash) rel ∙ cut-append slash n below name.0)
        ∙ ap (λ t. t ++ slash ∷ []) (base_lem prefix n h)
        ∙ append_assoc (webdav_root ++ slash ∷ m) (slash ∷ join prefix n) (slash ∷ []) in
      ap
        (λ p.
          prefix_below (root_for_request (handle_webdav mounts p method))
            (normalised (handle_webdav mounts p method).path))
        href
      ∙ ap
          (λ root.
            prefix_below root
              (normalised (webdav_root ++ slash ∷ (m ++ slash ∷ (join prefix n ++ slash ∷ [])))))
          (view_root (join prefix n ++ slash ∷ []) method)
      ∙ ap (prefix_below (webdav_root ++ slash ∷ m)) (normalised-view prefix n name)
      ∙ ap (λ p. trim_prefix p (slash ∷ []))
          (trim_prefix-append (webdav_root ++ slash ∷ m) (slash ∷ join prefix n))
      ∙ trim_slash (join prefix n)
