-- ===== src/Server/Listing/Tests.antt =====
-- The listing of a directory with a file and a directory in it.
use warpbox_custom.Prelude.{
  ◌≡◌, refl, sym, subst, arith, none, some, [], ◌∷◌, List, Text, codes, pos, inl, inr, text_eq,
  Result, ok, trim_right, has_prefix, trim_prefix, cut,
}
use mathlib.Core.List.{Memᴰ}
use mathlib.Core.List.Memᴰ
use warpbox_custom.Metadata.{FileRecord, zero_record}
use warpbox_custom.Server.Routing.{
  Routed, handle_webdav, root_for_request, store_path, all_mount, propfind_handler,
}
use warpbox_custom.Server.Links.{Follows, is_plain}
use warpbox_custom.Server.Listing.{Response, rel_path}
use warpbox_custom.Server.Listing.Entries.{Dated}
use warpbox_custom.Server.Listing.Children.{child_href, child_name, nested}
use warpbox_custom.Server.Listing.Directory.{Directory, Visits, propfind_children}
use warpbox_custom.Server.Listing.Follow.{child_href-store_path, view_path, IsMount}
use warpbox_custom.Server.Listing.Handlers.{
  Site, multi_status, handle_propfind, prefix_below, normalised, dir_href,
}

abbrev episode : FileRecord
episode = record zero_record {
  name = codes "e1.mkv";
  path = codes "Show/e1.mkv";
  size = pos 9;
  created_at = codes "2026-01-02T03:04:05Z";
}

abbrev extra : FileRecord
extra = record zero_record { name = codes "x.mkv"; path = codes "Show/Extras/x.mkv"; size = pos 7 }

abbrev shows : List FileRecord
shows = episode ∷ extra ∷ []

abbrev site : Site
site = record {
  virtual_filters = [];
  clock = record { parse = λ t. none; now = λ k. codes "now" };
  visits = λ m. m;
}

abbrev rows : Text → Result Text (List FileRecord)
rows prefix = ok shows

abbrev request : Routed
request = record {
  path = codes "/webdav/__all__/Show/";
  mount_root = codes "/webdav/__all__";
  filter = none;
  target = propfind_handler;
}

site-Visits : Visits site.visits
site-Visits m x = (λ h. h, λ h. h)

shows-Dated : (rec : FileRecord) → Memᴰ rec shows → Dated rec.created_at
shows-Dated rec (Memᴰ.head e) =
    subst (λ (r : FileRecord). Dated r.created_at) (sym e) (inr (omega arith))
shows-Dated rec (Memᴰ.tail (Memᴰ.head e)) =
    subst (λ (r : FileRecord). Dated r.created_at) (sym e) (inl refl)
shows-Dated rec (Memᴰ.tail (Memᴰ.tail m)) = absurd (Memᴰ.not-nil m)

propfind_children_example :
    (rs : List Response) × (handle_propfind site rows request (codes "1") ≡ some (multi_status rs))
    × Directory
        (normalised request.path)
        (prefix_below (root_for_request request) (normalised request.path))
        shows
        rs
unfolding text_eq prefix_below normalised trim_right root_for_request trim_prefix has_prefix
propfind_children_example =
    propfind_children site rows request (codes "1") shows site-Visits refl refl refl shows-Dated

all-IsMount : IsMount [] all_mount
all-IsMount = ((refl, (refl, (refl, (refl, (refl, (refl, (refl, tt))))))), refl, inl refl)

-- A client of a server whose hrefs are all plain.
abbrev as_written : Text → Text
as_written href = href

as_written-Follows : Follows as_written
as_written-Follows = record { plain = λ href h. refl }

child_href-store_path_example :
    let path =
      as_written
        (child_href (dir_href (view_path all_mount (codes "Show"))) (codes "Show") episode) in
    (store_path (handle_webdav [] path (codes "GET")) ≡ codes "Show/e1.mkv")
    × (store_path (handle_webdav [] path (codes "HEAD")) ≡ codes "Show/e1.mkv")
unfolding trim_right child_href dir_href is_plain child_name nested rel_path trim_prefix has_prefix
    cut
child_href-store_path_example =
    child_href-store_path [] all_mount all-IsMount as_written (codes "Show") (codes "e1.mkv")
      episode as_written-Follows refl ((refl, (refl, (refl, (refl, (refl, (refl, tt)))))), refl)
      refl refl
