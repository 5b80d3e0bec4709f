-- ===== src/Metadata/Sync/Hooks/Tests.antt =====
-- A sync that adds an item and removes one.
use warpbox_custom.Prelude.{insert, lookup, ◌≡◌, refl, true, [], ◌∷◌, ok, codes}
use warpbox_custom.Metadata.{source_torrent, source_usenet}
use warpbox_custom.Metadata.Sync.Hooks.{
  ItemDir, Order, Hooks, dirs_by_key, missing_from, fire_change_hooks, detect_changes,
}
use warpbox_custom.Metadata.Sync.Hooks.Told.{Visits}

abbrev film : ItemDir
film = record { key = record { item_id = 1; source = source_torrent }; dir = codes "film" }

abbrev series : ItemDir
series = record { key = record { item_id = 1; source = source_usenet }; dir = codes "series" }

abbrev album : ItemDir
album = record { key = record { item_id = 2; source = source_torrent }; dir = codes "album" }

abbrev both : Hooks
both = record { on_items_added = true; on_items_removed = true }

abbrev in_order : Order
in_order m = m

in_order-Visits : Visits in_order
in_order-Visits m x = (λ h. h, λ h. h)

album_added :
    (detect_changes both in_order in_order (film ∷ series ∷ []) (ok (series ∷ album ∷ []))).added
    ≡ codes "album" ∷ []
unfolding detect_changes fire_change_hooks dirs_by_key missing_from insert lookup
album_added = refl
