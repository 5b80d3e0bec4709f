-- ===== src/Metadata/Sync/Changes/Tests.antt =====
-- A cycle in which the torrents fail: their film is removed, and its Usenet copy added.
use warpbox_custom.Prelude.{◌≡◌, refl, true, none, [], ◌∷◌, ok, err, codes, text_eq, cut}
use warpbox_custom.Metadata.Samples.{item, worker, old_row, gone_row, usenet_row}
use warpbox_custom.Metadata.Store.{find_path}
use warpbox_custom.Metadata.Sync.View.{no_errors}
use warpbox_custom.Metadata.Sync.{sync_once}
use warpbox_custom.Metadata.Sync.Hooks.{Hooks, Order}
use warpbox_custom.Metadata.Sync.Hooks.Told.{Visits}
use warpbox_custom.Metadata.Sync.Changes.{sync_cycle, RowsTell, sync_cycle-RowsTell}

abbrev both : Hooks
both = record { on_items_added = true; on_items_removed = true }

abbrev in_order : Order
in_order m = m

in_order-Visits : Visits in_order
in_order-Visits m x = (λ h. h, λ h. h)

rows_after :
    (sync_once none no_errors 9 (err (codes "502")) (ok (item ∷ [])) worker).store.files
    ≡ usenet_row ∷ []
unfolding sync_once find_path text_eq cut
rows_after = refl

sync_cycle-RowsTell_example :
    RowsTell
      (old_row ∷ gone_row ∷ [])
      (usenet_row ∷ [])
      (sync_cycle both in_order in_order none none none no_errors 9
        (err (codes "502"))
        (ok (item ∷ []))
        worker).1.added
    × RowsTell
        (usenet_row ∷ [])
        (old_row ∷ gone_row ∷ [])
        (sync_cycle both in_order in_order none none none no_errors 9
          (err (codes "502"))
          (ok (item ∷ []))
          worker).1.removed
sync_cycle-RowsTell_example =
    sync_cycle-RowsTell both in_order in_order no_errors 9 (err (codes "502")) (ok (item ∷ []))
      worker old_row usenet_row (gone_row ∷ []) [] refl refl in_order-Visits in_order-Visits refl
      rows_after
