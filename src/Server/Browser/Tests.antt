-- ===== src/Server/Browser/Tests.antt =====
-- The page of a directory that holds a file and a directory of two files.
use warpbox_custom.Prelude.{
  ◌≡◌, refl, Bool, sym, subst, false, none, some, [], ◌∷◌, List, Text, codes, slash, pos, neg_part,
  All, Option, Result, ok, arith, is_empty, trim_right, has_prefix, trim_prefix, cut, inl,
}
use mathlib.Core.List.{Memᴰ}
use mathlib.Core.List.Memᴰ
use mathlib.Core.List.Permᴰ
use warpbox_custom.Metadata.{FileRecord, zero_record}
use warpbox_custom.Server.Links.{is_plain}
use warpbox_custom.Server.Routing.{all_mount}
use warpbox_custom.Server.Browser.{
  View, Item, page_items, handle_http, streamed, gather, gather_step, items_of,
}
use warpbox_custom.Server.Browser.Page.{by_name, ordered_rows}
use warpbox_custom.Server.Browser.Resolve.{page_items-streamed}
use warpbox_custom.Server.Browser.Dirs.{shown_sum}
use warpbox_custom.Server.Browser.Sizes.{page_items-sum, stored_sum}

abbrev film : FileRecord
film = record zero_record { path = codes "Film/a.mkv"; size = pos 100 }

abbrev subtitles : FileRecord
subtitles = record zero_record { path = codes "Film/Subs/en.srt"; size = pos 3 }

abbrev more : FileRecord
more = record zero_record { path = codes "Film/Subs/de.srt"; size = pos 4 }

abbrev rows : List FileRecord
rows = film ∷ subtitles ∷ more ∷ []

abbrev film_view : View
film_view = record { virtual_path = codes "Film"; filter = none; mount_prefix = codes "/__all__" }

abbrev film_item : Item
film_item = record {
  name = codes "a.mkv";
  href = codes "/http/__all__/Film/a.mkv";
  size = pos 100;
  is_dir = false;
  mime = codes "application/octet-stream";
}

-- A sort of entries that are in order.
abbrev as_given : (Item → Item → Bool) → List Item → List Item
as_given before l = l

page_items-sum_example :
    let shown =
      ordered_rows as_given 0
        (record { field = by_name; desc = false })
        (page_items [] film_view (codes "__all__/Film") rows) in
    All (λ item. neg_part item.size ≡ 0) shown × (shown_sum shown ≡ stored_sum rows)
unfolding stored_sum
page_items-sum_example =
    page_items-sum as_given 0 by_name [] film_view (codes "__all__/Film") rows
      (λ before l. Permᴰ.refl l) refl (refl, (refl, (refl, tt))) (omega arith)

-- The one row that is listed.
abbrev found : Text → Result Text (Option FileRecord)
found path = ok (some film)

film-found :
    (rec : FileRecord)
    → Memᴰ rec (film ∷ [])
    → (found rec.path ≡ ok (some rec))
      × (is_empty rec.path ≡ false)
      × (trim_right slash rec.path ≡ rec.path)
unfolding trim_right
film-found rec (Memᴰ.head e) =
    subst
      (λ (r : FileRecord).
        (found r.path ≡ ok (some r))
        × (is_empty r.path ≡ false)
        × (trim_right slash r.path ≡ r.path))
      (sym e) (refl, refl, refl)
film-found rec (Memᴰ.tail h) = absurd (Memᴰ.not-nil h)

film_shown : Memᴰ film_item (page_items [] film_view (codes "__all__/Film") (film ∷ []))
unfolding page_items gather gather_step items_of has_prefix trim_prefix cut
film_shown = Memᴰ.head refl

page_items-streamed_example :
    (rec : FileRecord) × Memᴰ rec (film ∷ [])
    × (handle_http [] [] found (λ path. ok []) film_item.href ≡ streamed rec)
    × (film_item.size ≡ rec.size)
unfolding is_plain
page_items-streamed_example =
    page_items-streamed (λ href. href) [] [] all_mount found (λ path. ok []) film_view
      (codes "__all__/Film") (film ∷ []) film_item (record { plain = λ href h. refl })
      ((refl, (refl, (refl, (refl, (refl, (refl, (refl, tt))))))), refl, inl refl) refl refl
      film-found film_shown refl refl
