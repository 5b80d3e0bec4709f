-- ===== src/Server/Browser/Page/Tests.antt =====
-- A page below a virtual path, and a sort by insertion.
use warpbox_custom.Prelude.{
  ◌≡◌, refl, inl, inr, Bool, true, false, Bool-cases, List, [], ◌∷◌, ◌++◌, Text, codes, pos,
  if◌then◌else◌, All, arith,
}
use mathlib.Core.List.{Permᴰ}
use mathlib.Core.List.Permᴰ
use warpbox_custom.Metadata.Sync.{split}
use warpbox_custom.Server.Browser.{Item, raw_virtual_path}
use warpbox_custom.Server.Browser.Page.{
  by_size, by_type, Breadcrumb, breadcrumbs, crumb_of, root_crumb, crumb_loop, comes_before,
  ordered_rows, less, dirs_of, files_of,
}
use warpbox_custom.Server.Links.{is_plain}
use warpbox_custom.Server.Browser.Trail.{breadcrumbs-raw_virtual_path}
use warpbox_custom.Server.Browser.Lost.{ordered_rows_lost}
use warpbox_custom.Server.Browser.Order.{StrictOrder, Sorted, Grouped, ordered_rows-Grouped}

abbrev raw : Text
raw = codes "films//Film/Subs"

abbrev film_crumb : Breadcrumb
film_crumb = crumb_of (codes "/films/Film") (codes "Film")

raw_trail :
    breadcrumbs raw
    ≡ root_crumb
      ∷ crumb_of (codes "/films") (codes "films")
      ∷ film_crumb
      ∷ crumb_of (codes "/films/Film/Subs") (codes "Subs")
      ∷ []
unfolding breadcrumbs crumb_loop split
raw_trail = refl

breadcrumbs-raw_virtual_path_example :
    breadcrumbs (raw_virtual_path (codes "/http/films/Film/"))
    ≡ root_crumb ∷ crumb_of (codes "/films") (codes "films") ∷ film_crumb ∷ []
unfolding is_plain
breadcrumbs-raw_virtual_path_example =
    breadcrumbs-raw_virtual_path (λ href. href) raw
      (root_crumb ∷ crumb_of (codes "/films") (codes "films") ∷ [])
      (crumb_of (codes "/films/Film/Subs") (codes "Subs") ∷ []) film_crumb
      (record { plain = λ href h. refl }) raw_trail refl

module _ {A : Type 0} (before : A → A → Bool) where
  unfoldable put : A → List A → List A
  put x [] = x ∷ []
  put x (y ∷ l) = let rest = put x l in if before y x then y ∷ rest else x ∷ y ∷ l

  unfoldable insertion_sort : List A → List A
  unfolding put
  insertion_sort [] = []
  insertion_sort (x ∷ l) = put x (insertion_sort l)

  put-Permᴰ : (x : A) (l : List A) → Permᴰ (put x l) (x ∷ l)
  unfolding put
  put-Permᴰ x [] = Permᴰ.refl _
  put-Permᴰ x (y ∷ l) = elim (Bool-cases (before y x)) [
    | inl t ↦ rw (put, t) (Permᴰ.trans (Permᴰ.cons refl (put-Permᴰ x l)) (Permᴰ.swap refl refl))
    | inr f ↦ rw (put, f) (Permᴰ.refl _)
  ]

  sort-Permᴰ : (l : List A) → Permᴰ (insertion_sort l) l
  unfolding insertion_sort
  sort-Permᴰ [] = Permᴰ.nil
  sort-Permᴰ (x ∷ l) = Permᴰ.trans (put-Permᴰ x (insertion_sort l)) (Permᴰ.cons refl (sort-Permᴰ l))

  module _ (o : StrictOrder before) where
    not_before : (x y z : A) → before y x ≡ false → before z y ≡ false → before z x ≡ false
    not_before x y z h h' = elim (Bool-cases (before z x)) [
      | inl t ↦ absurd (cc (o.cotrans z y x t h', h))
      | inr f ↦ f
    ]

    all_not_before :
        (x y : A) (l : List A)
        → before y x ≡ false
        → All (λ z. before z y ≡ false) l
        → All (λ z. before z x ≡ false) l
    all_not_before x y [] h all = tt
    all_not_before x y (z ∷ l) h (h', all) = (not_before x y z h h', all_not_before x y l h all)

    put-All :
        (x y : A) (l : List A)
        → before x y ≡ false
        → All (λ z. before z y ≡ false) l
        → All (λ z. before z y ≡ false) (put x l)
    unfolding put
    put-All x y [] h all = (h, tt)
    put-All x y (z ∷ l) h (h', all) = elim (Bool-cases (before z x)) [
      | inl t ↦ rw (put, t) (h', put-All x y l h all)
      | inr f ↦ rw (put, f) (h, (h', all))
    ]

    put-Sorted : (x : A) (l : List A) → Sorted before l → Sorted before (put x l)
    unfolding put
    put-Sorted x [] s = (tt, tt)
    put-Sorted x (y ∷ l) (h, s) = elim (Bool-cases (before y x)) [
      | inl t ↦ rw (put, t) (put-All x y l (o.asym y x t) h, put-Sorted x l s)
      | inr f ↦ rw (put, f) ((f, all_not_before x y l f h), (h, s))
    ]

    sort-Sorted : (l : List A) → Sorted before (insertion_sort l)
    unfolding insertion_sort
    sort-Sorted [] = tt
    sort-Sorted (x ∷ l) = put-Sorted x (insertion_sort l) (sort-Sorted l)

abbrev small : Item
small = record {
  name = codes "b";
  href = codes "/http/b";
  size = pos 3;
  is_dir = false;
  mime = codes "text/plain";
}

abbrev large : Item
large = record {
  name = codes "a";
  href = codes "/http/a";
  size = pos 9;
  is_dir = false;
  mime = codes "text/plain";
}

abbrev folder : Item
folder = record {
  name = codes "c/";
  href = codes "/http/c/";
  size = pos 5;
  is_dir = true;
  mime = [];
}

abbrev items : List Item
items = large ∷ folder ∷ small ∷ []

ordered_rows-Grouped_example :
    Permᴰ (ordered_rows insertion_sort 1 (record { field = by_size; desc = false }) items) items
    × Grouped by_size
        (ordered_rows insertion_sort 1 (record { field = by_size; desc = false }) items)
    × ((it : Item) → comes_before (record { field = by_size; desc = true }) it it ≡ true)
    × ¬ StrictOrder (comes_before (record { field = by_size; desc = true }))
ordered_rows-Grouped_example =
    ordered_rows-Grouped insertion_sort 1 sort-Permᴰ (λ before l o. sort-Sorted before o l) by_size
      items

by_size_run :
    ordered_rows insertion_sort 1 (record { field = by_size; desc = false }) items
    ≡ folder ∷ small ∷ large ∷ []
unfolding ordered_rows comes_before less insertion_sort put
by_size_run = refl

-- The files in front, as the descending order by the type has them.
abbrev files_first : (Item → Item → Bool) → List Item → List Item
files_first before l = files_of l ++ dirs_of l

abbrev folders : List Item
folders = folder ∷ record folder { name = codes "d/" } ∷ record folder { name = codes "e/" } ∷ []

-- The array of three directories has room for four.
ordered_rows_lost_example :
    ordered_rows files_first 1 (record { field = by_type; desc = true }) (folders ++ small ∷ [])
    ≡ folders ++ record folder { name = codes "e/" } ∷ []
ordered_rows_lost_example =
    ordered_rows_lost files_first 1 (folders ++ small ∷ []) (small ∷ []) folders (omega arith) refl
      (refl, tt) (refl, (refl, (refl, tt))) (omega arith)
