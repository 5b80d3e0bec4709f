-- ===== src/Server/Browser/Order.antt =====
-- The order of the rows on a page.
use warpbox_custom.Prelude.{
  ◌≡◌, refl, sym, ap, ◌∙◌, subst, inl, inr, Bool, true, false, not, ◌&&◌, Bool-cases, List, [], ◌∷◌,
  ◌++◌, ◌⊎◌, ◌<◌, ◌==◌, ==_refl, ◌≤ℤ◌, eqb_ℤ, Text, text_eq, has_prefix, trim_prefix, to_lower, All,
  keep, arith, pos, ℕ,
}
use mathlib.Core.List.{Permᴰ}
use mathlib.Core.List.Permᴰ
use warpbox_custom.Server.Browser.{Item}
use warpbox_custom.Server.Browser.Page.{
  Sort, field_name, parse_sort, next, text_less, SortField, by_name, by_size, by_type, field_same,
  less, comes_before, ordered_rows, dirs_of, files_of,
}

-- A strict weak order, which the library's sort asks for.
pub record StrictOrder {A : Type 0} (before : A → A → Bool) : Type 0 where
  pub asym : (a b : A) → before a b ≡ true → before b a ≡ false
  pub cotrans : (a b c : A) → before a c ≡ true → before a b ≡ false → before b c ≡ true

-- Nothing stands behind what it comes before.
abbrev pub Sorted : {A : Type 0} → (A → A → Bool) → List A → Type 0
Sorted before [] = Unit
Sorted before (x ∷ xs) = All (λ y. before y x ≡ false) xs × Sorted before xs

text_less_asym : (a b : Text) → text_less a b ≡ true → text_less b a ≡ false
unfolding text_less
text_less_asym [] [] h = cc
text_less_asym [] (y ∷ b) h = refl
text_less_asym (x ∷ a) [] h = cc
text_less_asym (x ∷ a) (y ∷ b) h = ground (arith, h, text_less_asym a b)

text_less_cotrans :
    (a b c : Text) → text_less a c ≡ true → text_less a b ≡ false → text_less b c ≡ true
unfolding text_less
text_less_cotrans [] [] [] h n = h
text_less_cotrans [] [] (z ∷ c) h n = refl
text_less_cotrans [] (y ∷ b) c h n = cc
text_less_cotrans (x ∷ a) b [] h n = cc
text_less_cotrans (x ∷ a) [] (z ∷ c) h n = refl
text_less_cotrans (x ∷ a) (y ∷ b) (z ∷ c) h n = ground (arith, h, n, text_less_cotrans a b c)

text_less-StrictOrder : StrictOrder text_less
text_less-StrictOrder = record { asym = text_less_asym; cotrans = text_less_cotrans }

less-StrictOrder : (f : SortField) → StrictOrder (less f)
unfolding less
less-StrictOrder by_name = record {
  asym = λ a b h. text_less-StrictOrder.asym a.name b.name h;
  cotrans = λ a b c h n. text_less-StrictOrder.cotrans a.name b.name c.name h n;
}
less-StrictOrder by_size = record {
  asym = λ a b h. ground (arith, h, text_less-StrictOrder.asym a.name b.name);
  cotrans = λ a b c h n. ground (arith, h, n, text_less-StrictOrder.cotrans a.name b.name c.name);
}
less-StrictOrder by_type = record {
  asym = λ a b h. ground (
    arith,
    h,
    text_less-StrictOrder.asym a.name b.name,
    text_less-StrictOrder.asym a.mime b.mime,
  );
  cotrans = λ a b c h n. ground (
    arith,
    h,
    n,
    text_less-StrictOrder.cotrans a.name b.name c.name,
    text_less-StrictOrder.cotrans a.mime b.mime c.mime,
  );
}

module _ {A : Type 0} where
  pub keep-in : (p : A → Bool) (x : A) (l : List A) → p x ≡ true → keep p (x ∷ l) ≡ x ∷ keep p l
  keep-in p x l t = rw (keep, t) refl

  pub keep-out : (p : A → Bool) (x : A) (l : List A) → p x ≡ false → keep p (x ∷ l) ≡ keep p l
  keep-out p x l f = rw (keep, f) refl

  All-keep {κ} : (P : A → Type κ) (p : A → Bool) (l : List A) → All P l → All P (keep p l)
  All-keep P p [] h = tt
  All-keep P p (x ∷ l) (h, rest) = elim (Bool-cases (p x)) [
    | inl t ↦ subst (All P) (sym (keep-in p x l t)) (h, All-keep P p l rest)
    | inr f ↦ subst (All P) (sym (keep-out p x l f)) (All-keep P p l rest)
  ]

  Sorted-keep :
      (before : A → A → Bool) (p : A → Bool) (l : List A)
      → Sorted before l
      → Sorted before (keep p l)
  Sorted-keep before p [] h = tt
  Sorted-keep before p (x ∷ l) (h, rest) = elim (Bool-cases (p x)) [
    | inl t ↦
        subst (Sorted before) (sym (keep-in p x l t))
          (All-keep _ p l h, Sorted-keep before p l rest)
    | inr f ↦ subst (Sorted before) (sym (keep-out p x l f)) (Sorted-keep before p l rest)
  ]

  keep_all : (p : A → Bool) (l : List A) → All (λ x. p x ≡ true) (keep p l)
  keep_all p [] = tt
  keep_all p (x ∷ l) = elim (Bool-cases (p x)) [
    | inl t ↦ subst (All (λ x. p x ≡ true)) (sym (keep-in p x l t)) (t, keep_all p l)
    | inr f ↦ subst (All (λ x. p x ≡ true)) (sym (keep-out p x l f)) (keep_all p l)
  ]

  -- The two halves of a list hold what the list holds.
  abbrev halves : (A → Bool) → List A → List A
  halves p l = keep p l ++ keep (λ x. not (p x)) l

  halves-Permᴰ : (p : A → Bool) (l : List A) → Permᴰ (halves p l) l
  halves-Permᴰ p [] = Permᴰ.nil
  halves-Permᴰ p (x ∷ l) = elim (Bool-cases (p x)) [
    | inl t ↦
        let same : halves p (x ∷ l) ≡ x ∷ halves p l =
          ap (λ m. m ++ keep (λ y. not (p y)) (x ∷ l)) (keep-in p x l t)
          ∙ ap (λ m. x ∷ (keep p l ++ m)) (keep-out (λ y. not (p y)) x l (ap not t)) in
        subst (λ m. Permᴰ m (x ∷ l)) (sym same) (Permᴰ.cons refl (halves-Permᴰ p l))
    | inr f ↦
        let same : halves p (x ∷ l) ≡ keep p l ++ x ∷ keep (λ y. not (p y)) l =
          ap (λ m. m ++ keep (λ y. not (p y)) (x ∷ l)) (keep-out p x l f)
          ∙ ap (λ m. keep p l ++ m) (keep-in (λ y. not (p y)) x l (ap not f)) in
        subst (λ m. Permᴰ m (x ∷ l)) (sym same)
          (Permᴰ.trans (Permᴰ.middle x (keep p l) (keep (λ y. not (p y)) l))
            (Permᴰ.cons refl (halves-Permᴰ p l)))
  ]

-- A text stands before another or is the same: it is the start of the other, or the first character
-- at which they differ is the smaller one.
abbrev pub UpTo : Text → Text → Type 0
UpTo a b =
    ((rest : Text) × (b ≡ a ++ rest))
    ⊎ ((p : Text) × (s : Text) × (t : Text) × (x : ℕ) × (y : ℕ) × (a ≡ p ++ x ∷ s)
        × (b ≡ p ++ y ∷ t)
        × (x < y))

UpTo-cons : (x : ℕ) (a b : Text) → UpTo a b → UpTo (x ∷ a) (x ∷ b)
UpTo-cons x a b (inl (rest, e)) = inl (rest, ap (λ l. x ∷ l) e)
UpTo-cons x a b (inr (p, s, t, c, d, e, e', l)) =
    inr (x ∷ p, s, t, c, d, ap (λ l. x ∷ l) e, ap (λ l. x ∷ l) e', l)

text_less-UpTo : (a b : Text) → text_less b a ≡ false → UpTo a b
unfolding text_less
text_less-UpTo [] b h = inl (b, refl)
text_less-UpTo (x ∷ a) [] h = cc (h)
text_less-UpTo (x ∷ a) (y ∷ b) h = elim (Bool-cases (y == x)) [
  | inl t ↦
      let same : x ≡ y = ground (arith, t) in
      subst (λ z. UpTo (x ∷ a) (z ∷ b)) same
        (UpTo-cons x a b (text_less-UpTo a b (rw (text_less, t) at h)))
  | inr f ↦ let smaller : x < y = ground (arith, f, h) in inr ([], a, b, x, y, refl, refl, smaller)
]

-- An entry may stand before another when the page is sorted by a field: by their names; by their
-- sizes, and by the names if these are the same; by the type, two directories by their names and two
-- files by their types.
abbrev pub InOrder : SortField → Item → Item → Type 0
InOrder by_name a b = UpTo a.name b.name
InOrder by_size a b = (a.size ≤ℤ b.size) × (a.size ≡ b.size → UpTo a.name b.name)
InOrder by_type a b =
    (a.is_dir ≡ true → b.is_dir ≡ true → UpTo a.name b.name)
    × (a.is_dir ≡ false → b.is_dir ≡ false → UpTo a.mime b.mime)

less-InOrder : (f : SortField) (a b : Item) → less f b a ≡ false → InOrder f a b
unfolding less
less-InOrder by_name a b h = text_less-UpTo a.name b.name h
less-InOrder by_size a b h = (
  ground (arith, h),
  λ same.
      let equal : eqb_ℤ b.size a.size ≡ true = rw same (==_refl _) in
      text_less-UpTo a.name b.name (rw (less, equal) at h),
)
less-InOrder by_type a b h = (
  λ p q. text_less-UpTo a.name b.name (rw (less, p, q) at h),
  λ p q. text_less-UpTo a.mime b.mime (rw (less, p, q) at h),
)

-- Each entry may stand before all that follow it.
abbrev pub Arranged : SortField → List Item → Type 0
Arranged f [] = Unit
Arranged f (a ∷ items) = All (InOrder f a) items × Arranged f items

all-InOrder :
    (f : SortField) (a : Item) (items : List Item)
    → All (λ b. less f b a ≡ false) items
    → All (InOrder f a) items
all-InOrder f a [] h = tt
all-InOrder f a (b ∷ items) (h, all) = (less-InOrder f a b h, all-InOrder f a items all)

Sorted-Arranged : (f : SortField) (items : List Item) → Sorted (less f) items → Arranged f items
Sorted-Arranged f [] h = tt
Sorted-Arranged f (a ∷ items) (h, s) = (all-InOrder f a items h, Sorted-Arranged f items s)

-- The directories and the files of an ascending page.
pub record Grouped (f : SortField) (rows : List Item) : Type 0 where
  pub dirs : List Item
  pub files : List Item
  pub split : rows ≡ dirs ++ files
  pub all_dirs : All (λ it. it.is_dir ≡ true) dirs
  pub all_files : All (λ it. not it.is_dir ≡ true) files
  pub dirs_sorted : Arranged f dirs
  pub files_sorted : Arranged f files

StrictOrder-irreflexive :
    {A : Type 0} {before : A → A → Bool} → StrictOrder before → (a : A) → before a a ≡ false
StrictOrder-irreflexive {before} o a = elim (Bool-cases (before a a)) [
  | inl t ↦ o.asym a a t
  | inr f ↦ f
]

not_both : (b : Bool) → b && false ≡ false
not_both true = refl
not_both false = refl

some_item : Item
some_item = record { name = []; href = []; size = pos 0; is_dir = false; mime = [] }

pub ordered_rows-Permᴰ :
    (sort : (Item → Item → Bool) → List Item → List Item) (spare : ℕ)
    → ((before : Item → Item → Bool) (l : List Item) → Permᴰ (sort before l) l)
    → (f : SortField) (items : List Item)
    → Permᴰ (ordered_rows sort spare (record { field = f; desc = false }) items) items
unfolding ordered_rows comes_before
ordered_rows-Permᴰ sort spare permutes f items =
    rw (ordered_rows, not_both (field_same f by_type))
      (Permᴰ.trans (halves-Permᴰ (λ (it : Item). it.is_dir) _) (permutes _ items))

-- For a sort that permutes the list, and sorts it by any comparison that is a strict weak order: of
-- an ascending sort, whatever the field and the capacity, the page shows every item once, the
-- directories stand before the files, and each of the two groups is sorted, the smallest first; of a
-- descending sort, the comparison that the sort is called with puts each item before itself, so that
-- it is no strict weak order.
pub ordered_rows-Grouped :
    (sort : (Item → Item → Bool) → List Item → List Item) (spare : ℕ)
    → ((before : Item → Item → Bool) (l : List Item) → Permᴰ (sort before l) l)
    → ((before : Item → Item → Bool) (l : List Item)
        → StrictOrder before
        → Sorted before (sort before l))
    → (f : SortField) (items : List Item)
    → Permᴰ (ordered_rows sort spare (record { field = f; desc = false }) items) items
      × Grouped f (ordered_rows sort spare (record { field = f; desc = false }) items)
      × ((it : Item) → comes_before (record { field = f; desc = true }) it it ≡ true)
      × ¬ StrictOrder (comes_before (record { field = f; desc = true }))
unfolding ordered_rows comes_before
ordered_rows-Grouped sort spare permutes sorts f items = (
  ordered_rows-Permᴰ sort spare permutes f items,
  record {
    dirs = dirs_of (sort (less f) items);
    files = files_of (sort (less f) items);
    split = rw (ordered_rows, not_both (field_same f by_type)) refl;
    all_dirs = keep_all (λ (it : Item). it.is_dir) (sort (less f) items);
    all_files = keep_all (λ (it : Item). not it.is_dir) (sort (less f) items);
    dirs_sorted =
        Sorted-Arranged f _ (Sorted-keep _ _ _ (sorts (less f) items (less-StrictOrder f)));
    files_sorted =
        Sorted-Arranged f _ (Sorted-keep _ _ _ (sorts (less f) items (less-StrictOrder f)));
  },
  λ it. itself it,
  λ order. cc (order.asym some_item some_item (itself some_item), itself some_item),
)
  where
    itself : (it : Item) → comes_before (record { field = f; desc = true }) it it ≡ true
    itself it =
        let irreflexive : less f it it ≡ false = StrictOrder-irreflexive (less-StrictOrder f) it in
        ap not irreflexive

-- The link of a heading sorts by its field, and in the other direction if the page is sorted by that
-- field in ascending order.
parse_sort-next :
    (s : Sort) (f : SortField)
    → parse_sort (next s f) ≡ record { field = f; desc = field_same s.field f && not s.desc }
unfolding parse_sort next text_eq has_prefix trim_prefix to_lower
parse_sort-next s f = elim (Bool-cases (field_same s.field f && not s.desc)) [
  | inl t ↦ rw (next, t) (descending f)
  | inr n ↦ rw (next, n) (ascending f)
]
  where
    descending :
        (f : SortField) → parse_sort (b'-' ∷ field_name f) ≡ record { field = f; desc = true }
    descending by_name = refl
    descending by_size = refl
    descending by_type = refl

    ascending : (f : SortField) → parse_sort (field_name f) ≡ record { field = f; desc = false }
    ascending by_name = refl
    ascending by_size = refl
    ascending by_type = refl
