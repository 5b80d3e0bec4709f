-- ===== src/Server/Browser/Sizes.antt =====
-- The sizes that a page shows add up.
use warpbox_custom.Prelude.{
  ℕ, ◌+◌, ◌≡◌, ◌<◌, refl, sym, ap, ◌∙◌, subst, inl, inr, Bool, false, List, [], ◌∷◌, ◌++◌, Text,
  slash, All, arith, cut, trim_prefix, is_empty, text_eq_instance, lookup, insert_new, ℤ, pos,
  negsuc, pos_part, neg_part, ◌+ℤ◌, two63, Option-cases,
}
use mathlib.Core.List.{Permᴰ}
use warpbox_custom.Prelude.Members.{Permᴰ-Memᴰ, All-of_Memᴰ, All-Memᴰ}
use warpbox_custom.Server.Browser.Page.{SortField, ordered_rows}
use warpbox_custom.Server.Browser.Order.{ordered_rows-Permᴰ}
use warpbox_custom.Metadata.{FileRecord}
use warpbox_custom.Library.{Filter}
use warpbox_custom.Server.Range.{int64}
use warpbox_custom.Server.Listing.{is_listed}
use warpbox_custom.Server.Listing.Entries.{Distinct, Distinct-append}
use warpbox_custom.Server.Browser.{
  View, Item, Gathered, file_item, first_agg, gather_step, gather, items_of, page_items,
}
use warpbox_custom.Server.Browser.Dirs.{
  keys, dirs_sum, PositiveDir, Positive, dirs_sum-append, keys-append, All-append, lookup-missing,
  insert-Updated, dir_items, dir_items-sum, dir_items-Positive, shown_sum,
}

int64-sum :
    (a b : ℤ)
    → neg_part a ≡ 0
    → neg_part b ≡ 0
    → pos_part a + pos_part b < two63
    → int64 (a +ℤ b) ≡ pos (pos_part a + pos_part b)
unfolding int64
int64-sum (pos m) (pos n) h k l = ground arith
int64-sum (pos m) (negsuc n) h k l = absurd (omega arith)
int64-sum (negsuc m) b h k l = absurd (omega arith)

unfoldable pub stored_sum : List FileRecord → ℕ
stored_sum [] = 0
stored_sum (rec ∷ records) = pos_part rec.size + stored_sum records

shown_sum-append : (xs ys : List Item) → shown_sum (xs ++ ys) ≡ shown_sum xs + shown_sum ys
unfolding shown_sum
shown_sum-append [] ys = omega arith
shown_sum-append (x ∷ xs) ys = omega (arith, shown_sum-append xs ys)

-- The state of the loop, after records of a total size.
record Counted (total : ℕ) (g : Gathered) : Type 0 where
  in_order : keys g.dir_map ≡ g.dir_order
  distinct : Distinct g.dir_order
  positive : All PositiveDir g.dir_map
  positive_files : All Positive g.files
  sum : dirs_sum g.dir_map + shown_sum g.files ≡ total

module _ (v : View) where
  gather_step-Counted :
      (rec : FileRecord) (total : ℕ) (g : Gathered)
      → Counted total g
      → neg_part rec.size ≡ 0
      → total + pos_part rec.size < two63
      → Counted (total + pos_part rec.size) (gather_step v rec g)
  unfolding gather_step shown_sum dirs_sum
  gather_step-Counted rec total g c p l =
      elim (Option-cases
        (cut slash (trim_prefix (trim_prefix rec.path v.virtual_path) (slash ∷ [])))) [
          | inl e ↦
              rw (gather_step, e)
                (record {
                  in_order = c.in_order;
                  distinct = c.distinct;
                  positive = c.positive;
                  positive_files =
                      All-append Positive g.files
                        (file_item v
                          (trim_prefix (trim_prefix rec.path v.virtual_path) (slash ∷ [])) rec)
                        c.positive_files p;
                  sum = omega (
                    arith,
                    c.sum,
                    shown_sum-append g.files (
                        file_item v (trim_prefix (trim_prefix rec.path v.virtual_path) (slash ∷ []))
                          rec
                        ∷ []),
                  );
                })
          | inr ((name, below), e) ↦ elim (Option-cases (lookup name g.dir_map)) [
            | inl new ↦
                rw (gather_step, e, new, insert_new name (first_agg v name rec) g.dir_map new)
                  (record {
                    in_order =
                        keys-append g.dir_map (name, first_agg v name rec)
                        ∙ ap (λ ks. ks ++ name ∷ []) c.in_order;
                    distinct =
                        Distinct-append name g.dir_order c.distinct (
                          ap (is_listed name) (sym c.in_order) ∙ lookup-missing name g.dir_map new);
                    positive =
                        All-append PositiveDir g.dir_map (name, first_agg v name rec) c.positive p;
                    positive_files = c.positive_files;
                    sum = omega (
                      arith,
                      c.sum,
                      dirs_sum-append g.dir_map ((name, first_agg v name rec) ∷ []),
                    );
                  })
            | inr (ag, there) ↦
                let updated =
                  insert-Updated name ag
                    (record ag { total_size = int64 (ag.total_size +ℤ rec.size) }) g.dir_map
                    there in
                let size : int64 (ag.total_size +ℤ rec.size)
                    ≡ pos (pos_part ag.total_size + pos_part rec.size) =
                  int64-sum ag.total_size rec.size (updated.old_positive c.positive) p
                    (omega (arith, updated.part, c.sum)) in
                rw (gather_step, e, there)
                  (record {
                    in_order = updated.same_keys ∙ c.in_order;
                    distinct = c.distinct;
                    positive = updated.positive c.positive (ap neg_part size);
                    positive_files = c.positive_files;
                    sum = omega (arith, updated.sum, c.sum, ap pos_part size);
                  })
          ]
        ]

  gather-Counted :
      (records : List FileRecord) (total : ℕ) (g : Gathered)
      → Counted total g
      → All (λ rec. neg_part rec.size ≡ 0) records
      → total + stored_sum records < two63
      → Counted (total + stored_sum records) (gather v records g)
  unfolding gather stored_sum
  gather-Counted [] total g c p l = subst (λ n. Counted n g) (sum_zero total) c
    where
      sum_zero : (n : ℕ) → n ≡ n + 0
      sum_zero n = omega arith
  gather-Counted (rec ∷ records) total g c (p, ps) l =
      subst (λ n. Counted n (gather v records (gather_step v rec g)))
        (assoc total (pos_part rec.size) (stored_sum records))
        (gather-Counted records (total + pos_part rec.size) (gather_step v rec g)
          (gather_step-Counted rec total g c p (omega arith)) ps (omega arith))
    where
      assoc : (a b c : ℕ) → a + b + c ≡ a + (b + c)
      assoc a b c = omega arith

All-both : (P : Item → Type 0) (xs ys : List Item) → All P xs → All P ys → All P (xs ++ ys)
All-both P [] ys h k = k
All-both P (x ∷ xs) ys (p, ps) k = (p, All-both P xs ys ps k)

-- What the items of a state add up to.
items_of-sum :
    (total : ℕ) (g : Gathered)
    → Counted total g
    → All Positive (items_of g) × (shown_sum (items_of g) ≡ total)
unfolding items_of
items_of-sum total g c =
    let distinct : Distinct (keys g.dir_map) = subst Distinct (sym c.in_order) c.distinct in
    subst
      (λ names.
        All Positive (dir_items g.dir_map names ++ g.files)
        × (shown_sum (dir_items g.dir_map names ++ g.files) ≡ total))
      c.in_order
      (
        All-both Positive (dir_items g.dir_map (keys g.dir_map)) g.files
            (dir_items-Positive g.dir_map distinct c.positive) c.positive_files,
        omega (
          arith,
          shown_sum-append (dir_items g.dir_map (keys g.dir_map)) g.files,
          dir_items-sum g.dir_map distinct,
          c.sum,
        ),
      )

gathered_sum :
    (filters : List Filter) (v : View) (raw : Text) (records : List FileRecord)
    → is_empty raw ≡ false
    → All (λ rec. neg_part rec.size ≡ 0) records
    → stored_sum records < two63
    → All (λ item. neg_part item.size ≡ 0) (page_items filters v raw records)
      × (shown_sum (page_items filters v raw records) ≡ stored_sum records)
unfolding page_items dirs_sum shown_sum
gathered_sum filters v raw records below p l =
    rw (page_items, below)
      (items_of-sum (stored_sum records)
        (gather v records (record { dir_map = []; dir_order = []; files = [] }))
        (subst
          (λ n. Counted n (gather v records (record { dir_map = []; dir_order = []; files = [] })))
          (from_zero (stored_sum records))
          (gather-Counted v records 0 (record { dir_map = []; dir_order = []; files = [] })
            (record {
              in_order = refl;
              distinct = tt;
              positive = tt;
              positive_files = tt;
              sum = refl;
            })
            p (omega arith))))
  where
    from_zero : (n : ℕ) → 0 + n ≡ n
    from_zero n = omega arith

shown_sum-Permᴰ : {xs ys : List Item} → Permᴰ xs ys → shown_sum xs ≡ shown_sum ys
unfolding shown_sum
shown_sum-Permᴰ Permᴰ.nil = refl
shown_sum-Permᴰ (Permᴰ.cons e p) =
    omega (arith, ap (λ (item : Item). pos_part item.size) e, shown_sum-Permᴰ p)
shown_sum-Permᴰ (Permᴰ.swap e e') =
    omega (
      arith,
      ap (λ (item : Item). pos_part item.size) e,
      ap (λ (item : Item). pos_part item.size) e',
    )
shown_sum-Permᴰ (Permᴰ.trans p q) = shown_sum-Permᴰ p ∙ shown_sum-Permᴰ q

-- On the page of any directory but the root that is sorted in ascending order, by a sort that
-- permutes the entries: if no row has a negative size and the sizes add up to less than 2 ^ 63, then
-- the sizes shown, of the directories and of the files, are not negative and add up to those of the
-- rows.
pub page_items-sum :
    (sort : (Item → Item → Bool) → List Item → List Item) (spare : ℕ) (f : SortField)
    (filters : List Filter) (v : View) (raw : Text) (records : List FileRecord)
    → ((before : Item → Item → Bool) (l : List Item) → Permᴰ (sort before l) l)
    → is_empty raw ≡ false
    → All (λ rec. neg_part rec.size ≡ 0) records
    → stored_sum records < two63
    → let rows =
        ordered_rows sort spare
          (record { field = f; desc = false })
          (page_items filters v raw records) in
      All (λ item. neg_part item.size ≡ 0) rows × (shown_sum rows ≡ stored_sum records)
page_items-sum sort spare f filters v raw records permutes below p l =
    let (positive, sum) = gathered_sum filters v raw records below p l in
    let same = ordered_rows-Permᴰ sort spare permutes f (page_items filters v raw records) in
    (
      All-of_Memᴰ Positive _ (λ item m. All-Memᴰ Positive _ item positive (Permᴰ-Memᴰ same m)),
      shown_sum-Permᴰ same ∙ sum,
    )
