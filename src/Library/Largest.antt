-- ===== src/Library/Largest.antt =====
-- `KeepLargest` keeps, of each item, one file that is no smaller than the others.
use warpbox_custom.Prelude.{
  ◌≡◌, refl, sym, ap, ◌∙◌, inl, inr, true, false, Option, none, some, List, [], ◌∷◌, arith, All,
  lookup, lookup-insert_self, lookup-insert_ne, Bool-cases, if◌then◌else◌, ltb_ℤ, ◌≤ℤ◌, tests,
  subst, ◌⊎◌,
}
use mathlib.Core.List.{Memᴰ}
use warpbox_custom.Metadata.{FileRecord}
use warpbox_custom.Library.{
  Key, key_of, key_same, key_eq, key_same→eq, key_same_refl, largest_loop, largest_step, or_zero,
}

-- The better of the best file so far and another: the first of the largest.
unfoldable pub better : Option FileRecord → FileRecord → Option FileRecord
better none rec = some rec
better (some existing) rec = if ltb_ℤ existing.size rec.size then some rec else some existing

-- The best file of one item.
unfoldable pub champion : Key → Option FileRecord → List FileRecord → Option FileRecord
champion k acc [] = acc
champion k acc (rec ∷ records) =
    champion k (if key_same (key_of rec) k then better acc rec else acc) records

pub step-lookup :
    (k : Key) (rec : FileRecord) (best : List (Key × FileRecord)) (order : List Key)
    → lookup k (largest_step rec best order).0
      ≡ (if key_same (key_of rec) k then better (lookup k best) rec else lookup k best)
unfolding largest_step better
step-lookup k rec best order = elim (Bool-cases (key_same (key_of rec) k)) [
  | inl same ↦
      let q = key_same→eq (key_of rec) k same in
      rw (← q, key_same_refl (key_of rec)) (own (lookup (key_of rec) best) refl)
  | inr other ↦ rw other (others (lookup (key_of rec) best) refl other)
]
  where
    own :
        (o : Option FileRecord)
        → lookup (key_of rec) best ≡ o
        → lookup (key_of rec) (largest_step rec best order).0
          ≡ better (lookup (key_of rec) best) rec
    own none e = rw (e, largest_step, better) (lookup-insert_self (key_of rec) rec best)
    own (some existing) e = elim (Bool-cases (ltb_ℤ existing.size rec.size)) [
      | inl t ↦ rw (e, largest_step, better, t) (lookup-insert_self (key_of rec) rec best)
      | inr f ↦ rw (e, largest_step, better, f) e
    ]

    others :
        (o : Option FileRecord)
        → lookup (key_of rec) best ≡ o
        → key_same (key_of rec) k ≡ false
        → lookup k (largest_step rec best order).0 ≡ lookup k best
    others none e d = rw (e, largest_step) (lookup-insert_ne (key_of rec) k rec best d)
    others (some existing) e d = elim (Bool-cases (ltb_ℤ existing.size rec.size)) [
      | inl t ↦ rw (e, largest_step, t) (lookup-insert_ne (key_of rec) k rec best d)
      | inr f ↦ rw (e, largest_step, f) refl
    ]

pub largest_loop-champion :
    (k : Key) (records : List FileRecord) (best : List (Key × FileRecord)) (order : List Key)
    → lookup k (largest_loop records best order).0 ≡ champion k (lookup k best) records
unfolding largest_loop champion
largest_loop-champion k [] best order = refl
largest_loop-champion k (rec ∷ records) best order =
    largest_loop-champion k records (largest_step rec best order).0 (largest_step rec best order).1
    ∙ ap (λ o. champion k o records) (step-lookup k rec best order)

champion-acc :
    (k : Key) (e : FileRecord) (records : List FileRecord)
    → (r : FileRecord) × (champion k (some e) records ≡ some r) × (e.size ≤ℤ r.size)
unfolding champion better
champion-acc k e [] = (e, refl, omega arith)
champion-acc k e (rec ∷ records) = elim (Bool-cases (key_same (key_of rec) k)) [
  | inr f ↦ rw f (champion-acc k e records)
  | inl t ↦ elim (Bool-cases (ltb_ℤ e.size rec.size)) [
    | inl less ↦ let (r, q, l) = champion-acc k rec records in rw (t, less) (r, q, omega tests)
    | inr more ↦ rw (t, more) (champion-acc k e records)
  ]
]

champion-better :
    (k : Key) (acc : Option FileRecord) (rec : FileRecord) (records : List FileRecord)
    → (r : FileRecord) × (champion k (better acc rec) records ≡ some r) × (rec.size ≤ℤ r.size)
unfolding better
champion-better k none rec records = champion-acc k rec records
champion-better k (some e) rec records = elim (Bool-cases (ltb_ℤ e.size rec.size)) [
  | inl less ↦ rw less (champion-acc k rec records)
  | inr more ↦ let (r, q, l) = champion-acc k e records in rw more (r, q, omega tests)
]

-- No file of the item is larger than its best.
pub champion-ge :
    (k : Key) (acc : Option FileRecord) (records : List FileRecord)
    → All
        (λ rec.
          key_same (key_of rec) k ≡ true
          → (r : FileRecord) × (champion k acc records ≡ some r) × (rec.size ≤ℤ r.size))
        records
unfolding champion
champion-ge k acc [] = tt
champion-ge k acc (rec ∷ records) = (
  λ own. rw own (champion-better k acc rec records),
  champion-ge k (if key_same (key_of rec) k then better acc rec else acc) records,
)

better-cases :
    (acc : Option FileRecord) (rec : FileRecord)
    → (better acc rec ≡ acc) ⊎ (better acc rec ≡ some rec)
unfolding better
better-cases none rec = inr refl
better-cases (some e) rec = elim (Bool-cases (ltb_ℤ e.size rec.size)) [
  | inl t ↦ inr (rw t refl)
  | inr f ↦ inl (rw f refl)
]

-- The best file of an item is one of its files.
pub champion-mem :
    (k : Key) (acc : Option FileRecord) (records : List FileRecord) (r : FileRecord)
    → champion k acc records ≡ some r
    → (acc ≡ some r) ⊎ (Memᴰ r records × (key_same (key_of r) k ≡ true))
unfolding champion
champion-mem k acc [] r h = inl h
champion-mem k acc (rec ∷ records) r h =
    step (Bool-cases (key_same (key_of rec) k))
      (champion-mem k (if key_same (key_of rec) k then better acc rec else acc) records r h)
  where
    Goal : Type 0
    Goal = (acc ≡ some r) ⊎ (Memᴰ r (rec ∷ records) × (key_same (key_of r) k ≡ true))

    first : some rec ≡ some r → key_same (key_of rec) k ≡ true → Goal
    first e own =
        let q : rec ≡ r = ap (or_zero) e in
        inr (Memᴰ.head (sym q), subst (λ (x : FileRecord). key_same (key_of x) k ≡ true) q own)

    step :
        (key_same (key_of rec) k ≡ true) ⊎ (key_same (key_of rec) k ≡ false)
        → ((if key_same (key_of rec) k then better acc rec else acc) ≡ some r)
          ⊎ (Memᴰ r records × (key_same (key_of r) k ≡ true))
        → Goal
    step c (inr (m, own)) = inr (Memᴰ.tail m, own)
    step (inr f) (inl e) = inl (rw f at e)
    step (inl t) (inl e) = elim (better-cases acc rec) [
      | inl kept ↦ inl (sym kept ∙ (rw t at e))
      | inr taken ↦ first (sym taken ∙ (rw t at e)) t
    ]
