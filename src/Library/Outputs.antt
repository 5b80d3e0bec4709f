-- ===== src/Library/Outputs.antt =====
-- What `KeepLargest` returns: the first largest file of each item, in the order of the items.
use warpbox_custom.Prelude.{
  subst, ◌≡◌, refl, sym, ap, ◌∙◌, inl, inr, Bool, true, false, Option, none, some, List, [], ◌∷◌,
  ◌++◌, map, All, lookup, Option-cases, Bool-cases, if◌then◌else◌, ltb_ℤ, ◌≤ℤ◌, subst, ◌⊎◌,
}
use mathlib.Core.List.{Memᴰ}
use warpbox_custom.Metadata.{FileRecord}
use warpbox_custom.Library.{
  Key, key_of, key_same, key_eq, key_same→eq, key_same_refl, largest_loop, largest_step, or_zero,
  keep_largest,
}
use warpbox_custom.Library.Largest.{
  champion, champion-ge, champion-mem, largest_loop-champion, step-lookup, better,
}

-- Whether a list of keys has one.
has : List Key → Key → Bool
has [] k = false
has (j ∷ order) k = if key_same j k then true else has order k

is_some : Option FileRecord → Bool
is_some none = false
is_some (some rec) = true

has-append :
    (order : List Key) (j k : Key)
    → has (order ++ j ∷ []) k ≡ (if has order k then true else key_same j k)
unfolding has
has-append [] j k = elim (Bool-cases (key_same j k)) [ inl t ↦ rw t refl | inr f ↦ rw f refl ]
has-append (i ∷ order) j k = elim (Bool-cases (key_same i k)) [
  | inl t ↦ rw t refl
  | inr f ↦ rw f (has-append order j k)
]

-- No key stands twice.
abbrev pub Distinct : List Key → Type 0
Distinct [] = Unit
Distinct (k ∷ order) = All (λ j. key_same k j ≡ false) order × Distinct order

has_missing :
    (order : List Key) (k : Key) → has order k ≡ false → All (λ j. key_same j k ≡ false) order
unfolding has
has_missing [] k h = tt
has_missing (j ∷ order) k h = elim (Bool-cases (key_same j k)) [
  | inl t ↦ cc
  | inr f ↦ (f, has_missing order k (rw f at h))
]

All-append :
    (k j : Key) (order : List Key)
    → All (λ i. key_same k i ≡ false) order
    → key_same k j ≡ false
    → All (λ i. key_same k i ≡ false) (order ++ j ∷ [])
All-append k j [] h q = (q, tt)
All-append k j (i ∷ order) h q = (h.0, All-append k j order h.1 q)

Distinct-append :
    (order : List Key) (k : Key) → Distinct order → has order k ≡ false → Distinct (order ++ k ∷ [])
unfolding has
Distinct-append [] k d h = (tt, tt)
Distinct-append (j ∷ order) k d h = elim (Bool-cases (key_same j k)) [
  | inl t ↦ cc
  | inr f ↦ (All-append j k order d.0 f, Distinct-append order k d.1 (rw f at h))
]

-- The keys in order are the keys with a best file.
record Inv (best : List (Key × FileRecord)) (order : List Key) : Type 0 where
  known : (k : Key) → has order k ≡ is_some (lookup k best)
  distinct : Distinct order

step-known :
    (rec : FileRecord) (best : List (Key × FileRecord)) (order : List Key)
    → ((k : Key) → has order k ≡ is_some (lookup k best))
    → (k : Key)
    → has (largest_step rec best order).1 k
      ≡ (if key_same (key_of rec) k then true else has order k)
unfolding largest_step is_some
step-known rec best order known k = elim (Option-cases (lookup (key_of rec) best)) [
  | inl e ↦
      rw (largest_step, e, has-append order (key_of rec) k)
        (either (has order k) (key_same (key_of rec) k))
  | inr (existing, e) ↦ elim (Bool-cases (key_same (key_of rec) k)) [
    | inl t ↦
        let q = key_same→eq (key_of rec) k t in
        rw (largest_step, e, t) (rw q at (known (key_of rec) ∙ ap is_some e))
    | inr f ↦ rw (largest_step, e, f) refl
  ]
]
  where
    either : (a b : Bool) → (if a then true else b) ≡ (if b then true else a)
    either true true = refl
    either true false = refl
    either false true = refl
    either false false = refl

is_some-better : (o : Option FileRecord) (rec : FileRecord) → is_some (better o rec) ≡ true
unfolding is_some better
is_some-better none rec = refl
is_some-better (some e) rec = elim (Bool-cases (ltb_ℤ e.size rec.size)) [
  | inl t ↦ rw t refl
  | inr f ↦ rw f refl
]

step-Inv :
    (rec : FileRecord) (best : List (Key × FileRecord)) (order : List Key)
    → Inv best order
    → Inv (largest_step rec best order).0 (largest_step rec best order).1
unfolding largest_step is_some
step-Inv rec best order inv = record {
  known = λ k.
      step-known rec best order inv.known k
      ∙ same k
      ∙ sym (ap is_some (step-lookup k rec best order));
  distinct = order_distinct (Option-cases (lookup (key_of rec) best));
}
  where
    same :
        (k : Key)
        → (if key_same (key_of rec) k then true else has order k)
          ≡ is_some (if key_same (key_of rec) k then better (lookup k best) rec else lookup k best)
    same k = elim (Bool-cases (key_same (key_of rec) k)) [
      | inl t ↦ rw t (sym (is_some-better (lookup k best) rec))
      | inr f ↦ rw f (inv.known k)
    ]

    order_distinct :
        (lookup (key_of rec) best ≡ none) ⊎ ((r : FileRecord) × (lookup (key_of rec) best ≡ some r))
        → Distinct (largest_step rec best order).1
    order_distinct (inl e) =
        rw (largest_step, e)
          (Distinct-append order (key_of rec) inv.distinct (inv.known (key_of rec) ∙ ap is_some e))
    order_distinct (inr (r, e)) = rw (largest_step, e) inv.distinct

loop-Inv :
    (records : List FileRecord) (best : List (Key × FileRecord)) (order : List Key)
    → Inv best order
    → Inv (largest_loop records best order).0 (largest_loop records best order).1
unfolding largest_loop
loop-Inv [] best order inv = inv
loop-Inv (rec ∷ records) best order inv =
    loop-Inv records (largest_step rec best order).0 (largest_step rec best order).1
      (step-Inv rec best order inv)

initial-Inv : Inv [] []
unfolding has is_some lookup
initial-Inv = record { known = λ k. refl; distinct = tt }

-- The loop's results on a list, and what holds of them.
best_of : List FileRecord → List (Key × FileRecord)
best_of records = (largest_loop records [] []).0

order_of : List FileRecord → List Key
order_of records = (largest_loop records [] []).1

best-champion :
    (k : Key) (records : List FileRecord) → lookup k (best_of records) ≡ champion k none records
unfolding best_of lookup
best-champion k records = largest_loop-champion k records [] []

keep_largest-eq :
    (records : List FileRecord)
    → keep_largest records ≡ map (λ k. or_zero (lookup k (best_of records))) (order_of records)
unfolding keep_largest best_of order_of
keep_largest-eq records = refl

found :
    (best : List (Key × FileRecord)) (k : Key) (r : FileRecord) (order : List Key)
    → lookup k best ≡ some r
    → has order k ≡ true
    → Memᴰ r (map (λ k. or_zero (lookup k best)) order)
unfolding has
found best k r [] e h = cc
found best k r (j ∷ order) e h = elim (Bool-cases (key_same j k)) [
  | inl t ↦ Memᴰ.head (sym (ap or_zero (rw (← key_same→eq j k t) at e)))
  | inr f ↦ Memᴰ.tail (found best k r order e (rw f at h))
]

-- A predicate on every file holds of each.
All-get :
    (P : FileRecord → Type 0) (xs : List FileRecord) (r : FileRecord) → All P xs → Memᴰ r xs → P r
All-get P [] r h m = elim m [ ]
All-get P (x ∷ xs) r h (Memᴰ.head e) = subst P (sym e) h.0
All-get P (x ∷ xs) r h (Memᴰ.tail m) = All-get P xs r h.1 m

records-Inv : (records : List FileRecord) → Inv (best_of records) (order_of records)
unfolding best_of order_of
records-Inv records = loop-Inv records [] [] initial-Inv

-- The best file of a key with one, in the order.
from_key :
    (records : List FileRecord) (k : Key)
    → has (order_of records) k ≡ true
    → (r : FileRecord) × (lookup k (best_of records) ≡ some r) × Memᴰ r records × (key_of r ≡ k)
unfolding is_some
from_key records k h = elim (Option-cases (lookup k (best_of records))) [
  | inl e ↦ absurd (cc (h, (records-Inv records).known k, ap is_some e))
  | inr (r, e) ↦ elim (champion-mem k none records r (sym (best-champion k records) ∙ e)) [
    | inl q ↦ cc
    | inr (m, own) ↦ (r, e, m, key_same→eq (key_of r) k own)
  ]
]

-- For every file given, `KeepLargest` returns a file of the same item that is at least as large.
pub keep_largest_dominates :
    (records : List FileRecord) (rec : FileRecord)
    → Memᴰ rec records
    → (r : FileRecord) × Memᴰ r (keep_largest records)
      × (key_of r ≡ key_of rec)
      × (rec.size ≤ℤ r.size)
unfolding is_some
keep_largest_dominates records rec m =
    let own : key_same (key_of rec) (key_of rec) ≡ true = key_same_refl (key_of rec) in
    let (r, e, larger) = All-get _ records rec (champion-ge (key_of rec) none records) m own in
    let best : lookup (key_of rec) (best_of records) ≡ some r =
      best-champion (key_of rec) records ∙ e in
    let known = (records-Inv records).known (key_of rec) ∙ ap is_some best in
    let (r', e', m', k') = from_key records (key_of rec) known in
    (
      r,
      subst (Memᴰ r) (sym (keep_largest-eq records))
          (found (best_of records) (key_of rec) r (order_of records) best known),
      subst (λ x. key_of x ≡ key_of rec) (ap or_zero (sym e' ∙ best)) k',
      larger,
    )

has-mem : (order : List Key) (k : Key) → Memᴰ k order → has order k ≡ true
unfolding has
has-mem [] k m = elim m [ ]
has-mem (j ∷ order) k (Memᴰ.head e) = rw (← e, key_same_refl k) refl
has-mem (j ∷ order) k (Memᴰ.tail m) = elim (Bool-cases (key_same j k)) [
  | inl t ↦ rw t refl
  | inr f ↦ rw f (has-mem order k m)
]

-- Every key of the order has a best file, which is one of the files given and has that key.
outputs :
    (records : List FileRecord) (order : List Key)
    → ((k : Key) → Memᴰ k order → has (order_of records) k ≡ true)
    → (map key_of (map (λ k. or_zero (lookup k (best_of records))) order) ≡ order)
      × All (λ r. Memᴰ r records) (map (λ k. or_zero (lookup k (best_of records))) order)
outputs records [] h = (refl, tt)
outputs records (k ∷ order) h =
    let (r, e, m, q) = from_key records k (h k (Memᴰ.head refl)) in
    let (keys, members) = outputs records order (λ j n. h j (Memᴰ.tail n)) in
    let out : or_zero (lookup k (best_of records)) ≡ r = ap or_zero e in
    (rw (out, q, keys) refl, (rw out m, members))

-- `KeepLargest` returns files it was given, and no two of the same item.
pub keep_largest-Distinct :
    (records : List FileRecord)
    → All (λ r. Memᴰ r records) (keep_largest records)
      × Distinct (map key_of (keep_largest records))
keep_largest-Distinct records =
    let (keys, members) = outputs records (order_of records) (has-mem (order_of records)) in
    (
      subst (All (λ r. Memᴰ r records)) (sym (keep_largest-eq records)) members,
      subst Distinct (sym (ap (map key_of) (keep_largest-eq records) ∙ keys))
          (records-Inv records).distinct,
    )
