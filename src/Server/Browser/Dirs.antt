-- ===== src/Server/Browser/Dirs.antt =====
-- The map of the directories, in the order of the names.
use warpbox_custom.Prelude.{
  ℕ, ◌+◌, ◌≡◌, ◌≤◌, refl, sym, ap, ◌∙◌, inl, inr, Bool, false, ◌||◌, Option, none, some, List, [],
  ◌∷◌, ◌++◌, map, Text, All, arith, text_eq, text_eq_refl, text_eq→eq, text_eq_instance, lookup,
  insert, pos_part, neg_part, Bool-cases,
}
use warpbox_custom.Server.Listing.{is_listed}
use warpbox_custom.Server.Listing.Entries.{Distinct, text_eq_sym}
use warpbox_custom.Server.Browser.{Item, DirAgg, item_of_dir}

-- The keys of a map, in order, and the sum of the sizes.
abbrev pub keys : List (Text × DirAgg) → List Text
keys = map λ x. x.0

unfoldable pub dirs_sum : List (Text × DirAgg) → ℕ
dirs_sum [] = 0
dirs_sum (x ∷ m) = pos_part x.1.total_size + dirs_sum m

abbrev pub Positive : Item → Type 0
Positive item = neg_part item.size ≡ 0

abbrev pub PositiveDir : Text × DirAgg → Type 0
PositiveDir x = neg_part x.1.total_size ≡ 0

unfoldable pub shown_sum : List Item → ℕ
shown_sum [] = 0
shown_sum (item ∷ items) = pos_part item.size + shown_sum items

pub dirs_sum-append : (m n : List (Text × DirAgg)) → dirs_sum (m ++ n) ≡ dirs_sum m + dirs_sum n
unfolding dirs_sum
dirs_sum-append [] n = omega arith
dirs_sum-append (x ∷ m) n = omega (arith, dirs_sum-append m n)

pub keys-append :
    (m : List (Text × DirAgg)) (x : Text × DirAgg) → keys (m ++ x ∷ []) ≡ keys m ++ x.0 ∷ []
keys-append [] x = refl
keys-append (y ∷ m) x = ap (λ ks. y.0 ∷ ks) (keys-append m x)

pub All-append {ℓ} :
    {A : Type ℓ} (P : A → Type 0) (xs : List A) (x : A) → All P xs → P x → All P (xs ++ x ∷ [])
All-append P [] x h p = (p, tt)
All-append P (y ∷ xs) x h p = (h.0, All-append P xs x h.1 p)

-- A key that is missing.
pub lookup-missing :
    (k : Text) (m : List (Text × DirAgg)) → lookup k m ≡ none → is_listed k (keys m) ≡ false
unfolding lookup is_listed
lookup-missing k [] h = refl
lookup-missing k (x ∷ m) h = elim (Bool-cases (text_eq x.0 k)) [
  | inl t ↦ cc (rw t at h)
  | inr f ↦ rw f (lookup-missing k m (rw f at h))
]

-- What the update of a key that is there does.
pub record Updated (k : Text) (old new : DirAgg) (m m' : List (Text × DirAgg)) : Type 0 where
  pub same_keys : keys m' ≡ keys m
  pub positive : All PositiveDir m → neg_part new.total_size ≡ 0 → All PositiveDir m'
  pub old_positive : All PositiveDir m → neg_part old.total_size ≡ 0
  pub sum : dirs_sum m' + pos_part old.total_size ≡ dirs_sum m + pos_part new.total_size
  pub part : pos_part old.total_size ≤ dirs_sum m

pub insert-Updated :
    (k : Text) (old new : DirAgg) (m : List (Text × DirAgg))
    → lookup k m ≡ some old
    → Updated k old new m (insert k new m)
unfolding lookup insert dirs_sum
insert-Updated k old new [] h = cc
insert-Updated k old new ((j, w) ∷ m) h = elim (Bool-cases (text_eq j k)) [
  | inl t ↦
      let e : ◌≡◌ {A = Option DirAgg} (some w) (some old) = rw (lookup, t) at h in
      let same : w ≡ old = cc e in
      let size : pos_part w.total_size ≡ pos_part old.total_size =
        ap (λ (d : DirAgg). pos_part d.total_size) same in
      rw t (record {
        same_keys = ap (λ q. q ∷ keys m) (sym (text_eq→eq j k t));
        positive = λ all p. (p, all.1);
        old_positive = λ all. sym (ap (λ (d : DirAgg). neg_part d.total_size) same) ∙ all.0;
        sum = omega (arith, size);
        part = omega (arith, size);
      })
  | inr f ↦
      let rest = insert-Updated k old new m (rw (lookup, f) at h) in
      rw f (record {
        same_keys = ap (λ ks. j ∷ ks) rest.same_keys;
        positive = λ all p. (all.0, rest.positive all.1 p);
        old_positive = λ all. rest.old_positive all.1;
        sum = omega (arith, rest.sum);
        part = omega (arith, rest.part);
      })
]

-- The items of the directories.
abbrev pub dir_items : List (Text × DirAgg) → List Text → List Item
dir_items m = map λ name. item_of_dir name (lookup name m)

dir_items_skip :
    (x : Text × DirAgg) (m : List (Text × DirAgg)) (names : List Text)
    → is_listed x.0 names ≡ false
    → dir_items (x ∷ m) names ≡ dir_items m names
unfolding is_listed lookup
dir_items_skip x m [] h = refl
dir_items_skip x m (n ∷ names) h =
    let parts = or_false (text_eq n x.0) (is_listed x.0 names) h in
    let other : text_eq x.0 n ≡ false = text_eq_sym x.0 n ∙ parts.0 in
    rw other (ap (λ rest. item_of_dir n (lookup n m) ∷ rest) (dir_items_skip x m names parts.1))
  where
    or_false : (a b : Bool) → (a || b) ≡ false → (a ≡ false) × (b ≡ false)
    or_false a b e = ground arith

pub dir_items-sum :
    (m : List (Text × DirAgg)) → Distinct (keys m) → shown_sum (dir_items m (keys m)) ≡ dirs_sum m
unfolding shown_sum dirs_sum lookup
dir_items-sum [] d = refl
dir_items-sum (x ∷ m) (out, d) =
    rw (text_eq_refl x.0, dir_items_skip x m (keys m) out) (omega (arith, dir_items-sum m d))

pub dir_items-Positive :
    (m : List (Text × DirAgg))
    → Distinct (keys m)
    → All PositiveDir m
    → All Positive (dir_items m (keys m))
unfolding lookup
dir_items-Positive [] d p = tt
dir_items-Positive (x ∷ m) (out, d) (p, ps) =
    rw (text_eq_refl x.0, dir_items_skip x m (keys m) out) (p, dir_items-Positive m d ps)
