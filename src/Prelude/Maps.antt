-- ===== src/Prelude/Maps.antt =====
-- Go maps as association lists: at most one entry for each key once built by `insert`.
use mathlib.Core.Path.{◌≡◌, refl, ap}
use mathlib.Core.Logic.{inl, inr}
use mathlib.Core.Bool.{Bool, true, false}
use mathlib.Core.Option.{Option, none, some}
use mathlib.Core.List.{List, [], ◌∷◌, ◌++◌, Memᴰ}
use Prim.Native.Nat.{ℕ}
use warpbox_custom.Prelude.Tests.{◌==◌, ==→eq, ==_refl, if◌then◌else◌, Bool-cases}
use warpbox_custom.Prelude.Texts.{Text, text_eq, text_eq_refl, text_eq→eq}

-- Go's `==` on a comparable type.
pub record Eq {ℓ} (A : Type ℓ) : Type ℓ where
  pub beq : A → A → Bool
  pub beq_refl : (a : A) → beq a a ≡ true
  pub beq→eq : (a b : A) → beq a b ≡ true → a ≡ b

instance abbrev pub nat_eq : Eq ℕ
nat_eq = record { beq = ◌==◌; beq_refl = ==_refl; beq→eq = ==→eq }

instance abbrev pub text_eq_instance : Eq Text
text_eq_instance = record { beq = text_eq; beq_refl = text_eq_refl; beq→eq = text_eq→eq }

module _ {ℓ κ} {K : Type ℓ} {V : Type κ} ⦃e : Eq K⦄ where
  unfoldable pub lookup : K → List (K × V) → Option V
  lookup k [] = none
  lookup k ((j, v) ∷ m) = let rest = lookup k m in if e.beq j k then some v else rest

  unfoldable pub insert : K → V → List (K × V) → List (K × V)
  insert k v [] = (k, v) ∷ []
  insert k v ((j, w) ∷ m) =
      let rest = insert k v m in if e.beq j k then (k, v) ∷ m else (j, w) ∷ rest

  unfoldable pub delete : K → List (K × V) → List (K × V)
  delete k [] = []
  delete k ((j, w) ∷ m) = let rest = delete k m in if e.beq j k then rest else (j, w) ∷ rest

  pub lookup-insert_self : (k : K) (v : V) (m : List (K × V)) → lookup k (insert k v m) ≡ some v
  unfolding lookup insert
  lookup-insert_self k v [] = rw (e.beq_refl k) refl
  lookup-insert_self k v ((j, w) ∷ m) = elim (Bool-cases (e.beq j k)) [
    | inl t ↦ rw (t, lookup, e.beq_refl k) refl
    | inr f ↦ rw (f, lookup, f) (lookup-insert_self k v m)
  ]

  pub lookup-insert_ne :
      (k j : K) (v : V) (m : List (K × V))
      → e.beq k j ≡ false
      → lookup j (insert k v m) ≡ lookup j m
  unfolding lookup insert
  lookup-insert_ne k j v [] h = rw h refl
  lookup-insert_ne k j v ((i, w) ∷ m) h = elim (Bool-cases (e.beq i k)) [
    | inl t ↦
        let same = e.beq→eq i k t in
        let other : e.beq i j ≡ false = rw same h in rw (t, lookup, h, other) refl
    | inr f ↦ elim (Bool-cases (e.beq i j)) [
      | inl t ↦ rw (f, lookup, t) refl
      | inr g ↦ rw (f, lookup, g) (lookup-insert_ne k j v m h)
    ]
  ]

  pub lookup-delete_self : (k : K) (m : List (K × V)) → lookup k (delete k m) ≡ none
  unfolding lookup delete
  lookup-delete_self k [] = refl
  lookup-delete_self k ((j, w) ∷ m) = elim (Bool-cases (e.beq j k)) [
    | inl t ↦ rw (t, lookup) (lookup-delete_self k m)
    | inr f ↦ rw (f, lookup, f) (lookup-delete_self k m)
  ]

  pub lookup-delete_ne :
      (k j : K) (m : List (K × V)) → e.beq k j ≡ false → lookup j (delete k m) ≡ lookup j m
  unfolding lookup delete
  lookup-delete_ne k j [] h = refl
  lookup-delete_ne k j ((i, w) ∷ m) h = elim (Bool-cases (e.beq i k)) [
    | inl t ↦
        let same = e.beq→eq i k t in
        let other : e.beq i j ≡ false = rw same h in
        rw (t, lookup, other) (lookup-delete_ne k j m h)
    | inr f ↦ elim (Bool-cases (e.beq i j)) [
      | inl t ↦ rw (f, lookup, t) refl
      | inr g ↦ rw (f, lookup, g) (lookup-delete_ne k j m h)
    ]
  ]

  pub insert_new :
      (k : K) (v : V) (m : List (K × V)) → lookup k m ≡ none → insert k v m ≡ m ++ (k, v) ∷ []
  unfolding lookup insert
  insert_new k v [] h = refl
  insert_new k v ((j, w) ∷ m) h = elim (Bool-cases (e.beq j k)) [
    | inl t ↦ cc
    | inr f ↦ rw f (ap (λ rest. (j, w) ∷ rest) (insert_new k v m (rw f at h)))
  ]

  pub lookup-Mem : (k : K) (v : V) (m : List (K × V)) → lookup k m ≡ some v → Memᴰ (k, v) m
  unfolding lookup
  lookup-Mem k v [] h = cc
  lookup-Mem k v ((j, w) ∷ m) h = elim (Bool-cases (e.beq j k)) [
    | inl t ↦
        let same = e.beq→eq j k t in
        let value : ◌≡◌ {A = Option V} (some w) (some v) = rw t at h in Memᴰ.head (cc (same, value))
    | inr f ↦ Memᴰ.tail (lookup-Mem k v m (rw f at h))
  ]
