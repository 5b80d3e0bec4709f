-- ===== src/Server/Sweep/Maps.antt =====
-- Maps up to the order of their entries: deletion, distinct keys, and sorting.
use warpbox_custom.Prelude.{
  ℕ, zero, suc, ◌≡◌, refl, ap, ◌∙◌, subst, inl, inr, Bool, true, false, List, [], ◌∷◌,
  if◌then◌else◌, take, drop, keep, All, Eq, delete, Bool-cases,
}
use mathlib.Core.List.{Permᴰ}
use mathlib.Core.List.Permᴰ
use warpbox_custom.Prelude.Members.{Permᴰ-Memᴰ, All-of_Memᴰ, All-Memᴰ, Memᴰ-keep}
use warpbox_custom.Server.Sweep.{delete_entries}

module _ {K : Type 0} ⦃e : Eq K⦄ where
  beq_sym : (j k : K) → e.beq j k ≡ false → e.beq k j ≡ false
  beq_sym j k h = elim (Bool-cases (e.beq k j)) [
    | inr f ↦ f
    | inl t ↦ let same = e.beq→eq k j t in absurd (cc (h, e.beq_refl j, same))
  ]

module _ {K V : Type 0} ⦃e : Eq K⦄ where
  -- No key stands twice.
  abbrev pub Unique : List (K × V) → Type 0
  Unique [] = Unit
  Unique (x ∷ m) = All (λ y. e.beq y.0 x.0 ≡ false) m × Unique m

  -- An entry that is deleted or stays, and two of them.
  put :
      {m n : List (K × V)} (b : Bool) (x : K × V)
      → Permᴰ m n
      → Permᴰ (if b then m else x ∷ m) (if b then n else x ∷ n)
  put true x p = p
  put false x p = Permᴰ.cons refl p

  put_both :
      (b c : Bool) (x y : K × V) (l : List (K × V))
      → Permᴰ
          (if b then (if c then l else y ∷ l) else x ∷ (if c then l else y ∷ l))
          (if c then (if b then l else x ∷ l) else y ∷ (if b then l else x ∷ l))
  put_both true true x y l = Permᴰ.refl l
  put_both true false x y l = Permᴰ.refl (y ∷ l)
  put_both false true x y l = Permᴰ.refl (x ∷ l)
  put_both false false x y l = Permᴰ.swap refl refl

  delete-Permᴰ : {m n : List (K × V)} (k : K) → Permᴰ m n → Permᴰ (delete k m) (delete k n)
  unfolding delete
  delete-Permᴰ k Permᴰ.nil = Permᴰ.nil
  delete-Permᴰ k (Permᴰ.cons {a} {b} {l₁} {l₂} same p) =
      subst (λ (z : K × V). Permᴰ (delete k (a ∷ l₁)) (delete k (z ∷ l₂))) same
        (put (e.beq a.0 k) a (delete-Permᴰ k p))
  delete-Permᴰ k (Permᴰ.swap {a} {b} {a'} {b'} {l} same same') =
      subst (λ (z : K × V). Permᴰ (delete k (a ∷ b ∷ l)) (delete k (a' ∷ z ∷ l))) same
        (subst (λ (z : K × V). Permᴰ (delete k (a ∷ b ∷ l)) (delete k (z ∷ a ∷ l))) same'
          (put_both (e.beq a.0 k) (e.beq b.0 k) a b (delete k l)))
  delete-Permᴰ k (Permᴰ.trans p q) = Permᴰ.trans (delete-Permᴰ k p) (delete-Permᴰ k q)

  pub delete_entries-Permᴰ :
      (xs : List (K × V)) {m n : List (K × V)}
      → Permᴰ m n
      → Permᴰ (delete_entries xs m) (delete_entries xs n)
  unfolding delete_entries
  delete_entries-Permᴰ [] p = p
  delete_entries-Permᴰ (x ∷ xs) p = delete_entries-Permᴰ xs (delete-Permᴰ x.0 p)

  delete_missing : (k : K) (m : List (K × V)) → All (λ y. e.beq y.0 k ≡ false) m → delete k m ≡ m
  unfolding delete
  delete_missing k [] h = refl
  delete_missing k (y ∷ m) (other, h) = rw other (ap (λ rest. y ∷ rest) (delete_missing k m h))

  delete_first : (x : K × V) (m : List (K × V)) → Unique (x ∷ m) → delete x.0 (x ∷ m) ≡ m
  unfolding delete
  delete_first x m u = rw (e.beq_refl x.0) (delete_missing x.0 m u.0)

  -- The first entries, deleted, leave the others.
  pub delete_entries-take :
      (n : ℕ) (m : List (K × V)) → Unique m → delete_entries (take n m) m ≡ drop n m
  unfolding delete_entries
  delete_entries-take zero m u = refl
  delete_entries-take (suc n) [] u = refl
  delete_entries-take (suc n) (x ∷ m) u =
      ap (delete_entries (take n m)) (delete_first x m u) ∙ delete_entries-take n m u.1

  All-Permᴰ : (P : K × V → Type 0) {m n : List (K × V)} → Permᴰ m n → All P m → All P n
  All-Permᴰ P {m} {n} p h =
      All-of_Memᴰ P n (λ x there. All-Memᴰ P m x h (Permᴰ-Memᴰ (Permᴰ.symm p) there))

  pub Unique-Permᴰ : {m n : List (K × V)} → Permᴰ m n → Unique m → Unique n
  Unique-Permᴰ Permᴰ.nil u = u
  Unique-Permᴰ (Permᴰ.cons {a} {b} {l₁} {l₂} same p) (out, u) = (
    subst (λ (z : K × V). All (λ y. e.beq y.0 z.0 ≡ false) l₂) same
        (All-Permᴰ (λ y. e.beq y.0 a.0 ≡ false) p out),
    Unique-Permᴰ p u,
  )
  Unique-Permᴰ (Permᴰ.swap {a} {b} {a'} {b'} {l} same same') ((other, out), (out', u)) =
      subst (λ (z : K × V). Unique (a' ∷ z ∷ l)) same
        (subst (λ (z : K × V). Unique (z ∷ a ∷ l)) same' ((beq_sym b.0 a.0 other, out'), (out, u)))
  Unique-Permᴰ (Permᴰ.trans p q) u = Unique-Permᴰ q (Unique-Permᴰ p u)

  pub Unique-keep : (p : K × V → Bool) (m : List (K × V)) → Unique m → Unique (keep p m)
  Unique-keep p [] u = tt
  Unique-keep p (x ∷ m) (out, u) = elim (Bool-cases (p x)) [
    | inr f ↦ rw (keep, f) (Unique-keep p m u)
    | inl t ↦
        rw (keep, t)
          (
            All-of_Memᴰ (λ y. e.beq y.0 x.0 ≡ false) (keep p m)
                (λ y h. All-Memᴰ (λ z. e.beq z.0 x.0 ≡ false) m y out (Memᴰ-keep p m y h).0),
            Unique-keep p m u,
          )
  ]
