-- ===== src/Prelude/Members.antt =====
-- Membership and permutations of lists: tests, slices and predicates.
use Prim.Native.Nat.{ℕ, zero, suc}
use mathlib.Core.Path.{◌≡◌, refl, sym, ap, ◌∙◌, subst}
use mathlib.Core.Logic.{◌⊎◌, inl, inr}
use mathlib.Core.Bool.{Bool, true, false}
use mathlib.Core.List.{List, [], ◌∷◌, Memᴰ, Permᴰ}
use mathlib.Core.List.Memᴰ
use mathlib.Core.List.Permᴰ
use native.Mathlib.Omega.{arith}
use warpbox_custom.Prelude.Tests.{Bool-cases}
use warpbox_custom.Prelude.Lists.{length, take, drop, keep, All}

module _ {A : Type 0} where
  pub Permᴰ-length : {m n : List A} → Permᴰ m n → length m ≡ length n
  Permᴰ-length Permᴰ.nil = refl
  Permᴰ-length (Permᴰ.cons e p) = ap suc (Permᴰ-length p)
  Permᴰ-length (Permᴰ.swap e f) = refl
  Permᴰ-length (Permᴰ.trans p q) = Permᴰ-length p ∙ Permᴰ-length q

  pub Permᴰ-Memᴰ : {m n : List A} {x : A} → Permᴰ m n → Memᴰ x m → Memᴰ x n
  Permᴰ-Memᴰ Permᴰ.nil h = h
  Permᴰ-Memᴰ (Permᴰ.cons e p) (Memᴰ.head q) = Memᴰ.head (q ∙ e)
  Permᴰ-Memᴰ (Permᴰ.cons e p) (Memᴰ.tail h) = Memᴰ.tail (Permᴰ-Memᴰ p h)
  Permᴰ-Memᴰ (Permᴰ.swap e f) (Memᴰ.head q) = Memᴰ.tail (Memᴰ.head (q ∙ e))
  Permᴰ-Memᴰ (Permᴰ.swap e f) (Memᴰ.tail (Memᴰ.head q)) = Memᴰ.head (q ∙ f)
  Permᴰ-Memᴰ (Permᴰ.swap e f) (Memᴰ.tail (Memᴰ.tail h)) = Memᴰ.tail (Memᴰ.tail h)
  Permᴰ-Memᴰ (Permᴰ.trans p q) h = Permᴰ-Memᴰ q (Permᴰ-Memᴰ p h)

  pub All-of_Memᴰ : (P : A → Type 0) (m : List A) → ((x : A) → Memᴰ x m → P x) → All P m
  All-of_Memᴰ P [] f = tt
  All-of_Memᴰ P (x ∷ m) f = (f x (Memᴰ.head refl), All-of_Memᴰ P m (λ y h. f y (Memᴰ.tail h)))

  pub All-Memᴰ : (P : A → Type 0) (m : List A) (x : A) → All P m → Memᴰ x m → P x
  All-Memᴰ P [] x ps h = elim h [ ]
  All-Memᴰ P (y ∷ m) x (p, ps) (Memᴰ.head e) = subst P (sym e) p
  All-Memᴰ P (y ∷ m) x (p, ps) (Memᴰ.tail h) = All-Memᴰ P m x ps h

  pub take_or_drop : (n : ℕ) (m : List A) (x : A) → Memᴰ x m → Memᴰ x (take n m) ⊎ Memᴰ x (drop n m)
  take_or_drop zero m x h = inr h
  take_or_drop (suc n) [] x h = elim h [ ]
  take_or_drop (suc n) (y ∷ m) x (Memᴰ.head e) = inl (Memᴰ.head e)
  take_or_drop (suc n) (y ∷ m) x (Memᴰ.tail h) = elim (take_or_drop n m x h) [
    | inl before ↦ inl (Memᴰ.tail before)
    | inr behind ↦ inr behind
  ]

  pub Memᴰ-drop : (n : ℕ) (m : List A) (x : A) → Memᴰ x (drop n m) → Memᴰ x m
  Memᴰ-drop zero m x h = h
  Memᴰ-drop (suc n) [] x h = h
  Memᴰ-drop (suc n) (y ∷ m) x h = Memᴰ.tail (Memᴰ-drop n m x h)

  pub Memᴰ-keep : (p : A → Bool) (m : List A) (x : A) → Memᴰ x (keep p m) → Memᴰ x m × (p x ≡ true)
  Memᴰ-keep p [] x h = elim h [ ]
  Memᴰ-keep p (y ∷ m) x h = elim (Bool-cases (p y)) [
    | inr f ↦ let (there, ok) = Memᴰ-keep p m x (rw (keep, f) at h) in (Memᴰ.tail there, ok)
    | inl t ↦ elim (Memᴰ.cases_cons (rw (keep, t) at h)) [
      | inl e ↦ (Memᴰ.head e, ap p e ∙ t)
      | inr later ↦ let (there, ok) = Memᴰ-keep p m x later in (Memᴰ.tail there, ok)
    ]
  ]

  pub Memᴰ-keep_of : (p : A → Bool) (m : List A) (x : A) → Memᴰ x m → p x ≡ true → Memᴰ x (keep p m)
  Memᴰ-keep_of p [] x h ok = elim h [ ]
  Memᴰ-keep_of p (y ∷ m) x (Memᴰ.head e) ok =
      let kept : p y ≡ true = ap p (sym e) ∙ ok in rw (keep, kept) (Memᴰ.head e)
  Memᴰ-keep_of p (y ∷ m) x (Memᴰ.tail h) ok = elim (Bool-cases (p y)) [
    | inl t ↦ rw (keep, t) (Memᴰ.tail (Memᴰ-keep_of p m x h ok))
    | inr f ↦ rw (keep, f) (Memᴰ-keep_of p m x h ok)
  ]

  pub Permᴰ-keep : (p : A → Bool) {m n : List A} → Permᴰ m n → Permᴰ (keep p m) (keep p n)
  Permᴰ-keep p Permᴰ.nil = Permᴰ.nil
  Permᴰ-keep p (Permᴰ.cons {a} {b} e h) = elim (Bool-cases (p a)) [
    | inl t ↦
        let t' : p b ≡ true = ap p (sym e) ∙ t in rw (keep, t, t') (Permᴰ.cons e (Permᴰ-keep p h))
    | inr f ↦ let f' : p b ≡ false = ap p (sym e) ∙ f in rw (keep, f, f') (Permᴰ-keep p h)
  ]
  Permᴰ-keep p (Permᴰ.swap {a} {b} {a'} {b'} {l} e f) = elim (Bool-cases (p a)) [
    | inl t ↦
        let t' : p b' ≡ true = ap p (sym e) ∙ t in
        elim (Bool-cases (p b)) [
          | inl u ↦
              let u' : p a' ≡ true = ap p (sym f) ∙ u in rw (keep, t, u, u', t') (Permᴰ.swap e f)
          | inr u ↦
              let u' : p a' ≡ false = ap p (sym f) ∙ u in
              rw (keep, t, u, u', t') (Permᴰ.cons e (Permᴰ.refl (keep p l)))
        ]
    | inr t ↦
        let t' : p b' ≡ false = ap p (sym e) ∙ t in
        elim (Bool-cases (p b)) [
          | inl u ↦
              let u' : p a' ≡ true = ap p (sym f) ∙ u in
              rw (keep, t, u, u', t') (Permᴰ.cons f (Permᴰ.refl (keep p l)))
          | inr u ↦
              let u' : p a' ≡ false = ap p (sym f) ∙ u in
              rw (keep, t, u, u', t') (Permᴰ.refl (keep p l))
        ]
  ]
  Permᴰ-keep p (Permᴰ.trans g h) = Permᴰ.trans (Permᴰ-keep p g) (Permᴰ-keep p h)

  pub Permᴰ-singleton : (m : List A) (y : A) → Permᴰ m (y ∷ []) → m ≡ y ∷ []
  Permᴰ-singleton [] y h = absurd (omega (arith, Permᴰ-length h))
  Permᴰ-singleton (x ∷ []) y h =
      ap (λ z. z ∷ []) (Memᴰ.eq_of_singleton (Permᴰ-Memᴰ h (Memᴰ.head refl)))
  Permᴰ-singleton (x ∷ x' ∷ m) y h = absurd (omega (arith, Permᴰ-length h))
