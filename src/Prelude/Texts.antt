-- ===== src/Prelude/Texts.antt =====
-- Go strings as lists of code points, and the functions of Go's `strings` that the program calls.
use Prim.Native.Char.{code}
use Prim.Native.Nat.{ℕ, ◌+◌}
use Prim.Native.String.{String}
use mathlib.Core.Path.{◌≡◌, refl, sym, ap, ◌∙◌}
use mathlib.Core.Logic.{inl, inr}
use mathlib.Core.Bool.{Bool, true, false, ◌&&◌, ◌||◌}
use mathlib.Core.Option.{Option, none, some}
use mathlib.Core.List.{List, [], ◌∷◌, ◌++◌, map}
use native.Mathlib.Omega.{arith}
use warpbox_custom.Prelude.Tests.{leb, ◌==◌, ==_refl, if◌then◌else◌, Option-cases}
use warpbox_custom.Prelude.Lists.{All}

abbrev pub Text : Type 0
Text = List ℕ

-- The code points of a literal.
abbrev pub codes : String → Text
codes String.[] = []
codes (String.◌∷◌ c s) = code c ∷ codes s

abbrev pub slash : ℕ
slash = b'/'

unfoldable pub text_eq : Text → Text → Bool
text_eq [] [] = true
text_eq (a ∷ s) (b ∷ t) = a == b && text_eq s t
text_eq _ _ = false

-- `s == ""`
abbrev pub is_empty : Text → Bool
is_empty [] = true
is_empty (c ∷ s) = false

-- `strings.HasPrefix`
unfoldable pub has_prefix : Text → Text → Bool
has_prefix s [] = true
has_prefix [] (p ∷ ps) = false
has_prefix (c ∷ s) (p ∷ ps) = c == p && has_prefix s ps

-- The text behind a prefix of it.
abbrev pub after : Text → Text → Text
after s [] = s
after [] (p ∷ ps) = []
after (c ∷ s) (p ∷ ps) = after s ps

-- `strings.TrimPrefix`
unfoldable pub trim_prefix : Text → Text → Text
unfolding has_prefix
trim_prefix s p = if has_prefix s p then after s p else s

-- `strings.Contains`
unfoldable pub contains : Text → Text → Bool
unfolding has_prefix
contains [] p = has_prefix [] p
contains (c ∷ s) p = has_prefix (c ∷ s) p || contains s p

-- The parts before and behind the first `c`: `s[:i]` and `s[i+1:]` for `i = IndexByte(s, c)`.
unfoldable pub cut : ℕ → Text → Option (Text × Text)
cut c [] = none
cut c (x ∷ s) =
    let rest = cut c s in
    if x == c
    then some ([], s)
    else elim rest [ none ↦ none | some (before, behind) ↦ some (x ∷ before, behind) ]

-- `strings.ToLower` on ASCII letters.
unfoldable pub to_lower : Text → Text
to_lower = map λ c. if leb b'A' c && leb c b'Z' then c + 32 else c

-- `strings.TrimLeft` of one byte.
unfoldable pub trim_left : ℕ → Text → Text
trim_left c [] = []
trim_left c (x ∷ s) = let rest = trim_left c s in if x == c then rest else x ∷ s

-- `strings.TrimRight` of one byte.
unfoldable pub trim_right : ℕ → Text → Text
trim_right c [] = []
trim_right c (x ∷ s) = let rest = trim_right c s in if x == c && is_empty rest then [] else x ∷ rest

-- `unicode.IsSpace`
unfoldable pub is_space : ℕ → Bool
is_space c =
    leb 9 c && leb c 13
    || c == 32
    || c == 0x85
    || c == 0xa0
    || c == 0x1680
    || leb 0x2000 c && leb c 0x200a
    || c == 0x2028
    || c == 0x2029
    || c == 0x202f
    || c == 0x205f
    || c == 0x3000

abbrev trim_space_left : Text → Text
unfolding is_space
trim_space_left [] = []
trim_space_left (x ∷ s) = let rest = trim_space_left s in if is_space x then rest else x ∷ s

abbrev trim_space_right : Text → Text
unfolding is_space
trim_space_right [] = []
trim_space_right (x ∷ s) =
    let rest = trim_space_right s in if is_space x && is_empty rest then [] else x ∷ rest

-- `strings.TrimSpace`
unfoldable pub trim_space : Text → Text
unfolding is_space
trim_space s = trim_space_right (trim_space_left s)

pub text_eq_refl : (s : Text) → text_eq s s ≡ true
unfolding text_eq
text_eq_refl [] = refl
text_eq_refl (a ∷ s) = ground (arith, text_eq_refl s)

pub text_eq→eq : (s t : Text) → text_eq s t ≡ true → s ≡ t
unfolding text_eq
text_eq→eq [] [] h = refl
text_eq→eq [] (b ∷ t) h = cc
text_eq→eq (a ∷ s) [] h = cc
text_eq→eq (a ∷ s) (b ∷ t) h = ground (arith, text_eq→eq s t)

pub after-append : (p s : Text) → after (p ++ s) p ≡ s
after-append [] s = refl
after-append (c ∷ p) s = after-append p s

pub has_prefix-append : (p s : Text) → has_prefix (p ++ s) p ≡ true
unfolding has_prefix
has_prefix-append [] [] = refl
has_prefix-append [] (c ∷ s) = refl
has_prefix-append (c ∷ p) s = ground (arith, has_prefix-append p s)

pub trim_prefix-append : (p s : Text) → trim_prefix (p ++ s) p ≡ s
unfolding trim_prefix
trim_prefix-append p s = rw (has_prefix-append p s) (after-append p s)

-- A cut gives the parts of the text.
pub cut-eq :
    (c : ℕ) (s before behind : Text) → cut c s ≡ some (before, behind) → s ≡ before ++ c ∷ behind
unfolding cut
cut-eq c [] before behind h = cc
cut-eq c (x ∷ s) before behind h = elim (Option-cases (cut c s)) [
  | inl e ↦ ground arith
  | inr ((a, b), e) ↦ ground (arith, cut-eq c s a b e)
]

abbrev pub Lacks : ℕ → Text → Type 0
Lacks c = All λ x. (x == c) ≡ false

-- The first `c` behind a text without one is where the cut is made.
pub cut-append : (c : ℕ) (p s : Text) → Lacks c p → cut c (p ++ c ∷ s) ≡ some (p, s)
unfolding cut
cut-append c [] s h = rw (==_refl c) refl
cut-append c (x ∷ p) s h = rw (h.0, cut-append c p s h.1) refl

-- A text without `c` is not cut.
pub cut-Lacks : (c : ℕ) (s : Text) → Lacks c s → cut c s ≡ none
unfolding cut
cut-Lacks c [] h = refl
cut-Lacks c (x ∷ s) h = rw (h.0, cut-Lacks c s h.1) refl

-- A text of characters that are no spaces is its own trim.
pub trim_space-eq : (s : Text) → All (λ x. is_space x ≡ false) s → trim_space s ≡ s
unfolding trim_space
trim_space-eq s h = cc (left s h, right s h)
  where
    right : (t : Text) → All (λ x. is_space x ≡ false) t → trim_space_right t ≡ t
    right [] k = refl
    right (x ∷ t) k = rw (k.0, right t k.1) refl

    left : (t : Text) → All (λ x. is_space x ≡ false) t → trim_space_left t ≡ t
    left [] k = refl
    left (x ∷ t) k = rw k.0 refl

-- Two texts with the same first separator have the same parts.
pub cut_unique :
    (c : ℕ) (p q s t : Text) → Lacks c p → Lacks c q → p ++ c ∷ s ≡ q ++ c ∷ t → (p ≡ q) × (s ≡ t)
cut_unique c p q s t hp hq e =
    let same : ◌≡◌ {A = Option (Text × Text)} (some (p, s)) (some (q, t)) =
      sym (cut-append c p s hp) ∙ ap (cut c) e ∙ cut-append c q t hq in
    ground arith

pub is_empty-append : (p q : Text) → is_empty q ≡ false → is_empty (p ++ q) ≡ false
is_empty-append [] q e = e
is_empty-append (y ∷ p) q e = refl

-- A text that ends in no `c` is not trimmed, whatever stands before it.
pub trim_right-append :
    (c : ℕ) (s t : Text) → is_empty t ≡ false → trim_right c t ≡ t → trim_right c (s ++ t) ≡ s ++ t
unfolding trim_right
trim_right-append c [] t n h = h
trim_right-append c (x ∷ s) t n h =
    rw (trim_right-append c s t n h, is_empty-append s t n) (and_false (x == c) (x ∷ (s ++ t)))
  where
    and_false : (b : Bool) (r : Text) → (if b && false then [] else r) ≡ r
    and_false true r = refl
    and_false false r = refl

pub trim_right-Lacks : (c : ℕ) (s : Text) → Lacks c s → trim_right c s ≡ s
unfolding trim_right
trim_right-Lacks c [] h = refl
trim_right-Lacks c (x ∷ s) (first, h) = rw (first, trim_right-Lacks c s h) refl

-- A separator at the end is trimmed.
pub trim_right-end : (c : ℕ) (s : Text) → trim_right c (s ++ c ∷ []) ≡ trim_right c s
unfolding trim_right
trim_right-end c [] = rw (==_refl c) refl
trim_right-end c (x ∷ s) = rw (trim_right-end c s) refl
