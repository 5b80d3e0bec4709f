-- ===== src/Prelude/Decimals.antt =====
-- Decimal print and parse: Go's `%d` and `strconv.ParseInt(s, 10, 64)`.
use Prim.Native.Nat.{ℕ, zero, suc, ◌+◌, ◌-◌, ◌*◌, ◌/◌, ◌%◌, ◌≤◌, ◌<◌}
use mathlib.Core.Path.{◌≡◌, refl, sym, ap, ◌∙◌}
use mathlib.Core.Logic.{◌≢◌}
use mathlib.Core.Bool.{Bool, true, false, ◌&&◌}
use mathlib.Core.List.{[], ◌∷◌}
use mathlib.Core.Option.{Option, none, some}
use native.Mathlib.Omega.{arith}
use warpbox_custom.Prelude.Tests.{ltb, leb, ◌==◌, if◌then◌else◌}
use warpbox_custom.Prelude.Lists.{All}
use warpbox_custom.Prelude.Texts.{Text, Lacks, is_space}
use warpbox_custom.Prelude.Int.{ℤ, pos, negsuc}

-- Each round puts the last digit of `n` in front; fuel `n` is enough.
digits : ℕ → ℕ → Text → Text
digits zero n out = out
digits (suc f) n out =
    let more = digits f (n / 10) ((b'0' + n % 10) ∷ out) in if n == 0 then out else more

unfoldable pub format : ℕ → Text
unfolding digits
format n = if n == 0 then b'0' ∷ [] else digits n n []

abbrev pub is_digit : ℕ → Bool
is_digit c = leb b'0' c && leb c b'9'

-- The number that digits spell behind `n`.
scan : Text → ℕ → Option ℕ
scan [] n = some n
scan (c ∷ s) n = let more = scan s (n * 10 + (c - b'0')) in if is_digit c then more else none

abbrev pub two63 : ℕ
two63 = 9_223_372_036_854_775_808

unfoldable pub parse_digits : Text → Option ℕ
unfolding scan
parse_digits [] = none
parse_digits (c ∷ s) = scan (c ∷ s) 0

abbrev pub as_positive : Option ℕ → Option ℤ
as_positive none = none
as_positive (some n) = if ltb n two63 then some (pos n) else none

abbrev pub as_negative : Option ℕ → Option ℤ
as_negative none = none
as_negative (some zero) = some (pos 0)
as_negative (some (suc n)) = if ltb n two63 then some (negsuc n) else none

-- `strconv.ParseInt(s, 10, 64)`; `none` is its error.
unfoldable pub parse_int : Text → Option ℤ
unfolding parse_digits
parse_int [] = none
parse_int (c ∷ s) =
    if c == b'-'
    then as_negative (parse_digits s)
    else if c == b'+'
    then as_positive (parse_digits s)
    else as_positive (parse_digits (c ∷ s))

abbrev pub AllDigits : Text → Type 0
AllDigits = All λ c. is_digit c ≡ true

-- Reading the last digit of `n` behind the digits before it gives `n`.
scan_last : (n : ℕ) (out : Text) → scan ((b'0' + n % 10) ∷ out) (n / 10) ≡ scan out n
unfolding scan
scan_last n out = ground arith

scan-digits : (f n : ℕ) (out : Text) → n ≤ f → scan (digits f n out) 0 ≡ scan out n
unfolding digits
scan-digits zero n out h = ground arith
scan-digits (suc f) n out h =
    ground (arith, scan-digits f (n / 10) ((b'0' + n % 10) ∷ out), scan_last n out)

AllDigits-digits : (f n : ℕ) (out : Text) → AllDigits out → AllDigits (digits f n out)
unfolding digits
AllDigits-digits zero n out h = h
AllDigits-digits (suc f) n out h =
    ground (arith, AllDigits-digits f (n / 10) ((b'0' + n % 10) ∷ out))

pub AllDigits-format : (n : ℕ) → AllDigits (format n)
unfolding format
AllDigits-format n = ground (arith, AllDigits-digits n n [] tt)

parse_digits-scan : (s : Text) → s ≢ [] → parse_digits s ≡ scan s 0
unfolding parse_digits
parse_digits-scan [] h = absurd (h refl)
parse_digits-scan (c ∷ s) h = refl

digits-ne-nil : (f n : ℕ) (out : Text) → out ≢ [] → digits f n out ≢ []
unfolding digits
digits-ne-nil zero n out h = h
digits-ne-nil (suc f) n out h = ground (arith, digits-ne-nil f (n / 10) ((b'0' + n % 10) ∷ out))

digits_pos-ne-nil : (f n : ℕ) → 0 < n → n ≤ f → digits f n [] ≢ []
unfolding digits
digits_pos-ne-nil zero n p h = absurd (omega arith)
digits_pos-ne-nil (suc f) n p h = ground (arith, digits-ne-nil f (n / 10) ((b'0' + n % 10) ∷ []))

pub format-ne-nil : (n : ℕ) → format n ≢ []
unfolding format
format-ne-nil n = ground (arith, digits_pos-ne-nil n n)

scan-format : (n : ℕ) → scan (format n) 0 ≡ some n
unfolding format scan
scan-format n = ground (arith, scan-digits n n [])

-- The digits of a number are read back as the number.
pub parse_digits-format : (n : ℕ) → parse_digits (format n) ≡ some n
parse_digits-format n = parse_digits-scan _ (format-ne-nil n) ∙ scan-format n

-- A text of digits has no sign.
parse_int-digits : (s : Text) → AllDigits s → s ≢ [] → parse_int s ≡ as_positive (parse_digits s)
unfolding parse_int
parse_int-digits [] d h = absurd (h refl)
parse_int-digits (c ∷ s) d h = let p = d.0 in ground arith

pub parse_int-format : (n : ℕ) → n < two63 → parse_int (format n) ≡ some (pos n)
parse_int-format n h =
    rw (parse_int-digits _ (AllDigits-format n) (format-ne-nil n), parse_digits-format n)
      (ground arith)

pub parse_int-negative : (n : ℕ) → n < two63 → parse_int (b'-' ∷ format (suc n)) ≡ some (negsuc n)
unfolding parse_int
parse_int-negative n h = rw (parse_digits-format (suc n)) (ground arith)

-- Digits are no dashes and no spaces.
pub digits-Lacks : (c : ℕ) (s : Text) → is_digit c ≡ false → AllDigits s → Lacks c s
digits-Lacks c [] n h = tt
digits-Lacks c (x ∷ s) n h = (ground (arith, h.0), digits-Lacks c s n h.1)

pub digits_no_space : (s : Text) → AllDigits s → All (λ x. is_space x ≡ false) s
digits_no_space [] h = tt
digits_no_space (x ∷ s) h = (one x h.0, digits_no_space s h.1)
  where
    one : (c : ℕ) → is_digit c ≡ true → is_space c ≡ false
    one c d = unfold is_space in ground arith

pub format_injective : (m n : ℕ) → format m ≡ format n → m ≡ n
format_injective m n e =
    let same : some m ≡ some n =
      sym (parse_digits-format m) ∙ ap parse_digits e ∙ parse_digits-format n in
    ground arith
