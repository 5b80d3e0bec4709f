-- ===== src/Server/Range/Header.antt =====
-- The Range header that is sent to the CDN reads back as the range it was written for.
use warpbox_custom.Prelude.{
  ℕ, ◌+◌, ◌-◌, ◌≤◌, ◌<◌, ◌≡◌, ◌≢◌, refl, false, some, [], ◌∷◌, arith, Text, is_empty, ℤ, pos,
  parse_int, format, ok, two63, digits-Lacks, AllDigits-format, parse_int-format, format-ne-nil,
  ◌∙◌,
}
use warpbox_custom.Server.Range.{HttpRange, parse_range, parse_explicit, check_bounds, range_header}
use warpbox_custom.Server.Range.Bounds.{parse_range-cut, trim_space-format}

check_within :
    (n i j : ℕ)
    → n < two63
    → i ≤ j
    → j < n
    → check_bounds (pos i) (pos j) (pos n)
      ≡ ok (record { start = pos i; stop = pos j; size = pos (j - i + 1) })
unfolding check_bounds
check_within n i j h l b = ground arith

parse_explicit-int :
    (a b : Text) (size start stop : ℤ)
    → is_empty b ≡ false
    → parse_int a ≡ some start
    → parse_int b ≡ some stop
    → parse_explicit a b size ≡ check_bounds start stop size
unfolding parse_explicit
parse_explicit-int a b size start stop t e f = rw (e, t, f) refl

is_empty-format : (n : ℕ) → is_empty (format n) ≡ false
is_empty-format n = go (format n) (format-ne-nil n)
  where
    go : (s : Text) → s ≢ [] → is_empty s ≡ false
    go [] h = absurd (h refl)
    go (c ∷ s) h = refl

-- The Range header that is sent to the CDN for a range of a file of fewer than 2 ^ 63 bytes reads
-- back as that range.
pub parse_range-range_header :
    (n i j : ℕ)
    → n < two63
    → i ≤ j
    → j < n
    → let r : HttpRange = record { start = pos i; stop = pos j; size = pos (j - i + 1) } in
      parse_range (range_header r) (pos n) ≡ ok r
unfolding range_header
parse_range-range_header n i j h l b =
    parse_range-cut (format i) (format j) (pos n)
      (digits-Lacks b'-' (format i) refl (AllDigits-format i))
    ∙ rw (trim_space-format i, trim_space-format j, is_empty-format i)
        (parse_explicit-int (format i) (format j) (pos n) (pos i) (pos j) (is_empty-format j)
            (parse_int-format i (omega arith)) (parse_int-format j (omega arith))
          ∙ check_within n i j h l b)
