-- ===== src/Server/Range/Bounds.antt =====
-- What the ranges are that `parseRange` accepts.
use warpbox_custom.Prelude.{
  ℕ, suc, ◌+◌, ◌-◌, ◌≤◌, ◌<◌, ◌≡◌, refl, inl, inr, false, some, [], ◌∷◌, ◌++◌, arith, Text, codes,
  trim_space, is_empty, ℤ, pos, negsuc, ◌-ℤ◌, ◌+ℤ◌, ◌≤ℤ◌, ◌<ℤ◌, parse_int, format, ok, two63,
  has_prefix-append, trim_prefix-append, cut-append, digits_no_space, trim_space-eq,
  AllDigits-format, parse_int-format, parse_int-negative, Option-cases, Bool-cases, dec_le, Lacks,
  is_space, ◌∙◌, if◌then◌else◌, ap, min,
}
use warpbox_custom.Server.Range.{
  HttpRange, parse_range, parse_suffix, parse_explicit, check_bounds, suffix_range,
}

-- A range of bytes of a file of `n` bytes, with its length.
pub record InBounds (n : ℕ) (r : HttpRange) : Type 0 where
  pub from_start : pos 0 ≤ℤ r.start
  pub ordered : r.start ≤ℤ r.stop
  pub to_end : r.stop <ℤ pos n
  pub measured : r.size ≡ r.stop -ℤ r.start +ℤ pos 1

check-InBounds :
    (n : ℕ) (start stop : ℤ) (r : HttpRange)
    → n < two63
    → check_bounds start stop (pos n) ≡ ok r
    → InBounds n r
unfolding check_bounds
check-InBounds n (pos i) (pos j) r h e = ground arith
check-InBounds n (pos i) (negsuc j) r h e = ground arith
check-InBounds n (negsuc i) (pos j) r h e = ground arith
check-InBounds n (negsuc i) (negsuc j) r h e = ground arith

explicit-InBounds :
    (n : ℕ) (a b : Text) (r : HttpRange)
    → n < two63
    → parse_explicit a b (pos n) ≡ ok r
    → InBounds n r
unfolding parse_explicit
explicit-InBounds n a b r h e = elim (Option-cases (parse_int a)) [
  | inl f ↦ ground arith
  | inr (start, f) ↦ elim (Bool-cases (is_empty b)) [
    | inl t ↦ check-InBounds n start _ r h (rw (f, t) at e)
    | inr t ↦ elim (Option-cases (parse_int b)) [
      | inl g ↦ ground arith
      | inr (stop, g) ↦ check-InBounds n start stop r h (rw (f, t, g) at e)
    ]
  ]
]

suffix_range_short :
    (n k : ℕ)
    → n < two63
    → 0 < n
    → n ≤ k
    → suffix_range (pos k) (pos n) ≡ record { start = pos 0; stop = pos (n - 1); size = pos n }
unfolding suffix_range
suffix_range_short n k h p l = ground arith

suffix_range_long :
    (n k : ℕ)
    → n < two63
    → 0 < k
    → k < n
    → suffix_range (pos k) (pos n)
      ≡ record { start = pos (n - k); stop = pos (n - 1); size = pos k }
unfolding suffix_range
suffix_range_long n k h p l = ground arith

-- The natural-number range `from` to `to`.
InBounds-record :
    (n i j k : ℕ)
    → i ≤ j
    → j < n
    → k ≡ j - i + 1
    → InBounds n (record { start = pos i; stop = pos j; size = pos k })
InBounds-record n i j k h l e = record {
  from_start = omega arith;
  ordered = omega arith;
  to_end = omega arith;
  measured = ground arith;
}

suffix_range-InBounds :
    (n k : ℕ) → n < two63 → 0 < n → 0 < k → InBounds n (suffix_range (pos k) (pos n))
suffix_range-InBounds n k h p q = elim (dec_le n k) [
  | yes l ↦
      rw (suffix_range_short n k h p l)
        (InBounds-record n 0 (n - 1) n (omega arith) (omega arith) (omega arith))
  | no l ↦
      rw (suffix_range_long n k h q (omega arith))
        (InBounds-record n (n - k) (n - 1) k (omega arith) (omega arith) (omega arith))
]

suffix_range_negative :
    (n k : ℕ)
    → n + suc k < two63
    → suffix_range (negsuc k) (pos n)
      ≡ record { start = pos (n + suc k); stop = pos n -ℤ pos 1; size = negsuc k }
unfolding suffix_range
suffix_range_negative n k h = ground arith

-- A header is cut at the first dash behind its prefix.
pub parse_range-cut :
    (before behind : Text) (size : ℤ)
    → Lacks b'-' before
    → parse_range (codes "bytes=" ++ (before ++ b'-' ∷ behind)) size ≡ (
        if is_empty (trim_space before)
        then parse_suffix (trim_space behind) size
        else parse_explicit (trim_space before) (trim_space behind) size)
unfolding parse_range
parse_range-cut before behind size l =
    let text = before ++ b'-' ∷ behind in
    rw
      (
        has_prefix-append (codes "bytes=") text,
        trim_prefix-append (codes "bytes=") text,
        cut-append b'-' before behind l,
      )
      refl

-- Where the text between "bytes=" and the first dash is not blank, a range that is accepted for a
-- file of fewer than 2 ^ 63 bytes lies within the file, and its length is that of the range.
pub parse_range-InBounds :
    (n : ℕ) (before behind : Text) (r : HttpRange)
    → n < two63
    → Lacks b'-' before
    → is_empty (trim_space before) ≡ false
    → parse_range (codes "bytes=" ++ (before ++ b'-' ∷ behind)) (pos n) ≡ ok r
    → InBounds n r
parse_range-InBounds n before behind r h l t e =
    explicit-InBounds n (trim_space before) (trim_space behind) r h
      (rw (parse_range-cut before behind (pos n) l, t) at e)

parse_suffix-int :
    (b : Text) (size k : ℤ) → parse_int b ≡ some k → parse_suffix b size ≡ ok (suffix_range k size)
unfolding parse_suffix
parse_suffix-int b size k e = rw e refl

trim_nil : trim_space [] ≡ []
unfolding trim_space
trim_nil = refl

pub trim_space-format : (n : ℕ) → trim_space (format n) ≡ format n
trim_space-format n = trim_space-eq (format n) (digits_no_space (format n) (AllDigits-format n))

-- "bytes=-N" with N > 0 is accepted for a file of 1 to 2 ^ 63 - 1 bytes, lies within the file,
-- ends at the last byte and holds N bytes, or all of them if there are fewer.
parse_range_suffix :
    (n k : ℕ)
    → n < two63
    → 0 < n
    → 0 < k
    → k < two63
    → let r = suffix_range (pos k) (pos n) in
      (parse_range (codes "bytes=-" ++ format k) (pos n) ≡ ok r)
      × InBounds n r
      × (r.stop ≡ pos (n - 1))
      × (r.size ≡ pos (min n k))
parse_range_suffix n k h p q b = (
  parse_range-cut [] (format k) (pos n) tt
      ∙ rw (trim_nil, trim_space-format k)
          (parse_suffix-int (format k) (pos n) (pos k) (parse_int-format k b)),
  suffix_range-InBounds n k h p q,
  last.0,
  last.1,
)
  where
    last :
        ((suffix_range (pos k) (pos n)).stop ≡ pos (n - 1))
        × ((suffix_range (pos k) (pos n)).size ≡ pos (min n k))
    last = elim (dec_le n k) [
      | yes l ↦ rw (suffix_range_short n k h p l) (refl, ap pos (omega arith))
      | no l ↦ rw (suffix_range_long n k h q (omega arith)) (refl, ap pos (omega arith))
    ]

-- "bytes=--N" with N > 0 is accepted too: the range starts N bytes past the end of the file, ends
-- before its start, and its length is -N.
parse_range_negative_suffix :
    (n k : ℕ)
    → n + suc k < two63
    → parse_range (codes "bytes=--" ++ format (suc k)) (pos n)
      ≡ ok (record { start = pos (n + suc k); stop = pos n -ℤ pos 1; size = negsuc k })
parse_range_negative_suffix n k h =
    parse_range-cut [] (b'-' ∷ format (suc k)) (pos n) tt
    ∙ rw
        (
          trim_nil,
          trim_space-eq (b'-' ∷ format (suc k))
              (unfold is_space in refl, digits_no_space _ (AllDigits-format (suc k))),
        )
        (parse_suffix-int _ (pos n) (negsuc k) (parse_int-negative k (omega arith))
          ∙ ap ok (suffix_range_negative n k h))
