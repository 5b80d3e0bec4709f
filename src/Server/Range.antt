-- ===== src/Server/Range.antt =====
-- `parseRange` of internal/server/get.go, and the Range headers that the handlers write.
-- The numbers are int64, whose arithmetic wraps around.
pub mod Bounds
pub mod Header
mod Tests
use warpbox_custom.Prelude.{
  ℕ, ◌+◌, ◌-◌, ◌%◌, ◌≡◌, refl, Bool, true, false, ◌||◌, Option, none, some, List, [], ◌∷◌, ◌++◌,
  Text, codes, has_prefix, trim_prefix, trim_space, cut, is_empty, ltb, leb, if◌then◌else◌, ℤ, pos,
  negsuc, ◌-ℤ◌, ◌+ℤ◌, ltb_ℤ, leb_ℤ, parse_int, format, Result, ok, err, ◌>>=◌, two63,
}

abbrev pub two64 : ℕ
two64 = 18_446_744_073_709_551_616

-- The int64 that is congruent to an integer modulo 2 ^ 64.
unfoldable pub int64 : ℤ → ℤ
int64 (pos n) = let m = n % two64 in if ltb m two63 then pos m else negsuc (two64 - 1 - m)
int64 (negsuc n) = let m = n % two64 in if ltb m two63 then negsuc m else pos (two64 - 1 - m)

pub record HttpRange : Type 0 where
  pub start : ℤ
  pub stop : ℤ  -- the field `End`
  pub size : ℤ  -- the field `Length`

pub data RangeError : Type 0 where
  empty_range invalid_prefix invalid_format invalid_suffix invalid_start invalid_end : RangeError
  out_of_bounds : ℤ → ℤ → ℤ → RangeError

abbrev pub int_or {ℓ} : {E : Type ℓ} → E → Option ℤ → Result E ℤ
int_or e none = err e
int_or e (some n) = ok n

abbrev pub http_range : ℤ → ℤ → HttpRange
http_range start stop = record {
  start = start;
  stop = stop;
  size = int64 (int64 (stop -ℤ start) +ℤ pos 1);
}

-- The last `suffix_size` bytes.
unfoldable pub suffix_range : (suffix_size file_size : ℤ) → HttpRange
unfolding int64
suffix_range suffix_size file_size =
    if leb_ℤ file_size suffix_size
    then http_range (pos 0) (int64 (file_size -ℤ pos 1))
    else http_range (int64 (file_size -ℤ suffix_size)) (int64 (file_size -ℤ pos 1))

-- "bytes=-N": the branch of an empty start. Its range is not tested against the bounds.
unfoldable pub parse_suffix : Text → ℤ → Result RangeError HttpRange
parse_suffix end_str file_size = do
  suffix_size ← int_or invalid_suffix (parse_int end_str)
  ok (suffix_range suffix_size file_size)

-- The test of the bounds, which only an explicit start reaches.
unfoldable pub check_bounds : (start stop file_size : ℤ) → Result RangeError HttpRange
unfolding int64
check_bounds start stop file_size =
    if ltb_ℤ stop start || ltb_ℤ start (pos 0) || leb_ℤ file_size stop
    then err (out_of_bounds start stop file_size)
    else ok (http_range start stop)

-- "bytes=N-" and "bytes=N-M".
unfoldable pub parse_explicit : Text → Text → ℤ → Result RangeError HttpRange
unfolding int64
parse_explicit start_str end_str file_size = do
  start ← int_or invalid_start (parse_int start_str)
  stop ←
      if is_empty end_str
      then ok (int64 (file_size -ℤ pos 1))
      else int_or invalid_end (parse_int end_str)
  check_bounds start stop file_size

unfoldable pub parse_range : Text → ℤ → Result RangeError HttpRange
unfolding parse_suffix parse_explicit
parse_range rang file_size =
    if is_empty rang
    then err empty_range
    else if has_prefix rang (codes "bytes=")
    then elim (cut b'-' (trim_prefix rang (codes "bytes="))) [
      | none ↦ err invalid_format
      | some (before, behind) ↦
          if is_empty (trim_space before)
          then parse_suffix (trim_space behind) file_size
          else parse_explicit (trim_space before) (trim_space behind) file_size
    ]
    else err invalid_prefix

-- `fmt.Sprintf("%d", n)`
unfoldable pub format_int : ℤ → Text
format_int (pos n) = format n
format_int (negsuc n) = b'-' ∷ format (n + 1)

-- The Range header of the request to the CDN: `fmt.Sprintf("bytes=%d-%d", Start, End)`.
unfoldable pub range_header : HttpRange → Text
unfolding format_int
range_header r = codes "bytes=" ++ (format_int r.start ++ b'-' ∷ format_int r.stop)

-- The Content-Range header of a partial response.
unfoldable pub content_range : HttpRange → ℤ → Text
unfolding format_int
content_range r file_size =
    codes "bytes "
    ++ (format_int r.start ++ b'-' ∷ (format_int r.stop ++ b'/' ∷ format_int file_size))

-- The range that the handlers make up for a request without a Range header.
unfoldable pub full_range : ℤ → HttpRange
unfolding int64
full_range file_size = record { start = pos 0; stop = int64 (file_size -ℤ pos 1); size = file_size }
