-- ===== src/Server/Range/Tests.antt =====
-- Ranges at concrete headers, and the theorems there.
use warpbox_custom.Prelude.{
  ◌-◌, ◌+◌, ◌≡◌, refl, arith, codes, pos, ok, err, has_prefix, trim_prefix, cut, trim_space,
  parse_int,
}
use warpbox_custom.Server.Range.{parse_range, check_bounds, HttpRange, RangeError, range_header}
use warpbox_custom.Server.Range.Bounds.{InBounds, parse_range-InBounds}
use warpbox_custom.Server.Range.Header.{parse_range-range_header}

abbrev first_half : HttpRange
first_half = record { start = pos 0; stop = pos 4; size = pos 5 }

parse_first_half : parse_range (codes "bytes=0-4") (pos 10) ≡ ok first_half
unfolding parse_range check_bounds has_prefix trim_prefix cut trim_space parse_int
parse_first_half = refl

parse_open_end :
    parse_range (codes "bytes=5-") (pos 10)
    ≡ ok (record { start = pos 5; stop = pos 9; size = pos 5 })
unfolding parse_range check_bounds has_prefix trim_prefix cut trim_space parse_int
parse_open_end = refl

past_the_end :
    parse_range (codes "bytes=5-10") (pos 10)
    ≡ err (RangeError.out_of_bounds (pos 5) (pos 10) (pos 10))
unfolding parse_range check_bounds has_prefix trim_prefix cut trim_space parse_int
past_the_end = refl

two_ranges : parse_range (codes "bytes=0-1,3-4") (pos 10) ≡ err RangeError.invalid_end
unfolding parse_range check_bounds has_prefix trim_prefix cut trim_space parse_int
two_ranges = refl

parse_range-InBounds_example : InBounds 10 first_half
unfolding trim_space
parse_range-InBounds_example =
    parse_range-InBounds 10 (codes "0") (codes "4") first_half (omega arith) (refl, tt) refl
      parse_first_half

parse_range-range_header_example :
    let r : HttpRange = record { start = pos 2; stop = pos 5; size = pos (5 - 2 + 1) } in
    parse_range (range_header r) (pos 10) ≡ ok r
parse_range-range_header_example =
    parse_range-range_header 10 2 5 (omega arith) (omega arith) (omega arith)
