-- ===== src/Server/Logs.antt =====
-- internal/server/logs.go: the ring buffer of log lines. The line that a record is formatted to is
-- an argument, and the wrapped handler, which gets the record too, is left out.
pub mod Recent
mod Tests
use warpbox_custom.Prelude.{
  ℕ, ◌+◌, ◌-◌, ◌%◌, zero, suc, Bool, true, false, ◌||◌, List, [], ◌∷◌, Text, if◌then◌else◌, ltb,
  ◌==◌, ℤ, pos, pos_part, leb_ℤ, ltb_ℤ,
}

abbrev pub ring_buffer_capacity : ℕ
ring_buffer_capacity = 1000

-- `ringBufferHandler`: the array gives the line at an index, empty at first.
pub record Handler : Type 0 where
  pub buf : ℕ → Text
  pub position : ℕ
  pub full : Bool

-- Go's zero value of the handler.
abbrev pub new_handler : Handler
new_handler = record { buf = λ i. []; position = 0; full = false }

-- `Handle`, up to the wrapped handler.
unfoldable pub handle : Text → Handler → Handler
handle line h =
    let next = (h.position + 1) % ring_buffer_capacity in
    record {
      buf = λ i. if i == h.position then line else h.buf i;
      position = next;
      full = if next == 0 then true else h.full;
    }

-- `WithAttrs` and `WithGroup` copy the buffer.
abbrev pub with_inner : Handler → Handler
with_inner h = record { buf = h.buf; position = h.position; full = h.full }

-- The index of the `i`-th line from the newest. The source's sum is never negative, as `i` is below
-- the capacity, so that its loop never breaks.
abbrev pub index : Handler → ℕ → ℕ
index h i = (h.position + (ring_buffer_capacity - 1) - i) % ring_buffer_capacity

-- The loop of `Lines` from `i` on, with the number of lines left.
unfoldable pub lines_from : Handler → (i left : ℕ) → List Text
lines_from h i zero = []
lines_from h i (suc left) = h.buf (index h i) ∷ lines_from h (suc i) left

-- The number of lines that `Lines` is asked for, with its default.
abbrev pub asked : ℤ → ℕ
asked n =
    if leb_ℤ n (pos 0) || ltb_ℤ (pos ring_buffer_capacity) n
    then ring_buffer_capacity
    else pos_part n

unfoldable pub lines : ℤ → Handler → List Text
unfolding lines_from
lines n h =
    let count = if h.full then ring_buffer_capacity else h.position in
    lines_from h 0 (if ltb count (asked n) then count else asked n)
