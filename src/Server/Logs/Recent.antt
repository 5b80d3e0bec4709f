-- ===== src/Server/Logs/Recent.antt =====
-- `Lines` gives the most recent lines, newest first.
use warpbox_custom.Prelude.{
  ℕ, ◌+◌, ◌-◌, ◌%◌, ◌<◌, ◌≤◌, ◌≡◌, refl, sym, ap, ◌∙◌, zero, suc, inl, inr, true, false, some, List,
  [], ◌∷◌, Text, arith, if◌then◌else◌, ltb, leb, ◌==◌, Bool-cases, get_elem?, take, drop, take_all,
  min, ltb→lt, length, ℤ,
}
use warpbox_custom.Server.Logs.{Handler, new_handler, handle, index, lines_from, lines, asked}

-- The handler after the lines of a list, the newest first.
abbrev pub after_lines : List Text → Handler
after_lines [] = new_handler
after_lines (line ∷ older) = handle line (after_lines older)

next_index :
    (p i : ℕ)
    → p < 1000
    → suc i < 1000
    → ((p + 1) % 1000 + 999 - suc i) % 1000 ≡ (p + 999 - i) % 1000
next_index p i h k = omega arith

newest_index : (p : ℕ) → p < 1000 → ((p + 1) % 1000 + 999 - 0) % 1000 ≡ p
newest_index p h = omega arith

other_index : (p i : ℕ) → p < 1000 → i + 1 < 1000 → ((p + 999 - i) % 1000 == p) ≡ false
other_index p i h k = ground arith

-- What the buffer holds after the lines.
record Inv (logged : List Text) (h : Handler) : Type 0 where
  position : h.position ≡ length logged % 1000
  full : h.full ≡ leb 1000 (length logged)
  recent : (i : ℕ) → i < length logged → i < 1000 → get_elem? logged i ≡ some (h.buf (index h i))

full_step :
    (p k : ℕ) → p ≡ k % 1000 → (if (p + 1) % 1000 == 0 then true else leb 1000 k) ≡ leb 1000 (suc k)
full_step p k h = ground arith

handle-Inv :
    (line : Text) (logged : List Text) (h : Handler)
    → Inv logged h
    → Inv (line ∷ logged) (handle line h)
unfolding handle
handle-Inv line logged h inv = record {
  position = omega (arith, inv.position);
  full =
      ap (λ b. if (h.position + 1) % 1000 == 0 then true else b) inv.full
      ∙ full_step h.position (length logged) inv.position;
  recent = recent;
}
  where
    below : h.position < 1000
    below = omega (arith, inv.position)

    recent :
        (i : ℕ)
        → i < suc (length logged)
        → i < 1000
        → get_elem? (line ∷ logged) i ≡ some ((handle line h).buf (index (handle line h) i))
    recent zero k l = ap some (
        sym (
          ap (λ b. if b then line else h.buf (index (handle line h) 0))
            (own (newest_index h.position below))))
      where
        own : index (handle line h) 0 ≡ h.position → (index (handle line h) 0 == h.position) ≡ true
        own e = ground (arith, e)
    recent (suc i) k l =
        let e : index (handle line h) (suc i) ≡ index h i =
          next_index h.position i below (omega arith) in
        let d : (index (handle line h) (suc i) == h.position) ≡ false =
          ap (λ j. j == h.position) e ∙ other_index h.position i below (omega arith) in
        inv.recent i (omega arith) (omega arith)
        ∙ ap some (
            ap h.buf (sym e)
            ∙ sym (ap (λ b. if b then line else h.buf (index (handle line h) (suc i))) d))

-- The buffer holds the most recent lines.
after_lines-Inv : (logged : List Text) → Inv logged (after_lines logged)
after_lines-Inv [] = record {
  position = omega arith;
  full = refl;
  recent = λ i k l. absurd (omega arith);
}
after_lines-Inv (line ∷ older) = handle-Inv line older (after_lines older) (after_lines-Inv older)

take-drop_step :
    (xs : List Text) (i n : ℕ) (x : Text)
    → get_elem? xs i ≡ some x
    → take (suc n) (drop i xs) ≡ x ∷ take n (drop (suc i) xs)
take-drop_step [] i n x h = cc
take-drop_step (y ∷ xs) zero n x h = ap (λ z. z ∷ take n xs) (cc h)
take-drop_step (y ∷ xs) (suc i) n x h = take-drop_step xs i n x h

lines_from-take :
    (logged : List Text) (h : Handler) (i left : ℕ)
    → Inv logged h
    → i + left ≤ length logged
    → i + left ≤ 1000
    → lines_from h i left ≡ take left (drop i logged)
unfolding lines_from
lines_from-take logged h i zero inv k l = refl
lines_from-take logged h i (suc left) inv k l =
    ap (λ rest. h.buf (index h i) ∷ rest)
      (lines_from-take logged h (suc i) left inv (omega arith) (omega arith))
    ∙ sym (
        take-drop_step logged i left (h.buf (index h i)) (inv.recent i (omega arith) (omega arith)))

count_step : (p k : ℕ) → p ≡ k % 1000 → (if leb 1000 k then 1000 else p) ≡ min 1000 k
count_step p k h = ground arith

asked_le : (n : ℤ) → asked n ≤ 1000
asked_le n = ground arith

take_past : (xs : List Text) (m n : ℕ) → length xs ≤ m → length xs ≤ n → take m xs ≡ take n xs
take_past xs m n h k = take_all m xs h ∙ sym (take_all n xs k)

-- The number of lines that `Lines` takes.
taken :
    (count a : ℕ) (logged : List Text)
    → count ≡ min 1000 (length logged)
    → a ≤ 1000
    → take (if ltb count a then count else a) logged ≡ take a logged
taken count a logged c l = elim (Bool-cases (ltb count a)) [
  | inl t ↦
      rw t (
        take_past logged count a (omega (arith, ltb→lt count a t))
          (omega (arith, ltb→lt count a t)))
  | inr f ↦ rw f refl
]

left_le :
    (count a k : ℕ)
    → count ≡ min 1000 k
    → a ≤ 1000
    → (0 + (if ltb count a then count else a) ≤ k) × (0 + (if ltb count a then count else a) ≤ 1000)
left_le count a k c l = (ground arith, ground arith)

-- After any lines, `Lines` gives the newest of them, newest first: as many as it is asked for if
-- that is a number from 1 to 1000, and 1000 if not, or all of them if there are fewer.
pub lines_recent :
    (logged : List Text) (n : ℤ) → lines n (after_lines logged) ≡ take (asked n) logged
unfolding lines
lines_recent logged n =
    let inv = after_lines-Inv logged in
    let h = after_lines logged in
    let count : ℕ = if h.full then 1000 else h.position in
    let fewest : count ≡ min 1000 (length logged) =
      ap (λ b. if b then 1000 else h.position) inv.full
      ∙ count_step h.position (length logged) inv.position in
    let (inside, capped) = left_le count (asked n) (length logged) fewest (asked_le n) in
    lines_from-take logged h 0 (if ltb count (asked n) then count else asked n) inv inside capped
    ∙ taken count (asked n) logged fewest (asked_le n)
