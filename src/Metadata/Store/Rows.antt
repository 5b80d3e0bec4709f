-- ===== src/Metadata/Store/Rows.antt =====
-- The rows of the table of files: an upsert at a path, and the look-up of one.
use warpbox_custom.Prelude.{
  ℕ, ◌≡◌, refl, inl, inr, Bool, false, Option, none, some, List, [], ◌∷◌, Text, All, keep, text_eq,
  text_eq_refl, text_eq→eq, Bool-cases, if◌then◌else◌,
}
use warpbox_custom.Metadata.{FileRecord}
use warpbox_custom.Metadata.Store.{find_path, upsert_rows, with_id}

-- No two rows have the same path, as the table's UNIQUE asks.
abbrev pub UniquePaths : List FileRecord → Type 0
UniquePaths [] = Unit
UniquePaths (r ∷ rows) = All (λ x. text_eq r.path x.path ≡ false) rows × UniquePaths rows

text_eq_flip : (s t : Text) → text_eq s t ≡ false → text_eq t s ≡ false
text_eq_flip s t h = elim (Bool-cases (text_eq t s)) [
  | inl e ↦ absurd (cc (text_eq_refl s, rw (text_eq→eq t s e) at h))
  | inr e ↦ e
]

upsert_rows-All :
    (p : Text) (id : ℕ) (f : FileRecord) (rows : List FileRecord)
    → All (λ x. text_eq p x.path ≡ false) rows
    → text_eq p f.path ≡ false
    → All (λ x. text_eq p x.path ≡ false) (upsert_rows id f rows).0
unfolding upsert_rows
upsert_rows-All p id f [] h q = (q, tt)
upsert_rows-All p id f (r ∷ rows) h q = elim (Bool-cases (text_eq r.path f.path)) [
  | inl t ↦ rw t (q, h.1)
  | inr n ↦ rw n (h.0, upsert_rows-All p id f rows h.1 q)
]

pub upsert_rows-UniquePaths :
    (id : ℕ) (f : FileRecord) (rows : List FileRecord)
    → UniquePaths rows
    → UniquePaths (upsert_rows id f rows).0
unfolding upsert_rows
upsert_rows-UniquePaths id f [] u = (tt, tt)
upsert_rows-UniquePaths id f (r ∷ rows) u = elim (Bool-cases (text_eq r.path f.path)) [
  | inl t ↦ rw t (rw (text_eq→eq r.path f.path t) at u)
  | inr n ↦ rw n (upsert_rows-All r.path id f rows u.0 n, upsert_rows-UniquePaths id f rows u.1)
]

-- A row without its id.
abbrev pub without_id : Option FileRecord → Option FileRecord
without_id none = none
without_id (some r) = some (with_id 0 r)

pub find_path-upsert_rows :
    (p : Text) (id : ℕ) (f : FileRecord) (rows : List FileRecord)
    → without_id (find_path p (upsert_rows id f rows).0)
      ≡ (if text_eq f.path p then some (with_id 0 f) else without_id (find_path p rows))
unfolding upsert_rows find_path
find_path-upsert_rows p id f [] = elim (Bool-cases (text_eq f.path p)) [
  | inl t ↦ rw t refl
  | inr n ↦ rw n refl
]
find_path-upsert_rows p id f (r ∷ rows) = elim (Bool-cases (text_eq r.path f.path)) [
  | inl t ↦ elim (Bool-cases (text_eq f.path p)) [
    | inl own ↦ rw (t, find_path, own) refl
    | inr n ↦
        let other : text_eq r.path p ≡ false = rw (text_eq→eq r.path f.path t) n in
        rw (t, find_path, n, other) refl
  ]
  | inr d ↦ elim (Bool-cases (text_eq r.path p)) [
    | inl own ↦
        let q = text_eq→eq r.path p own in
        let n : text_eq f.path p ≡ false = rw q at (text_eq_flip r.path f.path d) in
        rw (d, find_path, own, n) refl
    | inr n ↦ rw (d, find_path, n) (find_path-upsert_rows p id f rows)
  ]
]

-- The row if it passes the test.
abbrev pub only_if : (FileRecord → Bool) → Option FileRecord → Option FileRecord
only_if test none = none
only_if test (some r) = if test r then some r else none

find_path_absent :
    (p : Text) (rows : List FileRecord)
    → All (λ x. text_eq p x.path ≡ false) rows
    → find_path p rows ≡ none
unfolding find_path
find_path_absent p [] h = refl
find_path_absent p (r ∷ rows) h = rw (text_eq_flip p r.path h.0) (find_path_absent p rows h.1)

All-keep :
    (p : Text) (test : FileRecord → Bool) (rows : List FileRecord)
    → All (λ x. text_eq p x.path ≡ false) rows
    → All (λ x. text_eq p x.path ≡ false) (keep test rows)
All-keep p test [] h = tt
All-keep p test (r ∷ rows) h = elim (Bool-cases (test r)) [
  | inl t ↦ rw (keep, t) (h.0, All-keep p test rows h.1)
  | inr f ↦ rw (keep, f) (All-keep p test rows h.1)
]

pub find_path-keep :
    (p : Text) (test : FileRecord → Bool) (rows : List FileRecord)
    → UniquePaths rows
    → find_path p (keep test rows) ≡ only_if test (find_path p rows)
unfolding find_path
find_path-keep p test [] u = refl
find_path-keep p test (r ∷ rows) u = elim (Bool-cases (test r)) [
  | inl t ↦ elim (Bool-cases (text_eq r.path p)) [
    | inl own ↦ rw (keep, t, find_path, own, t) refl
    | inr n ↦ rw (keep, t, find_path, n) (find_path-keep p test rows u.1)
  ]
  | inr f ↦ elim (Bool-cases (text_eq r.path p)) [
    | inl own ↦
        rw (keep, f, own, f)
          (find_path_absent p (keep test rows)
            (All-keep p test rows (rw (text_eq→eq r.path p own) at u.0)))
    | inr n ↦ rw (keep, f, n) (find_path-keep p test rows u.1)
  ]
]

keep-UniquePaths :
    (test : FileRecord → Bool) (rows : List FileRecord)
    → UniquePaths rows
    → UniquePaths (keep test rows)
keep-UniquePaths test [] u = tt
keep-UniquePaths test (r ∷ rows) u = elim (Bool-cases (test r)) [
  | inl t ↦ rw (keep, t) (All-keep r.path test rows u.0, keep-UniquePaths test rows u.1)
  | inr f ↦ rw (keep, f) (keep-UniquePaths test rows u.1)
]
