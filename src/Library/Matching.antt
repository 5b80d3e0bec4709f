-- ===== src/Library/Matching.antt =====
-- `Apply` shows the matching files: its cache of directories changes nothing.
use warpbox_custom.Prelude.{
  ◌≡◌, refl, sym, ap, ◌∙◌, inl, inr, Bool, true, false, ◌&&◌, some, List, [], ◌∷◌, ◌++◌,
  append_assoc, append-nil, arith, Text, keep, text_eq, text_eq→eq, lookup, text_eq_instance,
  lookup-insert_self, lookup-insert_ne, Option-cases, Bool-cases, if◌then◌else◌, All, map, ◌≤ℤ◌,
}
use mathlib.Core.List.{Memᴰ}
use warpbox_custom.Metadata.{FileRecord}
use warpbox_custom.Library.Outputs.{keep_largest_dominates, keep_largest-Distinct, Distinct}
use warpbox_custom.Library.{
  Filter, match_directory, match_file, match_cached, extract_directory, extract_relative_path,
  apply_loop, apply, keep_largest, key_of,
}

-- The file is shown: its directory and its path within it match.
abbrev pub shows : Filter → FileRecord → Bool
shows f rec =
    match_directory f (extract_directory rec.path) && match_file f (extract_relative_path rec.path)

-- The cache holds only what `MatchDirectory` answers.
abbrev Truthful : Filter → List (Text × Bool) → Type 0
Truthful f cache = (dir : Text) (b : Bool) → lookup dir cache ≡ some b → b ≡ match_directory f dir

match_cached-answer :
    (f : Filter) (dir : Text) (cache : List (Text × Bool))
    → Truthful f cache
    → (match_cached f dir cache).0 ≡ match_directory f dir
unfolding match_cached
match_cached-answer f dir cache t = elim (Option-cases (lookup dir cache)) [
  | inl e ↦ rw (e, match_cached) refl
  | inr (b, e) ↦ rw (e, match_cached) (t dir b e)
]

match_cached-Truthful :
    (f : Filter) (dir : Text) (cache : List (Text × Bool))
    → Truthful f cache
    → Truthful f (match_cached f dir cache).1
unfolding match_cached
match_cached-Truthful f dir cache t = elim (Option-cases (lookup dir cache)) [
  | inr (b, e) ↦ rw (e, match_cached) t
  | inl e ↦
      rw (e, match_cached)
        λ d b h. elim (Bool-cases (text_eq dir d)) [
          | inl same ↦
              let q = text_eq→eq dir d same in
              let r : some (match_directory f dir) ≡ some b =
                sym (lookup-insert_self dir (match_directory f dir) cache) ∙ (rw (← q) at h) in
              ground (arith, ap (match_directory f) q)
          | inr other ↦ t d b (sym (lookup-insert_ne dir d (match_directory f dir) cache other) ∙ h)
        ]
]

apply_loop-keep :
    (f : Filter) (records : List FileRecord) (cache : List (Text × Bool)) (result : List FileRecord)
    → Truthful f cache
    → apply_loop f records cache result ≡ result ++ keep (shows f) records
unfolding apply_loop
apply_loop-keep f [] cache result t = sym (append-nil result)
apply_loop-keep f (rec ∷ records) cache result t =
    let dir = extract_directory rec.path in
    rw (match_cached-answer f dir cache t) (
      apply_loop-keep f records (match_cached f dir cache).1 _ (match_cached-Truthful f dir cache t)
      ∙ shown (match_directory f dir) (match_file f (extract_relative_path rec.path)))
  where
    shown :
        (d m : Bool)
        → (if d then if m then result ++ rec ∷ [] else result else result) ++ keep (shows f) records
          ≡ result ++ (elim (d && m) [
            | true ↦ rec ∷ keep (shows f) records
            | false ↦ keep (shows f) records
          ])
    shown true true = append_assoc result (rec ∷ []) (keep (shows f) records)
    shown true false = refl
    shown false m = refl

lookup_nil : (dir : Text) (b : Bool) → lookup dir [] ≡ some b → ⊥
unfolding lookup
lookup_nil dir b h = cc

-- What `Apply` shows: with `largest_file_only`, files that match, no two of the same item, and of the
-- item of every file that matches one that is at least as large; without it, all that match.
pub record Largest (matching rows : List FileRecord) : Type 0 where
  pub members : All (λ rec. Memᴰ rec matching) rows
  pub one_each : Distinct (map key_of rows)
  pub largest :
      (rec : FileRecord)
      → Memᴰ rec matching
      → (r : FileRecord) × Memᴰ r rows × (key_of r ≡ key_of rec) × (rec.size ≤ℤ r.size)

abbrev pub Shown : Bool → (matching rows : List FileRecord) → Type 0
Shown false matching rows = rows ≡ matching
Shown true matching rows = Largest matching rows

keep_largest-Largest : (records : List FileRecord) → Largest records (keep_largest records)
keep_largest-Largest records =
    let (members, distinct) = keep_largest-Distinct records in
    record { members = members; one_each = distinct; largest = keep_largest_dominates records }

-- Let the matching files be those whose directory and whose path within it match, in their order.
-- `Apply` gives them all if the filter does not ask for the largest; if it does, it gives matching
-- files only, no two of the same item, and for every matching file one of the same item that is at
-- least as large.
pub apply-Shown :
    (f : Filter) (records : List FileRecord)
    → Shown f.largest_file_only (keep (shows f) records) (apply f records)
unfolding apply
apply-Shown f records =
    let same = apply_loop-keep f records [] [] (λ dir b h. absurd (lookup_nil dir b h)) in
    rw same (shown f.largest_file_only)
  where
    shown :
        (b : Bool)
        → Shown b
            (keep (shows f) records)
            (if b then keep_largest (keep (shows f) records) else keep (shows f) records)
    shown true = keep_largest-Largest (keep (shows f) records)
    shown false = refl
