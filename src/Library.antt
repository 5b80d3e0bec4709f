-- ===== src/Library.antt =====
-- internal/library/filter.go: which files a virtual path shows. A compiled regular expression is
-- the test that `MatchString` makes, and how one is compiled is an argument.
pub mod Largest
pub mod Matching
pub mod Outputs
mod Tests
use warpbox_custom.Prelude.{
  ℕ, ◌≡◌, refl, Bool, true, false, not, ◌&&◌, Option, none, some, List, [], ◌∷◌, ◌++◌, map, Text,
  slash, cut, is_empty, ◌==◌, ==→eq, ==_refl, if◌then◌else◌, ltb_ℤ, Eq, lookup, insert, Result, ok,
  err, ◌>>=◌, text_eq_instance,
}
use warpbox_custom.Metadata.{
  FileSource, FileRecord, zero_record, source_same, source_same_refl, source_same→eq,
}
use native.Mathlib.Omega.{arith}

abbrev pub Regexp : Type 0
Regexp = Text → Bool

pub record Filter : Type 0 where
  pub mount : Text
  pub directory_include : Option Regexp
  pub directory_exclude : Option Regexp
  pub file_regex : Option Regexp
  pub largest_file_only : Bool

-- An empty pattern is no expression.
unfoldable pub compile_if : (Text → Result Text Regexp) → Text → Result Text (Option Regexp)
compile_if compile pattern =
    if is_empty pattern then ok none else (do r ← compile pattern; ok (some r))

unfoldable pub new_filter :
    (Text → Result Text Regexp)
    → (mount dir_include dir_exclude file_regex : Text) → Bool
    → Result Text Filter
unfolding compile_if
new_filter compile mount dir_include dir_exclude file_regex largest_file_only = do
  include ← compile_if compile dir_include
  exclude ← compile_if compile dir_exclude
  file ← compile_if compile file_regex
  ok (record {
    mount = mount;
    directory_include = include;
    directory_exclude = exclude;
    file_regex = file;
    largest_file_only = largest_file_only;
  })

-- `ExtractDirectory`: the path up to its first slash, or all of it.
unfoldable pub extract_directory : Text → Text
extract_directory path = elim (cut slash path) [ none ↦ path | some (before, behind) ↦ before ]

-- `ExtractRelativePath`: the path behind its first slash, or all of it.
unfoldable pub extract_relative_path : Text → Text
extract_relative_path path = elim (cut slash path) [ none ↦ path | some (before, behind) ↦ behind ]

abbrev pub matches_if_set : Option Regexp → Text → Bool
matches_if_set none name = true
matches_if_set (some r) name = r name

abbrev pub excluded : Option Regexp → Text → Bool
excluded none name = false
excluded (some r) name = r name

unfoldable pub match_directory : Filter → Text → Bool
match_directory f name =
    if not (matches_if_set f.directory_include name)
    then false
    else if excluded f.directory_exclude name
    then false
    else true

unfoldable pub match_file : Filter → Text → Bool
match_file f rel_path = matches_if_set f.file_regex rel_path

-- The cached answer for a directory, and the cache with it.
unfoldable pub match_cached : Filter → Text → List (Text × Bool) → Bool × List (Text × Bool)
match_cached f dir cache = elim (lookup dir cache) [
  | some matched ↦ (matched, cache)
  | none ↦ (match_directory f dir, insert dir (match_directory f dir) cache)
]

-- The loop of `Apply` over the records, with `dirMatchCache` and `result`.
unfoldable pub apply_loop :
    Filter → List FileRecord → List (Text × Bool) → List FileRecord → List FileRecord
apply_loop f [] cache result = result
apply_loop f (rec ∷ records) cache result =
    let (matched, cache') = match_cached f (extract_directory rec.path) cache in
    apply_loop f records cache' (
      if matched
      then if match_file f (extract_relative_path rec.path) then result ++ rec ∷ [] else result
      else result)

-- The key of `KeepLargest`.
pub record Key : Type 0 where
  pub source : FileSource
  pub item_id : ℕ

abbrev pub key_of : FileRecord → Key
key_of rec = record { source = rec.source; item_id = rec.item_id }

abbrev pub key_same : Key → Key → Bool
key_same a b = source_same a.source b.source && a.item_id == b.item_id

pub key_same_refl : (a : Key) → key_same a a ≡ true
key_same_refl a = rw (source_same_refl a.source, ==_refl a.item_id) refl

pub key_same→eq : (a b : Key) → key_same a b ≡ true → a ≡ b
key_same→eq a b h = ground (arith, source_same→eq a.source b.source, ==→eq a.item_id b.item_id)

instance abbrev pub key_eq : Eq Key
key_eq = record { beq = key_same; beq_refl = key_same_refl; beq→eq = key_same→eq }

-- One round of the loop of `KeepLargest`, on `best` and `order`.
unfoldable pub largest_step :
    FileRecord → List (Key × FileRecord) → List Key → List (Key × FileRecord) × List Key
largest_step rec best order = elim (lookup (key_of rec) best) [
  | none ↦ (insert (key_of rec) rec best, order ++ key_of rec ∷ [])
  | some existing ↦
      (if ltb_ℤ existing.size rec.size then insert (key_of rec) rec best else best, order)
]

-- The loop of `KeepLargest` over the records.
unfoldable pub largest_loop :
    List FileRecord → List (Key × FileRecord) → List Key → List (Key × FileRecord) × List Key
largest_loop [] best order = (best, order)
largest_loop (rec ∷ records) best order =
    let (best', order') = largest_step rec best order in largest_loop records best' order'

-- `best[k]`, which is the zero record for a missing key.
abbrev pub or_zero : Option FileRecord → FileRecord
or_zero none = zero_record
or_zero (some rec) = rec

unfoldable pub keep_largest : List FileRecord → List FileRecord
unfolding largest_loop
keep_largest records =
    let (best, order) = largest_loop records [] [] in map (λ k. or_zero (lookup k best)) order

unfoldable pub apply : Filter → List FileRecord → List FileRecord
unfolding apply_loop
apply f records =
    let result = apply_loop f records [] [] in
    if f.largest_file_only then keep_largest result else result
