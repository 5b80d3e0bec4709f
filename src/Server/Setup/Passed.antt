-- ===== src/Server/Setup/Passed.antt =====
-- What the validation has checked of the virtual paths, and what it means for their filters.
use warpbox_custom.Prelude.{
  ℕ, suc, ◌≡◌, refl, inl, inr, Bool, true, false, Option, none, some, List, [], ◌∷◌, Text, codes,
  slash, is_empty, contains, text_eq, text_eq→eq, text_eq_instance, All, Bool-cases, Result, ok,
  err, Result-cases, if◌then◌else◌,
}
use warpbox_custom.Library.{Filter, Regexp, new_filter, compile_if}
use warpbox_custom.Settings.{VirtualPath}
use warpbox_custom.Settings.Validate.{validate_paths, is_seen, regex_check}
use warpbox_custom.Settings.Bounds.{first_error-get_elem?}
use warpbox_custom.Server.Routing.{all_mount}
use warpbox_custom.Server.Setup.{filter_of}

abbrev pub is_ok : Result Text Regexp → Bool
is_ok (ok r) = true
is_ok (err e) = false

-- Not the name of the view of all files, which the validation passes over.
abbrev pub Ordinary : VirtualPath → Type 0
Ordinary vp = text_eq vp.name all_mount ≡ false

module _ (compile : Text → Result Text Regexp) where
  abbrev pub compiles : Text → Bool
  compiles pattern = is_ok (compile pattern)

  -- What the validation has checked of an ordinary path, and of those behind it.
  pub record Passed (i : ℕ) (seen : List Text) (vp : VirtualPath) (paths : List VirtualPath)
      : Type 0 where
    pub new : is_seen vp.name seen ≡ false
    pub include : regex_check compiles i (codes "directory_include") vp.directory_include ≡ none
    pub exclude : regex_check compiles i (codes "directory_exclude") vp.directory_exclude ≡ none
    pub file : regex_check compiles i (codes "file_regex") vp.file_regex ≡ none
    pub rest : validate_paths compiles (suc i) (vp.name ∷ seen) paths ≡ none

  pub validate_paths-Passed :
      (i : ℕ) (seen : List Text) (vp : VirtualPath) (paths : List VirtualPath)
      → Ordinary vp
      → validate_paths compiles i seen (vp ∷ paths) ≡ none
      → Passed i seen vp paths
  unfolding validate_paths
  validate_paths-Passed i seen vp paths other h = elim (Bool-cases (is_empty vp.name)) [
    | inl t ↦ cc (rw (validate_paths, t) at h)
    | inr full ↦ elim (Bool-cases (contains vp.name (slash ∷ []))) [
      | inl t ↦ cc (rw (validate_paths, full, t) at h)
      | inr free ↦ elim (Bool-cases (is_seen vp.name seen)) [
        | inl t ↦ cc (rw (validate_paths, full, free, other, t) at h)
        | inr new ↦
            let checked = first_error-get_elem? (
              regex_check compiles i (codes "directory_include") vp.directory_include
              ∷ regex_check compiles i (codes "directory_exclude") vp.directory_exclude
              ∷ regex_check compiles i (codes "file_regex") vp.file_regex
              ∷ validate_paths compiles (suc i) (vp.name ∷ seen) paths
              ∷ []) in
            let passed = rw (validate_paths, full, free, other, new) at h in
            record {
              new = new;
              include = checked 0 _ passed refl;
              exclude = checked 1 _ passed refl;
              file = checked 2 _ passed refl;
              rest = checked 3 _ passed refl;
            }
      ]
    ]
  ]

  pub compile_if-regex_check :
      (i : ℕ) (setting pattern : Text)
      → regex_check compiles i setting pattern ≡ none
      → (r : Option Regexp) × (compile_if compile pattern ≡ ok r)
  unfolding compile_if
  compile_if-regex_check i setting pattern h = elim (Bool-cases (is_empty pattern)) [
    | inl t ↦ (none, rw (compile_if, t) refl)
    | inr full ↦ elim (Result-cases (compile pattern)) [
      | inl (r, e) ↦ (some r, rw (compile_if, full, e) refl)
      | inr (e, failed) ↦ cc (rw (regex_check, full, failed) at h)
    ]
  ]

  pub filter_of-Passed :
      (i : ℕ) (seen : List Text) (vp : VirtualPath) (paths : List VirtualPath)
      → Passed i seen vp paths
      → (f : Filter) × (filter_of compile vp ≡ ok f) × (f.mount ≡ slash ∷ vp.name)
  unfolding new_filter
  filter_of-Passed i seen vp paths p =
      let (include, e) =
        compile_if-regex_check i (codes "directory_include") vp.directory_include p.include in
      let (exclude, e') =
        compile_if-regex_check i (codes "directory_exclude") vp.directory_exclude p.exclude in
      let (file, e'') = compile_if-regex_check i (codes "file_regex") vp.file_regex p.file in
      (
        record {
          mount = slash ∷ vp.name;
          directory_include = include;
          directory_exclude = exclude;
          file_regex = file;
          largest_file_only = vp.largest_file_only;
        },
        rw (new_filter, e, e', e'') refl,
        refl,
      )

  -- Names that have been seen do not come again.
  pub apart :
      (i : ℕ) (seen : List Text) (paths : List VirtualPath) (n : Text)
      → All Ordinary paths
      → validate_paths compiles i seen paths ≡ none
      → is_seen n seen ≡ true
      → All (λ vp. text_eq vp.name n ≡ false) paths
  apart i seen [] n o h s = tt
  apart i seen (vp ∷ paths) n (other, o) h s =
      let p = validate_paths-Passed i seen vp paths other h in
      (
        elim (Bool-cases (text_eq vp.name n)) [
          | inr f ↦ f
          | inl t ↦ let same = text_eq→eq vp.name n t in absurd (cc (p.new, s, same))
        ],
        apart (suc i) (vp.name ∷ seen) paths n o p.rest
            (still (text_eq vp.name n) (is_seen n seen) s),
      )
    where
      still : (a b : Bool) → b ≡ true → (if a then true else b) ≡ true
      still true b e = refl
      still false b e = e
