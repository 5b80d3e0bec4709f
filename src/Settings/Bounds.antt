-- ===== src/Settings/Bounds.antt =====
-- What validated settings satisfy.
use warpbox_custom.Prelude.{
  ℕ, suc, zero, get_elem?, sym, ap, ◌≡◌, refl, inl, inr, Bool, false, Option, none, some, List, [],
  ◌∷◌, Text, All, codes, slash, is_empty, contains, text_eq, Bool-cases, ℤ, pos, ◌≤ℤ◌, tests, ltb_ℤ,
  Lacks, ◌==◌, has_prefix,
}
use warpbox_custom.Settings.{Settings, VirtualPath, Invalid, first_error, in_range}
use warpbox_custom.Settings.Validate.{
  validate, checks, validate_library, validate_paths, is_seen, regex_check,
}

-- Where there is no first error, every check has passed.
pub first_error-get_elem? :
    (checks : List (Option Invalid)) (i : ℕ) (o : Option Invalid)
    → first_error checks ≡ none
    → get_elem? checks i ≡ some o
    → o ≡ none
unfolding first_error
first_error-get_elem? [] i o h g = cc
first_error-get_elem? (none ∷ checks) zero o h g = sym (ap inner g)
  where
    inner : Option (Option Invalid) → Option Invalid
    inner none = none
    inner (some x) = x
first_error-get_elem? (none ∷ checks) (suc i) o h g = first_error-get_elem? checks i o h g
first_error-get_elem? (some e ∷ checks) i o h g = cc

pub in_range-le :
    (setting : Text) (low high : ℕ) (n : ℤ)
    → in_range setting low high n ≡ none
    → (pos low ≤ℤ n) × (n ≤ℤ pos high)
in_range-le setting low high n h = elim (Bool-cases (ltb_ℤ n (pos low))) [
  | inl t ↦ cc (rw (in_range, t) at h)
  | inr f ↦ elim (Bool-cases (ltb_ℤ (pos high) n)) [
    | inl t ↦ cc (rw (in_range, f, t) at h)
    | inr g ↦ (omega tests, omega tests)
  ]
]

-- Settings that pass the validation have a rate from 10 to 1000 requests for each minute, a page
-- size from 1 to 10000 and a lifetime of the CDN URLs from 1 to 1440 minutes.
validate_le :
    (compiles : Text → Bool) (c : Settings)
    → validate compiles c ≡ none
    → ((pos 10 ≤ℤ c.requests_per_minute) × (c.requests_per_minute ≤ℤ pos 1000))
      × ((pos 1 ≤ℤ c.sync.list_page_size) × (c.sync.list_page_size ≤ℤ pos 10000))
      × ((pos 1 ≤ℤ c.cache.cdn_url_ttl_minutes) × (c.cache.cdn_url_ttl_minutes ≤ℤ pos 1440))
unfolding validate checks
validate_le compiles c h =
    let passed = first_error-get_elem? (checks compiles c) in
    (
      in_range-le _ 10 1000 c.requests_per_minute (passed 12 _ h refl),
      in_range-le _ 1 10000 c.sync.list_page_size (passed 5 _ h refl),
      in_range-le _ 1 1440 c.cache.cdn_url_ttl_minutes (passed 3 _ h refl),
    )

contains-Lacks : (s : Text) → contains s (slash ∷ []) ≡ false → Lacks slash s
unfolding contains has_prefix
contains-Lacks [] h = tt
contains-Lacks (x ∷ s) h = elim (Bool-cases (x == slash)) [
  | inl t ↦ cc (rw t at h)
  | inr f ↦ (f, contains-Lacks s (rw f at h))
]

-- The name of a virtual path that the routing of requests finds.
abbrev pub Routable : VirtualPath → Type 0
Routable vp = (is_empty vp.name ≡ false) × Lacks slash vp.name

validate_paths-Routable :
    (compiles : Text → Bool) (i : ℕ) (seen : List Text) (paths : List VirtualPath)
    → validate_paths compiles i seen paths ≡ none
    → All Routable paths
unfolding validate_paths first_error
validate_paths-Routable compiles i seen [] h = tt
validate_paths-Routable compiles i seen (vp ∷ paths) h = elim (Bool-cases (is_empty vp.name)) [
  | inl t ↦ cc (rw (validate_paths, t) at h)
  | inr full ↦ elim (Bool-cases (contains vp.name (slash ∷ []))) [
    | inl t ↦ cc (rw (validate_paths, full, t) at h)
    | inr free ↦ (
      (full, contains-Lacks vp.name free),
      elim (Bool-cases (text_eq vp.name (codes "__all__"))) [
        | inl all ↦
            validate_paths-Routable compiles (suc i) seen paths
              (rw (validate_paths, full, free, all) at h)
        | inr other ↦ elim (Bool-cases (is_seen vp.name seen)) [
          | inl t ↦ cc (rw (validate_paths, full, free, other, t) at h)
          | inr new ↦ validate_paths-Routable compiles (suc i) (vp.name ∷ seen) paths (
              first_error-get_elem?
                (regex_check compiles i (codes "directory_include") vp.directory_include
                  ∷ regex_check compiles i (codes "directory_exclude") vp.directory_exclude
                  ∷ regex_check compiles i (codes "file_regex") vp.file_regex
                  ∷ validate_paths compiles (suc i) (vp.name ∷ seen) paths
                  ∷ [])
                3 _ (rw (validate_paths, full, free, other, new) at h) refl)
        ]
      ],
    )
  ]
]

-- Every virtual path of validated settings has a name that is not empty and has no slash, so that
-- it can be the first segment of a request's path.
pub validate-Routable :
    (compiles : Text → Bool) (c : Settings)
    → validate compiles c ≡ none
    → All Routable c.library.virtual_paths
unfolding validate checks validate_library
validate-Routable compiles c h =
    let library : validate_library compiles c.library ≡ none =
      first_error-get_elem? (checks compiles c) 14 _ h refl in
    validate_paths-Routable compiles 0 [] c.library.virtual_paths (
      first_error-get_elem?
        (validate_paths compiles 0 [] c.library.virtual_paths
          ∷ in_range (codes "library.hook_timeout_seconds") 1 3600 c.library.hook_timeout_sec
          ∷ [])
        0 _ library refl)
