-- ===== src/Metadata/Sync/Paths.antt =====
-- The virtual path of a file: its S3 path below the hash, its reserved characters replaced.
use warpbox_custom.Prelude.{
  ℕ, ◌≡◌, refl, subst, sym, ap, ◌∙◌, inl, inr, true, false, not, ◌&&◌, none, List, [], ◌∷◌, ◌++◌,
  map, Text, All, slash, cut, ◌==◌, Bool-cases, Option-cases, if◌then◌else◌, is_empty, Lacks,
  cut-append,
}
use warpbox_custom.Torbox.{TorrentFile}
use warpbox_custom.Metadata.Sync.{
  is_reserved, sanitize_path_segment, split, join, path_of_rest, virtual_path, underscore,
  build_file_record,
}
use warpbox_custom.Metadata.{FileSource}

-- What becomes of a character of the path: a slash stays.
abbrev pub clean : ℕ → ℕ
clean c = if c == slash then slash else if is_reserved c then underscore else c

split_cons : (c : ℕ) (s : Text) → (part : Text) × (parts : List Text) × (split c s ≡ part ∷ parts)
unfolding split
split_cons c [] = ([], [], refl)
split_cons c (x ∷ s) =
    let (part, parts, e) = split_cons c s in
    elim (Bool-cases (x == c)) [
      | inl t ↦ ([], split c s, rw t refl)
      | inr f ↦ (x ∷ part, parts, rw (f, e) refl)
    ]

join-cons :
    (c x : ℕ) (part : Text) (parts : List Text)
    → join c ((x ∷ part) ∷ parts) ≡ x ∷ join c (part ∷ parts)
unfolding join
join-cons c x part [] = refl
join-cons c x part (next ∷ parts) = refl

sanitized : ℕ → ℕ
sanitized x = if is_reserved x then underscore else x

clean_other : (x : ℕ) → (x == slash) ≡ false → clean x ≡ sanitized x
unfolding sanitized
clean_other x f = rw (clean, f) refl

split_other :
    (x : ℕ) (s part : Text) (parts : List Text)
    → (x == slash) ≡ false
    → split slash s ≡ part ∷ parts
    → split slash (x ∷ s) ≡ (x ∷ part) ∷ parts
unfolding split
split_other x s part parts f e = rw (f, e) refl

sanitize-cons :
    (x : ℕ) (part : Text)
    → sanitize_path_segment (x ∷ part) ≡ sanitized x ∷ sanitize_path_segment part
unfolding sanitize_path_segment sanitized
sanitize-cons x part = refl

-- Sanitizing the segments one by one cleans the path character by character.
join-split : (s : Text) → join slash (map sanitize_path_segment (split slash s)) ≡ map clean s
unfolding split join sanitize_path_segment
join-split [] = refl
join-split (x ∷ s) =
    let (part, parts, e) = split_cons slash s in
    let rest : join slash (sanitize_path_segment part ∷ map sanitize_path_segment parts)
        ≡ map clean s =
      ap (λ l. join slash (map sanitize_path_segment l)) (sym e) ∙ join-split s in
    elim (Bool-cases (x == slash)) [
      | inl t ↦ rw (t, e) (ap (λ u. slash ∷ u) rest)
      | inr f ↦
          ap (λ l. join slash (map sanitize_path_segment l)) (split_other x s part parts f e)
          ∙ ap (λ p. join slash (p ∷ map sanitize_path_segment parts)) (sanitize-cons x part)
          ∙ join-cons slash (sanitized x) (sanitize_path_segment part)
              (map sanitize_path_segment parts)
          ∙ ap (λ u. sanitized x ∷ u) rest
          ∙ ap (λ y. y ∷ map clean s) (sym (clean_other x f))
    ]

sanitize-Lacks : (s : Text) → Lacks slash s → sanitize_path_segment s ≡ map clean s
unfolding sanitize_path_segment sanitized
sanitize-Lacks [] h = refl
sanitize-Lacks (x ∷ s) h =
    ap (λ u. sanitized x ∷ u) (sanitize-Lacks s h.1)
    ∙ ap (λ y. y ∷ map clean s) (sym (clean_other x h.0))

cut_whole-Lacks : (s : Text) → cut slash s ≡ none → Lacks slash s
unfolding cut
cut_whole-Lacks [] h = tt
cut_whole-Lacks (x ∷ s) h = elim (Bool-cases (x == slash)) [
  | inl t ↦ cc (rw t at h)
  | inr f ↦ elim (Option-cases (cut slash s)) [
    | inl e ↦ (f, cut_whole-Lacks s e)
    | inr ((a, b), e) ↦ cc (rw (f, e) at h)
  ]
]

path_of_rest-clean : (rest : Text) → path_of_rest rest ≡ map clean rest
unfolding path_of_rest
path_of_rest-clean rest = elim (Option-cases (cut slash rest)) [
  | inl e ↦ rw (path_of_rest, e) (sanitize-Lacks rest (cut_whole-Lacks rest e))
  | inr ((a, b), e) ↦ rw (path_of_rest, e) (join-split rest)
]

-- If the S3 path is a hash without a slash, a slash and a rest, neither of them empty, then the
-- virtual path is the rest, with every reserved character but the slash replaced by an underscore.
pub virtual_path-clean :
    (f : TorrentFile) (hash rest : Text)
    → f.s3_path ≡ hash ++ slash ∷ rest
    → Lacks slash hash
    → is_empty hash ≡ false
    → is_empty rest ≡ false
    → virtual_path f ≡ map clean rest
unfolding virtual_path
virtual_path-clean f hash rest e l h r =
    rw (virtual_path, ap (cut slash) e ∙ cut-append slash hash rest l, h, r)
      (path_of_rest-clean rest)

underscore_free : is_reserved underscore ≡ false
unfolding is_reserved
underscore_free = refl

clean_char : (c : ℕ) → is_reserved (clean c) ≡ true → clean c ≡ slash
clean_char c h = elim (Bool-cases (c == slash)) [
  | inl t ↦ rw (clean, t) refl
  | inr f ↦ elim (Bool-cases (is_reserved c)) [
    | inl r ↦ absurd (not_reserved (rw (clean, f, r) at h))
    | inr n ↦ absurd (cc (n, rw (clean, f, n) at h))
  ]
]
  where
    not_reserved : is_reserved underscore ≡ true → ⊥
    not_reserved q = cc (q, underscore_free)

cleaned : (s : Text) → All (λ c. is_reserved c ≡ true → c ≡ slash) (map clean s)
cleaned [] = tt
cleaned (x ∷ s) = (clean_char x, cleaned s)

sanitized_free : (c : ℕ) → is_reserved (sanitized c) ≡ false
unfolding sanitized
sanitized_free c = elim (Bool-cases (is_reserved c)) [
  | inl r ↦ rw (sanitized, r) underscore_free
  | inr n ↦ rw (sanitized, n) n
]

sanitize_free : (s : Text) → All (λ c. is_reserved c ≡ false) (sanitize_path_segment s)
unfolding sanitize_path_segment sanitized
sanitize_free [] = tt
sanitize_free (x ∷ s) = (sanitized_free x, sanitize_free s)

-- A text without a reserved character has none but slashes.
weaken :
    (s : Text) → All (λ c. is_reserved c ≡ false) s → All (λ c. is_reserved c ≡ true → c ≡ slash) s
weaken [] h = tt
weaken (x ∷ s) h = ((λ r. absurd (cc (r, h.0))), weaken s h.1)

path_free : (f : TorrentFile) → All (λ c. is_reserved c ≡ true → c ≡ slash) (virtual_path f)
unfolding virtual_path
path_free f = elim (Option-cases (cut slash f.s3_path)) [
  | inl e ↦ rw (virtual_path, e) short
  | inr ((hash, rest), e) ↦ elim (Bool-cases (not (is_empty hash) && not (is_empty rest))) [
    | inl t ↦
        rw (virtual_path, e, t)
          (subst (All (λ c. is_reserved c ≡ true → c ≡ slash)) (sym (path_of_rest-clean rest))
            (cleaned rest))
    | inr n ↦ rw (virtual_path, e, n) short
  ]
]
  where
    short : All (λ c. is_reserved c ≡ true → c ≡ slash) (sanitize_path_segment f.short_name)
    short = weaken (sanitize_path_segment f.short_name) (sanitize_free f.short_name)

-- Whatever the S3 path and the short name of a file are, no character of its record's name is
-- reserved, and none of its path is but for the slashes.
build_file_record_no_reserved :
    (item_id : ℕ) (f : TorrentFile) (sync_tag : ℕ) (source : FileSource) (created_at : Text)
    → All (λ c. is_reserved c ≡ false) (build_file_record item_id f sync_tag source created_at).name
      × All
          (λ c. is_reserved c ≡ true → c ≡ slash)
          (build_file_record item_id f sync_tag source created_at).path
unfolding build_file_record
build_file_record_no_reserved item_id f sync_tag source created_at =
    (sanitize_free f.short_name, path_free f)
