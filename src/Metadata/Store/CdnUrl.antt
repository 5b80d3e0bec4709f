-- ===== src/Metadata/Store/CdnUrl.antt =====
-- The cached CDN URL of a file: what `SetCDNURL` stores is what `GetCDNURL` returns, until it
-- expires.
use warpbox_custom.Prelude.{
  ℕ, ◌+◌, ◌<◌, ◌≡◌, refl, ap, ◌∙◌, zero, suc, inl, inr, false, Option, none, some, List, [], ◌∷◌,
  Text, arith, ◌==◌, ==→eq, Bool-cases, Option-cases, if◌then◌else◌, is_empty, ltb,
}
use warpbox_custom.Metadata.{FileRecord}
use warpbox_custom.Metadata.Store.{
  Store, set_loop, set_cdn_url, get_cdn_url, update_cdn_url, find_id, live_url, to_second,
  count_lock, is_locked_error,
}

count_lock-files : (e : Text) (s : Store) → (count_lock e s).files ≡ s.files
unfolding count_lock
count_lock-files e s = elim (Bool-cases (is_locked_error e)) [
  | inl t ↦ rw t refl
  | inr f ↦ rw f refl
]

-- One attempt that succeeds among those left is enough.
set_loop-files :
    (exec : ℕ → Option Text) (left attempt : ℕ) (last : Option Text) (id : ℕ) (url : Text)
    (expires : ℕ) (s : Store) (k : ℕ)
    → k < left
    → exec (attempt + k) ≡ none
    → ((set_loop exec left attempt last id url expires s).0 ≡ none)
      × ((set_loop exec left attempt last id url expires s).2.files
          ≡ update_cdn_url id url expires s.files)
unfolding set_loop
set_loop-files exec zero attempt last id url expires s k h q = absurd (omega arith)
set_loop-files exec (suc left) attempt last id url expires s zero h q =
    let same : attempt + 0 ≡ attempt = omega arith in
    let now : exec attempt ≡ none = rw same at q in rw (set_loop, now) (refl, refl)
set_loop-files exec (suc left) attempt last id url expires s (suc k) h q =
    elim (Option-cases (exec attempt)) [
      | inl e ↦ rw (set_loop, e) (refl, refl)
      | inr (e, failed) ↦
          let same : attempt + suc k ≡ suc attempt + k = omega arith in
          let (done, files) =
            set_loop-files exec left (suc attempt) (some e) id url expires (count_lock e s) k
              (omega arith) (rw same at q) in
          rw (set_loop, failed)
            (done, files ∙ ap (update_cdn_url id url expires) (count_lock-files e s))
    ]

find_id-update_self :
    (id : ℕ) (url : Text) (expires : ℕ) (rows : List FileRecord) (r : FileRecord)
    → find_id id rows ≡ some r
    → find_id id (update_cdn_url id url expires rows)
      ≡ some (record r { cdn_url = url; cdn_url_expiry = some expires })
unfolding find_id update_cdn_url
find_id-update_self id url expires [] r h = cc
find_id-update_self id url expires (x ∷ rows) r h = elim (Bool-cases (x.id == id)) [
  | inl t ↦
      rw (t, find_id, t)
        (ap
          (λ o. elim o [
            | none ↦ none
            | some y ↦ some (record y { cdn_url = url; cdn_url_expiry = some expires })
          ])
          (rw t at h))
  | inr f ↦ rw (f, find_id, f) (find_id-update_self id url expires rows r (rw f at h))
]

find_id-update_ne :
    (id j : ℕ) (url : Text) (expires : ℕ) (rows : List FileRecord)
    → (id == j) ≡ false
    → find_id j (update_cdn_url id url expires rows) ≡ find_id j rows
unfolding find_id update_cdn_url
find_id-update_ne id j url expires [] h = refl
find_id-update_ne id j url expires (x ∷ rows) h = elim (Bool-cases (x.id == id)) [
  | inl t ↦
      let other : (x.id == j) ≡ false = rw (==→eq x.id id t) h in
      rw (t, find_id, other) (find_id-update_ne id j url expires rows h)
  | inr f ↦ elim (Bool-cases (x.id == j)) [
    | inl own ↦ rw (f, find_id, own) refl
    | inr n ↦ rw (f, find_id, n) (find_id-update_ne id j url expires rows h)
  ]
]

-- `GetCDNURL` on the row found.
answer : ℕ → Option FileRecord → Text
unfolding live_url
answer now o = elim o [ none ↦ [] | some r ↦ live_url now r ]

-- If one of the three attempts of `SetCDNURL` succeeds for a row that exists and a URL that is not
-- empty, it returns no error, and `GetCDNURL` returns the URL up to the time at which the second of
-- the expiry begins, that time included, and nothing after it; for every other id it returns what it
-- did before.
pub get_cdn_url-set_cdn_url :
    (exec : ℕ → Option Text) (id : ℕ) (url : Text) (expires_at : ℕ) (s : Store) (r : FileRecord)
    (k : ℕ)
    → k < 3
    → exec k ≡ none
    → find_id id s.files ≡ some r
    → is_empty url ≡ false
    → ((set_cdn_url exec id url expires_at s).0 ≡ none)
      × ((now : ℕ)
          → get_cdn_url now id (set_cdn_url exec id url expires_at s).2
            ≡ (if ltb (to_second expires_at) now then [] else url))
      × ((now j : ℕ)
          → (id == j) ≡ false
          → get_cdn_url now j (set_cdn_url exec id url expires_at s).2 ≡ get_cdn_url now j s)
unfolding set_cdn_url get_cdn_url live_url answer
get_cdn_url-set_cdn_url exec id url expires_at s r k h q found full =
    let same : 0 + k ≡ k = omega arith in
    let from_start : exec (0 + k) ≡ none = rw same q in
    let (done, files) =
      set_loop-files exec 3 0 none id url (to_second expires_at) s k h from_start in
    (
      done,
      (λ now.
          ap (λ rows. answer now (find_id id rows)) files
          ∙ ap (answer now) (find_id-update_self id url (to_second expires_at) s.files r found)
          ∙ rw full refl),
      (λ now j d.
          ap (λ rows. answer now (find_id j rows)) files
          ∙ ap (answer now) (find_id-update_ne id j url (to_second expires_at) s.files d)),
    )
