-- ===== src/Server/Browser/Resolve.antt =====
-- Where the links to files lead.
use warpbox_custom.Prelude.{
  ℕ, ◌≡◌, ◌≤◌, refl, sym, ap, ◌∙◌, ◌⊎◌, inl, inr, true, false, Option, none, some, List, [], ◌∷◌,
  ◌++◌, map, Text, codes, slash, le→ltb, arith, cut, cut-append, trim_prefix, trim_prefix-append,
  trim_right, trim_right-append, is_empty, is_empty-append, text_eq, text_eq_refl, text_eq_instance,
  lookup, Option-cases, Result, ok,
}
use mathlib.Core.List.{Memᴰ}
use mathlib.Core.List.Memᴰ
use warpbox_custom.Metadata.{FileRecord}
use warpbox_custom.Library.{Filter}
use warpbox_custom.Server.Links.{Follows, is_plain}
use warpbox_custom.Server.Routing.{all_mount}
use warpbox_custom.Server.Routing.Mounts.{trim_slash}
use warpbox_custom.Server.Listing.Follow.{IsMount}
use warpbox_custom.Server.Browser.{
  count_of, raw_virtual_path, first_segment, View, view_of, Item, DirAgg, Gathered, gather_step,
  gather, item_of_dir, items_of, page_items, streamed, handle_http,
}

count_of-le : (c : ℕ) (s t : Text) → count_of c t ≤ count_of c (s ++ t)
unfolding count_of
count_of-le c [] t = omega arith
count_of-le c (x ∷ s) t = ground (arith, count_of-le c s t)

module _ (mounts : List (Text × Filter)) (m : Text) (is_mount : IsMount mounts m) where
  -- The link of a file with the path `p` in the view `m`.
  abbrev link : Text → Text
  link p = codes "/http" ++ (slash ∷ m) ++ slash ∷ p

  raw-link :
      (p : Text)
      → is_empty p ≡ false
      → trim_right slash p ≡ p
      → raw_virtual_path (link p) ≡ m ++ slash ∷ p
  unfolding raw_virtual_path count_of
  raw-link p full h =
      rw (raw_virtual_path, trimmed, le→ltb (count_of slash (link p)) 2 (omega arith))
        (ap (λ q. trim_prefix q (slash ∷ []))
            (trim_prefix-append (codes "/http") (slash ∷ (m ++ slash ∷ p)))
          ∙ trim_slash (m ++ slash ∷ p))
    where
      trimmed : trim_right slash (link p) ≡ link p
      trimmed =
          trim_right-append slash (codes "/http/") (m ++ slash ∷ p)
            (is_empty-append m (slash ∷ p) refl)
            (trim_right-append slash m (slash ∷ p) refl
              (trim_right-append slash (slash ∷ []) p full h))

  behind_mount : (p : Text) → trim_prefix (trim_prefix (m ++ slash ∷ p) m) (slash ∷ []) ≡ p
  behind_mount p =
      ap (λ q. trim_prefix q (slash ∷ [])) (trim_prefix-append m (slash ∷ p)) ∙ trim_slash p

  first_segment-mount : (p : Text) → first_segment (m ++ slash ∷ p) ≡ m
  unfolding first_segment
  first_segment-mount p = rw (first_segment, cut-append slash m p is_mount.0) refl

  view-link : (p : Text) → (view_of mounts (m ++ slash ∷ p)).virtual_path ≡ p
  unfolding view_of first_segment
  view-link p = elim is_mount.2 [
    | inl all ↦
        let same : text_eq m all_mount ≡ true =
          ap (λ q. text_eq q all_mount) all ∙ text_eq_refl all_mount in
        rw (view_of, first_segment-mount p, same)
          (ap (λ q. trim_prefix (trim_prefix (m ++ slash ∷ p) q) (slash ∷ [])) (sym all)
            ∙ behind_mount p)
    | inr (f, other, known) ↦
        rw (view_of, first_segment-mount p, other, known)
          (ap (λ q. trim_prefix (trim_prefix (m ++ slash ∷ p) q) (slash ∷ []))
              (first_segment-mount p)
            ∙ behind_mount p)
  ]

  -- A link is followed to the file that is found there.
  handle_http-link :
      (filters : List Filter) (find : Text → Result Text (Option FileRecord))
      (list : Text → Result Text (List FileRecord)) (p : Text) (file : FileRecord)
      → is_empty p ≡ false
      → trim_right slash p ≡ p
      → find p ≡ ok (some file)
      → handle_http filters mounts find list (link p) ≡ streamed file
  unfolding handle_http
  handle_http-link filters find list p file full h found =
      let there : find (view_of mounts (raw_virtual_path (link p))).virtual_path ≡ ok (some file) =
        ap (λ q. find (view_of mounts q).virtual_path) (raw-link p full h)
        ∙ ap find (view-link p)
        ∙ found in
      rw (handle_http, there) refl

-- The entries of files are those of records.
module _ (v : View) where
  record FromRecord (records : List FileRecord) (item : Item) : Type 0 where
    rec : FileRecord
    member : Memᴰ rec records
    href : item.href ≡ codes "/http" ++ v.mount_prefix ++ slash ∷ rec.path
    size : item.size ≡ rec.size

  FromRecord-tail :
      (r : FileRecord) (records : List FileRecord) (item : Item)
      → FromRecord records item
      → FromRecord (r ∷ records) item
  FromRecord-tail r records item f = record {
    rec = f.rec;
    member = Memᴰ.tail f.member;
    href = f.href;
    size = f.size;
  }

  FromRecord-head :
      (r : FileRecord) (records : List FileRecord) (item : Item)
      → FromRecord (r ∷ []) item
      → FromRecord (r ∷ records) item
  FromRecord-head r records item f = record {
    rec = f.rec;
    member = Memᴰ.append_left records f.member;
    href = f.href;
    size = f.size;
  }

  gather_step-files :
      (rec : FileRecord) (g : Gathered) (item : Item)
      → Memᴰ item (gather_step v rec g).files
      → Memᴰ item g.files ⊎ FromRecord (rec ∷ []) item
  unfolding gather_step
  gather_step-files rec g item h =
      elim (Option-cases
        (cut slash (trim_prefix (trim_prefix rec.path v.virtual_path) (slash ∷ [])))) [
          | inl e ↦ elim (Memᴰ.append_cases g.files (rw (gather_step, e) at h)) [
            | inl old ↦ inl old
            | inr last ↦
                let same = Memᴰ.eq_of_singleton last in
                inr (record {
                  rec = rec;
                  member = Memᴰ.head refl;
                  href = ap (λ i. i.href) same;
                  size = ap (λ i. i.size) same;
                })
          ]
          | inr ((name, below), e) ↦ elim (Option-cases (lookup name g.dir_map)) [
            | inl new ↦ inl (rw (gather_step, e, new) at h)
            | inr (ag, there) ↦ inl (rw (gather_step, e, there) at h)
          ]
        ]

  gather-files :
      (records : List FileRecord) (g : Gathered) (item : Item)
      → Memᴰ item (gather v records g).files
      → Memᴰ item g.files ⊎ FromRecord records item
  unfolding gather
  gather-files [] g item h = inl h
  gather-files (rec ∷ records) g item h = elim (gather-files records (gather_step v rec g) item h) [
    | inr later ↦ inr (FromRecord-tail rec records item later)
    | inl here ↦ elim (gather_step-files rec g item here) [
      | inl old ↦ inl old
      | inr new ↦ inr (FromRecord-head rec records item new)
    ]
  ]

  item_of_dir-is_dir : (name : Text) (ag : Option DirAgg) → (item_of_dir name ag).is_dir ≡ true
  item_of_dir-is_dir name none = refl
  item_of_dir-is_dir name (some ag) = refl

  files_from :
      (filters : List Filter) (raw : Text) (records : List FileRecord) (item : Item)
      → is_empty raw ≡ false
      → Memᴰ item (page_items filters v raw records)
      → item.is_dir ≡ false
      → FromRecord records item
  unfolding page_items items_of
  files_from filters raw records item below h file =
      let g = gather v records (record { dir_map = []; dir_order = []; files = [] }) in
      elim (Memᴰ.append_cases (map (λ name. item_of_dir name (lookup name g.dir_map)) g.dir_order)
        (rw (page_items, below) at h)) [
          | inl dir ↦
              let (name, there, same) =
                Memᴰ.of_map (λ name. item_of_dir name (lookup name g.dir_map)) g.dir_order dir in
              absurd (
                cc (file, item_of_dir-is_dir name (lookup name g.dir_map), ap (λ i. i.is_dir) same))
          | inr listed ↦
              elim (gather-files records (record { dir_map = []; dir_order = []; files = [] }) item
                listed) [ inl none_before ↦ absurd (Memᴰ.not-nil none_before) | inr found ↦ found ]
        ]

-- On the page of a directory in the view of all files or of a virtual path, if each row that is
-- listed is found under its path, which is not empty and ends in no slash: the href of every file
-- that is gathered, if it has no character that means something else in a URL, leads to the stream of
-- a row that is listed, of the size that the entry has.
pub page_items-streamed :
    (request_path : Text → Text) (filters : List Filter) (mounts : List (Text × Filter)) (m : Text)
    (find : Text → Result Text (Option FileRecord)) (list : Text → Result Text (List FileRecord))
    (v : View) (raw : Text) (records : List FileRecord) (item : Item)
    → Follows request_path
    → IsMount mounts m
    → v.mount_prefix ≡ slash ∷ m
    → is_empty raw ≡ false
    → ((rec : FileRecord)
        → Memᴰ rec records
        → (find rec.path ≡ ok (some rec))
          × (is_empty rec.path ≡ false)
          × (trim_right slash rec.path ≡ rec.path))
    → Memᴰ item (page_items filters v raw records)
    → item.is_dir ≡ false
    → is_plain item.href ≡ true
    → (rec : FileRecord) × Memᴰ rec records
      × (handle_http filters mounts find list (request_path item.href) ≡ streamed rec)
      × (item.size ≡ rec.size)
page_items-streamed request_path filters mounts m find list v raw records item follows is_mount
      prefix below rows shown file plain =
    let from = files_from v filters raw records item below shown file in
    let (found, full, trimmed) = rows from.rec from.member in
    let href = from.href ∙ ap (λ q. codes "/http" ++ q ++ slash ∷ from.rec.path) prefix in
    (
      from.rec,
      from.member,
      ap (handle_http filters mounts find list) (follows.plain item.href plain ∙ href)
          ∙ handle_http-link mounts m is_mount filters find list from.rec.path from.rec full trimmed
              found,
      from.size,
    )
