-- ===== src/Server/Listing/Directory.antt =====
-- What a client is shown of a directory.
use warpbox_custom.Prelude.{
  ◌≡◌, refl, sym, ap, ◌∙◌, ◌⊎◌, inl, inr, ◌↔◌, true, false, ◌&&◌, Option, some, List, [], Text,
  codes, is_empty, Result, ok, text_eq, pos,
}
use mathlib.Core.List.{Memᴰ}
use mathlib.Core.List.Memᴰ
use warpbox_custom.Metadata.{FileRecord}
use warpbox_custom.Library.{Filter}
use warpbox_custom.Server.Routing.{Routed, root_for_request, webdav_root}
use warpbox_custom.Server.Listing.{Response, Listed, ChildInfo, is_listed, children, child_of}
use warpbox_custom.Server.Listing.Entries.{
  Dated, Distinct, hrefs, Inv, append_response-Extends, response_for-href,
}
use warpbox_custom.Server.Listing.Children.{
  Shows, child_href, child_name, children-has, children-from, child_of-name,
}
use warpbox_custom.Server.Listing.Shown.{append_children-Extends}
use warpbox_custom.Server.Listing.Handlers.{
  Site, multi_status, dir_href, is_deep, entries, normalised, filtered, prefix_below, depth_or_one,
  handle_propfind, serve_dir_listing,
}

-- Go visits the entries of a map, in some order.
abbrev pub Visits : (List (Text × ChildInfo) → List (Text × ChildInfo)) → Type 0
Visits visits = (m : List (Text × ChildInfo)) (x : Text × ChildInfo) → Memᴰ x (visits m) ↔ Memᴰ x m

-- The responses for a directory: no href twice, the directory, and each of the others the entry of
-- a record, and for each record an entry with the name of its child.
pub record Directory (path prefix : Text) (records : List FileRecord) (rs : List Response)
    : Type 0 where
  pub distinct : Distinct (hrefs rs)
  pub self : is_listed (dir_href path) (hrefs rs) ≡ true
  pub sound :
      (r : Response) → Memᴰ r rs → (r.href ≡ dir_href path) ⊎ Shows (dir_href path) prefix records r
  pub complete :
      (rec : FileRecord)
      → Memᴰ rec records
      → (first : FileRecord) × Memᴰ first records
        × (child_name prefix first ≡ child_name prefix rec)
        × (is_listed (child_href (dir_href path) prefix first) (hrefs rs) ≡ true)

module _ (site : Site) (dir_time : FileRecord → Text) (path prefix depth : Text)
    (records : List FileRecord) where
  -- A response that may stand in the listing.
  abbrev Expected : Response → Type 0
  Expected r = (r.href ≡ dir_href path) ⊎ Shows (dir_href path) prefix records r

  abbrev empty : Listed
  empty = record { responses = []; seen = [] }

  empty-Inv : Inv empty
  unfolding is_listed
  empty-Inv = record { distinct = tt; agrees = λ h. refl }

  entries-Directory :
      Visits site.visits
      → is_deep depth ≡ true
      → ((rec : FileRecord) → Memᴰ rec records → Dated rec.created_at × Dated (dir_time rec))
      → (l : Listed) × (entries site dir_time path prefix depth false records ≡ some l)
        × Directory path prefix records l.responses
  unfolding entries
  entries-Directory visits deep dated =
      let (self, e, step, here) =
        append_response-Extends site.clock Expected (dir_href path) true (pos 0) [] [] [] empty
          (inl refl)
          (λ modified. inl (response_for-href (dir_href path) true (pos 0) [] [] modified)) in
      let (l, rest, steps, there) =
        append_children-Extends dir_time prefix site.clock (dir_href path) Expected records
          (site.visits (children dir_time prefix records [])) self (λ r s. inr s) dated
          (λ x m. from x ((visits (children dir_time prefix records []) x).0 m)) in
      let inv = steps.inv (step.inv empty-Inv) in
      (
        l,
        rw (entries, e, deep) rest,
        record {
          distinct = inv.distinct;
          self = sym (inv.agrees (dir_href path)) ∙ steps.keeps (dir_href path) here;
          sound = steps.sound (step.sound (λ r m. absurd (Memᴰ.not-nil m)));
          complete = λ rec m.
              let (x, child, named) = children-has dir_time prefix records rec [] m in
              let (first, m', same, shown) =
                there x ((visits (children dir_time prefix records []) x).1 child) in
              (
                first,
                m',
                sym (child_of-name dir_time prefix first) ∙ ap (λ c. c.0) (sym same) ∙ named,
                sym (inv.agrees (child_href (dir_href path) prefix first)) ∙ shown,
              );
        },
      )
    where
      from :
          (x : Text × ChildInfo)
          → Memᴰ x (children dir_time prefix records [])
          → (rec : FileRecord) × Memᴰ rec records × (x ≡ child_of dir_time prefix rec)
      from x m = elim (children-from dir_time prefix records x [] m) [
        | inl none_before ↦ absurd (Memᴰ.not-nil none_before)
        | inr found ↦ found
      ]

-- A PROPFIND of depth 1 or infinity, or without a depth, on a directory that is not the root of the
-- virtual paths: if the query gives rows, and each row that passes the filter has an empty time or
-- one of 19 characters or more, then the reply lists the directory, and its children without
-- repetition: every other entry is that of a row, a directory if the row's path goes on below the
-- child and a file of the row's length if not, and every row has an entry with the name of its child.
pub propfind_children :
    (site : Site) (list : Text → Result Text (List FileRecord)) (r : Routed) (depth : Text)
    (records : List FileRecord)
    → Visits site.visits
    → is_deep (depth_or_one depth) ≡ true
    → (is_empty (prefix_below (root_for_request r) (normalised r.path)) && is_empty r.mount_root)
      ≡ false
    → list (prefix_below (root_for_request r) (normalised r.path)) ≡ ok records
    → ((rec : FileRecord) → Memᴰ rec (filtered r.filter records) → Dated rec.created_at)
    → (rs : List Response) × (handle_propfind site list r depth ≡ some (multi_status rs))
      × Directory
          (normalised r.path)
          (prefix_below (root_for_request r) (normalised r.path))
          (filtered r.filter records)
          rs
unfolding handle_propfind
propfind_children site list r depth records visits deep below rows dated =
    let (l, e, shown) =
      entries-Directory site (λ rec. rec.created_at) (normalised r.path)
        (prefix_below (root_for_request r) (normalised r.path)) (depth_or_one depth)
        (filtered r.filter records) visits deep (λ rec m. (dated rec m, dated rec m)) in
    (l.responses, rw (handle_propfind, rows, below, e) refl, shown)

-- The same of a GET on a directory, whose depth is 1.
serve_dir_listing_children :
    (site : Site) (list : Text → Result Text (List FileRecord)) (req_path : Text)
    (filter : Option Filter) (root : Text) (records : List FileRecord)
    → Visits site.visits
    → (is_empty (prefix_below root (normalised req_path)) && text_eq root webdav_root) ≡ false
    → list (prefix_below root (normalised req_path)) ≡ ok records
    → ((rec : FileRecord) → Memᴰ rec (filtered filter records) → Dated rec.created_at)
    → (rs : List Response) × (serve_dir_listing site list req_path (codes "1") filter root
        ≡ some (multi_status rs))
      × Directory
          (normalised req_path)
          (prefix_below root (normalised req_path))
          (filtered filter records)
          rs
unfolding serve_dir_listing text_eq
serve_dir_listing_children site list req_path filter root records visits below rows dated =
    let (l, e, shown) =
      entries-Directory site (λ rec. []) (normalised req_path)
        (prefix_below root (normalised req_path)) (codes "1") (filtered filter records) visits refl
        (λ rec m. (dated rec m, inl refl)) in
    (l.responses, rw (serve_dir_listing, rows, below, e) refl, shown)
