-- ===== src/Server/Listing/Shown.antt =====
-- The entries that are appended for the children.
use warpbox_custom.Prelude.{
  ◌≡◌, refl, ap, ◌∙◌, inl, inr, true, false, none, some, List, [], ◌∷◌, ◌++◌, Text, pos, slash, cut,
  Option-cases, text_eq_instance,
}
use mathlib.Core.List.{Memᴰ}
use mathlib.Core.List.Memᴰ
use warpbox_custom.Metadata.{FileRecord}
use warpbox_custom.Server.Listing.{
  Clock, Response, Listed, ChildInfo, is_listed, response_for, append_child, append_children,
  child_of, rel_path, or_octets, file_info, dir_info,
}
use warpbox_custom.Server.Listing.Entries.{
  Dated, Extends, Extends-refl, Extends-trans, append_response-Extends,
}
use warpbox_custom.Server.Listing.Children.{child_name, nested, child_href, child_length, Shows}

module _ (dir_time : FileRecord → Text) (prefix : Text) (clock : Clock) (base_href : Text)
    (P : Response → Type 0) (records : List FileRecord) where
  -- The entries of the records satisfy a property.
  abbrev pub Allows : Type 0
  Allows = (r : Response) → Shows base_href prefix records r → P r

  file_lem :
      (rec : FileRecord) (l : Listed)
      → Allows
      → Memᴰ rec records
      → Dated rec.created_at
      → cut slash (rel_path prefix rec) ≡ none
      → (l' : Listed) × (append_child clock base_href (rel_path prefix rec, file_info rec) l
          ≡ some l')
        × Extends P l l'
        × (is_listed (base_href ++ rel_path prefix rec) l'.seen ≡ true)
  unfolding append_child child_href child_name nested child_length response_for
  file_lem rec l allows m d e =
      append_response-Extends clock P (base_href ++ rel_path prefix rec) false rec.size rec.name
        (or_octets rec.mime_type) rec.created_at l d
        (λ modified.
          allows
            (response_for (base_href ++ rel_path prefix rec) false rec.size rec.name
              (or_octets rec.mime_type) modified)
            (record {
              rec = rec;
              member = m;
              href = rw (child_href, nested, child_name, e) refl;
              kind = rw (nested, e) refl;
              size = rw (child_length, nested, e) refl;
            }))

  dir_lem :
      (rec : FileRecord) (l : Listed) (name below : Text)
      → Allows
      → Memᴰ rec records
      → Dated (dir_time rec)
      → cut slash (rel_path prefix rec) ≡ some (name, below)
      → (l' : Listed) × (append_child clock base_href (name, dir_info (dir_time rec)) l ≡ some l')
        × Extends P l l'
        × (is_listed (base_href ++ name ++ slash ∷ []) l'.seen ≡ true)
  unfolding append_child child_href child_name nested child_length response_for
  dir_lem rec l name below allows m d e =
      append_response-Extends clock P (base_href ++ name ++ slash ∷ []) true (pos 0) [] []
        (dir_time rec) l d
        (λ modified.
          allows (response_for (base_href ++ name ++ slash ∷ []) true (pos 0) [] [] modified)
            (record {
              rec = rec;
              member = m;
              href = rw (child_href, nested, child_name, e) refl;
              kind = rw (nested, e) refl;
              size = rw (child_length, nested, e) refl;
            }))

  append_child-Extends :
      (rec : FileRecord) (l : Listed)
      → Allows
      → Memᴰ rec records
      → Dated rec.created_at
      → Dated (dir_time rec)
      → (l' : Listed) × (append_child clock base_href (child_of dir_time prefix rec) l ≡ some l')
        × Extends P l l'
        × (is_listed (child_href base_href prefix rec) l'.seen ≡ true)
  unfolding child_of child_href child_name nested
  append_child-Extends rec l allows m d t = elim (Option-cases (cut slash (rel_path prefix rec))) [
    | inl e ↦ rw (child_of, child_href, nested, child_name, e) (file_lem rec l allows m d e)
    | inr ((name, below), e) ↦
        rw (child_of, child_href, nested, child_name, e) (dir_lem rec l name below allows m t e)
  ]

  append_children-cons :
      (c : Text × ChildInfo) (cs : List (Text × ChildInfo)) (l next l' : Listed)
      → append_child clock base_href c l ≡ some next
      → append_children clock base_href cs next ≡ some l'
      → append_children clock base_href (c ∷ cs) l ≡ some l'
  unfolding append_children
  append_children-cons c cs l next l' e rest = rw (append_children, e) rest

  pub append_children-Extends :
      (cs : List (Text × ChildInfo)) (l : Listed)
      → Allows
      → ((rec : FileRecord) → Memᴰ rec records → Dated rec.created_at × Dated (dir_time rec))
      → ((x : Text × ChildInfo)
          → Memᴰ x cs
          → (rec : FileRecord) × Memᴰ rec records × (x ≡ child_of dir_time prefix rec))
      → (l' : Listed) × (append_children clock base_href cs l ≡ some l')
        × Extends P l l'
        × ((x : Text × ChildInfo)
            → Memᴰ x cs
            → (rec : FileRecord) × Memᴰ rec records
              × (x ≡ child_of dir_time prefix rec)
              × (is_listed (child_href base_href prefix rec) l'.seen ≡ true))
  unfolding append_children
  append_children-Extends [] l allows dated from =
      (l, refl, Extends-refl P l, λ x m. absurd (Memᴰ.not-nil m))
  append_children-Extends (c ∷ cs) l allows dated from =
      let (rec, m, same) = from c (Memᴰ.head refl) in
      let (d, t) = dated rec m in
      let (next, e, step, here) = append_child-Extends rec l allows m d t in
      let (l', rest, steps, there) =
        append_children-Extends cs next allows dated (λ x h. from x (Memᴰ.tail h)) in
      (
        l',
        append_children-cons c cs l next l' (ap (λ x. append_child clock base_href x l) same ∙ e)
            rest,
        Extends-trans P l next l' step steps,
        λ x h. elim (Memᴰ.cases_cons h) [
          | inr later ↦ there x later
          | inl first ↦ (rec, m, first ∙ same, steps.keeps (child_href base_href prefix rec) here)
        ],
      )
