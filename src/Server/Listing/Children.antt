-- ===== src/Server/Listing/Children.antt =====
-- The children of a directory: which entries a listing has, for the records that it is made of.
use warpbox_custom.Prelude.{
  ◌≡◌, refl, sym, ap, ◌∙◌, ◌⊎◌, inl, inr, Bool, true, false, none, some, List, [], ◌∷◌, ◌++◌, Text,
  ℤ, pos, slash, cut, if◌then◌else◌, Option-cases, lookup, insert_new, lookup-Mem, text_eq_instance,
}
use mathlib.Core.List.{Memᴰ}
use mathlib.Core.List.Memᴰ
use warpbox_custom.Metadata.{FileRecord}
use warpbox_custom.Server.Listing.{Response, ChildInfo, child_of, add_child, children, rel_path}

-- The first segment of a record's path below a prefix, and whether more segments follow.
unfoldable pub child_name : Text → FileRecord → Text
child_name prefix rec = elim (cut slash (rel_path prefix rec)) [
  | none ↦ rel_path prefix rec
  | some (name, below) ↦ name
]

unfoldable pub nested : Text → FileRecord → Bool
nested prefix rec = elim (cut slash (rel_path prefix rec)) [
  | none ↦ false
  | some (name, below) ↦ true
]

-- The href of the entry that a record gives, and the length in it.
unfoldable pub child_href : Text → Text → FileRecord → Text
unfolding child_name nested
child_href base_href prefix rec =
    if nested prefix rec
    then base_href ++ child_name prefix rec ++ slash ∷ []
    else base_href ++ child_name prefix rec

unfoldable pub child_length : Text → FileRecord → ℤ
unfolding nested
child_length prefix rec = if nested prefix rec then pos 0 else rec.size

-- A response that is the entry of one of the records.
pub record Shows (base_href prefix : Text) (records : List FileRecord) (r : Response) : Type 0 where
  pub rec : FileRecord
  pub member : Memᴰ rec records
  pub href : r.href ≡ child_href base_href prefix rec
  pub kind : r.is_collection ≡ nested prefix rec
  pub size : r.content_length ≡ child_length prefix rec

module _ (dir_time : FileRecord → Text) (prefix : Text) where
  pub child_of-name : (rec : FileRecord) → (child_of dir_time prefix rec).0 ≡ child_name prefix rec
  unfolding child_of child_name
  child_of-name rec = elim (Option-cases (cut slash (rel_path prefix rec))) [
    | inl e ↦ rw (child_of, child_name, e) refl
    | inr (parts, e) ↦ rw (child_of, child_name, e) refl
  ]

  add_child-keeps :
      (c x : Text × ChildInfo) (m : List (Text × ChildInfo)) → Memᴰ x m → Memᴰ x (add_child c m)
  unfolding add_child
  add_child-keeps (name, info) x m h = elim (Option-cases (lookup name m)) [
    | inr (there, e) ↦ rw (add_child, e) h
    | inl e ↦ rw (add_child, e, insert_new name info m e) (Memᴰ.append_left ((name, info) ∷ []) h)
  ]

  add_child-has :
      (c : Text × ChildInfo) (m : List (Text × ChildInfo))
      → (x : Text × ChildInfo) × Memᴰ x (add_child c m) × (x.0 ≡ c.0)
  unfolding add_child
  add_child-has (name, info) m = elim (Option-cases (lookup name m)) [
    | inr (there, e) ↦ ((name, there), rw (add_child, e) (lookup-Mem name there m e), refl)
    | inl e ↦ (
      (name, info),
      rw (add_child, e, insert_new name info m e) (Memᴰ.append_right m (Memᴰ.head refl)),
      refl,
    )
  ]

  add_child-from :
      (c x : Text × ChildInfo) (m : List (Text × ChildInfo))
      → Memᴰ x (add_child c m)
      → Memᴰ x m ⊎ (x ≡ c)
  unfolding add_child
  add_child-from (name, info) x m h = elim (Option-cases (lookup name m)) [
    | inr (there, e) ↦ inl (rw (add_child, e) at h)
    | inl e ↦ elim (Memᴰ.append_cases m (rw (add_child, e, insert_new name info m e) at h)) [
      | inl old ↦ inl old
      | inr last ↦ inr (Memᴰ.eq_of_singleton last)
    ]
  ]

  children-keeps :
      (records : List FileRecord) (x : Text × ChildInfo) (m : List (Text × ChildInfo))
      → Memᴰ x m
      → Memᴰ x (children dir_time prefix records m)
  unfolding children
  children-keeps [] x m h = h
  children-keeps (rec ∷ records) x m h =
      children-keeps records x (add_child (child_of dir_time prefix rec) m)
        (add_child-keeps (child_of dir_time prefix rec) x m h)

  -- Every record has a child with its name.
  pub children-has :
      (records : List FileRecord) (rec : FileRecord) (m : List (Text × ChildInfo))
      → Memᴰ rec records
      → (x : Text × ChildInfo) × Memᴰ x (children dir_time prefix records m)
        × (x.0 ≡ child_name prefix rec)
  unfolding children
  children-has [] rec m h = elim h [ ]
  children-has (r ∷ records) rec m (Memᴰ.head e) =
      let (x, there, same) = add_child-has (child_of dir_time prefix r) m in
      (
        x,
        children-keeps records x (add_child (child_of dir_time prefix r) m) there,
        same ∙ child_of-name r ∙ ap (child_name prefix) (sym e),
      )
  children-has (r ∷ records) rec m (Memᴰ.tail h) =
      children-has records rec (add_child (child_of dir_time prefix r) m) h

  -- Every child is that of a record.
  pub children-from :
      (records : List FileRecord) (x : Text × ChildInfo) (m : List (Text × ChildInfo))
      → Memᴰ x (children dir_time prefix records m)
      → Memᴰ x m ⊎ ((rec : FileRecord) × Memᴰ rec records × (x ≡ child_of dir_time prefix rec))
  unfolding children
  children-from [] x m h = inl h
  children-from (r ∷ records) x m h =
      elim (children-from records x (add_child (child_of dir_time prefix r) m) h) [
        | inr (rec, there, e) ↦ inr (rec, Memᴰ.tail there, e)
        | inl before ↦ elim (add_child-from (child_of dir_time prefix r) x m before) [
          | inl old ↦ inl old
          | inr e ↦ inr (r, Memᴰ.head refl, e)
        ]
      ]
