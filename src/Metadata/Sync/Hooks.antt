-- ===== src/Metadata/Sync/Hooks.antt =====
-- `fireChangeHooks` of internal/metadata/sync.go, and the test of syncOnce around it. The orders in
-- which Go visits the two maps are arguments.
pub mod Told
mod Tests
use warpbox_custom.Prelude.{
  ℕ, ◌≡◌, refl, sym, ap, ◌∙◌, subst, ◌⊎◌, inl, inr, ◌↔◌, Bool, true, false, ◌&&◌, ◌||◌,
  if◌then◌else◌, Option, none, some, List, [], ◌∷◌, ◌++◌, Text, Eq, lookup, insert,
  lookup-insert_self, lookup-insert_ne, lookup-Mem, Option-cases, Bool-cases, Result, ok, err, ◌==◌,
  ==→eq, ==_refl,
}
use mathlib.Core.List.{Memᴰ}
use mathlib.Core.List.Memᴰ
use native.Mathlib.Omega.{arith}
use warpbox_custom.Metadata.{FileSource, source_same, source_same_refl, source_same→eq}

-- `ItemDir`, and `key`
pub record ItemKey : Type 0 where
  pub item_id : ℕ
  pub source : FileSource

pub record ItemDir : Type 0 where
  pub key : ItemKey
  pub dir : Text

abbrev pub key_same : ItemKey → ItemKey → Bool
key_same a b = source_same a.source b.source && a.item_id == b.item_id

pub key_same_refl : (a : ItemKey) → key_same a a ≡ true
key_same_refl a = rw (source_same_refl a.source, ==_refl a.item_id) refl

pub key_same→eq : (a b : ItemKey) → key_same a b ≡ true → a ≡ b
key_same→eq a b h = ground (arith, source_same→eq a.source b.source, ==→eq a.item_id b.item_id)

instance abbrev pub item_key_eq : Eq ItemKey
item_key_eq = record { beq = key_same; beq_refl = key_same_refl; beq→eq = key_same→eq }

-- `oldSet` and `newSet`
unfoldable pub dirs_by_key : List ItemDir → List (ItemKey × Text) → List (ItemKey × Text)
dirs_by_key [] m = m
dirs_by_key (it ∷ items) m = dirs_by_key items (insert it.key it.dir m)

-- The directories of the entries whose keys another map lacks.
unfoldable pub missing_from : List (ItemKey × Text) → List (ItemKey × Text) → List Text
missing_from others [] = []
missing_from others ((k, dir) ∷ m) =
    let rest = missing_from others m in
    elim (lookup k others) [ none ↦ dir ∷ rest | some there ↦ rest ]

-- What the hooks are called with; an empty list stands for no call.
pub record Fired : Type 0 where
  pub added : List Text
  pub removed : List Text

abbrev pub nothing_fired : Fired
nothing_fired = record { added = []; removed = [] }

abbrev pub Order : Type 0
Order = List (ItemKey × Text) → List (ItemKey × Text)

-- The hooks that are registered.
pub record Hooks : Type 0 where
  pub on_items_added : Bool
  pub on_items_removed : Bool

unfoldable pub fire_change_hooks :
    Hooks → (visits visits' : Order) → (old new : List ItemDir) → Fired
unfolding dirs_by_key missing_from
fire_change_hooks hooks visits visits' old new = record {
  added =
      if hooks.on_items_added
      then missing_from (dirs_by_key old []) (visits (dirs_by_key new []))
      else [];
  removed =
      if hooks.on_items_removed
      then missing_from (dirs_by_key new []) (visits' (dirs_by_key old []))
      else [];
}

-- `syncOnce` compares no empty list, such as that of a failed query.
unfoldable pub detect_changes :
    Hooks → (visits visits' : Order) → (old : List ItemDir) → Result Text (List ItemDir) → Fired
unfolding fire_change_hooks
detect_changes hooks visits visits' [] new = nothing_fired
detect_changes hooks visits visits' (o ∷ old) (err e) = nothing_fired
detect_changes hooks visits visits' (o ∷ old) (ok []) = nothing_fired
detect_changes hooks visits visits' (o ∷ old) (ok (n ∷ new)) =
    if hooks.on_items_added || hooks.on_items_removed
    then fire_change_hooks hooks visits visits' (o ∷ old) (n ∷ new)
    else nothing_fired
