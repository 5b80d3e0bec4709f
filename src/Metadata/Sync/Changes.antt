-- ===== src/Metadata/Sync/Changes.antt =====
-- A whole cycle of `syncOnce` in internal/metadata/sync.go: the items before it, the cycle, and the
-- hooks for the items that it has added and removed.
mod Tests
use warpbox_custom.Prelude.{
  ℕ, ◌≡◌, refl, sym, ap, ◌∙◌, subst, Bool, true, false, ◌||◌, Option, none, some, List, [], ◌∷◌,
  Text, if◌then◌else◌, Result, ok, err, arith,
}
use mathlib.Core.List.{Memᴰ}
use mathlib.Core.List.Memᴰ
use warpbox_custom.Torbox.{Torrent}
use warpbox_custom.Metadata.{FileRecord}
use warpbox_custom.Metadata.Store.Items.{
  dir_name, item_dir, list_item_dirs, distinct_dirs, distinct_dirs_from, distinct_dirs_has,
}
use warpbox_custom.Metadata.Sync.{SyncWorker, Database, sync_once}
use warpbox_custom.Metadata.Sync.Hooks.{
  ItemKey, ItemDir, Order, Hooks, Fired, nothing_fired, detect_changes,
}
use warpbox_custom.Metadata.Sync.Hooks.Told.{Visits, HasItem, Tells, detect_changes-Tells}

-- The items before a cycle, which are fetched only for a hook; of an error, none.
unfoldable pub old_items : Hooks → Option Text → List FileRecord → List ItemDir
old_items hooks e rows =
    if hooks.on_items_added || hooks.on_items_removed
    then elim (list_item_dirs e rows) [ err message ↦ [] | ok items ↦ items ]
    else []

-- The errors of the two listings of the items stand before that of the tag, which ends the cycle.
unfoldable pub sync_cycle :
    Hooks
    → (visits visits' : Order) → (e e' tag_error : Option Text) → Database
    → (now : ℕ) → (torrents usenet : Result Text (List Torrent)) → SyncWorker
    → SyncWorker × Fired
unfolding old_items
sync_cycle hooks visits visits' e e' tag_error db now torrents usenet w =
    let w' = sync_once tag_error db now torrents usenet w in
    let fired =
      detect_changes hooks visits visits' (old_items hooks e w.store.files)
        (list_item_dirs e' w'.store.files) in
    (w', elim tag_error [ some message ↦ nothing_fired | none ↦ fired ])

-- A row of an item.
abbrev pub HasRow : ItemKey → List FileRecord → Type 0
HasRow k rows = (r : FileRecord) × Memᴰ r rows × ((item_dir r).key ≡ k)

-- What a hook is told of two tables: the directory of each item of the one that the other lacks.
pub record RowsTell (old new : List FileRecord) (dirs : List Text) : Type 0 where
  pub sound :
      (d : Text)
      → Memᴰ d dirs
      → (r : FileRecord) × Memᴰ r new × (dir_name r.path ≡ d) × ¬ HasRow (item_dir r).key old
  pub complete :
      (r : FileRecord)
      → Memᴰ r new
      → ¬ HasRow (item_dir r).key old
      → (told : FileRecord) × Memᴰ told new
        × ((item_dir told).key ≡ (item_dir r).key)
        × Memᴰ (dir_name told.path) dirs

HasItem-HasRow :
    (k : ItemKey) (rows : List FileRecord) → HasItem k (distinct_dirs rows) → HasRow k rows
HasItem-HasRow k rows (it, there, e) =
    let (r, m, same) = distinct_dirs_from rows it there in
    (r, m, ap (λ (x : ItemDir). x.key) same ∙ e)

HasRow-HasItem :
    (k : ItemKey) (rows : List FileRecord) → HasRow k rows → HasItem k (distinct_dirs rows)
HasRow-HasItem k rows (r, m, e) = (item_dir r, distinct_dirs_has rows r m, e)

Tells-RowsTell :
    (old new : List FileRecord) (dirs : List Text)
    → Tells (distinct_dirs old) (distinct_dirs new) dirs
    → RowsTell old new dirs
Tells-RowsTell old new dirs t = record {
  sound = λ d h.
      let (it, there, e, lacks) = t.sound d h in
      let (r, m, same) = distinct_dirs_from new it there in
      (
        r,
        m,
        ap (λ (x : ItemDir). x.dir) same ∙ e,
        λ has. lacks (
            subst (λ k. HasItem k (distinct_dirs old)) (ap (λ (x : ItemDir). x.key) same)
              (HasRow-HasItem (item_dir r).key old has)),
      );
  complete = λ r m lacks.
      let (told, there, e, h) =
        t.complete (item_dir r) (distinct_dirs_has new r m)
          (λ has. lacks (HasItem-HasRow (item_dir r).key old has)) in
      let (found, m', same) = distinct_dirs_from new told there in
      (
        found,
        m',
        ap (λ (x : ItemDir). x.key) same ∙ e,
        subst (λ d. Memᴰ d dirs) (sym (ap (λ (x : ItemDir). x.dir) same)) h,
      );
}

-- A table that is not empty has an item.
some_item :
    (r : FileRecord) (rows : List FileRecord)
    → (o : ItemDir) × (items : List ItemDir) × (distinct_dirs (r ∷ rows) ≡ o ∷ items)
some_item r rows =
    first (distinct_dirs (r ∷ rows)) (distinct_dirs_has (r ∷ rows) r (Memᴰ.head refl))
  where
    first :
        (items : List ItemDir)
        → Memᴰ (item_dir r) items
        → (o : ItemDir) × (rest : List ItemDir) × (items ≡ o ∷ rest)
    first [] h = elim h [ ]
    first (o ∷ rest) h = (o, rest, refl)

rows_of_items :
    (old new : List FileRecord) {items items' : List ItemDir} (dirs : List Text)
    → distinct_dirs old ≡ items
    → distinct_dirs new ≡ items'
    → Tells items items' dirs
    → RowsTell old new dirs
rows_of_items old new {items} {items'} dirs e e' t = Tells-RowsTell old new dirs (
    subst (λ x. Tells x (distinct_dirs new) dirs) (sym e)
      (subst (λ y. Tells items y dirs) (sym e') t))

old_items_lem :
    (hooks : Hooks) (rows : List FileRecord)
    → hooks.on_items_added ≡ true
    → old_items hooks none rows ≡ distinct_dirs rows
unfolding old_items list_item_dirs
old_items_lem hooks rows h = ground (arith, h)

-- A cycle for which both hooks are registered, the tag is reserved and both listings of the items
-- succeed: if the table has a row before it and one after it, then whatever the listings of the API
-- and the database answered, and in whatever order the maps are visited, the hook for added items is
-- told of the items that have a row afterwards and had none before, and the hook for removed items
-- of those that had a row before and have none afterwards: each directory told is that of a row of
-- such an item, and for each such item the directory of one of its rows is told.
pub sync_cycle-RowsTell :
    (hooks : Hooks) (visits visits' : Order) (db : Database) (now : ℕ)
    (torrents usenet : Result Text (List Torrent)) (w : SyncWorker) (r r' : FileRecord)
    (rows rows' : List FileRecord)
    → hooks.on_items_added ≡ true
    → hooks.on_items_removed ≡ true
    → Visits visits
    → Visits visits'
    → w.store.files ≡ r ∷ rows
    → (sync_once none db now torrents usenet w).store.files ≡ r' ∷ rows'
    → RowsTell
        (r ∷ rows)
        (r' ∷ rows')
        (sync_cycle hooks visits visits' none none none db now torrents usenet w).1.added
      × RowsTell
          (r' ∷ rows')
          (r ∷ rows)
          (sync_cycle hooks visits visits' none none none db now torrents usenet w).1.removed
unfolding sync_cycle list_item_dirs
sync_cycle-RowsTell hooks visits visits' db now torrents usenet w r r' rows rows' h h' v v' before
      after =
    let (o, old, e) = some_item r rows in
    let (n, new, e') = some_item r' rows' in
    let (added, removed) = detect_changes-Tells hooks visits visits' o old n new h h' v v' in
    let same : old_items hooks none w.store.files ≡ o ∷ old =
      old_items_lem hooks w.store.files h ∙ ap distinct_dirs before ∙ e in
    let same' : distinct_dirs (sync_once none db now torrents usenet w).store.files ≡ n ∷ new =
      ap distinct_dirs after ∙ e' in
    let fired =
      ap (λ items. detect_changes hooks visits visits' items (ok (n ∷ new))) (sym same)
      ∙ ap
          (λ items.
            detect_changes hooks visits visits' (old_items hooks none w.store.files) (ok items))
          (sym same') in
    subst
      (λ (f : Fired).
        RowsTell (r ∷ rows) (r' ∷ rows') f.added × RowsTell (r' ∷ rows') (r ∷ rows) f.removed)
      fired
      (
        rows_of_items (r ∷ rows) (r' ∷ rows') _ e e' added,
        rows_of_items (r' ∷ rows') (r ∷ rows) _ e' e removed,
      )
