-- ===== src/Metadata/Sync/Hooks/Told.antt =====
-- What the hooks of `fireChangeHooks` in internal/metadata/sync.go are told.
use warpbox_custom.Prelude.{
  ◌≡◌, refl, sym, ap, ◌∙◌, subst, ◌⊎◌, inl, inr, ◌↔◌, true, none, some, List, [], ◌∷◌, Text, lookup,
  insert, lookup-insert_self, lookup-insert_ne, lookup-Mem, Option-cases, Bool-cases, ok,
}
use mathlib.Core.List.{Memᴰ}
use mathlib.Core.List.Memᴰ
use warpbox_custom.Metadata.Sync.Hooks.{
  ItemKey, ItemDir, key_same, key_same→eq, item_key_eq, dirs_by_key, missing_from, Order, Hooks,
  fire_change_hooks, detect_changes,
}

-- Go visits the entries of a map, in some order.
abbrev pub Visits : Order → Type 0
Visits visits = (m : List (ItemKey × Text)) (x : ItemKey × Text) → Memᴰ x (visits m) ↔ Memᴰ x m

-- An item of a list with a key.
abbrev pub HasItem : ItemKey → List ItemDir → Type 0
HasItem k items = (it : ItemDir) × Memᴰ it items × (it.key ≡ k)

Memᴰ-insert :
    (k : ItemKey) (d : Text) (x : ItemKey × Text) (m : List (ItemKey × Text))
    → Memᴰ x (insert k d m)
    → (x ≡ (k, d)) ⊎ Memᴰ x m
unfolding insert
Memᴰ-insert k d x [] h = inl (Memᴰ.eq_of_singleton h)
Memᴰ-insert k d x ((j, w) ∷ m) h = elim (Bool-cases (key_same j k)) [
  | inl t ↦ elim (Memᴰ.cases_cons (rw (insert, t) at h)) [
    | inl e ↦ inl e
    | inr later ↦ inr (Memᴰ.tail later)
  ]
  | inr f ↦ elim (Memᴰ.cases_cons (rw (insert, f) at h)) [
    | inl e ↦ inr (Memᴰ.head e)
    | inr later ↦ elim (Memᴰ-insert k d x m later) [ inl e ↦ inl e | inr old ↦ inr (Memᴰ.tail old) ]
  ]
]

-- The entries are those of items.
dirs_by_key_from :
    (items : List ItemDir) (x : ItemKey × Text) (m : List (ItemKey × Text))
    → Memᴰ x (dirs_by_key items m)
    → Memᴰ x m ⊎ ((it : ItemDir) × Memᴰ it items × (x ≡ (it.key, it.dir)))
unfolding dirs_by_key
dirs_by_key_from [] x m h = inl h
dirs_by_key_from (it ∷ items) x m h = elim (dirs_by_key_from items x (insert it.key it.dir m) h) [
  | inr (found, there, e) ↦ inr (found, Memᴰ.tail there, e)
  | inl here ↦ elim (Memᴰ-insert it.key it.dir x m here) [
    | inl e ↦ inr (it, Memᴰ.head refl, e)
    | inr old ↦ inl old
  ]
]

dirs_by_key_keeps :
    (items : List ItemDir) (k : ItemKey) (v : Text) (m : List (ItemKey × Text))
    → lookup k m ≡ some v
    → (w : Text) × (lookup k (dirs_by_key items m) ≡ some w)
unfolding dirs_by_key
dirs_by_key_keeps [] k v m h = (v, h)
dirs_by_key_keeps (it ∷ items) k v m h = elim (Bool-cases (key_same it.key k)) [
  | inl t ↦
      let same = key_same→eq it.key k t in
      dirs_by_key_keeps items k it.dir (insert it.key it.dir m) (
        ap (λ j. lookup j (insert it.key it.dir m)) (sym same) ∙ lookup-insert_self it.key it.dir m)
  | inr f ↦
      dirs_by_key_keeps items k v (insert it.key it.dir m)
        (lookup-insert_ne it.key k it.dir m f ∙ h)
]

dirs_by_key_has :
    (items : List ItemDir) (k : ItemKey) (m : List (ItemKey × Text))
    → HasItem k items
    → (w : Text) × (lookup k (dirs_by_key items m) ≡ some w)
unfolding dirs_by_key
dirs_by_key_has [] k m (it, there, e) = elim there [ ]
dirs_by_key_has (i ∷ items) k m (it, Memᴰ.head same, e) =
    dirs_by_key_keeps items k i.dir (insert i.key i.dir m) (
      ap (λ j. lookup j (insert i.key i.dir m)) (sym e ∙ ap (λ (x : ItemDir). x.key) same)
      ∙ lookup-insert_self i.key i.dir m)
dirs_by_key_has (i ∷ items) k m (it, Memᴰ.tail there, e) =
    dirs_by_key_has items k (insert i.key i.dir m) (it, there, e)

missing_from_sound :
    (others m : List (ItemKey × Text)) (d : Text)
    → Memᴰ d (missing_from others m)
    → (k : ItemKey) × Memᴰ (k, d) m × (lookup k others ≡ none)
unfolding missing_from
missing_from_sound others [] d h = elim h [ ]
missing_from_sound others ((j, w) ∷ m) d h = elim (Option-cases (lookup j others)) [
  | inr (v, e) ↦
      let (k, there, lacks) = missing_from_sound others m d (rw (missing_from, e) at h) in
      (k, Memᴰ.tail there, lacks)
  | inl e ↦ elim (Memᴰ.cases_cons (rw (missing_from, e) at h)) [
    | inl same ↦ (j, Memᴰ.head (ap (λ t. (j, t)) same), e)
    | inr later ↦
        let (k, there, lacks) = missing_from_sound others m d later in (k, Memᴰ.tail there, lacks)
  ]
]

missing_from_complete :
    (others m : List (ItemKey × Text)) (k : ItemKey) (d : Text)
    → Memᴰ (k, d) m
    → lookup k others ≡ none
    → Memᴰ d (missing_from others m)
unfolding missing_from
missing_from_complete others [] k d h lacks = elim h [ ]
missing_from_complete others ((j, w) ∷ m) k d h lacks = elim (Memᴰ.cases_cons h) [
  | inl same ↦
      let e : lookup j others ≡ none =
        ap (λ (x : ItemKey × Text). lookup x.0 others) (sym same) ∙ lacks in
      rw (missing_from, e) (Memᴰ.head (ap (λ (x : ItemKey × Text). x.1) same))
  | inr later ↦ elim (Option-cases (lookup j others)) [
    | inl e ↦ rw (missing_from, e) (Memᴰ.tail (missing_from_complete others m k d later lacks))
    | inr (v, e) ↦ rw (missing_from, e) (missing_from_complete others m k d later lacks)
  ]
]

-- The directories that a hook is told: each is that of an item of one list that the other lacks, and
-- for each such item the directory of an entry with its key is told.
pub record Tells (old new : List ItemDir) (dirs : List Text) : Type 0 where
  pub sound :
      (d : Text) → Memᴰ d dirs → (it : ItemDir) × Memᴰ it new × (it.dir ≡ d) × ¬ HasItem it.key old
  pub complete :
      (it : ItemDir)
      → Memᴰ it new
      → ¬ HasItem it.key old
      → (told : ItemDir) × Memᴰ told new × (told.key ≡ it.key) × Memᴰ told.dir dirs

absent_key :
    (k : ItemKey) (old : List ItemDir) → ¬ HasItem k old → lookup k (dirs_by_key old []) ≡ none
absent_key k old lacks = elim (Option-cases (lookup k (dirs_by_key old []))) [
  | inl e ↦ e
  | inr (w, found) ↦
      let there : Memᴰ (k, w) (dirs_by_key old []) = lookup-Mem k w (dirs_by_key old []) found in
      elim (dirs_by_key_from old (k, w) [] there) [
        | inl none_before ↦ absurd (Memᴰ.not-nil none_before)
        | inr (it, m, e) ↦ absurd (lacks (it, m, sym (ap (λ (x : ItemKey × Text). x.0) e)))
      ]
]

missing_from-Tells :
    (visits : Order) (old new : List ItemDir)
    → Visits visits
    → Tells old new (missing_from (dirs_by_key old []) (visits (dirs_by_key new [])))
missing_from-Tells visits old new v = record {
  sound = λ d h.
      let (k, there, lacks) =
        missing_from_sound (dirs_by_key old []) (visits (dirs_by_key new [])) d h in
      elim (dirs_by_key_from new (k, d) [] ((v (dirs_by_key new []) (k, d)).0 there)) [
        | inl none_before ↦ absurd (Memᴰ.not-nil none_before)
        | inr (it, m, e) ↦ (
          it,
          m,
          sym (ap (λ (x : ItemKey × Text). x.1) e),
          λ has.
              let (w, found) = dirs_by_key_has old it.key [] has in
              let same : lookup it.key (dirs_by_key old []) ≡ none =
                ap (λ (x : ItemKey × Text). lookup x.0 (dirs_by_key old [])) (sym e) ∙ lacks in
              cc (found, same),
        )
      ];
  complete = λ it m lacks.
      let (w, found) = dirs_by_key_has new it.key [] (it, m, refl) in
      let there : Memᴰ (it.key, w) (dirs_by_key new []) =
        lookup-Mem it.key w (dirs_by_key new []) found in
      elim (dirs_by_key_from new (it.key, w) [] there) [
        | inl none_before ↦ absurd (Memᴰ.not-nil none_before)
        | inr (told, m', e) ↦ (
          told,
          m',
          sym (ap (λ (x : ItemKey × Text). x.0) e),
          subst (λ d. Memᴰ d (missing_from (dirs_by_key old []) (visits (dirs_by_key new []))))
              (ap (λ (x : ItemKey × Text). x.1) e)
              (missing_from_complete (dirs_by_key old []) (visits (dirs_by_key new [])) it.key w
                ((v (dirs_by_key new []) (it.key, w)).1 there) (absent_key it.key old lacks)),
        )
      ];
}

-- When both hooks are registered and neither the old list nor the fetched list is empty, then
-- whatever the orders in which the maps are visited, the hook for added items is told of the fetched
-- items whose keys the old list lacks, and the hook for removed items of the old items whose keys the
-- fetched list lacks: each directory told is that of such an item, and for each such item the
-- directory of one with its key is told.
pub detect_changes-Tells :
    (hooks : Hooks) (visits visits' : Order) (o : ItemDir) (old : List ItemDir) (n : ItemDir)
    (new : List ItemDir)
    → hooks.on_items_added ≡ true
    → hooks.on_items_removed ≡ true
    → Visits visits
    → Visits visits'
    → Tells (o ∷ old) (n ∷ new) (detect_changes hooks visits visits' (o ∷ old) (ok (n ∷ new))).added
      × Tells
          (n ∷ new)
          (o ∷ old)
          (detect_changes hooks visits visits' (o ∷ old) (ok (n ∷ new))).removed
unfolding fire_change_hooks detect_changes
detect_changes-Tells hooks visits visits' o old n new h h' v v' =
    rw (detect_changes, fire_change_hooks, h, h')
      (
        missing_from-Tells visits (o ∷ old) (n ∷ new) v,
        missing_from-Tells visits' (n ∷ new) (o ∷ old) v',
      )
