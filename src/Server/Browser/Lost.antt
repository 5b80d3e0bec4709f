-- ===== src/Server/Browser/Lost.antt =====
-- The rows of a page that is sorted by the type in descending order, when the items have the array
-- of the directories.
use warpbox_custom.Prelude.{
  ℕ, zero, suc, ◌-◌, ◌≤◌, ◌≡◌, refl, sym, ap, ◌∙◌, true, false, Bool, inl, inr, Bool-cases, List,
  [], ◌∷◌, ◌++◌, append_assoc, append-nil, All, set, length, length-append, drop, arith, leb,
}
use warpbox_custom.Server.Browser.{Item}
use warpbox_custom.Server.Browser.Order.{keep-in, keep-out}
use warpbox_custom.Server.Browser.Page.{
  by_type, comes_before, ordered_rows, split_shared, dirs_of, files_of,
}

set-append :
    {A : Type 0} (ds : List A) (r v : A) (rest : List A)
    → set (ds ++ r ∷ rest) (length ds) v ≡ ds ++ v ∷ rest
set-append [] r v rest = refl
set-append (d ∷ ds) r v rest = ap (λ l. d ∷ l) (set-append ds r v rest)

-- The directories are written over the first slots, and the others keep their items.
abbrev overwritten : List Item → List Item → List Item
overwritten rest todo = dirs_of todo ++ drop (length (dirs_of todo)) (rest ++ todo)

dirs_of-dir : (it : Item) (l : List Item) → it.is_dir ≡ true → dirs_of (it ∷ l) ≡ it ∷ dirs_of l
dirs_of-dir it l t = keep-in (λ (x : Item). x.is_dir) it l t

dirs_of-file : (it : Item) (l : List Item) → it.is_dir ≡ false → dirs_of (it ∷ l) ≡ dirs_of l
dirs_of-file it l f = keep-out (λ (x : Item). x.is_dir) it l f

-- The slots from the one that is written next, the current item's the last of them.
slots_from :
    (rest : List Item) (it : Item)
    → (slot : Item) × (slots : List Item) × ((todo : List Item)
        → rest ++ it ∷ todo ≡ slot ∷ (slots ++ todo))
slots_from [] it = (it, [], λ todo. refl)
slots_from (r ∷ rest) it =
    (r, rest ++ it ∷ [], λ todo. ap (λ l. r ∷ l) (sym (append_assoc rest (it ∷ []) todo)))

step_dir :
    (n : ℕ) (done : List Item) (it : Item) (todo : List Item)
    → it.is_dir ≡ true
    → split_shared n done (it ∷ todo) ≡ split_shared (suc n) (set (done ++ it ∷ []) n it) todo
unfolding split_shared
step_dir n done it todo t = rw (split_shared, t) refl

step_file :
    (n : ℕ) (done : List Item) (it : Item) (todo : List Item)
    → it.is_dir ≡ false
    → split_shared n done (it ∷ todo) ≡ split_shared n (done ++ it ∷ []) todo
unfolding split_shared
step_file n done it todo f = rw (split_shared, f) refl

split_shared-eq :
    (ds rest todo : List Item)
    → split_shared (length ds) (ds ++ rest) todo ≡ ds ++ overwritten rest todo
unfolding split_shared
split_shared-eq ds rest [] = ap (λ l. ds ++ l) (sym (append-nil rest))
split_shared-eq ds rest (it ∷ todo) = elim (Bool-cases it.is_dir) [
  | inl t ↦
      let (slot, slots, e) = slots_from rest it in
      let array : set ((ds ++ rest) ++ it ∷ []) (length ds) it ≡ (ds ++ it ∷ []) ++ slots =
        ap (λ l. set l (length ds) it)
          (append_assoc ds rest (it ∷ [])
            ∙ ap (λ l. ds ++ l) (e [] ∙ ap (λ l. slot ∷ l) (append-nil slots)))
        ∙ set-append ds slot it slots
        ∙ sym (append_assoc ds (it ∷ []) slots) in
      let count : suc (length ds) ≡ length (ds ++ it ∷ []) =
        omega (arith, length-append ds (it ∷ [])) in
      let behind : overwritten rest (it ∷ todo) ≡ it ∷ overwritten slots todo =
        ap (λ l. l ++ drop (length l) (rest ++ it ∷ todo)) (dirs_of-dir it todo t)
        ∙ ap (λ l. it ∷ (dirs_of todo ++ drop (suc (length (dirs_of todo))) l)) (e todo) in
      step_dir (length ds) (ds ++ rest) it todo t
      ∙ ap (λ l. split_shared (suc (length ds)) l todo) array
      ∙ ap (λ n. split_shared n ((ds ++ it ∷ []) ++ slots) todo) count
      ∙ split_shared-eq (ds ++ it ∷ []) slots todo
      ∙ append_assoc ds (it ∷ []) (overwritten slots todo)
      ∙ ap (λ l. ds ++ l) (sym behind)
  | inr f ↦
      let behind : overwritten rest (it ∷ todo) ≡ overwritten (rest ++ it ∷ []) todo =
        ap (λ l. l ++ drop (length l) (rest ++ it ∷ todo)) (dirs_of-file it todo f)
        ∙ ap (λ l. dirs_of todo ++ drop (length (dirs_of todo)) l)
            (sym (append_assoc rest (it ∷ []) todo)) in
      step_file (length ds) (ds ++ rest) it todo f
      ∙ ap (λ l. split_shared (length ds) l todo) (append_assoc ds rest (it ∷ []))
      ∙ split_shared-eq ds (rest ++ it ∷ []) todo
      ∙ ap (λ l. ds ++ l) (sym behind)
]

dirs_of-dirs : (l : List Item) → All (λ it. it.is_dir ≡ true) l → dirs_of l ≡ l
dirs_of-dirs [] h = refl
dirs_of-dirs (it ∷ l) (h, all) = dirs_of-dir it l h ∙ ap (λ k. it ∷ k) (dirs_of-dirs l all)

dirs_of-files :
    (files dirs : List Item)
    → All (λ it. it.is_dir ≡ false) files
    → dirs_of (files ++ dirs) ≡ dirs_of dirs
dirs_of-files [] dirs h = refl
dirs_of-files (it ∷ files) dirs (h, all) =
    dirs_of-file it (files ++ dirs) h ∙ dirs_of-files files dirs all

le→leb : (m n : ℕ) → m ≤ n → leb m n ≡ true
le→leb m n h = ground arith

drop-files :
    (files dirs : List Item) (n : ℕ)
    → length files ≤ n
    → drop n (files ++ dirs) ≡ drop (n - length files) dirs
drop-files [] dirs n h = let same : n ≡ n - 0 = omega arith in ap (λ k. drop k dirs) same
drop-files (it ∷ files) dirs zero h = absurd (omega arith)
drop-files (it ∷ files) dirs (suc n) h =
    let same : n - length files ≡ suc n - suc (length files) = omega arith in
    drop-files files dirs n (omega arith) ∙ ap (λ k. drop k dirs) same

-- A page that is sorted by the type in descending order, when the capacity of the array of the
-- directories suffices for the files, the sort puts the files before the directories, and there are
-- at least as many directories as files: no file is shown, and in their place the last directories
-- stand a second time.
pub ordered_rows_lost :
    (sort : (Item → Item → Bool) → List Item → List Item) (spare : ℕ) (items files dirs : List Item)
    → length (files_of items) ≤ spare
    → sort (comes_before (record { field = by_type; desc = true })) items ≡ files ++ dirs
    → All (λ it. it.is_dir ≡ false) files
    → All (λ it. it.is_dir ≡ true) dirs
    → length files ≤ length dirs
    → ordered_rows sort spare (record { field = by_type; desc = true }) items
      ≡ dirs ++ drop (length dirs - length files) dirs
unfolding ordered_rows
ordered_rows_lost sort spare items files dirs room sorted no_dirs all_dirs few =
    let shown : dirs_of (files ++ dirs) ≡ dirs =
      dirs_of-files files dirs no_dirs ∙ dirs_of-dirs dirs all_dirs in
    rw (ordered_rows, le→leb (length (files_of items)) spare room)
      (ap (split_shared 0 []) sorted
        ∙ split_shared-eq [] [] (files ++ dirs)
        ∙ ap (λ l. l ++ drop (length l) (files ++ dirs)) shown
        ∙ ap (λ l. dirs ++ l) (drop-files files dirs (length dirs) few))
