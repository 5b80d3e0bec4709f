-- ===== src/Metadata/Stats/Series.antt =====
-- What the queries give: the rows of each metric, in time, and the same after a prune before the
-- window.
use warpbox_custom.Prelude.{
  arith, ℕ, ◌+◌, ◌-◌, ◌≡◌, ◌≤◌, ◌≢◌, Bool, false, leb, if◌then◌else◌, refl, sym, ap, ◌∙◌, subst,
  inl, inr, true, ◌&&◌, Option, none, some, Option-cases, Bool-cases, List, [], ◌∷◌, ◌++◌,
  append_assoc, append-nil, Text, text_eq, text_eq_refl, text_eq→eq, text_eq_instance, length,
  length-keep, keep, All, lookup, insert, lookup-insert_self, lookup-insert_ne, ok,
}
use mathlib.Core.List.{Memᴰ, Permᴰ}
use mathlib.Core.List.Permᴰ
use warpbox_custom.Prelude.Members.{Memᴰ-keep_of, Permᴰ-Memᴰ}
use warpbox_custom.Metadata.Stats.{
  StatsRecord, Table, is_since, is_of, query_stats, group_records, records_of,
  query_all_stats_since, prune_stats,
}

-- The records of a metric after others are added: no metric has an empty list.
abbrev joined : Option Table → Table → Option Table
joined none [] = none
joined none (r ∷ rows) = some (r ∷ rows)
joined (some old) rows = some (old ++ rows)

joined-cons :
    (o : Option Table) (r : StatsRecord) (rows : Table)
    → joined (some (records_of o ++ r ∷ [])) rows ≡ joined o (r ∷ rows)
joined-cons none r rows = refl
joined-cons (some old) r rows = ap (λ t. some t) (append_assoc old (r ∷ []) rows)

lookup-group_records :
    (metric : Text) (rows : Table) (m : List (Text × Table))
    → lookup metric (group_records rows m) ≡ joined (lookup metric m) (keep (is_of metric) rows)
unfolding group_records
lookup-group_records metric [] m = elim (Option-cases (lookup metric m)) [
  | inl e ↦ rw e refl
  | inr (old, e) ↦ rw e (ap (λ t. some t) (sym (append-nil old)))
]
lookup-group_records metric (r ∷ rows) m = elim (Bool-cases (text_eq r.metric metric)) [
  | inl t ↦
      let e = text_eq→eq r.metric metric t in
      let v = records_of (lookup r.metric m) ++ r ∷ [] in
      let there : lookup metric (insert r.metric v m) ≡ some v =
        ap (λ k. lookup k (insert r.metric v m)) (sym e) ∙ lookup-insert_self r.metric v m in
      rw (keep, t)
        (lookup-group_records metric rows (insert r.metric v m)
          ∙ ap (λ o. joined o (keep (is_of metric) rows)) there
          ∙ joined-cons (lookup r.metric m) r (keep (is_of metric) rows)
          ∙ ap (λ k. joined (lookup k m) (r ∷ keep (is_of metric) rows)) e)
  | inr f ↦
      rw (keep, f)
        (lookup-group_records metric rows _
          ∙ ap (λ o. joined o (keep (is_of metric) rows)) (lookup-insert_ne r.metric metric _ m f))
]

-- The order of a query: the same rows, and those of one metric in time.
abbrev pub InTime : Table → Type 0
InTime [] = Unit
InTime (r ∷ rows) =
    All (λ x. text_eq r.metric x.metric ≡ true → r.timestamp ≤ x.timestamp) rows × InTime rows

pub record Orders (order : Table → Table) : Type 0 where
  pub rows : (t : Table) → Permᴰ (order t) t
  pub in_time : (t : Table) → InTime (order t)

abbrev pub Ascending : Table → Type 0
Ascending [] = Unit
Ascending (r ∷ rows) = All (λ x. r.timestamp ≤ x.timestamp) rows × Ascending rows

later_kept :
    (metric : Text) (r : StatsRecord) (rows : Table)
    → text_eq r.metric metric ≡ true
    → All (λ x. text_eq r.metric x.metric ≡ true → r.timestamp ≤ x.timestamp) rows
    → All (λ x. r.timestamp ≤ x.timestamp) (keep (is_of metric) rows)
later_kept metric r [] t h = tt
later_kept metric r (x ∷ rows) t (first, h) = elim (Bool-cases (text_eq x.metric metric)) [
  | inr f ↦ rw (keep, f) (later_kept metric r rows t h)
  | inl same ↦
      let one : x.metric ≡ r.metric =
        text_eq→eq x.metric metric same ∙ sym (text_eq→eq r.metric metric t) in
      let equal : text_eq r.metric x.metric ≡ true =
        ap (λ k. text_eq r.metric k) one ∙ text_eq_refl r.metric in
      rw (keep, same) (first equal, later_kept metric r rows t h)
]

Ascending-keep : (metric : Text) (rows : Table) → InTime rows → Ascending (keep (is_of metric) rows)
Ascending-keep metric [] h = tt
Ascending-keep metric (r ∷ rows) (first, h) = elim (Bool-cases (text_eq r.metric metric)) [
  | inr f ↦ rw (keep, f) (Ascending-keep metric rows h)
  | inl t ↦ rw (keep, t) (later_kept metric r rows t first, Ascending-keep metric rows h)
]

-- The rows of a metric since a time, in the order of the table.
abbrev pub series : (metric : Text) → (since : ℕ) → Table → Table
series metric since [] = []
series metric since (x ∷ rows) =
    let rest = series metric since rows in
    if text_eq x.metric metric && leb since x.timestamp then x ∷ rest else rest

-- What a query for all metrics gives for one: its rows since a time, each as often as the table has
-- it, in time, if there is one; and nothing if there is none.
abbrev pub IsSeries : Table → (metric : Text) → (since : ℕ) → Option Table → Type 0
IsSeries rows metric since none =
    (x : StatsRecord) → Memᴰ x rows → ¬ ((x.metric ≡ metric) × (since ≤ x.timestamp))
IsSeries rows metric since (some records) =
    (records ≢ []) × Ascending records × Permᴰ records (series metric since rows)

put :
    {l m : Table} (b : Bool) (x y : StatsRecord)
    → x ≡ y
    → Permᴰ l m
    → Permᴰ (if b then x ∷ l else l) (if b then y ∷ m else m)
put true x y e p = Permᴰ.cons e p
put false x y e p = p

keep-if :
    (p : StatsRecord → Bool) (x : StatsRecord) (l : Table)
    → keep p (x ∷ l) ≡ (if p x then x ∷ keep p l else keep p l)
keep-if p x l = elim (Bool-cases (p x)) [ inl t ↦ rw (keep, t) refl | inr f ↦ rw (keep, f) refl ]

put_both :
    (b c : Bool) (x y : StatsRecord) (l : Table)
    → Permᴰ
        (if b then x ∷ (if c then y ∷ l else l) else (if c then y ∷ l else l))
        (if c then y ∷ (if b then x ∷ l else l) else (if b then x ∷ l else l))
put_both true true x y l = Permᴰ.swap refl refl
put_both true false x y l = Permᴰ.refl (x ∷ l)
put_both false true x y l = Permᴰ.refl (y ∷ l)
put_both false false x y l = Permᴰ.refl l

keep_both :
    (p : StatsRecord → Bool) (x y : StatsRecord) (l : Table)
    → keep p (x ∷ y ∷ l) ≡ (
        if p x
        then x ∷ (if p y then y ∷ keep p l else keep p l)
        else (if p y then y ∷ keep p l else keep p l))
keep_both p x y l =
    keep-if p x (y ∷ l) ∙ ap (λ (m : Table). if p x then x ∷ m else m) (keep-if p y l)

kept_swap :
    (p : StatsRecord → Bool) (x y : StatsRecord) (l : Table)
    → Permᴰ (keep p (x ∷ y ∷ l)) (keep p (y ∷ x ∷ l))
kept_swap p x y l =
    subst (λ t. Permᴰ t (keep p (y ∷ x ∷ l))) (sym (keep_both p x y l))
      (subst (Permᴰ _) (sym (keep_both p y x l)) (put_both (p x) (p y) x y (keep p l)))

keep-Permᴰ : (p : StatsRecord → Bool) {l m : Table} → Permᴰ l m → Permᴰ (keep p l) (keep p m)
keep-Permᴰ p Permᴰ.nil = Permᴰ.nil
keep-Permᴰ p (Permᴰ.cons {a} {b} {l₁} {l₂} same q) =
    subst (λ (z : StatsRecord). Permᴰ (keep p (a ∷ l₁)) (keep p (z ∷ l₂))) same
      (subst (λ t. Permᴰ t (keep p (a ∷ l₂))) (sym (keep-if p a l₁))
        (subst (λ t. Permᴰ (if p a then a ∷ keep p l₁ else keep p l₁) t) (sym (keep-if p a l₂))
          (put (p a) a a refl (keep-Permᴰ p q))))
keep-Permᴰ p (Permᴰ.swap {a} {b} {a'} {b'} {l} same same') =
    subst (λ (z : StatsRecord). Permᴰ (keep p (a ∷ b ∷ l)) (keep p (a' ∷ z ∷ l))) same
      (subst (λ (z : StatsRecord). Permᴰ (keep p (a ∷ b ∷ l)) (keep p (z ∷ a ∷ l))) same'
        (kept_swap p a b l))
keep-Permᴰ p (Permᴰ.trans q r) = Permᴰ.trans (keep-Permᴰ p q) (keep-Permᴰ p r)

keep-series :
    (metric : Text) (since : ℕ) (rows : Table)
    → keep (is_of metric) (keep (is_since since) rows) ≡ series metric since rows
keep-series metric since [] = refl
keep-series metric since (x ∷ rows) = ground (arith, keep-series metric since rows)

keep-keep :
    (since cutoff : ℕ) (rows : Table)
    → cutoff ≤ since
    → keep (is_since since) (keep (is_since cutoff) rows) ≡ keep (is_since since) rows
keep-keep since cutoff [] h = refl
keep-keep since cutoff (r ∷ rows) h = ground (arith, keep-keep since cutoff rows h)

keep-keep_of :
    (metric : Text) (since cutoff : ℕ) (rows : Table)
    → cutoff ≤ since
    → keep (λ r. is_of metric r && is_since since r) (keep (is_since cutoff) rows)
      ≡ keep (λ r. is_of metric r && is_since since r) rows
keep-keep_of metric since cutoff [] h = refl
keep-keep_of metric since cutoff (r ∷ rows) h =
    ground (arith, keep-keep_of metric since cutoff rows h)

joined-IsSeries :
    (rows : Table) (metric : Text) (since : ℕ) (records : Table)
    → Ascending records
    → Permᴰ records (series metric since rows)
    → ((x : StatsRecord)
        → Memᴰ x rows
        → (x.metric ≡ metric) × (since ≤ x.timestamp)
        → Memᴰ x records)
    → IsSeries rows metric since (joined none records)
joined-IsSeries rows metric since [] a p has = λ x m late. elim (has x m late) [ ]
joined-IsSeries rows metric since (r ∷ records) a p has = ((λ e. cc (e)), a, p)

module _ (order : Table → Table) (since : ℕ) (metric : Text) (rows : Table) (o : Orders order) where
  kept_rows :
      Permᴰ (keep (is_of metric) (order (keep (is_since since) rows))) (series metric since rows)
  kept_rows =
      subst (Permᴰ (keep (is_of metric) (order (keep (is_since since) rows))))
        (keep-series metric since rows)
        (keep-Permᴰ (is_of metric) (o.rows (keep (is_since since) rows)))

  has_rows :
      (x : StatsRecord)
      → Memᴰ x rows
      → (x.metric ≡ metric) × (since ≤ x.timestamp)
      → Memᴰ x (keep (is_of metric) (order (keep (is_since since) rows)))
  has_rows x m (same, late) =
      let rows' = keep (is_since since) rows in
      Memᴰ-keep_of (is_of metric) (order rows') x
        (Permᴰ-Memᴰ (Permᴰ.symm (o.rows rows'))
          (Memᴰ-keep_of (is_since since) rows x m (ground (arith, late))))
        (ap (λ k. text_eq k metric) same ∙ text_eq_refl metric)

-- The chart's query, when the database executes it and orders the rows as asked: every metric's
-- records are its rows since the time, each as often as the table has it and no other, ascending in
-- time; and a metric is in the result only if it has such a row.
pub query_all_stats_since-IsSeries :
    (order : Table → Table) (since : ℕ) (rows : Table)
    → Orders order
    → (grouped : List (Text × Table)) × (query_all_stats_since none order since rows ≡ ok grouped)
      × ((metric : Text) → IsSeries rows metric since (lookup metric grouped))
unfolding query_all_stats_since lookup
query_all_stats_since-IsSeries order since rows o =
    let rows' = order (keep (is_since since) rows) in
    (
      group_records rows' [],
      refl,
      λ metric. subst (IsSeries rows metric since) (sym (lookup-group_records metric rows' [])) (
          joined-IsSeries rows metric since (keep (is_of metric) rows')
            (Ascending-keep metric rows' (o.in_time (keep (is_since since) rows)))
            (kept_rows order since metric rows o) (has_rows order since metric rows o)),
    )

-- Whatever the database answers to the prune: the number of rows that it returns is that by which
-- the table is shorter; and if the cutoff is no later than the time of a query, then the queries
-- since that time give what they gave before, for a metric and for all.
prune_stats-query :
    (e : Option Text) (cutoff since : ℕ) (order : Table → Table) (metric : Text) (rows : Table)
    → cutoff ≤ since
    → ((n : ℕ)
        → (prune_stats e cutoff rows).0 ≡ ok n
        → n + length (prune_stats e cutoff rows).1 ≡ length rows)
      × (query_stats none order metric since (prune_stats e cutoff rows).1
          ≡ query_stats none order metric since rows)
      × (query_all_stats_since none order since (prune_stats e cutoff rows).1
          ≡ query_all_stats_since none order since rows)
unfolding prune_stats query_stats query_all_stats_since
prune_stats-query (some e) cutoff since order metric rows h = (λ n b. cc, refl, refl)
prune_stats-query none cutoff since order metric rows h = (
  λ n b.
      let e : length rows - length (keep (is_since cutoff) rows) ≡ n = cc (b) in
      omega (arith, e, length-keep (is_since cutoff) rows),
  ap (λ t. ok (order t)) (keep-keep_of metric since cutoff rows h),
  ap (λ t. ok (group_records (order t) [])) (keep-keep since cutoff rows h),
)
