-- ===== src/Metadata/Stats/Tests.antt =====
-- The chart of a table of three rows, with an order by time.
use warpbox_custom.Prelude.{
  arith, ℕ, ◌≡◌, ◌≤◌, refl, inl, inr, true, none, Bool-cases, List, [], ◌∷◌, Text, codes, leb,
  leb→le, if◌then◌else◌, lookup, text_eq_instance, text_eq, pos, ok,
}
use mathlib.Core.List.{Permᴰ}
use mathlib.Core.List.Permᴰ
use warpbox_custom.Prelude.Members.{Permᴰ-Memᴰ, All-of_Memᴰ, All-Memᴰ}
use warpbox_custom.Metadata.Stats.{StatsRecord, Table, query_all_stats_since}
use warpbox_custom.Metadata.Stats.Series.{
  InTime, Orders, Ascending, IsSeries, query_all_stats_since-IsSeries,
}

insert_row : StatsRecord → Table → Table
insert_row x [] = x ∷ []
insert_row x (y ∷ t) =
    let rest = insert_row x t in if leb x.timestamp y.timestamp then x ∷ y ∷ t else y ∷ rest

by_time : Table → Table
unfolding insert_row
by_time [] = []
by_time (x ∷ t) = insert_row x (by_time t)

insert_row-Permᴰ : (x : StatsRecord) (t : Table) → Permᴰ (x ∷ t) (insert_row x t)
unfolding insert_row
insert_row-Permᴰ x [] = Permᴰ.refl (x ∷ [])
insert_row-Permᴰ x (y ∷ t) = elim (Bool-cases (leb x.timestamp y.timestamp)) [
  | inl e ↦ rw (insert_row, e) (Permᴰ.refl (x ∷ y ∷ t))
  | inr f ↦
      rw (insert_row, f)
        (Permᴰ.trans (Permᴰ.swap refl refl) (Permᴰ.cons refl (insert_row-Permᴰ x t)))
]

by_time-Permᴰ : (t : Table) → Permᴰ t (by_time t)
unfolding by_time
by_time-Permᴰ [] = Permᴰ.refl []
by_time-Permᴰ (x ∷ t) =
    Permᴰ.trans (Permᴰ.cons refl (by_time-Permᴰ t)) (insert_row-Permᴰ x (by_time t))

insert_row-Ascending : (x : StatsRecord) (t : Table) → Ascending t → Ascending (insert_row x t)
unfolding insert_row
insert_row-Ascending x [] a = (tt, tt)
insert_row-Ascending x (y ∷ t) (first, a) = elim (Bool-cases (leb x.timestamp y.timestamp)) [
  | inl e ↦
      let le = leb→le x.timestamp y.timestamp e in
      rw (insert_row, e)
        (
          (
            le,
            All-of_Memᴰ (λ z. x.timestamp ≤ z.timestamp) t
                (λ z m.
                  let later = All-Memᴰ (λ z. y.timestamp ≤ z.timestamp) t z first m in omega arith),
          ),
          (first, a),
        )
  | inr f ↦
      let le : y.timestamp ≤ x.timestamp = ground (arith, f) in
      rw (insert_row, f)
        (
          All-of_Memᴰ (λ z. y.timestamp ≤ z.timestamp) (insert_row x t)
              (λ z m.
                All-Memᴰ (λ z. y.timestamp ≤ z.timestamp) (x ∷ t) z (le, first)
                  (Permᴰ-Memᴰ (Permᴰ.symm (insert_row-Permᴰ x t)) m)),
          insert_row-Ascending x t a,
        )
]

by_time-Ascending : (t : Table) → Ascending (by_time t)
unfolding by_time
by_time-Ascending [] = tt
by_time-Ascending (x ∷ t) = insert_row-Ascending x (by_time t) (by_time-Ascending t)

Ascending-InTime : (t : Table) → Ascending t → InTime t
Ascending-InTime [] a = tt
Ascending-InTime (x ∷ t) (first, a) = (
  All-of_Memᴰ (λ z. text_eq x.metric z.metric ≡ true → x.timestamp ≤ z.timestamp) t
      (λ z m same. All-Memᴰ (λ z. x.timestamp ≤ z.timestamp) t z first m),
  Ascending-InTime t a,
)

by_time-Orders : Orders by_time
by_time-Orders = record {
  rows = λ t. Permᴰ.symm (by_time-Permᴰ t);
  in_time = λ t. Ascending-InTime (by_time t) (by_time-Ascending t);
}

abbrev row : ℕ → Text → StatsRecord
row t metric = record { timestamp = t; metric = metric; value = pos t }

abbrev rows : Table
rows = row 70 (codes "sys_mb") ∷ row 10 (codes "sys_mb") ∷ row 80 (codes "alloc_mb") ∷ []

query_all_stats_since-IsSeries_example :
    (grouped : List (Text × Table)) × (query_all_stats_since none by_time 60 rows ≡ ok grouped)
    × ((metric : Text) → IsSeries rows metric 60 (lookup metric grouped))
query_all_stats_since-IsSeries_example =
    query_all_stats_since-IsSeries by_time 60 rows by_time-Orders
