-- ===== src/Show/Totals.antt =====
-- The totals of `netmeter today` in src/main.rs and those of the dashboard in src/live.rs.
use netmeter.Prelude.{
  ◌≡◌, refl, ◌∙◌, Bool, true, ◌&&◌, List, [], ◌∷◌, All, codes, inl, inr, Bool-cases,
}
use netmeter.Prelude.Int.{ℤ, pos, ◌+ℤ◌, ltb_ℤ, leb_ℤ}
use netmeter.Db.{Db, Row, Table}
use netmeter.Db.Time.{Calendar, floor_day}
use netmeter.Db.Window.{window_sum}
use netmeter.Db.Query.{in_range, table_of}
use netmeter.Db.Query.Laws.{sum_rows, sum_table, query_range-sum_rows}
use netmeter.Show.Status.{sum_of, today}

sum_of-sum_rows : (rows : List Row) → sum_of rows ≡ sum_rows (λ ts. true) rows
unfolding sum_of sum_rows
sum_of-sum_rows [] = refl
sum_of-sum_rows (r ∷ rows) = rw (sum_of-sum_rows rows)

sum_table-window_sum :
    (from to : ℤ) (t : Table)
    → All (λ e. ltb_ℤ e.0.0 to ≡ true) t
    → sum_table (λ ts. in_range from to ts && true) t ≡ window_sum from t
unfolding sum_table window_sum in_range
sum_table-window_sum from to [] h = refl
sum_table-window_sum from to ((k, v) ∷ t) h = elim (Bool-cases (leb_ℤ from k.0)) [
  | inl inside ↦ rw (inside, h.0, sum_table-window_sum from to t h.1)
  | inr before ↦ rw (before, sum_table-window_sum from to t h.1)
]

-- While no sample is later than now, netmeter today shows the sums that the dashboard and the
-- budget check take of the samples since the day's midnight.
pub today-window_sum :
    (j : Calendar) (db : Db) (now : ℤ) (local : Bool)
    → All (λ e. ltb_ℤ e.0.0 (now +ℤ pos 1) ≡ true) db.samples
    → today j db now local ≡ window_sum (floor_day j now local) db.samples
unfolding today table_of
today-window_sum j db now local h =
    sum_of-sum_rows _
    ∙ query_range-sum_rows db (codes "samples") (floor_day j now local) (now +ℤ pos 1) (λ ts. true)
    ∙ sum_table-window_sum (floor_day j now local) (now +ℤ pos 1) db.samples h
