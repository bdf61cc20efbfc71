-- ===== src/Show/Export.antt =====
-- The times of the rows that the export of src/main.rs gives.
use netmeter.Prelude.{
  ◌*◌, Bool, ◌&&◌, [], ◌∷◌, none, Text, codes, Map, All, All-map, keep_passes, Bool-cases, subst,
  inl, inr, arith, text_eq, pair_eq, int_eq,
}
use netmeter.Prelude.Int.{ℤ, pos, ◌+ℤ◌, leb_ℤ, ltb_ℤ, beq_ℤ, +ℤ_assoc, ◌≤ℤ◌, ◌<ℤ◌}
use netmeter.Prelude.Ordered.{tree_entry, into_values}
use netmeter.Db.{Db, Table}
use netmeter.Db.Time.{Calendar, Date, midnight}
use netmeter.Db.Query.{in_range, table_of, plus, add_to, rows_all, query_range}
use netmeter.Show.{parse_date}
use netmeter.Show.Status.{export_rows}

module _ {V : Type 0} (P : V → Type 0) where
  tree_entry-All :
      (k : ℤ) (v : V) (f : V → V) (m : Map ℤ V)
      → P (f v)
      → ((w : V) → P w → P (f w))
      → All (λ e. P e.1) m
      → All (λ e. P e.1) (tree_entry k v f m)
  unfolding tree_entry
  tree_entry-All k v f [] p q h = (p, tt)
  tree_entry-All k v f ((i, w) ∷ m) p q h = elim (Bool-cases (beq_ℤ k i)) [
    | inl same ↦ rw same (q w h.0, h.1)
    | inr other ↦ rw other (elim (Bool-cases (ltb_ℤ k i)) [
      | inl less ↦ rw less (p, h)
      | inr more ↦ rw more (h.0, tree_entry-All k v f m p q h.1)
    ])
  ]

  into_values-All : (m : Map ℤ V) → All (λ e. P e.1) m → All P (into_values m)
  into_values-All [] h = tt
  into_values-All ((k, v) ∷ m) h = (h.0, into_values-All m h.1)

rows_all-All :
    (P : ℤ → Type 0) (t : Table) → All (λ e. P e.0.0) t → All (λ e. P e.1.ts) (rows_all t)
unfolding rows_all add_to
rows_all-All P [] h = tt
rows_all-All P (((ts, i), v) ∷ t) h =
    tree_entry-All (λ r. P r.ts) ts _ (plus v) (rows_all t) h.0 (λ w p. p) (rows_all-All P t h.1)

-- A query over all interfaces gives rows of its range alone.
query_range-All :
    (db : Db) (name : Text) (from to : ℤ)
    → All (λ r. (from ≤ℤ r.ts) × (r.ts <ℤ to)) (query_range db name from to none)
unfolding query_range in_range
query_range-All db name from to =
    into_values-All (λ r. (from ≤ℤ r.ts) × (r.ts <ℤ to)) _
      (rows_all-All (λ ts. (from ≤ℤ ts) × (ts <ℤ to)) _
        (All-map (λ e p. (ground arith, ground arith)) _
          (keep_passes (λ e. leb_ℤ from e.0.0 && ltb_ℤ e.0.0 to) (table_of name db))))

-- Every row of an export lies at or after the moment 86400 seconds behind the first date's midnight
-- and before the moment 2 * 86400 seconds behind the last date's midnight.
pub export_rows-All :
    (j : Calendar) (db : Db) (from to : Date) (local : Bool)
    → All
        (λ r.
          (j.timestamp local (midnight from) +ℤ pos 86_400 ≤ℤ r.ts)
          × (r.ts <ℤ j.timestamp local (midnight to) +ℤ pos (2 * 86_400)))
        (export_rows j db from to local)
unfolding export_rows parse_date ◌+ℤ◌
export_rows-All j db from to local =
    subst
      (λ to'.
        All (λ r. (j.timestamp local (midnight from) +ℤ pos 86_400 ≤ℤ r.ts) × (r.ts <ℤ to'))
          (query_range db (codes "samples") (j.timestamp local (midnight from) +ℤ pos 86_400)
            (j.timestamp local (midnight to) +ℤ pos 86_400 +ℤ pos 86_400) none))
      (+ℤ_assoc (j.timestamp local (midnight to)) (pos 86_400) (pos 86_400))
      (query_range-All db (codes "samples") _ _)
