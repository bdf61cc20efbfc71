-- ===== src/Db/Rollup.antt =====
-- `rollup` of src/db.rs: the samples that are newer than `meta.last_rollup_ts` are added to the
-- hourly, daily and monthly buckets.
pub mod Sums
pub mod Laws
use netmeter.Prelude.{
  ℕ, ◌≡◌, refl, Bool, Text, codes, Map, List, [], ◌∷◌, Option, none, some, keep, lookup, insert,
  upsert, add_all, text_eq, pair_eq, int_eq,
}
use netmeter.Prelude.Int.{ℤ, pos, ltb_ℤ, max_ℤ}
use netmeter.Prelude.Decimal.{print_int, parse_i64}
use netmeter.Db.{Db, Table, Traffic, no_traffic, add_traffic, traffic_amount}
use netmeter.Db.Time.{Calendar, floor_hour, floor_day, floor_month}

-- `v.and_then(|s| s.parse().ok())`.
abbrev pub marker_value : Option Text → Option ℤ
marker_value none = none
marker_value (some v) = parse_i64 v

-- `rollup_marker`: the newest sample's time that is folded in. A value that does not parse counts
-- as none.
unfoldable pub rollup_marker : Db → Option ℤ
rollup_marker db = marker_value (lookup (codes "last_rollup_ts") db.meta)

-- The key of a sample that falls into the bucket which begins at `floor ts`.
abbrev pub bucket_key : (ℤ → ℤ) → ℤ × Text → ℤ × Text
bucket_key floor (ts, iface) = (floor ts, iface)

-- `SELECT … FROM samples`, with `WHERE ts > ?1` where there is a marker.
unfoldable pub pending : Option ℤ → Table → Table
pending none samples = samples
pending (some last) samples = keep (λ s. ltb_ℤ last s.0.0) samples

-- `rows.iter().map(|r| r.0).max()`.
unfoldable pub newest : Table → Option ℤ
newest [] = none
newest (((ts, _), _) ∷ rows) = elim (newest rows) [ none ↦ some ts | some t ↦ some (max_ℤ ts t) ]

-- `map.entry((b, iface)).or_insert((0, 0, 0, 0))`, then the four sums.
unfoldable pub accumulate : (ℤ → ℤ) → Table → Table → Table
accumulate floor [] m = m
accumulate floor ((k, v) ∷ rows) m =
    accumulate floor rows
      (upsert (bucket_key floor k) (add_traffic no_traffic v) (λ e. add_traffic e v) m)

-- The buckets of one rollup table: emptied where there was no marker, then the upsert of each
-- accumulated entry.
unfoldable pub fold_into : (ℤ → ℤ) → Option ℤ → Table → Table → Table
unfolding accumulate add_all
fold_into floor none rows table = add_all (accumulate floor rows []) []
fold_into floor (some _) rows table = add_all (accumulate floor rows []) table

module _ (j : Calendar) where
  unfoldable pub rollup : Db → Bool → Db
  rollup db tz_local =
      let last = rollup_marker db in
      let rows = pending last db.samples in
      elim (newest rows) [
        | none ↦ db
        | some max_ts ↦ record db {
          hourly = fold_into (λ ts. floor_hour j ts tz_local) last rows db.hourly;
          daily = fold_into (λ ts. floor_day j ts tz_local) last rows db.daily;
          monthly = fold_into (λ ts. floor_month j ts tz_local) last rows db.monthly;
          meta = insert (codes "last_rollup_ts") (print_int max_ts) db.meta;
        }
      ]
