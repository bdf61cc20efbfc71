-- ===== src/Db/Rollup/Laws.antt =====
-- `rollup` of src/db.rs against the sums of the samples: what one run does to a bucket, and to the
-- marker.
use netmeter.Prelude.{
  ◌≡◌, refl, sym, ◌∙◌, ap, Bool, true, false, Text, codes, [], ◌∷◌, Option, none, some, keep, All,
  All-map, lookup, amount_at, amount_at-add_all, if◌then◌else◌, ◌==◌, text_eq, pair_eq, int_eq,
  Bool-cases, Option-cases, inl, inr, arith, ◌⊎◌, subst, ◌≤◌, suc, lookup-insert_self,
}
use mathlib.Core.Option.{some-injective}
use netmeter.Prelude.Int.{ℤ, pos_part, neg_part, ltb_ℤ, leb_ℤ, ◌≤ℤ◌, max_ℤ}
use netmeter.Prelude.Decimal.{i64_max, print_int}
use netmeter.Prelude.Decimal.Laws.{parse_i64-print_int}
use netmeter.Db.{
  Db, Table, Traffic, no_traffic, add_traffic, traffic_amount, no_traffic-add, add_traffic_assoc,
  add_traffic_comm,
}
use netmeter.Db.Time.{Calendar, floor_hour, floor_day, floor_month}
use netmeter.Db.Rollup.{
  bucket_key, marker_value, rollup_marker, pending, newest, accumulate, fold_into, rollup,
}
use netmeter.Db.Rollup.Sums.{sum_at, accumulate-IsMap, amount_at-accumulate}

-- The rows that a marker covers.
unfoldable pub folded : Option ℤ → Table → Table
folded none rows = []
folded (some last) rows = keep (λ s. leb_ℤ s.0.0 last) rows

-- What one row adds to a bucket.
unfoldable pub share : (ℤ → ℤ) → ℤ × Text → (ℤ × Text) × Traffic → Traffic
share floor key s = if bucket_key floor s.0 == key then s.1 else no_traffic

pub sum_at-cons :
    (floor : ℤ → ℤ) (key : ℤ × Text) (s : (ℤ × Text) × Traffic) (rows : Table)
    → sum_at floor key (s ∷ rows) ≡ add_traffic (share floor key s) (sum_at floor key rows)
unfolding sum_at share
sum_at-cons floor key s rows = elim (Bool-cases (bucket_key floor s.0 == key)) [
  | inl same ↦ rw same
  | inr other ↦ rw other (sym (no_traffic-add _))
]

pub swap_add : (a b c : Traffic) → add_traffic a (add_traffic b c) ≡ add_traffic b (add_traffic a c)
swap_add a b c =
    sym (add_traffic_assoc a b c)
    ∙ ap (λ t. add_traffic t c) (add_traffic_comm a b)
    ∙ add_traffic_assoc b a c

-- A time is covered by a marker, or later than it.
covered_or_later :
    (ts last : ℤ)
    → ((leb_ℤ ts last ≡ true) × (ltb_ℤ last ts ≡ false))
      ⊎ ((leb_ℤ ts last ≡ false) × (ltb_ℤ last ts ≡ true))
covered_or_later ts last = elim (Bool-cases (leb_ℤ ts last)) [
  | inl h ↦ inl (h, ground arith)
  | inr h ↦ inr (h, ground arith)
]

-- Every row is either covered by the marker or pending.
pub sum_at-split :
    (floor : ℤ → ℤ) (key : ℤ × Text) (last : Option ℤ) (rows : Table)
    → sum_at floor key rows
      ≡ add_traffic (sum_at floor key (folded last rows)) (sum_at floor key (pending last rows))
unfolding folded pending
sum_at-split floor key none rows = unfold sum_at in sym (no_traffic-add _)
sum_at-split floor key (some last) [] = unfold sum_at in sym (no_traffic-add _)
sum_at-split floor key (some last) (s ∷ rows) =
    sum_at-cons floor key s rows
    ∙ ap (add_traffic (share floor key s)) (sum_at-split floor key (some last) rows)
    ∙ placed
  where
    early : Table
    early = keep (λ s. leb_ℤ s.0.0 last) rows

    late : Table
    late = keep (λ s. ltb_ℤ last s.0.0) rows

    placed :
        add_traffic
          (share floor key s)
          (add_traffic (sum_at floor key early) (sum_at floor key late))
        ≡ add_traffic
            (sum_at floor key (keep (λ s. leb_ℤ s.0.0 last) (s ∷ rows)))
            (sum_at floor key (keep (λ s. ltb_ℤ last s.0.0) (s ∷ rows)))
    placed = elim (covered_or_later s.0.0 last) [
      | inl (now, later) ↦
          rw (now, later) (rw (sum_at-cons floor key s early) (sym (add_traffic_assoc _ _ _)))
      | inr (now, later) ↦ rw (now, later) (rw (sum_at-cons floor key s late) (swap_add _ _ _))
    ]

-- Only an empty table has no newest row.
pub newest-none : (rows : Table) → newest rows ≡ none → rows ≡ []
unfolding newest
newest-none [] h = refl
newest-none (((ts, i), v) ∷ rows) h = absurd (ground arith)

-- The newest row's time bounds every row's.
pub newest_bounds : (rows : Table) (m : ℤ) → newest rows ≡ some m → All (λ s. s.0.0 ≤ℤ m) rows
unfolding newest max_ℤ
newest_bounds [] m h = tt
newest_bounds (((ts, i), v) ∷ rows) m h = elim (Option-cases (newest rows)) [
  | inl e ↦ let h' : some ts ≡ some m = rw e at h in rw (newest-none rows e) (ground arith, tt)
  | inr (t, e) ↦
      let h' : some (max_ℤ ts t) ≡ some m = rw e at h in
      let below : t ≤ℤ m = ground arith in
      (ground arith, All-map (λ s p. omega arith) rows (newest_bounds rows t e))
]

max_ℤ-cases : (a b : ℤ) → (max_ℤ a b ≡ a) ⊎ (max_ℤ a b ≡ b)
unfolding max_ℤ
max_ℤ-cases a b = elim (Bool-cases (leb_ℤ a b)) [ inl h ↦ inr (rw h) | inr h ↦ inl (rw h) ]

-- The newest time is that of a row, so it has what all the rows' times have.
pub newest_All {ℓ} :
    (P : ℤ → Type ℓ) (rows : Table) (m : ℤ) → newest rows ≡ some m → All (λ s. P s.0.0) rows → P m
unfolding newest max_ℤ
newest_All P [] m h all = absurd (ground arith)
newest_All P (((ts, i), v) ∷ rows) m h all = elim (Option-cases (newest rows)) [
  | inl e ↦ let h' : some ts ≡ some m = rw e at h in subst P (some-injective _ _ h') all.0
  | inr (t, e) ↦
      let h' : some (max_ℤ ts t) ≡ some m = rw e at h in
      elim (max_ℤ-cases ts t) [
        | inl q ↦ subst P (sym q ∙ some-injective _ _ h') all.0
        | inr q ↦ subst P (sym q ∙ some-injective _ _ h') (newest_All P rows t e all.1)
      ]
]

-- Where there is a marker, each bucket grows by the sum of the rows that fall into it.
pub fold_into-adds :
    (floor : ℤ → ℤ) (key : ℤ × Text) (last : ℤ) (rows table : Table)
    → amount_at key (fold_into floor (some last) rows table)
      ≡ add_traffic (amount_at key table) (sum_at floor key rows)
unfolding fold_into lookup
fold_into-adds floor key last rows table =
    amount_at-add_all key (accumulate floor rows []) table (accumulate-IsMap floor rows [] tt)
    ∙ ap (add_traffic (amount_at key table))
        (amount_at-accumulate floor key rows [] ∙ no_traffic-add _)

-- Where there is none, the buckets are rebuilt from the rows.
pub fold_into-rebuilds :
    (floor : ℤ → ℤ) (key : ℤ × Text) (rows table : Table)
    → amount_at key (fold_into floor none rows table) ≡ sum_at floor key rows
unfolding fold_into lookup
fold_into-rebuilds floor key rows table =
    amount_at-add_all key (accumulate floor rows []) [] (accumulate-IsMap floor rows [] tt)
    ∙ no_traffic-add _
    ∙ amount_at-accumulate floor key rows []
    ∙ no_traffic-add _

-- A bucket that held the sum of the covered samples holds the sum of all samples after the fold.
pub amount_at-fold_into :
    (floor : ℤ → ℤ) (key : ℤ × Text) (last : Option ℤ) (rows table : Table)
    → amount_at key table ≡ sum_at floor key (folded last rows)
    → amount_at key (fold_into floor last (pending last rows) table) ≡ sum_at floor key rows
amount_at-fold_into floor key none rows table h =
    unfold pending in fold_into-rebuilds floor key rows table
amount_at-fold_into floor key (some last) rows table h =
    fold_into-adds floor key last (pending (some last) rows) table
    ∙ ap (λ t. add_traffic t (sum_at floor key (pending (some last) rows))) h
    ∙ sym (sum_at-split floor key (some last) rows)

-- The three rollup tables.
pub data Level : Type 0 where
  hour day month : Level

abbrev pub level_table : Level → Db → Table
level_table Level.hour db = db.hourly
level_table Level.day db = db.daily
level_table Level.month db = db.monthly

abbrev pub level_floor : Calendar → Level → Bool → ℤ → ℤ
level_floor j Level.hour local ts = floor_hour j ts local
level_floor j Level.day local ts = floor_day j ts local
level_floor j Level.month local ts = floor_month j ts local

-- A time that fits the `i64` of its column.
abbrev pub IsTime : ℤ → Type 0
IsTime ts = (pos_part ts ≤ i64_max) × (neg_part ts ≤ suc i64_max)

abbrev pub HasTimes : Table → Type 0
HasTimes rows = All (λ s. IsTime s.0.0) rows

module _ (j : Calendar) (db : Db) (local : Bool) where
  -- With nothing pending a run changes nothing.
  pub rollup-idle : newest (pending (rollup_marker db) db.samples) ≡ none → rollup j db local ≡ db
  unfolding rollup
  rollup-idle h = rw (h, rollup)

  module _ (m : ℤ) (found : newest (pending (rollup_marker db) db.samples) ≡ some m) where
    -- Otherwise every table is folded into, and the newest time becomes the marker.
    pub rollup-table :
        (l : Level)
        → level_table l (rollup j db local)
          ≡ fold_into
              (level_floor j l local)
              (rollup_marker db)
              (pending (rollup_marker db) db.samples)
              (level_table l db)
    unfolding rollup
    rollup-table Level.hour = ground arith
    rollup-table Level.day = ground arith
    rollup-table Level.month = ground arith

    pub rollup-samples : (rollup j db local).samples ≡ db.samples
    unfolding rollup
    rollup-samples = ground arith

    pub rollup-marker : IsTime m → rollup_marker (rollup j db local) ≡ some m
    unfolding rollup
    rollup-marker t =
        rw (found, rollup)
          (unfold rollup_marker in
            ap marker_value (lookup-insert_self (codes "last_rollup_ts") (print_int m) db.meta)
            ∙ parse_i64-print_int m t.0 t.1)
