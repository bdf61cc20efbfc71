-- ===== src/Db/Rollup/Sums.antt =====
-- The sum of the samples that fall into one bucket, and what the loops of `rollup` make of it.
use netmeter.Prelude.{
  ◌≡◌, sym, ◌∙◌, Text, [], ◌∷◌, upsert, add_at, amount_at, amount_at-add_at, add-nil, IsMap,
  add_at-IsMap, if◌then◌else◌, ◌==◌, text_eq, pair_eq, int_eq, Bool-cases, inl, inr,
}
use netmeter.Prelude.Int.{ℤ}
use netmeter.Db.{
  Table, Traffic, no_traffic, add_traffic, traffic_amount, no_traffic-add, add_traffic_assoc,
}
use netmeter.Db.Rollup.{bucket_key, accumulate}

-- The traffic of the rows whose bucket is `key`.
unfoldable pub sum_at : (ℤ → ℤ) → ℤ × Text → Table → Traffic
sum_at floor key [] = no_traffic
sum_at floor key ((k, v) ∷ rows) =
    if bucket_key floor k == key
    then add_traffic v (sum_at floor key rows)
    else sum_at floor key rows

-- The fresh entry `0 + v` is `v`, so the loop is the plain sum by key.
accumulate_step :
    (k : ℤ × Text) (v : Traffic) (m : Table)
    → upsert k (add_traffic no_traffic v) (λ e. add_traffic e v) m ≡ add_at k v m
unfolding add_at
accumulate_step k v m = rw (no_traffic-add v)

module _ (floor : ℤ → ℤ) where
  pub accumulate-IsMap : (rows m : Table) → IsMap m → IsMap (accumulate floor rows m)
  unfolding accumulate
  accumulate-IsMap [] m h = h
  accumulate-IsMap ((k, v) ∷ rows) m h = rw (accumulate_step (bucket_key floor k) v m) (
      accumulate-IsMap rows (add_at (bucket_key floor k) v m)
        (add_at-IsMap (bucket_key floor k) v m h))

  pub amount_at-accumulate :
      (key : ℤ × Text) (rows m : Table)
      → amount_at key (accumulate floor rows m)
        ≡ add_traffic (amount_at key m) (sum_at floor key rows)
  unfolding accumulate sum_at
  amount_at-accumulate key [] m = sym (add-nil _)
  amount_at-accumulate key ((k, v) ∷ rows) m = rw (accumulate_step (bucket_key floor k) v m) (
      amount_at-accumulate key rows (add_at (bucket_key floor k) v m)
      ∙ step (amount_at-add_at (bucket_key floor k) key v m))
    where
      step :
          amount_at key (add_at (bucket_key floor k) v m) ≡ (
            if bucket_key floor k == key then add_traffic (amount_at key m) v else amount_at key m)
          → add_traffic (amount_at key (add_at (bucket_key floor k) v m)) (sum_at floor key rows)
            ≡ add_traffic (amount_at key m) (
                if bucket_key floor k == key
                then add_traffic v (sum_at floor key rows)
                else sum_at floor key rows)
      step e = elim (Bool-cases (bucket_key floor k == key)) [
        | inl same ↦ rw (e, same) (add_traffic_assoc _ _ _)
        | inr other ↦ rw (e, other)
      ]
