-- ===== src/Show/Laws.antt =====
-- What the reports of src/main.rs add up to.
use netmeter.Prelude.{
  ◌≡◌, refl, sym, ap, ◌∙◌, fun_ext, Bool, List, [], ◌∷◌, Text, codes, if◌then◌else◌, Map, All, inl,
  inr, Bool-cases, arith, fold, ◌==◌, text_eq,
}
use netmeter.Prelude.Int.{
  ℤ, pos, negsuc, ◌+ℤ◌, ◌-ℤ◌, ◌≤ℤ◌, leb_ℤ, max_ℤ, +ℤ_parts, -ℤ_parts, eq_of_parts,
}
use netmeter.Prelude.Ordered.{into_values, IsAscending}
use netmeter.Db.{
  Row, Traffic, no_traffic, add_traffic, add_traffic_comm, add_traffic_assoc, no_traffic-add, total,
  wan_rx, wan_tx,
}
use netmeter.Db.Time.{Calendar, floor_day, floor_week}
use netmeter.Db.Window.{used_bytes}
use netmeter.Db.Query.{add_to}
use netmeter.Db.Query.Laws.{
  sum_rows, sum_rows-add_to, IsKeyed, add_to-IsKeyed, add_to-IsAscending, IsOrdered,
  into_values-IsOrdered,
}
use netmeter.Show.{Period, bucketed, rebucket_week, bucket_samples, budget_used}

-- The bytes of the rows whose buckets pass a test.
unfoldable pub sum_buckets : (ℤ → ℤ) → (ℤ → Bool) → List Row → Traffic
unfolding sum_rows
sum_buckets floor p rows = sum_rows (λ ts. p (floor ts)) rows

abbrev filled : (ℤ → ℤ) → List Row → Map ℤ Row → Map ℤ Row
filled floor rows m = fold (λ r m. add_to (floor r.ts) r.iface r.traffic m) rows m

swap_first : (a b c : Traffic) → add_traffic a (add_traffic b c) ≡ add_traffic (add_traffic b a) c
swap_first a b c = sym (add_traffic_assoc a b c) ∙ ap (λ x. add_traffic x c) (add_traffic_comm a b)

module _ (floor : ℤ → ℤ) where
  filled-IsKeyed : (rows : List Row) (m : Map ℤ Row) → IsKeyed m → IsKeyed (filled floor rows m)
  filled-IsKeyed [] m k = k
  filled-IsKeyed (r ∷ rows) m k = filled-IsKeyed rows _ (add_to-IsKeyed (floor r.ts) _ _ m k)

  filled-IsAscending :
      (rows : List Row) (m : Map ℤ Row) → IsAscending m → IsAscending (filled floor rows m)
  filled-IsAscending [] m k = k
  filled-IsAscending (r ∷ rows) m k =
      filled-IsAscending rows _ (add_to-IsAscending (floor r.ts) _ _ m k)

  sum_rows-filled :
      (p : ℤ → Bool) (rows : List Row) (m : Map ℤ Row)
      → IsKeyed m
      → sum_rows p (into_values (filled floor rows m))
        ≡ add_traffic (sum_rows (λ ts. p (floor ts)) rows) (sum_rows p (into_values m))
  unfolding sum_rows
  sum_rows-filled p [] m k = sym (no_traffic-add _)
  sum_rows-filled p (r ∷ rows) m k =
      sum_rows-filled p rows _ (add_to-IsKeyed (floor r.ts) _ _ m k)
      ∙ rw (sum_rows-add_to p (floor r.ts) r.iface r.traffic m k)
          (elim (Bool-cases (p (floor r.ts))) [
            | inl yes_p ↦ rw yes_p (swap_first (sum_rows (λ ts. p (floor ts)) rows) r.traffic _)
            | inr no_p ↦ rw no_p
          ])

-- The loop of rebucket_week and bucket_samples keeps the bytes: the buckets that a test selects
-- hold what the rows with such buckets hold; and it gives one row a bucket, in ascending order.
bucketed_lem :
    (floor : ℤ → ℤ) (p : ℤ → Bool) (rows : List Row)
    → (sum_rows p (bucketed floor rows) ≡ sum_rows (λ ts. p (floor ts)) rows)
      × IsOrdered (bucketed floor rows)
unfolding bucketed sum_rows
bucketed_lem floor p rows = (
  sum_rows-filled floor p rows [] tt ∙ add_traffic_comm _ no_traffic ∙ no_traffic-add _,
  into_values-IsOrdered _ (filled-IsKeyed floor rows [] tt) (filled-IsAscending floor rows [] tt),
)

-- If the week of a day's midnight is the day's week, the weeks that show makes of raw samples by
-- way of their days hold the bytes of the samples of these weeks.
pub bucket_samples-week :
    (j : Calendar) (local : Bool)
    → ((ts : ℤ) → floor_week j (floor_day j ts local) local ≡ floor_week j ts local)
    → (p : ℤ → Bool) (rows : List Row)
    → sum_rows p (bucket_samples j rows Period.week local)
      ≡ sum_rows (λ ts. p (floor_week j ts local)) rows
unfolding bucket_samples rebucket_week
bucket_samples-week j local same p rows =
    (bucketed_lem (λ ts. floor_week j ts local) p _).0
    ∙ ((bucketed_lem (λ ts. floor_day j ts local) (λ ts. p (floor_week j ts local)) rows).0
        ∙ ap (λ q. sum_rows q rows) (fun_ext (λ ts. ap p (same ts))))

-- A row's LAN bytes are among its bytes.
abbrev pub IsSplitRow : Row → Type 0
IsSplitRow r = (r.lan_rx ≤ℤ r.rx) × (r.lan_tx ≤ℤ r.tx)

add_le : (a b c d : ℤ) → b ≤ℤ a → d ≤ℤ c → (b +ℤ d) ≤ℤ (a +ℤ c)
add_le a b c d p q = omega (arith, p, q, +ℤ_parts b d, +ℤ_parts a c)

sum_rows-IsSplit :
    (p : ℤ → Bool) (rows : List Row)
    → All IsSplitRow rows
    → ((sum_rows p rows).lan_rx ≤ℤ (sum_rows p rows).rx)
      × ((sum_rows p rows).lan_tx ≤ℤ (sum_rows p rows).tx)
unfolding sum_rows add_traffic
sum_rows-IsSplit p [] h = (omega arith, omega arith)
sum_rows-IsSplit p (r ∷ rows) h =
    let rest = sum_rows-IsSplit p rows h.1 in
    elim (Bool-cases (p r.ts)) [
      | inl yes_p ↦
          rw yes_p (add_le r.rx r.lan_rx _ _ h.0.0 rest.0, add_le r.tx r.lan_tx _ _ h.0.1 rest.1)
      | inr no_p ↦ rw no_p rest
    ]

max_le : (a : ℤ) → pos 0 ≤ℤ a → max_ℤ a (pos 0) ≡ a
unfolding max_ℤ
max_le (pos n) p = ground arith
max_le (negsuc n) p = ground arith

max_difference : (a b : ℤ) → b ≤ℤ a → max_ℤ (a -ℤ b) (pos 0) ≡ a -ℤ b
max_difference a b p = max_le (a -ℤ b) (omega (arith, p, -ℤ_parts a b))

wan_add :
    (a b c d : ℤ)
    → b ≤ℤ a
    → d ≤ℤ c
    → max_ℤ ((a +ℤ c) -ℤ (b +ℤ d)) (pos 0) ≡ max_ℤ (a -ℤ b) (pos 0) +ℤ max_ℤ (c -ℤ d) (pos 0)
wan_add a b c d p q =
    rw
      (
        max_difference (a +ℤ c) (b +ℤ d) (add_le a b c d p q),
        max_difference a b p,
        max_difference c d q,
      )
      (eq_of_parts _ _ (
        omega (
          arith,
          -ℤ_parts (a +ℤ c) (b +ℤ d),
          +ℤ_parts a c,
          +ℤ_parts b d,
          -ℤ_parts a b,
          -ℤ_parts c d,
          +ℤ_parts (a -ℤ b) (c -ℤ d),
        )))

interchange : (a b c d : ℤ) → (a +ℤ c) +ℤ (b +ℤ d) ≡ (a +ℤ b) +ℤ (c +ℤ d)
interchange a b c d = eq_of_parts _ _ (
    omega (
      arith,
      +ℤ_parts a c,
      +ℤ_parts b d,
      +ℤ_parts a b,
      +ℤ_parts c d,
      +ℤ_parts (a +ℤ c) (b +ℤ d),
      +ℤ_parts (a +ℤ b) (c +ℤ d),
    ))

used_bytes-add_traffic :
    (basis : Text) (v w : Traffic)
    → v.lan_rx ≤ℤ v.rx
    → v.lan_tx ≤ℤ v.tx
    → w.lan_rx ≤ℤ w.rx
    → w.lan_tx ≤ℤ w.tx
    → used_bytes basis (add_traffic v w) ≡ used_bytes basis v +ℤ used_bytes basis w
unfolding used_bytes add_traffic
used_bytes-add_traffic basis v w a b c d = elim (Bool-cases (basis == codes "wan")) [
  | inl wan ↦ rw wan (
      rw (wan_add v.rx v.lan_rx w.rx w.lan_rx a c, wan_add v.tx v.lan_tx w.tx w.lan_tx b d)
        (interchange _ _ _ _))
  | inr all ↦ rw all (interchange _ _ _ _)
]

used_bytes-nothing : (basis : Text) → used_bytes basis no_traffic ≡ pos 0
unfolding used_bytes ◌+ℤ◌ max_ℤ ◌-ℤ◌
used_bytes-nothing basis = elim (Bool-cases (basis == codes "wan")) [
  | inl wan ↦ rw wan
  | inr all ↦ rw all
]

row_used :
    (basis : Text) (r : Row)
    → (if basis == codes "wan" then wan_rx r +ℤ wan_tx r else total r) ≡ used_bytes basis r.traffic
unfolding used_bytes
row_used basis r = refl

-- If every row's LAN bytes are at most its bytes, what show's budget bar counts row by row since a
-- moment is what the daemon's rule counts of the sum of these rows.
pub budget_used-used_bytes :
    (basis : Text) (start : ℤ) (rows : List Row)
    → All IsSplitRow rows
    → budget_used basis start rows ≡ used_bytes basis (sum_rows (leb_ℤ start) rows)
unfolding budget_used sum_rows
budget_used-used_bytes basis start [] h = sym (used_bytes-nothing basis)
budget_used-used_bytes basis start (r ∷ rows) h = elim (Bool-cases (leb_ℤ start r.ts)) [
  | inl inside ↦
      rw (inside, budget_used-used_bytes basis start rows h.1)
        (rw
          (used_bytes-add_traffic basis r.traffic (sum_rows (leb_ℤ start) rows) h.0.0 h.0.1
            (sum_rows-IsSplit (leb_ℤ start) rows h.1).0 (sum_rows-IsSplit (leb_ℤ start) rows h.1).1)
          (ap (λ x. x +ℤ used_bytes basis (sum_rows (leb_ℤ start) rows)) (row_used basis r)))
  | inr outside ↦ rw (outside, budget_used-used_bytes basis start rows h.1)
]
