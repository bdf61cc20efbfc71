-- ===== src/Db/Query/Laws.antt =====
-- The sums that the queries of src/db.rs return, and their order.
use netmeter.Prelude.{
  ◌≡◌, refl, subst, sym, ap, ◌∙◌, Bool, ◌&&◌, List, [], ◌∷◌, none, Text, codes, if◌then◌else◌, Map,
  keep, All, inl, inr, Bool-cases,
}
use netmeter.Prelude.Int.{ℤ, beq_ℤ, beq_ℤ_iff, ltb_ℤ, ◌<ℤ◌}
use netmeter.Prelude.Ordered.{tree_entry, into_values, IsAscending, tree_entry-IsAscending}
use netmeter.Db.{
  Db, Table, Traffic, Row, no_traffic, add_traffic, add_traffic_comm, add_traffic_assoc,
  no_traffic-add,
}
use netmeter.Db.Query.{plus, add_to, in_range, table_of, rows_all, query_range}

-- The bytes of the rows whose times pass a test.
unfoldable pub sum_rows : (ℤ → Bool) → List Row → Traffic
sum_rows p [] = no_traffic
sum_rows p (r ∷ rows) =
    let rest = sum_rows p rows in if p r.ts then add_traffic r.traffic rest else rest

-- The bytes of a table at the times that pass a test.
unfoldable pub sum_table : (ℤ → Bool) → Table → Traffic
sum_table p [] = no_traffic
sum_table p ((k, v) ∷ t) = let rest = sum_table p t in if p k.0 then add_traffic v rest else rest

-- Every row stands at its own time.
abbrev pub IsKeyed : Map ℤ Row → Type 0
IsKeyed m = All (λ e. e.1.ts ≡ e.0) m

-- The rows of a list ascend in time.
abbrev pub IsOrdered : List Row → Type 0
IsOrdered [] = Unit
IsOrdered (r ∷ rows) = All (λ x. r.ts <ℤ x.ts) rows × IsOrdered rows

pub add_to-IsKeyed :
    (ts : ℤ) (iface : Text) (v : Traffic) (m : Map ℤ Row)
    → IsKeyed m
    → IsKeyed (add_to ts iface v m)
unfolding add_to tree_entry
add_to-IsKeyed ts iface v [] k = (refl, tt)
add_to-IsKeyed ts iface v ((h, w) ∷ m) k = elim (Bool-cases (beq_ℤ ts h)) [
  | inl same ↦ rw same (k.0, k.1)
  | inr other ↦ elim (Bool-cases (ltb_ℤ ts h)) [
    | inl less ↦ rw (other, less) (refl, k)
    | inr more ↦ rw (other, more) (k.0, add_to-IsKeyed ts iface v m k.1)
  ]
]

swap_first : (a b c : Traffic) → add_traffic a (add_traffic b c) ≡ add_traffic b (add_traffic a c)
swap_first a b c =
    sym (add_traffic_assoc a b c)
    ∙ (ap (λ x. add_traffic x c) (add_traffic_comm a b) ∙ add_traffic_assoc b a c)

pub sum_rows-add_to :
    (p : ℤ → Bool) (ts : ℤ) (iface : Text) (v : Traffic) (m : Map ℤ Row)
    → IsKeyed m
    → sum_rows p (into_values (add_to ts iface v m))
      ≡ (if p ts then add_traffic v (sum_rows p (into_values m)) else sum_rows p (into_values m))
unfolding add_to tree_entry sum_rows
sum_rows-add_to p ts iface v [] k = rw (no_traffic-add v)
sum_rows-add_to p ts iface v ((h, w) ∷ m) k = elim (Bool-cases (beq_ℤ ts h)) [
  | inl same ↦
      let e : w.ts ≡ ts = k.0 ∙ sym ((beq_ℤ_iff ts h).0 same) in
      rw (same, e)
        (elim (Bool-cases (p ts)) [
          | inl yes_p ↦ rw yes_p (rw (add_traffic_comm w.traffic v) (add_traffic_assoc _ _ _))
          | inr no_p ↦ rw no_p
        ])
  | inr other ↦ elim (Bool-cases (ltb_ℤ ts h)) [
    | inl less ↦ rw (other, less) (rw (no_traffic-add v))
    | inr more ↦
        rw (other, more)
          (rw (sum_rows-add_to p ts iface v m k.1) (elim (Bool-cases (p ts)) [
            | inl yes_p ↦ elim (Bool-cases (p w.ts)) [
              | inl yes_w ↦ rw (yes_p, yes_w) (swap_first w.traffic v _)
              | inr no_w ↦ rw (yes_p, no_w)
            ]
            | inr no_p ↦ rw no_p
          ]))
  ]
]

rows_all-IsKeyed : (t : Table) → IsKeyed (rows_all t)
unfolding rows_all
rows_all-IsKeyed [] = tt
rows_all-IsKeyed (((ts, i), v) ∷ t) =
    add_to-IsKeyed ts (codes "_all") v (rows_all t) (rows_all-IsKeyed t)

sum_rows-rows_all :
    (p : ℤ → Bool) (t : Table) → sum_rows p (into_values (rows_all t)) ≡ sum_table p t
unfolding rows_all sum_rows sum_table
sum_rows-rows_all p [] = refl
sum_rows-rows_all p (((ts, i), v) ∷ t) =
    sum_rows-add_to p ts (codes "_all") v (rows_all t) (rows_all-IsKeyed t)
    ∙ rw (sum_rows-rows_all p t)

sum_table-keep :
    (p q : ℤ → Bool) (t : Table)
    → sum_table p (keep (λ e. q e.0.0) t) ≡ sum_table (λ ts. q ts && p ts) t
unfolding sum_table
sum_table-keep p q [] = refl
sum_table-keep p q ((k, v) ∷ t) = elim (Bool-cases (q k.0)) [
  | inl yes_q ↦ rw (yes_q, sum_table-keep p q t)
  | inr no_q ↦ rw (no_q, sum_table-keep p q t)
]

-- A query over all interfaces returns, at the times that any test selects, the bytes that the table
-- holds at these times within the range.
pub query_range-sum_rows :
    (db : Db) (name : Text) (from to : ℤ) (p : ℤ → Bool)
    → sum_rows p (query_range db name from to none)
      ≡ sum_table (λ ts. in_range from to ts && p ts) (table_of name db)
unfolding query_range
query_range-sum_rows db name from to p =
    sum_rows-rows_all p _ ∙ sum_table-keep p (in_range from to) (table_of name db)

pub add_to-IsAscending :
    (ts : ℤ) (iface : Text) (v : Traffic) (m : Map ℤ Row)
    → IsAscending m
    → IsAscending (add_to ts iface v m)
unfolding add_to
add_to-IsAscending ts iface v m a = tree_entry-IsAscending ts _ (plus v) m a

rows_all-IsAscending : (t : Table) → IsAscending (rows_all t)
unfolding rows_all
rows_all-IsAscending [] = tt
rows_all-IsAscending (((ts, i), v) ∷ t) =
    add_to-IsAscending ts (codes "_all") v (rows_all t) (rows_all-IsAscending t)

All-into_values :
    (t : ℤ) (m : Map ℤ Row)
    → IsKeyed m
    → All (λ x. t <ℤ x.0) m
    → All (λ x. t <ℤ x.ts) (into_values m)
All-into_values t [] k a = tt
All-into_values t ((h, w) ∷ m) k a =
    (subst (λ x. t <ℤ x) (sym k.0) a.0, All-into_values t m k.1 a.1)

pub into_values-IsOrdered : (m : Map ℤ Row) → IsKeyed m → IsAscending m → IsOrdered (into_values m)
into_values-IsOrdered [] k a = tt
into_values-IsOrdered ((h, w) ∷ m) k a = (
  subst (λ x. All (λ y. x <ℤ y.ts) (into_values m)) (sym k.0) (All-into_values h m k.1 a.0),
  into_values-IsOrdered m k.1 a.1,
)

-- A query over all interfaces returns one row a time, in ascending order of time.
query_range-IsOrdered :
    (db : Db) (name : Text) (from to : ℤ) → IsOrdered (query_range db name from to none)
unfolding query_range
query_range-IsOrdered db name from to =
    into_values-IsOrdered _ (rows_all-IsKeyed _) (rows_all-IsAscending _)
