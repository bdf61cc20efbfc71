-- ===== src/Db/Query.antt =====
-- The queries of src/db.rs: `query_range` and `query_proc`. A GROUP BY is a map that the rows are
-- added to, an ORDER BY by the time a map that ascends.
pub mod Laws
pub mod Ranking
pub mod Top
use netmeter.Prelude.{
  ℕ, ◌≡◌, Bool, true, false, ◌&&◌, List, [], ◌∷◌, Option, none, some, Text, codes, ◌==◌, text_eq,
  if◌then◌else◌, Map, map, keep, take, Amount, add_at,
}
use netmeter.Prelude.Int.{ℤ, pos, ◌+ℤ◌, leb_ℤ, ltb_ℤ, +ℤ_comm, +ℤ_assoc, zero_+ℤ}
use netmeter.Prelude.Ordered.{tree_entry, into_values}
use netmeter.Db.{Db, Table, Traffic, Row, no_traffic, add_traffic}

-- `{table} WHERE {col}>=?1 AND {col}<?2`.
unfoldable pub in_range : ℤ → ℤ → ℤ → Bool
in_range from to ts = leb_ℤ from ts && ltb_ℤ ts to

-- The table of a name; every other name would be an error of SQLite, and the callers give none.
unfoldable pub table_of : Text → Db → Table
table_of name db =
    if name == codes "hourly"
    then db.hourly
    else if name == codes "daily"
    then db.daily
    else if name == codes "monthly"
    then db.monthly
    else db.samples

-- One more summand for a row: `entry(ts).or_insert(…)`, then the four sums.
abbrev pub plus : Traffic → Row → Row
plus v r = record r { traffic = add_traffic r.traffic v }

unfoldable pub add_to : ℤ → Text → Traffic → Map ℤ Row → Map ℤ Row
add_to ts iface v m =
    tree_entry ts (record { ts = ts; iface = iface; traffic = no_traffic }) (plus v) m

-- `SELECT ts, iface, … WHERE iface=?3 ORDER BY ts`: the key makes one row of a time.
unfoldable pub rows_of : Text → Table → Map ℤ Row
rows_of iface [] = []
rows_of iface (((ts, i), v) ∷ t) =
    let rest = rows_of iface t in
    if i == iface
    then tree_entry ts (record { ts = ts; iface = i; traffic = v }) (λ r. r) rest
    else rest

-- `SELECT ts, '_all', SUM(…), … GROUP BY ts ORDER BY ts`.
unfoldable pub rows_all : Table → Map ℤ Row
rows_all [] = []
rows_all (((ts, i), v) ∷ t) = add_to ts (codes "_all") v (rows_all t)

unfoldable pub query_range : Db → Text → ℤ → ℤ → Option Text → List Row
query_range db name from to none =
    into_values (rows_all (keep (λ e. in_range from to e.0.0) (table_of name db)))
query_range db name from to (some iface) =
    into_values (rows_of iface (keep (λ e. in_range from to e.0.0) (table_of name db)))

-- Received and sent bytes.
unfoldable pub add_bytes : ℤ × ℤ → ℤ × ℤ → ℤ × ℤ
add_bytes (a, b) (c, d) = (a +ℤ c, b +ℤ d)

pub add_bytes_comm : (a b : ℤ × ℤ) → add_bytes a b ≡ add_bytes b a
unfolding add_bytes
add_bytes_comm a b = λ i. (+ℤ_comm a.0 b.0 i, +ℤ_comm a.1 b.1 i)

pub add_bytes_assoc : (a b c : ℤ × ℤ) → add_bytes (add_bytes a b) c ≡ add_bytes a (add_bytes b c)
unfolding add_bytes
add_bytes_assoc a b c = λ i. (+ℤ_assoc a.0 b.0 c.0 i, +ℤ_assoc a.1 b.1 c.1 i)

pub no_bytes-add : (a : ℤ × ℤ) → add_bytes (pos 0, pos 0) a ≡ a
unfolding add_bytes
no_bytes-add a = λ i. (zero_+ℤ a.0 i, zero_+ℤ a.1 i)

instance abbrev pub bytes_amount : Amount (ℤ × ℤ)
bytes_amount = record {
  nil = (pos 0, pos 0);
  add = add_bytes;
  add_comm = add_bytes_comm;
  add_assoc = add_bytes_assoc;
  nil-add = no_bytes-add;
}

-- `SELECT comm, SUM(rx), SUM(tx) FROM proc_hourly WHERE ts_hour>=?1 GROUP BY comm`.
unfoldable pub by_comm : ℤ → Map (ℤ × Text) (ℤ × ℤ) → Map Text (ℤ × ℤ)
by_comm from [] = []
by_comm from (((hour, comm), b) ∷ t) =
    let rest = by_comm from t in if leb_ℤ from hour then add_at comm b rest else rest

-- `ORDER BY SUM(rx)+SUM(tx) DESC`, one entry at a time.
unfoldable pub rank : Text × (ℤ × ℤ) → Map Text (ℤ × ℤ) → Map Text (ℤ × ℤ)
rank e [] = e ∷ []
rank e (h ∷ t) =
    let rest = rank e t in if leb_ℤ (h.1.0 +ℤ h.1.1) (e.1.0 +ℤ e.1.1) then e ∷ h ∷ t else h ∷ rest

unfoldable pub biggest_first : Map Text (ℤ × ℤ) → Map Text (ℤ × ℤ)
biggest_first [] = []
biggest_first (e ∷ t) = rank e (biggest_first t)

unfoldable pub query_proc : Db → ℤ → ℕ → Map Text (ℤ × ℤ)
query_proc db from limit = take limit (biggest_first (by_comm from db.proc_hourly))
