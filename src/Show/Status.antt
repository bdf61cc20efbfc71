-- ===== src/Show/Status.antt =====
-- `cmd_status`, `cmd_top`, `cmd_top_apps`, `cmd_today`, `cmd_export` and the value of `config set`
-- of src/main.rs. Printing is not modelled.
use netmeter.Prelude.{
  ℕ, ◌*◌, Bool, ◌||◌, List, [], ◌∷◌, Option, none, some, Text, codes, if◌then◌else◌, Map, lookup,
  get_or, take, ltb, text_eq, ◌==◌, add_at,
}
use netmeter.Prelude.Int.{ℤ, pos, ◌+ℤ◌, ltb_ℤ, leb_ℤ}
use netmeter.Prelude.Decimal.{parse_i64, i64_max}
use netmeter.Db.{Db, Table, Row, Traffic, no_traffic, add_traffic, total}
use netmeter.Db.Time.{Calendar, Date, Window, floor_day, floor_week, floor_month}
use netmeter.Db.Query.{query_range, query_proc, biggest_first, bytes_amount}
use netmeter.Show.{parse_date}

-- `SELECT COALESCE(SUM(lan_rx)+SUM(lan_tx),0) FROM samples`.
unfoldable pub lan_seen : Table → ℤ
lan_seen [] = pos 0
lan_seen ((k, v) ∷ t) = v.lan_rx +ℤ v.lan_tx +ℤ lan_seen t

abbrev pub split_known : Option Text → ℤ → Bool
split_known none seen = ltb_ℤ (pos 0) seen
split_known (some v) seen = v == codes "on"

-- `nft_ok` of `cmd_status`; the database is none where it cannot be opened.
unfoldable pub nft_ok : Bool → Option Db → Bool
nft_ok nft_direct none = nft_direct
nft_ok nft_direct (some db) =
    nft_direct || split_known (lookup (codes "nft_ok") db.meta) (lan_seen db.samples)

-- The shown number of discarded samples.
unfoldable pub discarded : Option Db → Text
discarded none = codes "0"
discarded (some db) = get_or (lookup (codes "discarded_samples") db.meta) (codes "0")

-- Whether the hint on the size of the log is shown.
unfoldable pub wal_hint : ℕ → Bool
wal_hint wal_size = ltb (50 * 1024 * 1024) wal_size

-- `sort_by_key(|r| -(r.total()))`, which is stable.
unfoldable pub rank_day : Row → List Row → List Row
rank_day r [] = r ∷ []
rank_day r (h ∷ t) =
    let rest = rank_day r t in if leb_ℤ (total h) (total r) then r ∷ h ∷ t else h ∷ rest

unfoldable pub sort_days : List Row → List Row
sort_days [] = []
sort_days (r ∷ rows) = rank_day r (sort_days rows)

-- `SELECT iface, SUM(rx_total), SUM(tx_total) FROM samples GROUP BY iface`.
unfoldable pub by_iface : Table → Map Text (ℤ × ℤ)
by_iface [] = []
by_iface (((ts, iface), v) ∷ t) = add_at iface (v.rx, v.tx) (by_iface t)

-- The rows of `cmd_top`, by day and by interface.
unfoldable pub top_days : Db → ℕ → List Row
top_days db limit =
    take limit (sort_days (query_range db (codes "daily") (pos 0) (pos i64_max) none))

unfoldable pub top_ifaces : Db → ℕ → Map Text (ℤ × ℤ)
top_ifaces db limit = take limit (biggest_first (by_iface db.samples))

-- The sums of `cmd_today`.
unfoldable pub sum_of : List Row → Traffic
sum_of [] = no_traffic
sum_of (r ∷ rows) = add_traffic r.traffic (sum_of rows)

module _ (j : Calendar) where
  -- The rows of `cmd_top_apps`.
  unfoldable pub top_apps : Db → ℤ → Bool → Window → ℕ → Map Text (ℤ × ℤ)
  top_apps db now local Window.day limit = query_proc db (floor_day j now local) limit
  top_apps db now local Window.week limit = query_proc db (floor_week j now local) limit
  top_apps db now local Window.month limit = query_proc db (floor_month j now local) limit

  unfoldable pub today : Db → ℤ → Bool → Traffic
  today db now local =
      sum_of (query_range db (codes "samples") (floor_day j now local) (now +ℤ pos 1) none)

  -- The rows of `cmd_export`.
  unfoldable pub export_rows : Db → Date → Date → Bool → List Row
  export_rows db from to local =
      query_range db (codes "samples") (parse_date j from local)
        (parse_date j to local +ℤ pos 86_400) none

-- The value of `config set`: an integer, a fraction, a Boolean or else a text.
pub data Setting (R : Type 0) : Type 0 where
  integer : ℤ → Setting R
  float : R → Setting R
  boolean : Bool → Setting R
  text : Text → Setting R

abbrev pub not_integer : {R : Type 0} → Text → Option R → Setting R
not_integer value (some x) = float x
not_integer value none =
    if value == codes "true" || value == codes "false"
    then boolean (value == codes "true")
    else text value

abbrev pub setting_case : {R : Type 0} → Text → Option ℤ → Option R → Setting R
setting_case value (some n) x = integer n
setting_case value none x = not_integer value x

unfoldable pub parse_setting : {R : Type 0} → (Text → Option R) → Text → Setting R
parse_setting parse_f64 value = setting_case value (parse_i64 value) (parse_f64 value)
