-- ===== src/Db.antt =====
-- src/db.rs: the tables of the database, its rows and its schema. A table is a map from its primary
-- key; SQLite itself, its files and its errors are not modelled.
pub mod Time
pub mod Window
pub mod Query
pub mod Rollup
use netmeter.Prelude.{ℕ, ◌≡◌, refl, Bool, Text, codes, Map, [], insert, Amount, text_eq}
use netmeter.Prelude.Int.{ℤ, pos, ◌+ℤ◌, ◌-ℤ◌, max_ℤ, +ℤ_comm, +ℤ_assoc, zero_+ℤ}
use netmeter.Prelude.Decimal.{print_int}

-- The four byte counts of a row: TOTAL and LAN, received and sent.
pub record Traffic : Type 0 where
  pub rx : ℤ
  pub tx : ℤ
  pub lan_rx : ℤ
  pub lan_tx : ℤ

abbrev pub no_traffic : Traffic
no_traffic = record { rx = pos 0; tx = pos 0; lan_rx = pos 0; lan_tx = pos 0 }

-- `e.0 += rx; e.1 += tx; e.2 += lrx; e.3 += ltx`.
unfoldable pub add_traffic : Traffic → Traffic → Traffic
add_traffic a b = record {
  rx = a.rx +ℤ b.rx;
  tx = a.tx +ℤ b.tx;
  lan_rx = a.lan_rx +ℤ b.lan_rx;
  lan_tx = a.lan_tx +ℤ b.lan_tx;
}

pub traffic_ext :
    (a b : Traffic) → a.rx ≡ b.rx → a.tx ≡ b.tx → a.lan_rx ≡ b.lan_rx → a.lan_tx ≡ b.lan_tx → a ≡ b
traffic_ext a b p q r s = λ i. record { rx = p i; tx = q i; lan_rx = r i; lan_tx = s i }

pub add_traffic_comm : (a b : Traffic) → add_traffic a b ≡ add_traffic b a
unfolding add_traffic
add_traffic_comm a b = traffic_ext _ _ (+ℤ_comm _ _) (+ℤ_comm _ _) (+ℤ_comm _ _) (+ℤ_comm _ _)

pub add_traffic_assoc :
    (a b c : Traffic) → add_traffic (add_traffic a b) c ≡ add_traffic a (add_traffic b c)
unfolding add_traffic
add_traffic_assoc a b c =
    traffic_ext _ _ (+ℤ_assoc _ _ _) (+ℤ_assoc _ _ _) (+ℤ_assoc _ _ _) (+ℤ_assoc _ _ _)

pub no_traffic-add : (a : Traffic) → add_traffic no_traffic a ≡ a
unfolding add_traffic
no_traffic-add a = traffic_ext _ _ (zero_+ℤ _) (zero_+ℤ _) (zero_+ℤ _) (zero_+ℤ _)

instance abbrev pub traffic_amount : Amount Traffic
traffic_amount = record {
  nil = no_traffic;
  add = add_traffic;
  add_comm = add_traffic_comm;
  add_assoc = add_traffic_assoc;
  nil-add = no_traffic-add;
}

-- `Row`, of a query over one bucket or one moment.
pub record Row : Type 0 where
  pub ts : ℤ
  pub iface : Text
  pub traffic : Traffic
  pub open traffic use *

abbrev pub total : Row → ℤ
total r = r.rx +ℤ r.tx

abbrev pub wan_rx : Row → ℤ
wan_rx r = max_ℤ (r.rx -ℤ r.lan_rx) (pos 0)

abbrev pub wan_tx : Row → ℤ
wan_tx r = max_ℤ (r.tx -ℤ r.lan_tx) (pos 0)

-- A table with the primary key (time, interface).
abbrev pub Table : Type 0
Table = Map (ℤ × Text) Traffic

-- The tables that `init` creates. `budget_events` holds crossed80 and crossed100 for a window's
-- key, `proc_hourly` received and sent bytes for an hour and a program.
pub record Db : Type 0 where
  pub samples : Table
  pub hourly : Table
  pub daily : Table
  pub monthly : Table
  pub budget_events : Map Text (ℤ × ℤ)
  pub proc_hourly : Map (ℤ × Text) (ℤ × ℤ)
  pub meta : Map Text Text

-- `SCHEMA_VERSION`.
abbrev pub schema_version : ℤ
schema_version = pos 1

-- `init` on a file with no tables: `CREATE TABLE IF NOT EXISTS`, then the schema's version.
unfoldable pub init : Db
init = record {
  samples = [];
  hourly = [];
  daily = [];
  monthly = [];
  budget_events = [];
  proc_hourly = [];
  meta = insert (codes "schema_version") (print_int schema_version) [];
}

-- `open` for writing on a file that has the tables: `init` makes none of them, and writes the
-- schema's version again.
unfoldable pub reopen : Db → Db
reopen db = record db { meta = insert (codes "schema_version") (print_int schema_version) db.meta }
