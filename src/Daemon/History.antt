-- ===== src/Daemon/History.antt =====
-- The database over the daemon's life: samples are recorded, rolled up and dropped in any order of
-- these steps. The specification is the list of all samples that were ever recorded.
pub mod Invariant
pub mod Totals
use netmeter.Prelude.{
  [], ◌++◌, ◌≡◌, Bool, true, false, Text, codes, List, ◌∷◌, Option, none, some, All, insert, Map,
  amount_at, ◌==◌, text_eq, pair_eq, int_eq,
}
use netmeter.Prelude.Int.{ℤ, leb_ℤ, ◌<ℤ◌}
use netmeter.Config.{Config}
use netmeter.Db.{init, Db, Table, Traffic, traffic_amount}
use netmeter.Db.Time.{Calendar}
use netmeter.Db.Rollup.{rollup_marker, pending, rollup}
use netmeter.Db.Rollup.Sums.{sum_at}
use netmeter.Db.Rollup.Laws.{folded, Level, level_table, level_floor, IsTime, HasTimes}
use netmeter.Daemon.Retention.{enforce_retention, cut_before}

-- The database beside the table of samples that is never cut, where one of the same second and
-- interface is replaced, and the cuts made so far in the hourly table.
pub record Life : Type 0 where
  pub history : Table
  pub db : Db
  pub cuts : List ℤ

-- A new database, with nothing recorded.
abbrev pub start : Life
start = record { history = []; db = init; cuts = [] }

-- A time that the marker does not cover yet.
abbrev pub IsLater : Option ℤ → ℤ → Type 0
IsLater none ts = Unit
IsLater (some last) ts = last <ℤ ts

-- The upsert of one sample.
abbrev pub put_sample : ℤ × Text → Traffic → Table → Table
put_sample k v t = insert k v t

module _ {R : Type 0} (j : Calendar) (cfg : Config R) (local : Bool) where
  -- The daemon's steps on the tables. A sample's time is later than the marker, which the source
  -- assumes of the clock; retention comes before no sample that is not rolled up yet; other keys
  -- of `meta`, the events of the budget and the bytes of programs may be written at any time.
  pub data Step : Life → Life → Type 0 where
    record_sample :
        (s : Life) (ts : ℤ) (iface : Text) (v : Traffic)
        → IsTime ts
        → IsLater (rollup_marker s.db) ts
        → Step s (record s {
          history = put_sample (ts, iface) v s.history;
          db = record s.db { samples = put_sample (ts, iface) v s.db.samples };
        })
    roll : (s : Life) → Step s (record s { db = rollup j s.db local })
    retain :
        (s : Life) (now : ℤ)
        → All
            (λ r. leb_ℤ (cut_before now cfg.retention_days_raw) r.0.0 ≡ true)
            (pending (rollup_marker s.db) s.db.samples)
        → Step s (record s {
          db = enforce_retention cfg now s.db;
          cuts = cut_before now cfg.retention_days_hourly ∷ s.cuts;
        })
    note :
        (s : Life) (k v : Text)
        → (k == codes "last_rollup_ts") ≡ false
        → Step s (record s { db = record s.db { meta = insert k v s.db.meta } })
    aside :
        (s : Life) (events : Map Text (ℤ × ℤ)) (apps : Map (ℤ × Text) (ℤ × ℤ))
        → Step s (record s { db = record s.db { budget_events = events; proc_hourly = apps } })

  pub data Reach (s : Life) : Life → Type 0 where
    here : Reach s s
    next : {t u : Life} → Reach s t → Step t u → Reach s u

module _ {R : Type 0} (j : Calendar) (cfg : Config R) (local : Bool) where
  -- The sample that a step records.
  abbrev pub sample_in : {s t : Life} → Step j cfg local s t → Table
  sample_in (record_sample s ts iface v p later) = ((ts, iface), v) ∷ []
  sample_in (roll s) = []
  sample_in (retain s now safe) = []
  sample_in (note s k v other) = []
  sample_in (aside s events apps) = []

  -- All samples that were recorded on the way, one after another.
  unfoldable pub samples_in : {s t : Life} → Reach j cfg local s t → Table
  samples_in here = []
  samples_in (next r step) = samples_in r ++ sample_in step

-- The bucket that begins at `b` was never dropped from a table.
abbrev pub IsKept : Level → List ℤ → ℤ → Type 0
IsKept Level.hour cuts b = All (λ c. leb_ℤ c b ≡ true) cuts
IsKept Level.day cuts b = Unit
IsKept Level.month cuts b = Unit

module _ (j : Calendar) (local : Bool) where
  -- Each bucket that was not dropped holds the sum of the uncut table in it, up to the marker, and the
  -- samples after the marker are all there.
  pub record IsRolledUp (s : Life) : Type 0 where
    pub times : HasTimes s.history
    pub waiting : pending (rollup_marker s.db) s.db.samples ≡ pending (rollup_marker s.db) s.history
    pub buckets :
        (l : Level) (b : ℤ) (iface : Text)
        → IsKept l s.cuts b
        → amount_at (b, iface) (level_table l s.db)
          ≡ sum_at (level_floor j l local) (b, iface) (folded (rollup_marker s.db) s.history)
