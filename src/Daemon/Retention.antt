-- ===== src/Daemon/Retention.antt =====
-- `enforce_retention` of src/daemon.rs. The clock is an argument; the checkpoint of the log file
-- changes no table.
use netmeter.Prelude.{keep}
use netmeter.Prelude.Int.{ℤ, pos, ◌-ℤ◌, ◌*ℤ◌, leb_ℤ, max_ℤ}
use netmeter.Config.{Config}
use netmeter.Db.{Db, Table}

-- The time before which rows are dropped.
abbrev pub cut_before : ℤ → ℤ → ℤ
cut_before now days = now -ℤ days *ℤ pos 86_400

-- `DELETE FROM … WHERE ts < cut`.
abbrev pub delete_before : ℤ → Table → Table
delete_before cut t = keep (λ r. leb_ℤ cut r.0.0) t

module _ {R : Type 0} where
  unfoldable pub enforce_retention : Config R → ℤ → Db → Db
  enforce_retention cfg now db = record db {
    samples = delete_before (cut_before now cfg.retention_days_raw) db.samples;
    hourly = delete_before (cut_before now cfg.retention_days_hourly) db.hourly;
    proc_hourly =
        keep (λ r. leb_ℤ (cut_before now (max_ℤ cfg.proc_retention_days (pos 1))) r.0.0)
          db.proc_hourly;
  }
