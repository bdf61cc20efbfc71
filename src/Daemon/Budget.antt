-- ===== src/Daemon/Budget.antt =====
-- `check_budget` of src/daemon.rs: the thresholds of 80 and 100 percent are recorded once for each
-- window in `budget_events`.
pub mod Laws
use netmeter.Prelude.{
  ℕ, Bool, ◌&&◌, Option, none, some, lookup, upsert, get_or, Map, Text, if◌then◌else◌, text_eq,
}
use netmeter.Prelude.Int.{ℤ, pos, leb_ℤ, beq_ℤ}
use netmeter.Prelude.Float.{Float}
use netmeter.Config.{Config, effective_budget, tz_local}
use netmeter.Db.{Db}
use netmeter.Db.Time.{Calendar, budget_window_start}
use netmeter.Db.Window.{window_sum, used_bytes, budget_key}

-- crossed80 and crossed100 by the key of a window.
abbrev pub Events : Type 0
Events = Map Text (ℤ × ℤ)

-- The row of a window; none counts as two zeros.
abbrev pub crossed : Text → Events → ℤ × ℤ
crossed key events = get_or (lookup key events) (pos 0, pos 0)

-- `INSERT … VALUES(?1, 1, 0) ON CONFLICT DO UPDATE SET crossed80 = 1`.
abbrev pub cross80 : Text → Events → Events
cross80 key events = upsert key (pos 1, pos 0) (λ c. (pos 1, c.1)) events

-- `INSERT … VALUES(?1, 1, 1) ON CONFLICT DO UPDATE SET crossed80 = 1, crossed100 = 1`.
abbrev pub cross100 : Text → Events → Events
cross100 key events = upsert key (pos 1, pos 1) (λ c. (pos 1, pos 1)) events

-- The two tests, on the values read before either write.
unfoldable pub record_crossing : Bool → Bool → Text → Events → Events
record_crossing over80 over100 key events =
    let before = crossed key events in
    let first = if over80 && beq_ℤ before.0 (pos 0) then cross80 key events else events in
    if over100 && beq_ℤ before.1 (pos 0) then cross100 key first else first

-- `1_073_741_824.0`, the bytes of a GiB.
abbrev pub gib : ℕ
gib = 1_073_741_824

module _ (f : Float) (j : Calendar) where
  -- The events after the check, for the budget `gb` of a period.
  unfoldable pub check_period : Config f.Real → ℤ → Text × f.Real → Db → Db
  check_period cfg now (period, gb) db =
      let local = tz_local cfg in
      let used =
        used_bytes cfg.budget_basis
          (window_sum (budget_window_start j now local period) db.samples) in
      let budget = f.trunc (f.mul gb (f.literal gib 1)) in
      let frac = f.div (f.of used) (f.of budget) in
      if leb_ℤ budget (pos 0) then db else record db {
        budget_events =
            record_crossing (f.le (f.literal 8 10) frac) (f.le (f.literal 1 1) frac)
              (budget_key j now local period) db.budget_events;
      }

  unfoldable pub check_budget : Config f.Real → ℤ → Db → Db
  check_budget cfg now db = elim (effective_budget f cfg) [
    | none ↦ db
    | some budget ↦ check_period cfg now budget db
  ]
