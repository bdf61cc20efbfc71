-- ===== src/Db/Time.antt =====
-- The time floors and windows of src/db.rs. The calendar and the time zones are the jiff crate's,
-- a parameter.
use netmeter.Prelude.{ℕ, Bool, Text, codes, ◌==◌, text_eq, if◌then◌else◌}
use netmeter.Prelude.Int.{ℤ}

-- A civil date, and a date with its hour: what the program reads of `jiff::civil::DateTime`.
pub record Date : Type 0 where
  pub year : ℤ
  pub month : ℕ
  pub day : ℕ

pub record DateTime : Type 0 where
  pub date : Date
  pub open date use *
  pub hour : ℕ

-- The calls of jiff. The Boolean says whether the zone is the system's or UTC. The source unwraps
-- the results, which fail only outside of jiff's range of dates.
pub record Calendar : Type 0 where
  -- `Timestamp::from_second(ts).to_zoned(tz).datetime()`
  pub datetime : Bool → ℤ → DateTime
  -- `DateTime::new(y, mo, d, h, 0, 0, 0).to_zoned(tz).timestamp().as_second()`
  pub timestamp : Bool → DateTime → ℤ
  -- `date.weekday().to_monday_zero_offset()`
  pub monday_zero_offset : Date → ℕ
  -- `date.checked_sub(days(n))`
  pub sub_days : Date → ℕ → Date

abbrev pub midnight : Date → DateTime
midnight d = record { date = d; hour = 0 }

abbrev pub month_start : Date → Date
month_start d = record d { day = 1 }

module _ (j : Calendar) where
  abbrev pub monday : Date → Date
  monday d = j.sub_days d (j.monday_zero_offset d)

  -- `floor_dt`: the picked date and hour of a moment, back as a moment.
  unfoldable pub floor_dt : ℤ → Bool → (DateTime → DateTime) → ℤ
  floor_dt ts local pick = j.timestamp local (pick (j.datetime local ts))

  unfoldable pub floor_hour : ℤ → Bool → ℤ
  unfolding floor_dt
  floor_hour ts local = floor_dt ts local (λ dt. dt)

  unfoldable pub floor_day : ℤ → Bool → ℤ
  unfolding floor_dt
  floor_day ts local = floor_dt ts local (λ dt. midnight dt.date)

  unfoldable pub floor_month : ℤ → Bool → ℤ
  unfolding floor_dt
  floor_month ts local = floor_dt ts local (λ dt. midnight (month_start dt.date))

  -- Monday 00:00 of the week that contains `ts`.
  unfoldable pub floor_week : ℤ → Bool → ℤ
  floor_week ts local = j.timestamp local (midnight (monday (j.datetime local ts).date))

pub data Window : Type 0 where
  day week month : Window

module _ (j : Calendar) where
  unfoldable pub window_floor : Window → ℤ → Bool → ℤ
  window_floor Window.day ts local = floor_day j ts local
  window_floor Window.week ts local = floor_week j ts local
  window_floor Window.month ts local = floor_month j ts local

  unfoldable pub budget_window_start : ℤ → Bool → Text → ℤ
  budget_window_start ts local period =
      if period == codes "day"
      then floor_day j ts local
      else if period == codes "week"
      then floor_week j ts local
      else floor_month j ts local
