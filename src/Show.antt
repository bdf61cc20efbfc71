-- ===== src/Show.antt =====
-- The reports of src/main.rs on the recorded rows: show, top, today, export and import.
pub mod Laws
pub mod Import
pub mod Status
pub mod Totals
pub mod Configure
pub mod Print
pub mod Reports
pub mod Published
pub mod Export
pub mod Overview
use netmeter.Prelude.{
  ℕ, ◌≡◌, Bool, true, false, List, [], ◌∷◌, Option, none, some, Text, codes, ◌==◌, text_eq,
  if◌then◌else◌, Map, map, keep, fold, ◌*◌,
}
use netmeter.Prelude.Int.{ℤ, pos, ◌+ℤ◌, ◌-ℤ◌, leb_ℤ, ltb_ℤ}
use netmeter.Prelude.Ordered.{tree_entry, into_values}
use netmeter.Prelude.Float.{Float}
use netmeter.Config.{Config, effective_budget, tz_local}
use netmeter.Db.{Db, Table, Traffic, Row, no_traffic, add_traffic, total, wan_rx, wan_tx}
use netmeter.Db.Time.{
  Calendar, Date, midnight, floor_hour, floor_day, floor_week, floor_month, budget_window_start,
}
use netmeter.Db.Query.{query_range, add_to}

-- `Period`.
pub data Period : Type 0 where
  hour day week month : Period

-- `budget_used`.
unfoldable pub budget_used : Text → ℤ → List Row → ℤ
budget_used basis window_start [] = pos 0
budget_used basis window_start (r ∷ rows) =
    let rest = budget_used basis window_start rows in
    let used = (if basis == codes "wan" then wan_rx r +ℤ wan_tx r else total r) in
    if leb_ℤ window_start r.ts then used +ℤ rest else rest

-- The loop of `rebucket_week` and of `bucket_samples`.
unfoldable pub bucketed : (ℤ → ℤ) → List Row → List Row
bucketed floor rows = into_values (fold (λ r m. add_to (floor r.ts) r.iface r.traffic m) rows [])

module _ (j : Calendar) where
  unfoldable pub rebucket_week : List Row → Bool → List Row
  rebucket_week rows local = bucketed (λ ts. floor_week j ts local) rows

  unfoldable pub bucket_samples : List Row → Period → Bool → List Row
  bucket_samples rows Period.hour local = bucketed (λ ts. floor_hour j ts local) rows
  bucket_samples rows Period.day local = bucketed (λ ts. floor_day j ts local) rows
  bucket_samples rows Period.week local =
      rebucket_week (bucketed (λ ts. floor_day j ts local) rows) local
  bucket_samples rows Period.month local = bucketed (λ ts. floor_month j ts local) rows

  -- `parse_date` of a date that jiff has read.
  unfoldable pub parse_date : Date → Bool → ℤ
  parse_date d local = j.timestamp local (midnight d) +ℤ pos 86_400

  -- The end of the window of `cmd_show`.
  unfoldable pub show_end : ℤ → Option Date → Bool → ℤ
  show_end now none local = now
  show_end now (some d) local = parse_date d local

  -- The table and the first moment of the window.
  unfoldable pub show_window : Period → ℤ → Text × ℤ
  show_window Period.hour end = (codes "hourly", end -ℤ pos (24 * 3600))
  show_window Period.day end = (codes "daily", end -ℤ pos (30 * 86_400))
  show_window Period.week end = (codes "daily", end -ℤ pos (12 * 7 * 86_400))
  show_window Period.month end = (codes "monthly", end -ℤ pos (365 * 86_400))

  abbrev rebucketed : Period → List Row → Bool → List Row
  rebucketed Period.week rows local = rebucket_week rows local
  rebucketed Period.hour rows local = rows
  rebucketed Period.day rows local = rows
  rebucketed Period.month rows local = rows

  -- The live samples, where the rollup's tables have nothing yet.
  abbrev or_samples : Db → Period → ℤ → ℤ → Option Text → Bool → List Row → List Row
  or_samples db period from end iface local [] =
      bucket_samples (query_range db (codes "samples") from (end +ℤ pos 1) iface) period local
  or_samples db period from end iface local (r ∷ rows) = r ∷ rows

  -- The rows that `cmd_show` prints.
  unfoldable pub show_rows : Db → Period → ℤ → Option Date → Option Text → Bool → List Row
  show_rows db period now from iface local =
      let end = show_end now from local in
      let (table, from_ts) = show_window period end in
      or_samples db period from_ts end iface local
        (rebucketed period (query_range db table from_ts (end +ℤ pos 1) iface) local)

  abbrev pub view_period : Period → Text
  view_period Period.hour = codes "hour"
  view_period Period.day = codes "day"
  view_period Period.week = codes "week"
  view_period Period.month = codes "month"

  module _ (f : Float) where
    abbrev budget_of : Config f.Real → Period → ℤ → List Row → Option (Text × f.Real) → Option ℤ
    budget_of cfg period now rows none = none
    budget_of cfg period now rows (some (bperiod, gb)) =
        if bperiod == view_period period
        then some
            (budget_used cfg.budget_basis (budget_window_start j now (tz_local cfg) bperiod) rows)
        else none

    -- What the budget bar counts, where the view is the budget's.
    unfoldable pub show_budget : Config f.Real → Period → ℤ → List Row → Option ℤ
    show_budget cfg period now rows = budget_of cfg period now rows (effective_budget f cfg)
