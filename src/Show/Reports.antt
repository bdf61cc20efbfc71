-- ===== src/Show/Reports.antt =====
-- What the commands show, top, top-apps, today and status of src/main.rs print.
use netmeter.Prelude.{
  ◌++◌, Bool, true, false, List, [], ◌∷◌, ℕ, Option, none, some, Map, Text, codes, map,
  if◌then◌else◌, ◌==◌, text_eq,
}
use netmeter.Prelude.Int.{ℤ, pos, ◌+ℤ◌}
use netmeter.Prelude.Float.{Float, Printing}
use netmeter.Config.{Config, effective_budget, tz_local}
use netmeter.Capture.Nft.{Json, Items, field, stop, string}
use netmeter.Db.{Db, Row, total, wan_rx, wan_tx}
use netmeter.Db.Time.{Calendar, Date, Window, budget_window_start}
use netmeter.Db.Window.{period_adverb}
use netmeter.Daemon.Budget.{gib}
use netmeter.Fmt.{fmt_bytes, fmt_date, bar}
use netmeter.Show.{Period, show_rows, view_period, budget_used}
use netmeter.Show.Status.{top_days, top_ifaces, top_apps}
use netmeter.Show.Print.{
  Line, out, warn, left, right, columns, int_json, array_of, rows_json, api_version,
}

-- The six columns of `show`, and the four of `top`.
abbrev six : Text → Text → Text → Text → Text → Text → Line
six a b c d e g =
    out (columns (left 16 a) (right 10 b ∷ right 10 c ∷ right 10 d ∷ right 16 e ∷ right 16 g ∷ []))

abbrev four : Text → Text → Text → Text → Line
four a b c d = out (columns (left 12 a) (right 10 b ∷ right 10 c ∷ right 10 d ∷ []))

abbrev pub no_data : Text → Line
no_data hint = warn (codes "no data yet — is the daemon running? (" ++ hint ++ codes ")")

abbrev pub install_hint : Text
install_hint = codes "`netmeter status`, `sudo netmeter daemon install`"

-- Whether `cfg.units` asks for powers of 1000.
abbrev pub is_decimal : {R : Type 0} → Config R → Bool
is_decimal cfg = cfg.units == codes "decimal"

-- `format!("{:?}", period).to_lowercase()`.
abbrev period_text : Period → Text
period_text Period.hour = codes "hour"
period_text Period.day = codes "day"
period_text Period.week = codes "week"
period_text Period.month = codes "month"

abbrev with_time : Period → Bool
with_time Period.hour = true
with_time _ = false

-- The tail of a list of rows: a hint where there are none.
abbrev hint_if_empty : List Row → List Line
hint_if_empty [] = no_data (codes "`netmeter status`, `netmeter daemon install`") ∷ []
hint_if_empty (r ∷ rows) = []

-- The bytes of the first program, and 1 where there is none.
abbrev pub first_total : Map Text (ℤ × ℤ) → ℤ
first_total [] = pos 1
first_total ((comm, (rx, tx)) ∷ rows) = rx +ℤ tx

abbrev label_of : Window → Text
label_of Window.day = codes "today"
label_of Window.week = codes "since Monday"
label_of Window.month = codes "this month"

module _ (f : Float) (p : Printing f) (j : Calendar) where
  -- Tenths of the first program's bytes.
  unfoldable pub share_of : ℤ → ℤ × ℤ → ℕ
  share_of max_tot (rx, tx) =
      p.round (f.mul (f.div (f.of (rx +ℤ tx)) (f.of max_tot)) (f.literal 10 1))

  abbrev pub share_bar : ℕ → Text
  share_bar share = bar f p (f.div (f.of (pos share)) (f.literal 10 1)) 10

  unfoldable pub show_json : Period → Bool → Row → Json
  show_json period local r = Json.object (
      field (codes "ts") (int_json r.ts) (
        field (codes "date") (string (fmt_date j r.ts local (with_time period))) (
          field (codes "iface") (string r.iface) (
            field (codes "rx") (int_json r.rx) (
              field (codes "tx") (int_json r.tx) (
                field (codes "total") (int_json (total r)) (
                  field (codes "lan_rx") (int_json r.lan_rx) (
                    field (codes "lan_tx") (int_json r.lan_tx) (
                      field (codes "wan_rx") (int_json (wan_rx r))
                        (field (codes "wan_tx") (int_json (wan_tx r)) stop))))))))))

  unfoldable pub show_line : Period → Bool → Bool → Row → Line
  show_line period local dec r =
      six (fmt_date j r.ts local (with_time period)) (fmt_bytes f p r.rx dec)
        (fmt_bytes f p r.tx dec) (fmt_bytes f p (total r) dec)
        (fmt_bytes f p r.lan_rx dec ++ b'/' ∷ fmt_bytes f p r.lan_tx dec)
        (fmt_bytes f p (wan_rx r) dec ++ b'/' ∷ fmt_bytes f p (wan_tx r) dec)

  abbrev budget_text : Config f.Real → Period → ℤ → List Row → Option (Text × f.Real) → List Line
  budget_text cfg period now rows none = []
  budget_text cfg period now rows (some (bperiod, gb)) =
      let dec = is_decimal cfg in
      let used =
        budget_used cfg.budget_basis (budget_window_start j now (tz_local cfg) bperiod) rows in
      let budget = f.trunc (f.mul gb (f.literal gib 1)) in
      let frac = f.div (f.of used) (f.of budget) in
      if bperiod == view_period j period
      then out (
          codes "Budget ("
          ++ period_adverb bperiod
          ++ codes "): "
          ++ fmt_bytes f p used dec
          ++ b'/' ∷ fmt_bytes f p budget dec
          ++ b' ' ∷ bar f p frac 10
          ++ b' ' ∷ p.fixed 0 (f.mul frac (f.literal 100 1))
          ++ codes "%")
        ∷ []
      else []

  abbrev show_answer : Config f.Real → Period → ℤ → Bool → List Row → List Line
  show_answer cfg period now true rows =
      Line.json (
        Json.object (
          field (codes "api_version") api_version (
            field (codes "period") (string (period_text period)) (
              field (codes "rows") (Json.array (array_of (show_json period (tz_local cfg)) rows))
                stop))))
      ∷ []
  show_answer cfg period now false rows =
      six (codes "DATE") (codes "DOWN") (codes "UP") (codes "TOTAL") (codes "LAN ↓/↑")
          (codes "WAN ↓/↑")
        ∷ map (show_line period (tz_local cfg) (is_decimal cfg)) rows
      ++ budget_text cfg period now rows (effective_budget f cfg)
      ++ hint_if_empty rows

  -- `cmd_show`; the database is none where it cannot be opened.
  unfoldable pub cmd_show :
      Config f.Real → Period → ℤ → Option Date → Option Text → Bool → Option Db → List Line
  cmd_show cfg period now from iface true none = Line.json (rows_json Items.end) ∷ []
  cmd_show cfg period now from iface false none = no_data install_hint ∷ []
  cmd_show cfg period now from iface as_json (some db) =
      show_answer cfg period now as_json (show_rows j db period now from iface (tz_local cfg))

  abbrev top_line : Bool → Text × (ℤ × ℤ) → Line
  top_line dec (name, (rx, tx)) =
      four name (fmt_bytes f p rx dec) (fmt_bytes f p tx dec) (fmt_bytes f p (rx +ℤ tx) dec)

  abbrev day_line : Bool → Bool → Row → Line
  day_line local dec r =
      four (fmt_date j r.ts local false) (fmt_bytes f p r.rx dec) (fmt_bytes f p r.tx dec)
        (fmt_bytes f p (total r) dec)

  -- `cmd_top`, by day where the flag says so, else by interface.
  unfoldable pub cmd_top : Config f.Real → Bool → ℕ → Option Db → List Line
  cmd_top cfg by_day limit none =
      four (codes "IFACE") (codes "DOWN") (codes "UP") (codes "TOTAL")
      ∷ warn (codes "no data yet — start the daemon first")
      ∷ []
  cmd_top cfg true limit (some db) =
      four (codes "DATE") (codes "DOWN") (codes "UP") (codes "TOTAL")
      ∷ map (day_line (tz_local cfg) (is_decimal cfg)) (top_days db limit)
  cmd_top cfg false limit (some db) =
      four (codes "IFACE") (codes "DOWN") (codes "UP") (codes "TOTAL")
      ∷ map (top_line (is_decimal cfg)) (top_ifaces db limit)

  unfoldable pub app_json : Text × (ℤ × ℤ) → Json
  app_json (comm, (rx, tx)) = Json.object (
      field (codes "app") (string comm) (
        field (codes "rx") (int_json rx)
          (field (codes "tx") (int_json tx) (field (codes "total") (int_json (rx +ℤ tx)) stop))))

  unfoldable pub app_line : ℤ → Bool → Text × (ℤ × ℤ) → Line
  app_line max_tot dec (comm, (rx, tx)) = out (
      columns (left 24 comm) (
        right 10 (fmt_bytes f p rx dec)
        ∷ right 10 (fmt_bytes f p tx dec)
        ∷ right 10 (fmt_bytes f p (rx +ℤ tx) dec)
        ∷ [])
      ++ codes "  "
      ++ share_bar (share_of max_tot (rx, tx)))

  -- `cmd_top_apps`.
  unfoldable pub cmd_top_apps : Config f.Real → Window → ℤ → ℕ → Bool → Option Db → List Line
  cmd_top_apps cfg window now limit true none = Line.json (rows_json Items.end) ∷ []
  cmd_top_apps cfg window now limit false none =
      warn (codes "no data yet — is the daemon running with proc_recording on?") ∷ []
  cmd_top_apps cfg window now limit true (some db) =
      Line.json (rows_json (array_of app_json (top_apps j db now (tz_local cfg) window limit))) ∷ []
  cmd_top_apps cfg window now limit false (some db) =
      let rows = top_apps j db now (tz_local cfg) window limit in
      out (
        columns (left 24 (codes "APP"))
          (right 10 (codes "DOWN") ∷ right 10 (codes "UP") ∷ right 10 (codes "TOTAL") ∷ [])
        ++ codes "  "
        ++ label_of window)
      ∷ map (app_line (first_total rows) (is_decimal cfg)) rows
