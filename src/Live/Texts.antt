-- ===== src/Live/Texts.antt =====
-- What the dashboard of src/live.rs writes: the lines and cells of one frame, without their places
-- and colours.
use netmeter.Prelude.{
  ℕ, ◌+◌, ◌++◌, Bool, List, [], ◌∷◌, Option, none, some, Text, codes, map, max, leb, if◌then◌else◌,
}
use netmeter.Prelude.Int.{ℤ, pos, negsuc, ◌+ℤ◌, ◌-ℤ◌, max_ℤ, as_i64}
use netmeter.Prelude.Float.{Float, Printing}
use netmeter.Config.{Config, effective_budget}
use netmeter.Db.{Traffic}
use netmeter.Db.Window.{period_adverb}
use netmeter.Daemon.Budget.{gib}
use netmeter.Daemon.Sample.{Totals}
use netmeter.Fmt.{fmt_bytes, clamp, bar}
use netmeter.Live.{IfRow, Live, sum_down, sum_up}

-- The sums of the session over all interfaces.
unfoldable pub session_sum : Totals → ℕ × ℕ
session_sum [] = (0, 0)
session_sum ((iface, (rx, tx)) ∷ rest) = let (a, b) = session_sum rest in (rx + a, tx + b)

-- The WAN bytes of the month.
unfoldable pub month_wan : Traffic → ℤ
month_wan v = max_ℤ (v.rx -ℤ v.lan_rx) (pos 0) +ℤ max_ℤ (v.tx -ℤ v.lan_tx) (pos 0)

-- The largest rate of a row, and 1 without rows: what the shares are measured by.
unfoldable pub max_row : List IfRow → ℕ
max_row [] = 1
max_row (r ∷ []) = r.down + r.up
max_row (r ∷ q ∷ rows) = max (r.down + r.up) (max_row (q ∷ rows))

-- The month's strip: a gauge with its title, percentage and colour, or a line.
pub data Colour : Type 0 where
  red yellow green : Colour

pub data Strip : Type 0 where
  gauge : Text → ℕ → Colour → Strip
  line : Text → Strip

module _ (f : Float) (p : Printing f) where
  -- `fmt_rate`.
  unfoldable pub fmt_rate : ℕ → f.Real → Bool → Text
  fmt_rate bps per_sec dec =
      fmt_bytes f p (f.trunc (f.mul (f.of (pos bps)) per_sec)) dec ++ codes "/s"

  -- `usage_row`.
  unfoldable pub usage_row : Text → ℤ × ℤ → Bool → List Text
  usage_row label (rx, tx) dec =
      label ∷ fmt_bytes f p rx dec ∷ fmt_bytes f p tx dec ∷ fmt_bytes f p (rx +ℤ tx) dec ∷ []

  -- The rows of the table of use.
  unfoldable pub usage_rows : Live → List (List Text)
  usage_rows s =
      let v = s.month_split in
      usage_row (codes "TODAY") s.day_tot s.decimal
      ∷ usage_row (codes "WEEK") s.week_tot s.decimal
      ∷ usage_row (codes "MONTH") (v.rx, v.tx) s.decimal
      ∷ usage_row (codes "LAN-M") (v.lan_rx, v.lan_tx) s.decimal
      ∷ usage_row (codes "WAN-M")
          (max_ℤ (v.rx -ℤ v.lan_rx) (pos 0), max_ℤ (v.tx -ℤ v.lan_tx) (pos 0)) s.decimal
      ∷ []

  -- The cells of an interface.
  unfoldable pub iface_cells : ℕ → Bool → IfRow → List Text
  iface_cells largest dec r =
      let share =
        p.round
          (f.mul (f.div (f.of (pos (r.down + r.up))) (f.of (pos largest))) (f.literal 10 1)) in
      r.iface
      ∷ (fmt_bytes f p (as_i64 r.down) dec ++ codes "/s")
      ∷ (fmt_bytes f p (as_i64 r.up) dec ++ codes "/s")
      ∷ bar f p (f.div (f.of (pos share)) (f.literal 10 1)) 10
      ∷ fmt_bytes f p (as_i64 (r.session_rx + r.session_tx)) dec
      ∷ []

  -- The head line, for the rows and the LAN rate of this turn.
  unfoldable pub head_line : List IfRow → Text → Live → Text
  head_line rows lan_rate s =
      let (sess_rx, sess_tx) = session_sum s.session in
      let one = f.literal 1 1 in
      codes " ▼ "
      ++ fmt_rate (sum_down rows) one s.decimal
      ++ codes "  ▲ "
      ++ fmt_rate (sum_up rows) one s.decimal
      ++ codes "  │ LAN "
      ++ lan_rate
      ++ codes " │ sess ▼"
      ++ fmt_bytes f p (as_i64 sess_rx) s.decimal
      ++ codes " ▲"
      ++ fmt_bytes f p (as_i64 sess_tx) s.decimal
      ++ codes " │ today ▼"
      ++ fmt_bytes f p s.day_tot.0 s.decimal
      ++ codes " ▲"
      ++ fmt_bytes f p s.day_tot.1 s.decimal
      ++ codes " │ month "
      ++ fmt_bytes f p s.month_used s.decimal

  -- The cells of the programs.
  abbrev pub app_cells : Bool → Text × (ℤ × ℤ) → List Text
  app_cells dec (comm, (rx, tx)) = comm ∷ fmt_bytes f p rx dec ∷ fmt_bytes f p tx dec ∷ []

  unfoldable pub app_table : Live → List (List Text)
  app_table s = map (app_cells s.decimal) s.app_rows

  -- The used part of the budget, and -1 without one.
  unfoldable pub budget_frac : Option (Text × f.Real) → ℤ → f.Real
  budget_frac none used = f.of (negsuc 0)
  budget_frac (some (period, gb)) used = f.div (f.of used) (f.mul gb (f.literal gib 1))

  abbrev pub adverb_of : Option (Text × f.Real) → Text
  adverb_of none = codes "monthly"
  adverb_of (some (period, gb)) = period_adverb period

  abbrev pub budget_gb_of : Option (Text × f.Real) → f.Real
  budget_gb_of none = f.literal 0 1
  budget_gb_of (some (period, gb)) = gb

  abbrev pub colour_of : ℕ → Colour
  colour_of pct =
      if leb 100 pct then Colour.red else if leb 80 pct then Colour.yellow else Colour.green

  abbrev month_line : Live → Text
  month_line s =
      let v = s.month_split in
      codes " month "
      ++ fmt_bytes f p s.month_used s.decimal
      ++ codes " (▼"
      ++ fmt_bytes f p v.rx s.decimal
      ++ codes " ▲"
      ++ fmt_bytes f p v.tx s.decimal
      ++ codes ") │ LAN "
      ++ fmt_bytes f p v.lan_rx s.decimal
      ++ b'/' ∷ fmt_bytes f p v.lan_tx s.decimal
      ++ codes " │ WAN "
      ++ fmt_bytes f p (max_ℤ (v.rx -ℤ v.lan_rx) (pos 0)) s.decimal
      ++ b'/' ∷ fmt_bytes f p (max_ℤ (v.tx -ℤ v.lan_tx) (pos 0)) s.decimal
      ++ codes " │ `sudo netmeter config set budget_gb 50` for a budget bar"

  abbrev budget_gauge : Option (Text × f.Real) → Live → Strip
  budget_gauge budget s =
      let pct =
        f.trunc_u64 (f.mul (clamp f p (budget_frac budget s.month_used)) (f.literal 100 1)) in
      Strip.gauge
        (codes " "
          ++ adverb_of budget
          ++ b' ' ∷ p.fixed 1 (f.div (f.of s.month_used) (f.literal gib 1))
          ++ b'/' ∷ p.fixed 0 (budget_gb_of budget)
          ++ codes " GiB │ WAN "
          ++ fmt_bytes f p (month_wan s.month_split) s.decimal
          ++ codes " ")
        pct (colour_of pct)

  -- The strip of the month.
  unfoldable pub month_strip : Config f.Real → Live → Strip
  month_strip cfg s =
      let budget = effective_budget f cfg in
      if f.le (f.literal 0 1) (budget_frac budget s.month_used)
      then budget_gauge budget s
      else Strip.line (month_line s)
