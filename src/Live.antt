-- ===== src/Live.antt =====
-- src/live.rs: the dashboard's state, its keys, and what one turn of `live_loop` computes. The
-- drawing, the clock and the keyboard are not modelled.
pub mod Laws
pub mod Texts
pub mod Lan
pub mod Session
pub mod Budget
use netmeter.Prelude.{
  ℕ, ◌+◌, ◌-◌, ◌*◌, ◌%◌, ◌^◌, Bool, true, false, not, ◌&&◌, List, [], ◌∷◌, ◌++◌, Option, none, some,
  Map, lookup, upsert, Text, codes, if◌then◌else◌, ltb, leb, nat_beq, text_eq, ◌==◌, length, drop,
  replicate, min, max, get_or, map,
}
use netmeter.Prelude.Int.{ℤ, pos}
use netmeter.Prelude.Float.{Float}
use netmeter.Config.{Config, excluded, effective_budget, tz_local}
use netmeter.Db.{Db, Traffic, no_traffic}
use netmeter.Db.Time.{Calendar, floor_day, floor_week, budget_window_start}
use netmeter.Db.Window.{window_sum, used_bytes}
use netmeter.Db.Query.{query_proc}
use netmeter.Daemon.Sample.{Totals}

-- `IfRow`.
pub record IfRow : Type 0 where
  pub iface : Text
  pub down : ℕ
  pub up : ℕ
  pub session_rx : ℕ
  pub session_tx : ℕ

-- The variables of `live_loop`.
pub record Live : Type 0 where
  pub decimal : Bool
  pub interval_ms : ℕ
  pub hist_down : List ℕ
  pub hist_up : List ℕ
  pub prev : Totals
  pub session : Totals
  pub tick_n : ℕ
  pub day_tot : ℤ × ℤ
  pub week_tot : ℤ × ℤ
  pub month_used : ℤ
  pub month_split : Traffic
  pub app_rows : Map Text (ℤ × ℤ)

unfoldable pub opened : Bool → Totals → Live
opened decimal prev = record {
  decimal = decimal;
  interval_ms = 1000;
  hist_down = replicate 120 0;
  hist_up = replicate 120 0;
  prev = prev;
  session = [];
  tick_n = 0;
  day_tot = (pos 0, pos 0);
  week_tot = (pos 0, pos 0);
  month_used = pos 0;
  month_split = no_traffic;
  app_rows = [];
}

-- The keys of the dashboard: q or Esc, u, + or =, -, and the rest.
pub data Key : Type 0 where
  quit units faster slower other_key : Key

-- The subtraction of `u64`, which wraps around.
abbrev pub sub_u64 : ℕ → ℕ → ℕ
sub_u64 a b = (a + 2 ^ 64 - b) % 2 ^ 64

-- One key; none ends the loop.
unfoldable pub on_key : Key → Live → Option Live
on_key Key.quit s = none
on_key Key.units s = some (record s { decimal = not s.decimal })
on_key Key.faster s = some (record s { interval_ms = max (sub_u64 s.interval_ms 250) 250 })
on_key Key.slower s = some (record s { interval_ms = min (s.interval_ms + 250) 5000 })
on_key Key.other_key s = some s

-- `rows.sort_by_key(|r| Reverse(r.down + r.up))`, which is stable.
unfoldable pub rank_row : IfRow → List IfRow → List IfRow
rank_row r [] = r ∷ []
rank_row r (h ∷ t) =
    let rest = rank_row r t in if leb (h.down + h.up) (r.down + r.up) then r ∷ h ∷ t else h ∷ rest

unfoldable pub sort_rows : List IfRow → List IfRow
sort_rows [] = []
sort_rows (r ∷ rows) = rank_row r (sort_rows rows)

abbrev pub sum_down : List IfRow → ℕ
sum_down [] = 0
sum_down (r ∷ rows) = r.down + sum_down rows

abbrev pub sum_up : List IfRow → ℕ
sum_up [] = 0
sum_up (r ∷ rows) = r.up + sum_up rows

-- `push_back`, then as many `pop_front` as the first history is over 120 values long.
unfoldable pub push_hist : ℕ → ℕ → List ℕ → List ℕ
push_hist over n hist = drop over (hist ++ n ∷ [])

-- The session's bytes of one interface.
abbrev pub add_session : Text → ℕ × ℕ → Totals → Totals
add_session iface (drx, dtx) session = upsert iface (drx, dtx) (λ e. (e.0 + drx, e.1 + dtx)) session

-- Whether the row of an interface is shown.
unfoldable pub is_shown : {R : Type 0} → Config R → Option Text → Text → Bool
is_shown cfg none iface = not (excluded cfg iface)
is_shown cfg (some only) iface = not (excluded cfg iface) && (iface == only)

module _ (f : Float) (cfg : Config f.Real) (only : Option Text) where
  -- `(bytes as f64 * per_sec) as u64`.
  unfoldable pub rate : ℕ → ℕ → ℕ
  rate interval_ms bytes =
      f.trunc_u64 (f.mul (f.of (pos bytes)) (f.div (f.literal 1000 1) (f.of (pos interval_ms))))

  abbrev pub row_of : ℕ → Text → ℕ × ℕ → ℕ × ℕ → IfRow
  row_of interval_ms iface (drx, dtx) (srx, stx) = record {
    iface = iface;
    down = rate interval_ms drx;
    up = rate interval_ms dtx;
    session_rx = srx;
    session_tx = stx;
  }

  -- One interface with an earlier reading: its bytes, held at 0 where a counter fell.
  abbrev pub show_iface :
      ℕ → Text → ℕ × ℕ → Option (ℕ × ℕ) → List IfRow × Totals → List IfRow × Totals
  show_iface interval_ms iface now none (rows, session) = (rows, session)
  show_iface interval_ms iface (rx, tx) (some (orx, otx)) (rows, session) =
      let d : ℕ × ℕ = (rx - orx, tx - otx) in
      let session' = add_session iface d session in
      (rows ++ row_of interval_ms iface d (get_or (lookup iface session') (0, 0)) ∷ [], session')

  -- The loop over the interfaces.
  unfoldable pub measure_rows : ℕ → Totals → Totals → List IfRow × Totals → List IfRow × Totals
  measure_rows interval_ms prev [] acc = acc
  measure_rows interval_ms prev ((iface, now) ∷ cur) acc = measure_rows interval_ms prev cur (
      if is_shown cfg only iface
      then show_iface interval_ms iface now (lookup iface prev) acc
      else acc)

  -- Lines 76 to 127: the rows, and the state with the new history.
  unfoldable pub live_tick : Totals → Live → List IfRow × Live
  live_tick cur s =
      let (measured, session) = measure_rows s.interval_ms s.prev cur ([], s.session) in
      let rows = sort_rows measured in
      let over = length s.hist_down + 1 - 120 in
      (
        rows,
        record s {
          prev = cur;
          session = session;
          tick_n = s.tick_n + 1;
          hist_down = push_hist over (sum_down rows) s.hist_down;
          hist_up = push_hist over (sum_up rows) s.hist_up;
        },
      )

abbrev period_or_month : {R : Type 0} → Option (Text × R) → Text
period_or_month none = codes "month"
period_or_month (some (period, gb)) = period

module _ (f : Float) (j : Calendar) (cfg : Config f.Real) where
  -- `query_since`.
  unfoldable pub query_since : Db → ℤ → ℤ × ℤ
  query_since db from = let v = window_sum from db.samples in (v.rx, v.tx)

  -- `query_week_total`.
  unfoldable pub query_week_total : Db → ℤ → Bool → ℤ × ℤ
  query_week_total db now local = query_since db (floor_week j now local)

  -- `query_budget`.
  unfoldable pub query_budget : Db → ℤ → Bool → ℤ × Traffic
  query_budget db now local =
      let v =
        window_sum (budget_window_start j now local (period_or_month (effective_budget f cfg)))
          db.samples in
      (used_bytes cfg.budget_basis v, v)

  -- Lines 130 to 150: every fifth tick reads the database, and shows zeros where it cannot.
  unfoldable pub refresh : ℤ → Option Db → Live → Live
  refresh now none s =
      if nat_beq (s.tick_n % 5) 1
      then record s {
        day_tot = (pos 0, pos 0);
        week_tot = (pos 0, pos 0);
        month_used = pos 0;
        month_split = no_traffic;
        app_rows = [];
      }
      else s
  refresh now (some db) s =
      let local = tz_local cfg in
      let (used, split) = query_budget db now local in
      if nat_beq (s.tick_n % 5) 1
      then record s {
        day_tot = query_since db (floor_day j now local);
        week_tot = query_week_total db now local;
        month_used = used;
        month_split = split;
        app_rows = query_proc db (floor_day j now local) 12;
      }
      else s
