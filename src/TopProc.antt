-- ===== src/TopProc.antt =====
-- src/top_proc.rs: the viewer of the recorded programs. The drawing, the clock and the keyboard are
-- not modelled; one turn is the keys that came in it, then what it shows.
use netmeter.Prelude.{ℕ, ◌++◌, Bool, not, List, [], ◌∷◌, Option, none, some, Map, Text, codes, map}
use netmeter.Prelude.Int.{ℤ, pos, ◌+ℤ◌}
use netmeter.Prelude.Float.{Float, Printing}
use netmeter.Config.{Config, tz_local}
use netmeter.Db.{Db}
use netmeter.Db.Time.{Calendar, Window, window_floor}
use netmeter.Db.Query.{query_proc}
use netmeter.Fmt.{fmt_bytes}
use netmeter.Show.Reports.{share_of, share_bar, first_total, is_decimal}

-- The variables of `view_loop`.
pub record View : Type 0 where
  pub period : Window
  pub decimal : Bool

-- The keys of the viewer: q or Esc, u, 1, 2, 3, and the rest.
pub data ViewKey : Type 0 where
  quit units one two three other_key : ViewKey

unfoldable pub opened_view : {R : Type 0} → Config R → Window → View
opened_view cfg period = record { period = period; decimal = is_decimal cfg }

-- One key; none ends the loop.
unfoldable pub on_view_key : ViewKey → View → Option View
on_view_key ViewKey.quit v = none
on_view_key ViewKey.units v = some (record v { decimal = not v.decimal })
on_view_key ViewKey.one v = some (record v { period = Window.day })
on_view_key ViewKey.two v = some (record v { period = Window.week })
on_view_key ViewKey.three v = some (record v { period = Window.month })
on_view_key ViewKey.other_key v = some v

-- The keys of one turn.
unfoldable pub on_view_keys : List ViewKey → View → Option View
on_view_keys [] v = some v
on_view_keys (k ∷ ks) v = elim (on_view_key k v) [ none ↦ none | some w ↦ on_view_keys ks w ]

unfoldable pub view_label : Window → Text
view_label Window.day = codes "today"
view_label Window.week = codes "since Monday"
view_label Window.month = codes "this month"

abbrev pub sum_totals : Map Text (ℤ × ℤ) → ℤ
sum_totals [] = pos 0
sum_totals ((comm, (rx, tx)) ∷ rows) = rx +ℤ tx +ℤ sum_totals rows

module _ {R : Type 0} (j : Calendar) (cfg : Config R) where
  -- `window_start`, at the time `now`.
  unfoldable pub window_start : ℤ → Window → Bool → ℤ
  window_start now period local = window_floor j period now local

  -- `today_top_apps`.
  unfoldable pub today_top_apps : ℤ → Db → ℕ → Map Text (ℤ × ℤ)
  today_top_apps now db n = query_proc db (window_start now Window.day (tz_local cfg)) n

  -- The rows of a turn; no database gives none.
  unfoldable pub view_rows : ℤ → Window → Option Db → Map Text (ℤ × ℤ)
  view_rows now period none = []
  view_rows now Window.day (some db) = today_top_apps now db 25
  view_rows now period (some db) = query_proc db (window_start now period (tz_local cfg)) 25

module _ (f : Float) (p : Printing f) (j : Calendar) (cfg : Config f.Real) where
  -- The cells of one row: the name, the bytes down, up and together, and the bar of the share.
  abbrev pub view_cells : ℤ → Bool → Text × (ℤ × ℤ) → List Text
  view_cells max_tot dec (comm, (rx, tx)) =
      comm
      ∷ fmt_bytes f p rx dec
      ∷ fmt_bytes f p tx dec
      ∷ fmt_bytes f p (rx +ℤ tx) dec
      ∷ share_bar f p j (share_of f p j max_tot (rx, tx))
      ∷ []

  -- What a turn shows: the head line and the rows.
  unfoldable pub view : ℤ → Option Db → View → Text × List (List Text)
  view now db v =
      let rows = view_rows j cfg now v.period db in
      (
        fmt_bytes f p (sum_totals rows) v.decimal
            ++ codes " │ "
            ++ view_label v.period
            ++ codes " │ 1 day │ 2 week │ 3 month ",
        map (view_cells (first_total rows) v.decimal) rows,
      )

  -- One turn of `view_loop`; none ends it.
  unfoldable pub view_turn :
      List ViewKey → ℤ → Option Db → View → Option (View × (Text × List (List Text)))
  view_turn keys now db v = elim (on_view_keys keys v) [
    | none ↦ none
    | some w ↦ some (w, view now db w)
  ]
