-- ===== src/Fmt.antt =====
-- src/fmtx.rs: texts of byte counts and dates, and bars.
pub mod Laws
use netmeter.Prelude.{ℕ, ◌-◌, ◌++◌, Bool, List, [], ◌∷◌, Text, codes, replicate, if◌then◌else◌}
use netmeter.Prelude.Int.{ℤ, pos, max_ℤ}
use netmeter.Prelude.Decimal.{print_nat}
use netmeter.Prelude.Float.{Float, Printing}
use netmeter.Db.Time.{Calendar}
use netmeter.Db.Window.{pad, pad_int}

-- The characters █ and ░.
abbrev pub full_block : ℕ
full_block = 9608

abbrev pub light_block : ℕ
light_block = 9617

abbrev pub decimal_units : List Text
decimal_units = codes "KB" ∷ codes "MB" ∷ codes "GB" ∷ codes "TB" ∷ codes "PB" ∷ []

abbrev pub binary_units : List Text
binary_units = codes "KiB" ∷ codes "MiB" ∷ codes "GiB" ∷ codes "TiB" ∷ codes "PiB" ∷ []

module _ (f : Float) (p : Printing f) where
  abbrev pub with_unit : ℕ → f.Real → Text → Text
  with_unit places v unit = p.fixed places v ++ b' ' ∷ unit

  -- The loop from a unit on: the larger units are left. Bytes are printed whole, the others with
  -- one place.
  unfoldable pub scale : f.Real → ℕ → f.Real → Text → List Text → Text
  scale base places v unit [] = with_unit places v unit
  scale base places v unit (larger ∷ units) =
      let rest = scale base 1 (f.div v base) larger units in
      if f.le base v then rest else with_unit places v unit

  -- `fmt_scaled` for units above the byte.
  unfoldable pub fmt_scaled : ℤ → f.Real → List Text → Text
  fmt_scaled b base units = scale base 0 (f.of (max_ℤ b (pos 0))) (codes "B") units

  unfoldable pub fmt_bytes : ℤ → Bool → Text
  fmt_bytes b decimal =
      if decimal
      then fmt_scaled b (f.literal 1000 1) decimal_units
      else fmt_scaled b (f.literal 1024 1) binary_units

  -- `x.clamp(0.0, 1.0)`.
  unfoldable pub clamp : f.Real → f.Real
  clamp x =
      if f.lt x (f.literal 0 1)
      then f.literal 0 1
      else if f.lt (f.literal 1 1) x
      then f.literal 1 1
      else x

  unfoldable pub fill : f.Real → ℕ → ℕ
  fill frac w = p.round (f.mul (clamp frac) (f.of (pos w)))

  -- `bar`.
  unfoldable pub bar : f.Real → ℕ → Text
  bar frac w = replicate (fill frac w) full_block ++ replicate (w - fill frac w) light_block

module _ (j : Calendar) where
  -- `fmt_date`.
  unfoldable pub fmt_date : ℤ → Bool → Bool → Text
  fmt_date ts local with_time =
      let dt = j.datetime local ts in
      let day =
        pad_int 4 dt.date.year
        ++ b'-' ∷ (pad 2 (print_nat dt.date.month) ++ b'-' ∷ pad 2 (print_nat dt.date.day)) in
      if with_time then day ++ b' ' ∷ (pad 2 (print_nat dt.hour) ++ codes ":00") else day
