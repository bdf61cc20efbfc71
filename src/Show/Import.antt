-- ===== src/Show/Import.antt =====
-- `cmd_import` of src/main.rs: the daily totals of vnstat. The command's JSON output is an argument,
-- and jiff's check of a date a parameter.
use netmeter.Prelude.{
  ℕ, ◌≡◌, refl, ◌∙◌, ◌-◌, ◌%◌, ◌^◌, Bool, true, false, List, [], ◌∷◌, ◌++◌, Option, none, some,
  Text, codes, if◌then◌else◌, lookup, upsert, lookup-upsert, or_else, get_or, ltb, leb, text_eq,
  pair_eq, pair_beq_iff, int_eq, ◌==◌, inl, inr, Bool-cases,
}
use netmeter.Prelude.Int.{ℤ, pos, negsuc, ltb_ℤ}
use netmeter.Prelude.Decimal.{i64_max}
use netmeter.Config.{Config, excluded, tz_local}
use netmeter.Db.{Table, Traffic}
use netmeter.Db.Time.{Calendar, Date, midnight}
use netmeter.Capture.Nft.{Json, Items, get, as_str, number, negative, array, item, end}

-- `as i32`, `as i16` and `as i8` of an integer, which keep the low bits.
abbrev signed : ℕ → ℕ → ℤ
signed w n = if ltb n (2 ^ (w - 1)) then pos n else negsuc (2 ^ w - n - 1)

abbrev pub wrap : ℕ → ℤ → ℤ
wrap w (pos n) = signed w (n % 2 ^ w)
wrap w (negsuc n) = signed w (2 ^ w - 1 - n % 2 ^ w)

abbrev pub as_i64_of : Option Json → Option ℤ
as_i64_of none = none
as_i64_of (some (number n)) = if leb n i64_max then some (pos n) else none
as_i64_of (some (negative n)) = if leb n i64_max then some (negsuc n) else none
as_i64_of (some _) = none

-- `v.pointer("/a/b")`.
abbrev pub at_path : Text → Option Json → Option Json
at_path key none = none
at_path key (some v) = get key v

-- The rows to write, and whether no date was refused.
abbrev pub Rows : Type 0
Rows = List ((ℤ × Text) × (ℤ × ℤ)) × Bool

abbrev ahead : (ℤ × Text) × (ℤ × ℤ) → Rows → Rows
ahead r (rs, ok) = (r ∷ rs, ok)

abbrev then_rows : Rows → Rows → Rows
then_rows (rs, ok) (more, ok') = if ok then (rs ++ more, ok') else (rs, false)

abbrev items : Option Json → Items
items (some (array is)) = is
items _ = end

-- A moment, or the error that ends the command.
abbrev with_date : Option ℤ → Text → ℤ × ℤ → Rows → Rows
with_date none name bytes later = ([], false)
with_date (some ts) name bytes later = ahead ((ts, name), bytes) later

module _ (j : Calendar) (civil : ℤ → ℤ → ℤ → Option Date) (local : Bool) where
  abbrev moment : Option Date → Option ℤ
  moment none = none
  moment (some d) = some (j.timestamp local (midnight d))

  -- One entry of `traffic.days`: years before 2000 are passed over.
  unfoldable pub day_row : Text → Json → Rows → Rows
  day_row name d later =
      let date = get (codes "date") d in
      let y = wrap 32 (get_or (as_i64_of (at_path (codes "year") date)) (pos 0)) in
      let mo = wrap 32 (get_or (as_i64_of (at_path (codes "month") date)) (pos 1)) in
      let da = wrap 32 (get_or (as_i64_of (at_path (codes "day") date)) (pos 1)) in
      let rx = get_or (as_i64_of (get (codes "rx") d)) (pos 0) in
      let tx = get_or (as_i64_of (get (codes "tx") d)) (pos 0) in
      if ltb_ℤ y (pos 2000)
      then later
      else with_date (moment (civil (wrap 16 y) (wrap 8 mo) (wrap 8 da))) name (rx, tx) later

  unfoldable pub day_rows : Text → Items → Rows
  day_rows name end = ([], true)
  day_rows name (item d days) = day_row name d (day_rows name days)

  unfoldable pub iface_rows : {R : Type 0} → Config R → Items → Rows
  iface_rows cfg end = ([], true)
  iface_rows cfg (item i ifaces) =
      let name = get_or (as_str (get (codes "name") i)) (codes "?") in
      let later = iface_rows cfg ifaces in
      let days = at_path (codes "days") (get (codes "traffic") i) in
      if excluded cfg name then later else then_rows (day_rows name (items days)) later

abbrev fresh_day : ℤ × ℤ → Traffic
fresh_day (rx, tx) = record { rx = rx; tx = tx; lan_rx = pos 0; lan_tx = pos 0 }

abbrev day_again : ℤ × ℤ → Traffic → Traffic
day_again (rx, tx) v = record v { rx = rx; tx = tx }

-- `INSERT … VALUES(?,?,?,?,0,0) ON CONFLICT DO UPDATE SET rx=excluded.rx, tx=excluded.tx`.
unfoldable pub put_day : (ℤ × Text) × (ℤ × ℤ) → Table → Table
put_day (k, (rx, tx)) t = upsert k (fresh_day (rx, tx)) (day_again (rx, tx)) t

unfoldable pub put_days : List ((ℤ × Text) × (ℤ × ℤ)) → Table → Table
put_days [] t = t
put_days (r ∷ rows) t = put_days rows (put_day r t)

-- `cmd_import` on the `daily` table; the Boolean says that it did not end in an error.
unfoldable pub cmd_import :
    Calendar → (ℤ → ℤ → ℤ → Option Date) → {R : Type 0} → Config R → Json → Table → Table × Bool
cmd_import j civil cfg v t =
    let (rows, ok) = iface_rows j civil (tz_local cfg) cfg (items (get (codes "interfaces") v)) in
    (put_days rows t, ok)

-- The bytes that a day's row has after the import: the LAN bytes stay, none where it is new.
abbrev pub overwritten : Option (ℤ × ℤ) → Option Traffic → Option Traffic
overwritten none old = old
overwritten (some b) none = some (fresh_day b)
overwritten (some b) (some v) = some (day_again b v)

-- The last row of a key.
abbrev pub or_later : Option (ℤ × ℤ) → Option (ℤ × ℤ) → Option (ℤ × ℤ)
or_later first none = first
or_later first (some b) = some b

unfoldable pub last_row : ℤ × Text → List ((ℤ × Text) × (ℤ × ℤ)) → Option (ℤ × ℤ)
last_row k [] = none
last_row k ((key, b) ∷ rows) = or_later (if key == k then some b else none) (last_row k rows)

lookup-put_day :
    (k key : ℤ × Text) (b : ℤ × ℤ) (t : Table)
    → lookup k (put_day (key, b) t) ≡ overwritten (if key == k then some b else none) (lookup k t)
unfolding put_day
lookup-put_day k key b t = elim (Bool-cases (key == k)) [
  | inl same ↦
      let p : key ≡ k = (pair_beq_iff key k).0 same in
      rw (lookup-upsert key k (fresh_day b) (day_again b) t, same) (rw p (by_old (lookup k t)))
  | inr other ↦ rw (lookup-upsert key k (fresh_day b) (day_again b) t, other)
]
  where
    by_old :
        (o : Option Traffic) → some (or_else (fresh_day b) (day_again b) o) ≡ overwritten (some b) o
    by_old none = refl
    by_old (some v) = refl

overwritten_twice :
    (a b : Option (ℤ × ℤ)) (o : Option Traffic)
    → overwritten b (overwritten a o) ≡ overwritten (or_later a b) o
overwritten_twice none none o = refl
overwritten_twice none (some b) o = refl
overwritten_twice (some a) none o = refl
overwritten_twice (some a) (some b) none = refl
overwritten_twice (some a) (some b) (some v) = refl

lookup-put_days :
    (k : ℤ × Text) (rows : List ((ℤ × Text) × (ℤ × ℤ))) (t : Table)
    → lookup k (put_days rows t) ≡ overwritten (last_row k rows) (lookup k t)
unfolding put_days last_row
lookup-put_days k [] t = refl
lookup-put_days k ((key, b) ∷ rows) t =
    lookup-put_days k rows (put_day (key, b) t)
    ∙ rw (lookup-put_day k key b t) (overwritten_twice _ _ (lookup k t))

same_again : (a : Option (ℤ × ℤ)) → or_later a a ≡ a
same_again none = refl
same_again (some b) = refl

-- An import that is repeated on the same output of vnstat leaves every day's row as the first one
-- made it.
pub cmd_import_idem :
    (j : Calendar) (civil : ℤ → ℤ → ℤ → Option Date) {R : Type 0} (cfg : Config R) (v : Json)
    (t : Table) (k : ℤ × Text)
    → lookup k (cmd_import j civil cfg v (cmd_import j civil cfg v t).0).0
      ≡ lookup k (cmd_import j civil cfg v t).0
unfolding cmd_import
cmd_import_idem j civil cfg v t k =
    let rows = (iface_rows j civil (tz_local cfg) cfg (items (get (codes "interfaces") v))).0 in
    lookup-put_days k rows (put_days rows t)
    ∙ rw (
      lookup-put_days k rows t,
      overwritten_twice (last_row k rows) (last_row k rows) (lookup k t),
      same_again (last_row k rows),
    )
