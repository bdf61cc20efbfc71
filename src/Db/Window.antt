-- ===== src/Db/Window.antt =====
-- The sums over a window of raw samples, which src/daemon.rs and src/live.rs query, and the
-- key of a budget window of src/db.rs.
pub mod Keys
use netmeter.Prelude.{
  ℕ, ◌-◌, ◌++◌, Bool, [], ◌∷◌, length, replicate, if◌then◌else◌, Text, codes, ◌==◌, text_eq, suc,
}
use netmeter.Prelude.Int.{ℤ, pos, negsuc, ◌+ℤ◌, ◌-ℤ◌, leb_ℤ, max_ℤ}
use netmeter.Prelude.Decimal.{print_nat}
use netmeter.Db.{Table, Traffic, no_traffic, add_traffic}
use netmeter.Db.Time.{Calendar, budget_window_start}

-- `SELECT COALESCE(SUM(…), 0), … FROM samples WHERE ts >= ?1`.
unfoldable pub window_sum : ℤ → Table → Traffic
window_sum from [] = no_traffic
window_sum from ((k, v) ∷ rows) =
    let rest = window_sum from rows in if leb_ℤ from k.0 then add_traffic v rest else rest

-- The bytes that count against the budget.
unfoldable pub used_bytes : Text → Traffic → ℤ
used_bytes basis v =
    if basis == codes "wan"
    then max_ℤ (v.rx -ℤ v.lan_rx) (pos 0) +ℤ max_ℤ (v.tx -ℤ v.lan_tx) (pos 0)
    else v.rx +ℤ v.tx

-- `{:04}` and `{:02}`: zeros in front, behind the sign.
abbrev pub pad : ℕ → Text → Text
pad width t = replicate (width - length t) b'0' ++ t

abbrev pub pad_int : ℕ → ℤ → Text
pad_int width (pos n) = pad width (print_nat n)
pad_int width (negsuc n) = b'-' ∷ pad (width - 1) (print_nat (suc n))

-- `budget_key`.
unfoldable pub budget_key : Calendar → ℤ → Bool → Text → Text
budget_key j ts local period =
    let dt = j.datetime local (budget_window_start j ts local period) in
    period
    ++ b':'
      ∷ (pad_int 4 dt.date.year
          ++ b'-' ∷ (pad 2 (print_nat dt.date.month) ++ b'-' ∷ pad 2 (print_nat dt.date.day)))

-- `period_adverb`.
unfoldable pub period_adverb : Text → Text
period_adverb period =
    if period == codes "day"
    then codes "daily"
    else if period == codes "week"
    then codes "weekly"
    else codes "monthly"
