-- ===== src/Tests/Values.antt =====
-- Parameters of the model, instantiated: a calendar of 30-day months without zones, and decimal
-- fixed-point numbers with one place, on which the laws hold.
use netmeter.Prelude.{
  ℕ, ◌+◌, ◌-◌, ◌*◌, ◌/◌, ◌%◌, ◌≤◌, ◌<◌, ◌≡◌, ◌↔◌, refl, ap, true, false, leb, ltb, List, [], ◌∷◌,
  Option, none, Text, codes, arith,
}
use netmeter.Prelude.Int.{ℤ, pos, pos_part}
use netmeter.Prelude.Float.{Float, FloatLaws, Printing, PrintingLaws, PercentLaws}
use netmeter.Prelude.Decimal.{print_nat}
use netmeter.Config.{Config, default}
use netmeter.Db.{Db, Table, Traffic, Row}
use netmeter.Db.Time.{Calendar, Date, floor_day, floor_week, floor_dt, midnight, monday}
use native.Mathlib.Nat.{
  le-div_iff_mul-le, mul-div_cancel_left, mul-le-mul_right, mul-le-mul_left, div-le_of_le-mul,
}

abbrev pub tenths : Float
tenths = record {
  Real = ℕ;
  of = λ n. 10 * pos_part n;
  literal = λ n d. 10 * n / d;
  mul = λ a b. a * b / 10;
  div = λ a b. a * 10 / b;
  le = leb;
  lt = ltb;
  trunc = λ a. pos (a / 10);
  trunc_u64 = λ a. a / 10;
}

ten_times_over : (n : ℕ) → 10 * n / 10 ≡ n
ten_times_over n = omega arith

ten_over_itself : (n : ℕ) → 0 < n → 10 * n * 10 / (10 * n) ≡ 10
ten_over_itself n h = mul-div_cancel_left 10 (omega (arith, h))

at_least_one : (a b : ℕ) → 0 < b → (leb (10 * 1 / 1) (10 * a * 10 / (10 * b)) ≡ true) ↔ (b ≤ a)
at_least_one a b h =
    let e = le-div_iff_mul-le {k = 10 * b} {x = 10} {y = 10 * a * 10} (omega (arith, h)) in
    (
      (λ t. let big : 10 * (10 * b) ≤ 10 * a * 10 = e.0 (ground arith) in omega (arith, big)),
      (λ p. let big : 10 ≤ 10 * a * 10 / (10 * b) = e.1 (omega (arith, p)) in ground (arith, big)),
    )

not_enlarged : (a n : ℕ) → 0 < n → a * 10 / (10 * n) ≤ a
not_enlarged a n h =
    let more : a * 1 ≤ a * n = mul-le-mul_left a (omega (arith, h)) in
    div-le_of_le-mul (10 * n) (omega (arith, more))

pub tenths_laws : FloatLaws tenths
tenths_laws = record {
  of_mono = λ m n h. ground (arith, h);
  mul_nonneg = λ a b p q r t. ground arith;
  div_nonneg = λ a n p q h k. ground arith;
  div_below = λ a n p q h k. ground (arith, not_enlarged a n h);
  trunc_nonneg = λ a p. omega arith;
  trunc-of = λ n h. rw (ten_times_over n);
  div_self = λ n h k. ten_over_itself n h;
  mul_one = λ n. omega arith;
  le_trans = λ a b c p q. ground arith;
  le-literal = refl;
  one-le-div = λ a b p q h. at_least_one a b h;
}

abbrev pub tenths_text : Printing tenths
tenths_text = record { fixed = λ n x. print_nat (x / 10); round = λ x. (x + 5) / 10 }

rounds_below : (x n : ℕ) → ltb 10 x ≡ false → (x * (10 * n) / 10 + 5) / 10 ≤ n
rounds_below x n h =
    let small : x * (10 * n) ≤ 10 * (10 * n) = mul-le-mul_right (10 * n) (ground arith) in
    omega (arith, small)

tenths_text_laws : PrintingLaws tenths tenths_text
tenths_text_laws = record {
  round_mul = λ x n e h. rounds_below x n h;
  one_not_above = refl;
  zero_not_above = refl;
}

hundred_tenths : (x : ℕ) → x * (10 * 100 / 1) / 10 / 10 ≡ 10 * x
hundred_tenths x = omega arith

pub tenths_percent : PercentLaws tenths
tenths_percent = record {
  literal_zero = refl;
  one-le-one = refl;
  one-le-zero = refl;
  one-lt-one = refl;
  one-lt-zero = refl;
  lt-zero_irrefl = refl;
  negative = λ x h. ground (arith, h);
  above_one = λ x h. ground (arith, h);
  hundredfold = λ x low high. rw (hundred_tenths x) (ground (arith, high));
}

-- The day of a number of days since the beginning, and back.
abbrev pub date_of : ℕ → Date
date_of n = record { year = pos (n / 360); month = n % 360 / 30 + 1; day = n % 30 + 1 }

abbrev pub day_index : Date → ℕ
day_index d = (pos_part d.year * 12 + (d.month - 1)) * 30 + (d.day - 1)

abbrev pub even_calendar : Calendar
even_calendar = record {
  datetime = λ local ts. record {
    date = date_of (pos_part ts / 86_400);
    hour = pos_part ts % 86_400 / 3600;
  };
  timestamp = λ local dt. pos (day_index dt.date * 86_400 + dt.hour * 3600);
  monday_zero_offset = λ d. day_index d % 7;
  sub_days = λ d n. date_of (day_index d - n);
}

day_index-date_of : (n : ℕ) → day_index (date_of n) ≡ n
day_index-date_of n = omega arith

-- The week of a day's midnight is the day's week.
pub even_weeks :
    (ts : ℤ)
    → floor_week even_calendar (floor_day even_calendar ts false) false
      ≡ floor_week even_calendar ts false
unfolding floor_week floor_day floor_dt
even_weeks ts =
    ap (λ n. even_calendar.timestamp false (midnight (monday even_calendar (date_of n))))
      (omega (arith, day_index-date_of (pos_part ts / 86_400)))

abbrev pub eth0 : Text
eth0 = codes "eth0"

abbrev pub settings : Config ℕ
settings = default tenths

abbrev pub no_speed : Text → Option ℕ
no_speed iface = none

-- Two samples of one hour, and a database that holds them.
abbrev pub first_bytes : Traffic
first_bytes = record { rx = pos 1000; tx = pos 200; lan_rx = pos 100; lan_tx = pos 0 }

abbrev pub two_samples : Table
two_samples = ((pos 100, eth0), first_bytes) ∷ ((pos 160, eth0), first_bytes) ∷ []

abbrev pub small_db : Db
small_db = record {
  samples = two_samples;
  hourly = [];
  daily = [];
  monthly = [];
  budget_events = [];
  proc_hourly = [];
  meta = [];
}

abbrev pub two_rows : List Row
two_rows =
    record { ts = pos 90_000; iface = eth0; traffic = first_bytes }
    ∷ record { ts = pos 950_400; iface = eth0; traffic = first_bytes }
    ∷ []
