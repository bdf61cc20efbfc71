-- ===== src/Tests/Daemon.antt =====
-- The theorems on src/daemon.rs and src/user_agent.rs at concrete inputs.
use netmeter.Prelude.{
  ℕ, ◌+◌, ◌%◌, ◌^◌, ◌-◌, ◌≤◌, ◌≡◌, ◌↔◌, ◌⊎◌, inl, refl, true, false, [], ◌∷◌, none, some, Text,
  codes, Map, arith, amount_at, text_eq, pair_eq, int_eq, lookup, upsert,
}
use netmeter.Prelude.Decimal.{print_nat}
use netmeter.Prelude.Int.{ℤ, pos, ◌-ℤ◌, ◌+ℤ◌}
use netmeter.Config.{Config, default, effective_budget, budget_period_of}
use netmeter.Db.Time.{floor_day, floor_dt, budget_window_start}
use netmeter.Db.{Db, init, add_traffic, traffic_amount}
use netmeter.Db.Query.{bytes_amount, add_bytes}
use netmeter.Db.Rollup.{rollup, pending, rollup_marker}
use netmeter.Db.Rollup.Sums.{sum_at}
use netmeter.Db.Rollup.Laws.{Level, level_table, level_floor, folded}
use netmeter.Db.Window.{window_sum, budget_key, used_bytes}
use netmeter.Db.Window.Keys.{first_date, budget_key_iff}
use netmeter.Daemon.Delta.{delta, u32_mod}
use netmeter.Daemon.Delta.Laws.{delta-wrap32}
use netmeter.Daemon.Sample.{PerIf, sample_of}
use netmeter.Daemon.Sample.Laws.{IsSplit, sample_of-IsSplit}
use netmeter.Daemon.History.{
  samples_in, Life, start, put_sample, record_sample, roll, Reach, here, next,
}
use netmeter.Daemon.History.Totals.{rollup_keeps_history, buckets_up_to_marker}
use netmeter.Daemon.Budget.{check_budget, crossed}
use netmeter.Daemon.Budget.Laws.{check_budget_lem}
use netmeter.Daemon.Loop.{Loop, Reading, tick, started, is_gap, record_apps}
use netmeter.Daemon.Loop.Laws.{tick-gap}
use netmeter.Daemon.Loop.Programs.{record_apps-amount_at, as_bytes}
use netmeter.Live.{Live, opened, refresh}
use netmeter.Live.Texts.{month_strip}
use netmeter.Live.Budget.{is_red, is_red-crossed}
use netmeter.UserAgent.{Agent, Start, check_once, run_all}
use netmeter.UserAgent.Shown.{Told, AreMarked, nothing, check_once-run_all}
use netmeter.Tests.Values.{
  tenths, tenths_laws, tenths_percent, tenths_text, even_calendar, eth0, settings, no_speed,
  first_bytes, small_db,
}

wrap_32bit_accepted : delta (2 ^ 32 - 1 - 100) 200 (2 ^ 64 - 1) ≡ (301, false)
unfolding delta
wrap_32bit_accepted = refl

spike_discarded : delta 1000 (1000 + 10_000_000_000) 1_000_000 ≡ (0, true)
unfolding delta
spike_discarded = refl

delta-wrap32_example :
    delta (4_294_967_290 % u32_mod) ((4_294_967_290 + 10) % u32_mod) 100 ≡ (10, false)
delta-wrap32_example = delta-wrap32 4_294_967_290 10 100 (omega arith) (omega arith)

-- Two moments of one day, in two readings of the zone.
budget_key_iff_example :
    (budget_key even_calendar (pos 100) true (codes "day")
      ≡ budget_key even_calendar (pos 80_000) false (codes "day"))
    ↔ ((codes "day" ≡ codes "day")
        × (first_date even_calendar (pos 100) true (codes "day")
            ≡ first_date even_calendar (pos 80_000) false (codes "day")))
unfolding budget_window_start floor_day floor_dt
budget_key_iff_example =
    budget_key_iff even_calendar (pos 100) (pos 80_000) true false (codes "day") (codes "day")
      (refl, (refl, (refl, tt))) (refl, (refl, (refl, tt))) (omega arith) (omega arith)

abbrev one_interface : PerIf
one_interface = record { iface = eth0; rx = pos 400; tx = pos 20 }

sample_of-IsSplit_example :
    IsSplit (sample_of tenths settings (pos 90, pos 5) (pos 800, pos 20) one_interface)
sample_of-IsSplit_example =
    sample_of-IsSplit tenths tenths_laws settings (pos 90, pos 5) (pos 800, pos 20) one_interface
      (omega arith, omega arith) (omega arith, omega arith) (omega arith, omega arith)
      (omega arith, omega arith) (omega arith) (omega arith)

-- One sample was recorded, and rolled up.
abbrev sampled : Life
sampled = record start {
  history = put_sample (pos 100, eth0) first_bytes start.history;
  db = record start.db { samples = put_sample (pos 100, eth0) first_bytes start.db.samples };
}

abbrev rolled : Life
rolled = record sampled { db = rollup even_calendar sampled.db true }

unfoldable rolled_reached : Reach even_calendar settings true start rolled
unfolding init lookup upsert rollup_marker
rolled_reached =
    next (next here (record_sample start (pos 100) eth0 first_bytes (omega arith, omega arith) tt))
      (roll sampled)

rollup_keeps_history_example :
    amount_at (pos 0, eth0) (level_table Level.hour (rollup even_calendar rolled.db true))
    ≡ sum_at
        (level_floor even_calendar Level.hour true)
        (pos 0, eth0)
        (samples_in even_calendar settings true rolled_reached)
unfolding samples_in rolled_reached lookup
rollup_keeps_history_example =
    rollup_keeps_history even_calendar settings true rolled rolled_reached (refl, tt) Level.hour
      (pos 0) eth0 tt

buckets_up_to_marker_example :
    (amount_at (pos 0, eth0) (level_table Level.day rolled.db)
      ≡ sum_at
          (level_floor even_calendar Level.day true)
          (pos 0, eth0)
          (folded
            (rollup_marker rolled.db)
            (samples_in even_calendar settings true rolled_reached)))
    × (pending (rollup_marker rolled.db) rolled.db.samples
        ≡ pending (rollup_marker rolled.db) (samples_in even_calendar settings true rolled_reached))
unfolding samples_in rolled_reached lookup
buckets_up_to_marker_example =
    buckets_up_to_marker even_calendar settings true rolled rolled_reached (refl, tt) Level.day
      (pos 0) eth0 tt

-- A daily budget of one GiB.
abbrev budgeted : Config ℕ
budgeted = record settings { budget_period = codes "day"; budget_gb = 10 }

check_budget_lem_example :
    (((crossed
          (budget_key even_calendar (pos 200) true (codes "day"))
          (check_budget tenths even_calendar budgeted (pos 200) small_db).budget_events).1
        ≡ pos 1)
      ↔ (((crossed (budget_key even_calendar (pos 200) true (codes "day")) []).1 ≡ pos 1)
          ⊎ (1_073_741_824 ≤ 2400)))
    × (crossed
          (codes "other")
          (check_budget tenths even_calendar budgeted (pos 200) small_db).budget_events
        ≡ crossed (codes "other") [])
unfolding lookup effective_budget budget_key used_bytes window_sum budget_window_start floor_day
    floor_dt add_traffic ◌+ℤ◌ budget_period_of default
check_budget_lem_example =
    check_budget_lem tenths tenths_laws even_calendar budgeted (pos 200) small_db (codes "day") 10
      2400 1_073_741_824 (codes "other") refl
      (record {
        use_is = refl;
        budget_is = refl;
        use_exact = omega arith;
        budget_exact = omega arith;
        some_budget = omega arith;
      })
      (inl refl) (inl refl) refl

-- The dashboard at the turn that reads the database.
abbrev reading : Live
reading = record (opened false []) { tick_n = 1 }

is_red-crossed_example :
    (is_red (
        month_strip tenths tenths_text budgeted
          (refresh tenths even_calendar budgeted (pos 200) (some small_db) reading))
      ≡ true)
    ↔ ((crossed
          (budget_key even_calendar (pos 200) true (codes "day"))
          (check_budget tenths even_calendar budgeted (pos 200) small_db).budget_events).1
        ≡ pos 1)
unfolding lookup effective_budget budget_key used_bytes window_sum budget_window_start floor_day
    floor_dt add_traffic ◌+ℤ◌ budget_period_of default
is_red-crossed_example =
    is_red-crossed tenths tenths_laws even_calendar budgeted (pos 200) small_db tenths_text
      tenths_percent reading (codes "day") 10 2400 1_073_741_824 refl refl refl
      (record {
        use_is = refl;
        budget_is = refl;
        use_exact = omega arith;
        budget_exact = omega arith;
        some_budget = omega arith;
      })
      (inl refl) refl

-- The loop after its start, a turn after a sleep of an hour, and the next turn.
abbrev fresh_loop : Loop
fresh_loop = started small_db 1_000_000_000_000

abbrev after_sleep : Reading
after_sleep = record {
  now = pos 3700;
  mono = 4_600_000_000_000;
  totals = (eth0, (90_000, 4000)) ∷ [];
  lan = some (10, 10);
  table_exists = true;
  apps = none;
}

abbrev turn_later : Reading
turn_later = record {
  now = pos 3705;
  mono = 4_605_000_000_000;
  totals = (eth0, (95_000, 4400)) ∷ [];
  lan = some (12, 10);
  table_exists = true;
  apps = none;
}

tick-gap_example :
    (tick tenths even_calendar settings no_speed turn_later
      (tick tenths even_calendar settings no_speed after_sleep fresh_loop)).db.samples
    ≡ fresh_loop.db.samples
unfolding started is_gap default ◌-ℤ◌
tick-gap_example =
    tick-gap tenths even_calendar settings no_speed after_sleep turn_later fresh_loop refl refl

abbrev no_programs : Map (ℤ × Text) (ℤ × ℤ)
no_programs = []

abbrev two_programs : Map Text (ℕ × ℕ)
two_programs = (codes "curl", (700, 30)) ∷ (codes "ssh", (1, 2)) ∷ []

record_apps-amount_at_example :
    amount_at (pos 0, codes "curl") (record_apps (pos 0) two_programs no_programs)
    ≡ add_bytes
        (amount_at (pos 0, codes "curl") no_programs)
        (as_bytes (lookup (codes "curl") two_programs))
unfolding lookup
record_apps-amount_at_example =
    record_apps-amount_at (pos 0) (codes "curl") two_programs no_programs (refl, (refl, tt))
      ((omega arith, omega arith), ((omega arith, omega arith), tt))

abbrev silent : Agent
silent = record { sent = []; shown = [] }

abbrev crossed_db : Db
crossed_db = record small_db { budget_events = (codes "day:0000-01-01", (pos 1, pos 0)) ∷ [] }

abbrev only_turn : Start ℕ
only_turn = record {
  cfg = budgeted;
  once = true;
  turns = record { has_session = true; now = pos 150; db = some crossed_db } ∷ [];
}

-- The notifier ran before, once, and is run again.
check_once-run_all_example :
    let before = run_all tenths even_calendar (only_turn ∷ []) silent in
    let after = check_once tenths even_calendar budgeted true (pos 200) (some crossed_db) before in
    Told before × (Told after × AreMarked (codes "day:0000-01-01") (pos 1, pos 0) before after)
unfolding lookup effective_budget budget_key budget_window_start floor_day floor_dt budget_period_of
    default print_nat
check_once-run_all_example =
    check_once-run_all tenths even_calendar (only_turn ∷ []) budgeted (pos 200) crossed_db silent
      (codes "day") 10 nothing refl refl
