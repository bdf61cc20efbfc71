-- ===== src/Tests/Loop.antt =====
-- The theorems on the whole loop of src/daemon.rs at concrete inputs.
use netmeter.Prelude.{
  ℕ, leb, ◌/◌, ◌-◌, ◌||◌, Bool, ◌≡◌, refl, true, false, [], ◌∷◌, ◌++◌, IsMap, List, none, some,
  amount_at, text_eq, pair_eq, int_eq, arith, lookup, upsert,
}
use netmeter.Prelude.Int.{pos, ◌-ℤ◌, ◌*ℤ◌}
use netmeter.Prelude.Strings.{strip_suffix, starts_with}
use netmeter.Config.{default, excluded, glob_match, effective_budget}
use netmeter.Db.{init, reopen, traffic_amount}
use netmeter.Db.Rollup.Sums.{sum_at}
use netmeter.Db.Rollup.Laws.{Level, level_table, level_floor}
use netmeter.Db.Rollup.{rollup, pending, rollup_marker, newest}
use netmeter.Daemon.Sample.{
  rebaseline, measure, measure_all, measure_iface, count_discarded, write_samples,
}
use netmeter.Daemon.Loop.{
  is_some, count_missing, publish_nft, retain_due, roll_due, sample, record_samples, Loop, Reading,
  started, tick, is_gap,
}
use netmeter.Daemon.Loop.Run.{run, IsSteadyRun, cuts_of}
use netmeter.Daemon.Rate.{max_bytes_per_tick}
use netmeter.Db.Time.{floor_hour}
use netmeter.Daemon.Loop.Counted.{Turns, readings_of, total_of, IsCountedRun}
use netmeter.Daemon.Loop.Counts.{run_counts}
use netmeter.Daemon.Loop.Reinstall.{turns, reinstalled, IsWithoutTable, turns-reinstalled}
use netmeter.Daemon.Serve.{serve, naps_of}
use netmeter.Daemon.Serve.Laws.{IsSetAt, first_readings, serve_stops}
use netmeter.Show.Status.{nft_ok}
use netmeter.Show.Published.{nft_ok-tick}
use netmeter.Daemon.Delta.{delta}
use netmeter.Daemon.Budget.{check_budget}
use netmeter.Daemon.Loop.Measured.{measured, measured_at}
use netmeter.Daemon.Loop.Restarts.{Uptime, uptimes, after_turns, all_measured, all_cuts, AreSteady}
use netmeter.Daemon.Loop.Restarts.Kept.{uptimes_keep_history}
use netmeter.Tests.Values.{tenths, even_calendar, eth0, settings, no_speed}

-- The clock of the machine shows 1000 seconds when the loop starts; a first turn, and one that
-- measures 4000 and 200 bytes.
abbrev booted : Loop
booted = started init 1_000_000_000_000

abbrev first_turn : Reading
first_turn = record {
  now = pos 7200;
  mono = 1_005_000_000_000;
  totals = (eth0, (1000, 200)) ∷ [];
  lan = some (10, 10);
  table_exists = true;
  apps = none;
}

abbrev second_turn : Reading
second_turn = record {
  now = pos 7205;
  mono = 1_010_000_000_000;
  totals = (eth0, (5000, 400)) ∷ [];
  lan = some (1010, 10);
  table_exists = true;
  apps = none;
}

abbrev two_turns : List Reading
two_turns = first_turn ∷ second_turn ∷ []

two_turns-IsSteadyRun : IsSteadyRun tenths even_calendar settings no_speed two_turns booted
unfolding IsSteadyRun started init default tick is_gap rollup_marker pending lookup upsert ◌-ℤ◌ ◌*ℤ◌
    count_missing publish_nft retain_due roll_due sample rollup measure_all measure_iface
    count_discarded record_samples newest excluded glob_match strip_suffix starts_with
two_turns-IsSteadyRun = (
  record { time = (omega arith, omega arith); later = tt; recent = refl; waiting = tt },
  (record { time = (omega arith, omega arith); later = tt; recent = refl; waiting = tt }, tt),
)

-- The daemon is killed after the two turns and started again, with the same clocks as before.
abbrev killed : Uptime
killed = record { mono = 1_000_000_000_000; turns = two_turns; stopped = none }

abbrev third_turn : Reading
third_turn = record first_turn { now = pos 7300 }

abbrev restarted : Loop
restarted =
    started (reopen (uptimes tenths even_calendar settings no_speed (killed ∷ []) init))
      1_000_000_000_000

third_turn-IsSteadyRun :
    IsSteadyRun tenths even_calendar settings no_speed (third_turn ∷ []) restarted
unfolding IsSteadyRun started init default tick is_gap rollup_marker pending lookup upsert ◌-ℤ◌ ◌*ℤ◌
    count_missing publish_nft retain_due roll_due sample rollup measure_all measure_iface
    count_discarded record_samples newest excluded glob_match strip_suffix starts_with uptimes
    after_turns reopen rebaseline measure delta max_bytes_per_tick check_budget effective_budget
    write_samples
third_turn-IsSteadyRun = (
  record { time = (omega arith, omega arith); later = tt; recent = refl; waiting = (refl, tt) },
  tt,
)

-- The second turn of the first start is the only one that measures something.
once_each : IsMap (
    all_measured tenths even_calendar settings no_speed (killed ∷ []) init
    ++ measured tenths even_calendar settings no_speed (third_turn ∷ []) restarted)
unfolding default started init tick is_gap rollup_marker pending lookup upsert ◌-ℤ◌ ◌*ℤ◌
    count_missing publish_nft retain_due roll_due sample rollup measure_all measure_iface
    count_discarded record_samples newest uptimes after_turns reopen all_measured measured
    measured_at excluded glob_match strip_suffix starts_with rebaseline measure delta
    max_bytes_per_tick
once_each = (refl, tt)

uptimes_keep_history_example :
    amount_at
      (pos 7200, eth0)
      (level_table Level.hour
        (run tenths even_calendar settings no_speed (third_turn ∷ []) (pos 7400) restarted))
    ≡ sum_at
        (level_floor even_calendar Level.hour true)
        (pos 7200, eth0)
        (all_measured tenths even_calendar settings no_speed (killed ∷ []) init
          ++ measured tenths even_calendar settings no_speed (third_turn ∷ []) restarted)
unfolding default AreSteady all_cuts cuts_of started init tick is_gap rollup_marker pending lookup
    upsert ◌-ℤ◌ ◌*ℤ◌ count_missing publish_nft retain_due roll_due sample rollup measure_all
    measure_iface count_discarded record_samples newest uptimes after_turns reopen
uptimes_keep_history_example =
    uptimes_keep_history tenths even_calendar settings no_speed (killed ∷ []) (third_turn ∷ [])
      1_000_000_000_000 (pos 7400) (two_turns-IsSteadyRun, tt) third_turn-IsSteadyRun once_each
      Level.hour (pos 7200) eth0 (refl, tt)

-- A first turn that finds the counter near 2 ^ 32, and one after which it has wrapped around.
abbrev full_turn : Reading
full_turn = record first_turn { totals = (eth0, (4_294_967_290, 200)) ∷ [] }

abbrev wrapped_turn : Reading
wrapped_turn = record second_turn { totals = (eth0, (100, 400)) ∷ [] }

abbrev counted_turns : Turns
counted_turns = (wrapped_turn, (106, 200)) ∷ []

counted_turns-IsSteadyRun :
    IsSteadyRun tenths even_calendar settings no_speed
      (full_turn ∷ readings_of counted_turns)
      booted
unfolding IsSteadyRun readings_of started init default tick is_gap rollup_marker pending lookup
    upsert ◌-ℤ◌ ◌*ℤ◌ count_missing publish_nft retain_due roll_due sample rollup measure_all
    measure_iface count_discarded record_samples newest excluded glob_match strip_suffix starts_with
counted_turns-IsSteadyRun = (
  record { time = (omega arith, omega arith); later = tt; recent = refl; waiting = tt },
  (record { time = (omega arith, omega arith); later = tt; recent = refl; waiting = tt }, tt),
)

counted_turns-IsCountedRun :
    IsCountedRun tenths even_calendar settings no_speed
      (level_floor even_calendar Level.hour true)
      (pos 7200)
      eth0
      (pos 7200)
      (4_294_967_290, 200)
      counted_turns
      (tick tenths even_calendar settings no_speed full_turn booted)
unfolding IsCountedRun started init default is_gap lookup tick ◌-ℤ◌ count_missing publish_nft
    retain_due roll_due sample max_bytes_per_tick floor_hour
counted_turns-IsCountedRun = (
  record {
    reads = refl;
    once = (refl, tt);
    rx_fits = omega arith;
    tx_fits = omega arith;
    rx_small = omega arith;
    tx_small = omega arith;
    inside = refl;
    later = omega arith;
    awake = refl;
  },
  tt,
)

run_counts_example :
    ((amount_at
        (pos 7200, eth0)
        (level_table Level.hour (
          run tenths even_calendar settings no_speed
            (full_turn ∷ readings_of counted_turns)
            (pos 7300)
            booted))).rx
      ≡ pos (total_of counted_turns).0)
    × ((amount_at
          (pos 7200, eth0)
          (level_table Level.hour (
            run tenths even_calendar settings no_speed
              (full_turn ∷ readings_of counted_turns)
              (pos 7300)
              booted))).tx
        ≡ pos (total_of counted_turns).1)
unfolding readings_of default cuts_of started init tick is_gap ◌-ℤ◌ ◌*ℤ◌ lookup excluded glob_match
    strip_suffix starts_with retain_due roll_due sample count_missing publish_nft
run_counts_example =
    run_counts tenths even_calendar settings no_speed Level.hour (pos 7200) eth0
      (4_294_967_290, 200) full_turn counted_turns (pos 7300) 1_000_000_000_000 refl refl refl
      counted_turns-IsCountedRun counted_turns-IsSteadyRun (refl, tt)

-- Eleven readings without counters came before; the table is gone.
abbrev almost : Loop
almost = record booted { nft_missing_ticks = 11 }

abbrev lost_turn : Reading
lost_turn = record first_turn { lan = none; table_exists = false }

almost-IsWithoutTable :
    IsWithoutTable tenths even_calendar settings no_speed (lost_turn ∷ []) almost
unfolding IsWithoutTable is_gap started default
almost-IsWithoutTable = (refl, refl, refl, tt)

turns-reinstalled_example :
    (turns tenths even_calendar settings no_speed (lost_turn ∷ []) almost).rulesets
    ≡ reinstalled settings.lan_subnets 11 1 almost.rulesets
turns-reinstalled_example =
    turns-reinstalled tenths even_calendar settings no_speed (lost_turn ∷ []) almost
      almost-IsWithoutTable

-- The stop signal comes 12.2 seconds after the start, which is in the third interval of five.
abbrev signalled : ℕ → Bool
signalled t = leb 61 t

signalled-IsSetAt : IsSetAt 61 signalled
signalled-IsSetAt t = refl

serve_stops_example :
    serve tenths even_calendar settings no_speed signalled
      (λ i. second_turn)
      (λ t. pos 7300)
      9
      0
      0
      booted
    ≡ some (
      61,
      run tenths even_calendar settings no_speed
          (first_readings (λ i. second_turn) 0 ((61 - 1) / naps_of settings))
          (pos 7300)
          booted,
    )
unfolding default
serve_stops_example =
    serve_stops tenths even_calendar settings no_speed signalled (λ i. second_turn) (λ t. pos 7300)
      61 9 booted signalled-IsSetAt (omega arith)

nft_ok-tick_example :
    nft_ok false (
      some
        (tick tenths even_calendar settings no_speed lost_turn
          (turns tenths even_calendar settings no_speed [] (started init 1_000_000_000_000))).db)
    ≡ (false || is_some lost_turn.lan)
unfolding is_gap started default
nft_ok-tick_example =
    nft_ok-tick tenths even_calendar settings no_speed init 1_000_000_000_000 [] lost_turn false
      refl
