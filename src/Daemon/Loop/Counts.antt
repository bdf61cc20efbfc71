-- ===== src/Daemon/Loop/Counts.antt =====
-- What the tables hold after `run` of src/daemon.rs, against the counter of an interface.
use netmeter.Prelude.{
  ℕ, ◌%◌, ◌≡◌, refl, ◌∙◌, ap, false, List, [], ◌∷◌, Option, some, lookup, Text, text_eq, pair_eq,
  int_eq, Bool-cases, inl, inr, amount_at,
}
use netmeter.Prelude.Int.{ℤ, pos}
use netmeter.Prelude.Float.{Float}
use netmeter.Config.{Config, excluded, tz_local}
use netmeter.Db.{
  Table, no_traffic, add_traffic, add_traffic_comm, traffic_amount, no_traffic-add, init,
}
use netmeter.Db.Time.{Calendar}
use netmeter.Db.Rollup.Sums.{sum_at}
use netmeter.Db.Rollup.Laws.{Level, level_table, level_floor}
use netmeter.Daemon.Delta.{u32_mod}
use netmeter.Daemon.Retention.{cut_before}
use netmeter.Daemon.Sample.{write_samples}
use netmeter.Daemon.History.{IsKept}
use netmeter.Daemon.History.Totals.{sum_at-none}
use netmeter.Daemon.Loop.{Loop, Reading, started, tick, is_gap}
use netmeter.Daemon.Loop.Laws.{measure_all-first}
use netmeter.Daemon.Loop.Run.{run, put_measured, recorded, cuts_of, IsSteadyRun}
use netmeter.Daemon.Loop.Counted.{
  Turns, readings_of, total_of, IsCountedRun, tick-prev, rebaseline-lookup, recorded-IsAdded,
}
use netmeter.Daemon.Loop.Refines.{run_keeps_history}

started-prev : (mono : ℕ) → (started init mono).prev ≡ []
unfolding started
started-prev mono = refl

module _ (f : Float) (j : Calendar) (cfg : Config f.Real) (speed : Text → Option ℕ) where
  -- Without an earlier reading nothing is measured.
  first-put_measured :
      (r : Reading) (s : Loop) (h : Table) → s.prev ≡ [] → put_measured f j cfg speed r s h ≡ h
  unfolding put_measured
  first-put_measured r s h none_before =
      rw (none_before, measure_all-first f cfg speed r.totals) (unfold write_samples in refl)

  recorded-first :
      (first : Reading) (rs : List Reading) (s : Loop) (h : Table)
      → s.prev ≡ []
      → recorded f j cfg speed (first ∷ rs) s h
        ≡ recorded f j cfg speed rs (tick f j cfg speed first s) h
  unfolding recorded
  recorded-first first rs s h none_before = elim (Bool-cases (is_gap f j cfg speed first s)) [
    | inl gap ↦ rw gap
    | inr awake ↦ rw (awake, first-put_measured first s h none_before) refl
  ]

  -- From an empty database, after a first turn that reads an interface which is not excluded, and
  -- turns without gaps at ascending times of one hour, day or month in which its 32-bit counters
  -- move on by at most one tick's worth and less than 2^32, and the stop, the bucket of this hour,
  -- day or month holds exactly the bytes that went through the interface between the first reading
  -- and the last, received and sent, also where a counter wrapped around. Each turn's time is one
  -- that i64 holds, later than the last rollup's newest sample, neither it nor a sample that waits
  -- for a rollup is so old that retention drops it at that time, and the bucket is not cut.
  pub run_counts :
      (l : Level) (b : ℤ) (iface : Text) (c : ℕ × ℕ) (first : Reading) (turns : Turns) (last : ℤ)
      (mono : ℕ)
      → excluded cfg iface ≡ false
      → is_gap f j cfg speed first (started init mono) ≡ false
      → lookup iface first.totals ≡ some (c.0 % u32_mod, c.1 % u32_mod)
      → IsCountedRun f j cfg speed
          (level_floor j l (tz_local cfg))
          b
          iface
          first.now
          c
          turns
          (tick f j cfg speed first (started init mono))
      → IsSteadyRun f j cfg speed (first ∷ readings_of turns) (started init mono)
      → IsKept l
          (cut_before last cfg.retention_days_hourly
            ∷ cuts_of f j cfg speed (first ∷ readings_of turns) (started init mono) [])
          b
      → ((amount_at
            (b, iface)
            (level_table l
              (run f j cfg speed (first ∷ readings_of turns) last (started init mono)))).rx
          ≡ pos (total_of turns).0)
        × ((amount_at
              (b, iface)
              (level_table l
                (run f j cfg speed (first ∷ readings_of turns) last (started init mono)))).tx
            ≡ pos (total_of turns).1)
  run_counts l b iface c first turns last mono counted awake reads run_is steady kept =
      let floor = level_floor j l (tz_local cfg) in
      let s0 : Loop = started init mono in
      let rs = first ∷ readings_of turns in
      let added =
        recorded-IsAdded f j cfg speed floor b iface counted first.now c turns
          (tick f j cfg speed first s0) []
          (ap (lookup iface) (tick-prev f j cfg speed first s0 awake)
            ∙ rebaseline-lookup f j cfg speed iface first.totals counted
            ∙ reads)
          tt run_is in
      let amount : amount_at (b, iface) (level_table l (run f j cfg speed rs last s0))
          ≡ added.part =
        run_keeps_history f j cfg speed rs last mono steady l b iface kept
        ∙ ap (sum_at floor (b, iface))
            (recorded-first first (readings_of turns) s0 [] (started-prev mono))
        ∙ added.is_sum
        ∙ ap (add_traffic added.part) (sum_at-none floor (b, iface))
        ∙ add_traffic_comm added.part no_traffic
        ∙ no_traffic-add added.part in
      (ap (λ t. t.rx) amount ∙ added.part_rx, ap (λ t. t.tx) amount ∙ added.part_tx)
