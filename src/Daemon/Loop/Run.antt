-- ===== src/Daemon/Loop/Run.antt =====
-- `run` of src/daemon.rs as a whole: its turns up to the stop signal, what they record over time,
-- and what the proofs ask of the clocks.
use netmeter.Prelude.{ℕ, ◌≡◌, true, List, [], ◌∷◌, Option, Text, codes, if◌then◌else◌, All}
use netmeter.Prelude.Int.{ℤ, pos, ◌-ℤ◌, ltb_ℤ, leb_ℤ}
use netmeter.Prelude.Float.{Float}
use netmeter.Config.{Config}
use netmeter.Db.{Db, Table}
use netmeter.Db.Time.{Calendar}
use netmeter.Db.Rollup.{rollup_marker, pending}
use netmeter.Db.Rollup.Laws.{IsTime}
use netmeter.Daemon.Rate.{max_bytes_per_tick}
use netmeter.Daemon.Sample.{lan_delta, measure_all, write_samples, sum_rx, sum_tx}
use netmeter.Daemon.Retention.{cut_before}
use netmeter.Daemon.History.{IsLater}
use netmeter.Daemon.Loop.{Loop, Reading, tick, stop, is_gap, six_hours}

-- Every sample that waits for a rollup is as late as the cut.
abbrev pub IsWaitingAfter : ℤ → Db → Type 0
IsWaitingAfter cut db = All (λ r. leb_ℤ cut r.0.0 ≡ true) (pending (rollup_marker db) db.samples)

module _ (f : Float) (j : Calendar) (cfg : Config f.Real) (speed : Text → Option ℕ) where
  -- The turns of the loop, then the stop signal at the time `last`.
  unfoldable pub run : List Reading → ℤ → Loop → Db
  run [] last s = stop f j cfg speed last s
  run (r ∷ rs) last s = run rs last (tick f j cfg speed r s)

  -- The samples of one turn, put into a table that is never cut; one of the same second and
  -- interface is replaced, as in the database.
  unfoldable pub put_measured : Reading → Loop → Table → Table
  put_measured r s h =
      let lan = lan_delta s.prev_lan r.lan (max_bytes_per_tick f cfg speed (codes "lan")) in
      let per = (measure_all f cfg speed s.prev r.totals).1 in
      write_samples f cfg r.now lan (sum_rx per, sum_tx per) per h

  -- The table that the turns leave if nothing is cut.
  unfoldable pub recorded : List Reading → Loop → Table → Table
  recorded [] s h = h
  recorded (r ∷ rs) s h =
      recorded rs (tick f j cfg speed r s)
        (if is_gap f j cfg speed r s then h else put_measured r s h)

  abbrev pub cut_by : Reading → ℤ → List ℤ → List ℤ
  cut_by r last_retain cuts =
      if ltb_ℤ (pos six_hours) (pos r.mono -ℤ last_retain)
      then cut_before r.now cfg.retention_days_hourly ∷ cuts
      else cuts

  -- The cuts that retention made in the hourly table, during the turns.
  unfoldable pub cuts_of : List Reading → Loop → List ℤ → List ℤ
  cuts_of [] s cuts = cuts
  cuts_of (r ∷ rs) s cuts =
      cuts_of rs (tick f j cfg speed r s)
        (if is_gap f j cfg speed r s then cuts else cut_by r s.last_retain cuts)

  -- The clock reads a time later than the last rollup, and retention keeps what waits for one.
  pub record IsSteady (r : Reading) (s : Loop) : Type 0 where
    pub time : IsTime r.now
    pub later : IsLater (rollup_marker s.db) r.now
    pub recent : leb_ℤ (cut_before r.now cfg.retention_days_raw) r.now ≡ true
    pub waiting : IsWaitingAfter (cut_before r.now cfg.retention_days_raw) s.db

  -- Every turn is so.
  unfoldable pub IsSteadyRun : List Reading → Loop → Type 0
  IsSteadyRun [] s = Unit
  IsSteadyRun (r ∷ rs) s = IsSteady r s × IsSteadyRun rs (tick f j cfg speed r s)
