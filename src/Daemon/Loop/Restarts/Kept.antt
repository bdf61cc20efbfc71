-- ===== src/Daemon/Loop/Restarts/Kept.antt =====
-- What the database holds after several starts of the daemon of src/daemon.rs, some of them killed.
use netmeter.Prelude.Puts.{put_all, put_all-append, put_all_new}
use netmeter.Daemon.Loop.Measured.{measured, recorded-put_all}
use netmeter.Prelude.{
  ◌++◌, IsMap, ap, ◌∙◌, sym, ℕ, ◌≡◌, refl, List, [], ◌∷◌, Option, none, some, Text, text_eq,
  pair_eq, int_eq, amount_at,
}
use netmeter.Prelude.Int.{ℤ}
use netmeter.Prelude.Float.{Float}
use netmeter.Config.{Config, tz_local}
use netmeter.Db.{Db, Table, init, reopen, traffic_amount}
use netmeter.Db.Time.{Calendar}
use netmeter.Db.Rollup.Sums.{sum_at}
use netmeter.Db.Rollup.Laws.{Level, level_table, level_floor}
use netmeter.Daemon.Retention.{cut_before}
use netmeter.Daemon.History.{Reach, here, next, start, note, retain, IsKept}
use netmeter.Daemon.History.Totals.{Reach-times}
use netmeter.Daemon.Loop.{Loop, Reading, started, stop, tick}
use netmeter.Daemon.Loop.Run.{IsSteadyRun, recorded, cuts_of, run}
use netmeter.Daemon.Loop.Steps.{Reach-trans, roll-Leads, rollup-IsWaitingAfter}
use netmeter.Daemon.Loop.Refines.{tick-Reach, run-keeps}
use netmeter.Daemon.Loop.Restarts.{
  Uptime, after_turns, ended, resumed, uptimes, all_recorded, all_measured, end_cuts, all_cuts,
  AreSteady,
}

module _ (f : Float) (j : Calendar) (cfg : Config f.Real) (speed : Text → Option ℕ) where
  abbrev IsReached : Table → Db → List ℤ → Type 0
  IsReached h db cuts =
      Reach j cfg (tz_local cfg) start (record { history = h; db = db; cuts = cuts })

  reopen-IsReached :
      (h : Table) (db : Db) (cuts : List ℤ) → IsReached h db cuts → IsReached h (reopen db) cuts
  unfolding reopen
  reopen-IsReached h db cuts reached = next reached (note _ _ _ refl)

  turns-IsReached :
      (rs : List Reading) (s : Loop) (h : Table) (cuts : List ℤ)
      → IsSteadyRun f j cfg speed rs s
      → IsReached h s.db cuts
      → IsReached
          (recorded f j cfg speed rs s h)
          (after_turns f j cfg speed rs s).db
          (cuts_of f j cfg speed rs s cuts)
  unfolding recorded cuts_of IsSteadyRun after_turns
  turns-IsReached [] s h cuts steady reached = reached
  turns-IsReached (r ∷ rs) s h cuts steady reached =
      turns-IsReached rs (tick f j cfg speed r s) _ _ steady.1
        (tick-Reach f j cfg speed r s h cuts steady.0 reached)

  ended-IsReached :
      (stopped : Option ℤ) (s : Loop) (h : Table) (cuts : List ℤ)
      → IsReached h s.db cuts
      → IsReached h (ended f j cfg speed stopped s) (end_cuts f j cfg speed stopped cuts)
  unfolding stop
  ended-IsReached none s h cuts reached = reached
  ended-IsReached (some last) s h cuts reached =
      next (Reach-trans j cfg (tz_local cfg) reached (roll-Leads j cfg (tz_local cfg) h cuts s.db))
        (retain _ last (
          rollup-IsWaitingAfter j (tz_local cfg) (cut_before last cfg.retention_days_raw) s.db
            (Reach-times j cfg (tz_local cfg) _ reached)))

  uptime-IsReached :
      (u : Uptime) (db : Db) (h : Table) (cuts : List ℤ)
      → IsSteadyRun f j cfg speed u.turns (resumed f j cfg speed u db)
      → IsReached h db cuts
      → IsReached
          (recorded f j cfg speed u.turns (resumed f j cfg speed u db) h)
          (ended f j cfg speed u.stopped
            (after_turns f j cfg speed u.turns (resumed f j cfg speed u db)))
          (end_cuts f j cfg speed u.stopped
            (cuts_of f j cfg speed u.turns (resumed f j cfg speed u db) cuts))
  uptime-IsReached u db h cuts steady reached =
      let s = resumed f j cfg speed u db in
      ended-IsReached u.stopped (after_turns f j cfg speed u.turns s) _ _ (
        turns-IsReached u.turns s h cuts steady
          (unfold started in reopen-IsReached h db cuts reached))

  uptimes-IsReached :
      (us : List Uptime) (db : Db) (h : Table) (cuts : List ℤ)
      → AreSteady f j cfg speed us db
      → IsReached h db cuts
      → IsReached
          (all_recorded f j cfg speed us db h)
          (uptimes f j cfg speed us db)
          (all_cuts f j cfg speed us db cuts)
  unfolding all_recorded uptimes all_cuts AreSteady
  uptimes-IsReached [] db h cuts steady reached = reached
  uptimes-IsReached (u ∷ us) db h cuts steady reached =
      uptimes-IsReached us _ _ _ steady.1 (uptime-IsReached u db h cuts steady.0 reached)

  all_recorded-put_all :
      (us : List Uptime) (db : Db) (h : Table)
      → all_recorded f j cfg speed us db h ≡ put_all (all_measured f j cfg speed us db) h
  unfolding all_recorded all_measured
  all_recorded-put_all [] db h = unfold put_all in refl
  all_recorded-put_all (u ∷ us) db h =
      let s = resumed f j cfg speed u db in
      let next_db = ended f j cfg speed u.stopped (after_turns f j cfg speed u.turns s) in
      all_recorded-put_all us next_db _
      ∙ ap (put_all (all_measured f j cfg speed us next_db))
          (recorded-put_all f j cfg speed u.turns s h)
      ∙ sym (put_all-append (measured f j cfg speed u.turns s) _ h)

  -- Where no interface has two samples of one second, the table is the list of all samples.
  recorded-measured :
      (us : List Uptime) (rs : List Reading) (s : Loop)
      → IsMap (all_measured f j cfg speed us init ++ measured f j cfg speed rs s)
      → recorded f j cfg speed rs s (all_recorded f j cfg speed us init [])
        ≡ all_measured f j cfg speed us init ++ measured f j cfg speed rs s
  recorded-measured us rs s distinct =
      let before = all_measured f j cfg speed us init in
      recorded-put_all f j cfg speed rs s _
      ∙ ap (put_all (measured f j cfg speed rs s)) (all_recorded-put_all us init [])
      ∙ sym (put_all-append before (measured f j cfg speed rs s) [])
      ∙ put_all_new (before ++ measured f j cfg speed rs s) [] distinct

  -- From an empty database, after any starts of the daemon with one configuration, each ended by
  -- the stop signal or killed between two turns, and a last one that is stopped, every hourly,
  -- daily and monthly bucket of an interface holds the sum of all samples that the turns of all
  -- starts measured in it, if no interface has two samples of one second, also of those that
  -- retention has dropped and of those that waited for a rollup when the daemon was killed; an
  -- hourly bucket only if no cut of a turn or of a stop has dropped it. Each turn's time is one
  -- that i64 holds, later than the last rollup's newest sample, and neither it nor a sample that
  -- waits for a rollup is so old that retention drops it at that time.
  pub uptimes_keep_history :
      (us : List Uptime) (rs : List Reading) (mono : ℕ) (last : ℤ)
      → let s = started (reopen (uptimes f j cfg speed us init)) mono in
        let samples = all_measured f j cfg speed us init ++ measured f j cfg speed rs s in
        let cuts = all_cuts f j cfg speed us init [] in
        AreSteady f j cfg speed us init
        → IsSteadyRun f j cfg speed rs s
        → IsMap samples
        → (l : Level) (b : ℤ) (iface : Text)
        → IsKept l (cut_before last cfg.retention_days_hourly ∷ cuts_of f j cfg speed rs s cuts) b
        → amount_at (b, iface) (level_table l (run f j cfg speed rs last s))
          ≡ sum_at (level_floor j l (tz_local cfg)) (b, iface) samples
  unfolding started
  uptimes_keep_history us rs mono last before steady distinct l b iface kept =
      let ready = reopen-IsReached _ _ _ (uptimes-IsReached us init [] [] before here) in
      run-keeps f j cfg speed rs last _ _ _ steady ready l b iface kept
      ∙ ap (sum_at (level_floor j l (tz_local cfg)) (b, iface)) (recorded-measured us rs _ distinct)
