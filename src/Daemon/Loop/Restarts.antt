-- ===== src/Daemon/Loop/Restarts.antt =====
-- The daemon of src/daemon.rs over several starts on one database, with what it keeps between them:
-- the file alone. It ends by the stop signal, or is killed between two turns.
pub mod Kept
use netmeter.Prelude.{ℕ, List, [], ◌∷◌, ◌++◌, Option, none, some, Text, if◌then◌else◌}
use netmeter.Prelude.Int.{ℤ}
use netmeter.Prelude.Float.{Float}
use netmeter.Config.{Config}
use netmeter.Db.{Db, Table, reopen}
use netmeter.Db.Time.{Calendar}
use netmeter.Daemon.Retention.{cut_before}
use netmeter.Daemon.Loop.{Loop, Reading, started, tick, stop}
use netmeter.Daemon.Loop.Measured.{measured}
use netmeter.Daemon.Loop.Run.{recorded, cuts_of, IsSteadyRun}

-- From a start to its end: the monotonic clock at the start, the turns, and the time of the stop
-- signal, none where the daemon is killed.
pub record Uptime : Type 0 where
  pub mono : ℕ
  pub turns : List Reading
  pub stopped : Option ℤ

module _ (f : Float) (j : Calendar) (cfg : Config f.Real) (speed : Text → Option ℕ) where
  unfoldable pub after_turns : List Reading → Loop → Loop
  after_turns [] s = s
  after_turns (r ∷ rs) s = after_turns rs (tick f j cfg speed r s)

  -- The stop's final rollup and retention; a daemon that is killed makes none.
  abbrev pub ended : Option ℤ → Loop → Db
  ended none s = s.db
  ended (some last) s = stop f j cfg speed last s

  -- The variables at the start of the loop are new, but for the database.
  abbrev pub resumed : Uptime → Db → Loop
  resumed u db = started (reopen db) u.mono

  unfoldable pub uptimes : List Uptime → Db → Db
  uptimes [] db = db
  uptimes (u ∷ us) db = uptimes us (ended u.stopped (after_turns u.turns (resumed u db)))

  -- All samples that the turns measured, one after another.
  unfoldable pub all_measured : List Uptime → Db → Table
  all_measured [] db = []
  all_measured (u ∷ us) db =
      measured f j cfg speed u.turns (resumed u db)
      ++ all_measured us (ended u.stopped (after_turns u.turns (resumed u db)))

  -- The table that they leave if nothing is cut, and the cuts of retention in the hourly table.
  unfoldable pub all_recorded : List Uptime → Db → Table → Table
  all_recorded [] db h = h
  all_recorded (u ∷ us) db h =
      all_recorded us (ended u.stopped (after_turns u.turns (resumed u db)))
        (recorded f j cfg speed u.turns (resumed u db) h)

  abbrev pub end_cuts : Option ℤ → List ℤ → List ℤ
  end_cuts none cuts = cuts
  end_cuts (some last) cuts = cut_before last cfg.retention_days_hourly ∷ cuts

  unfoldable pub all_cuts : List Uptime → Db → List ℤ → List ℤ
  all_cuts [] db cuts = cuts
  all_cuts (u ∷ us) db cuts =
      all_cuts us (ended u.stopped (after_turns u.turns (resumed u db)))
        (end_cuts u.stopped (cuts_of f j cfg speed u.turns (resumed u db) cuts))

  -- Every turn of every start is steady.
  unfoldable pub AreSteady : List Uptime → Db → Type 0
  AreSteady [] db = Unit
  AreSteady (u ∷ us) db =
      IsSteadyRun f j cfg speed u.turns (resumed u db)
      × AreSteady us (ended u.stopped (after_turns u.turns (resumed u db)))
