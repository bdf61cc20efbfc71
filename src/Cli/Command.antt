-- ===== src/Cli/Command.antt =====
-- The commands of src/main.rs and their dispatch in `run`. What clap parses, and the answers of the
-- commands that print no report, are arguments.
use netmeter.Prelude.{ℕ, Bool, true, false, List, Option, Text}
use netmeter.Prelude.Int.{ℤ}
use netmeter.Prelude.Float.{Float, Printing}
use netmeter.Config.{Config, tz_local}
use netmeter.Db.{Db}
use netmeter.Db.Time.{Calendar, Date, Window}
use netmeter.Show.{Period}
use netmeter.Show.Print.{Line, OutFmt, cmd_export}
use netmeter.Show.Reports.{cmd_show, cmd_top, cmd_top_apps}
use netmeter.Show.Overview.{Machine, cmd_today, cmd_status}
use netmeter.Service.Install.{DaemonOp}

-- `TopBy`.
pub data TopBy : Type 0 where
  by_iface by_day : TopBy

-- `ConfigOp`.
pub data ConfigOp : Type 0 where
  get : Option Text → ConfigOp
  set : Text → Text → ConfigOp
  path reset : ConfigOp

-- `Cmd`. The dates are those that jiff reads from the arguments.
pub data Cmd : Type 0 where
  live : Option Text → Cmd
  show : Period → Option Date → Option Text → Bool → Cmd
  top : TopBy → ℕ → Cmd
  status today : Bool → Cmd
  config : ConfigOp → Cmd
  export : Date → Date → OutFmt → Cmd
  import : Option Text → Cmd
  completions : Text → Cmd
  manpage : Cmd
  daemon : DaemonOp → Cmd
  top_apps : Window → ℕ → Bool → Cmd
  top_proc : Window → Cmd
  user_agent : Bool → Cmd

-- What the commands do, for each of them.
pub record Commands {ℓ} (A : Type ℓ) : Type ℓ where
  pub run_live : Option Text → A
  pub run_show : Period → Option Date → Option Text → Bool → A
  pub run_top : TopBy → ℕ → A
  pub run_status : Bool → A
  pub run_today : Bool → A
  pub run_config : ConfigOp → A
  pub run_export : Date → Date → OutFmt → A
  pub run_import : Option Text → A
  pub run_completions : Text → A
  pub run_manpage : A
  pub run_daemon : DaemonOp → A
  pub run_top_apps : Window → ℕ → Bool → A
  pub run_top_proc : Window → A
  pub run_user_agent : Bool → A

-- `run`, with the configuration loaded.
unfoldable pub dispatch {ℓ} : {A : Type ℓ} → Commands A → Cmd → A
dispatch h (Cmd.live iface) = h.run_live iface
dispatch h (Cmd.show period from iface json) = h.run_show period from iface json
dispatch h (Cmd.top by limit) = h.run_top by limit
dispatch h (Cmd.status json) = h.run_status json
dispatch h (Cmd.today json) = h.run_today json
dispatch h (Cmd.config op) = h.run_config op
dispatch h (Cmd.export from to format) = h.run_export from to format
dispatch h (Cmd.import db) = h.run_import db
dispatch h (Cmd.completions shell) = h.run_completions shell
dispatch h Cmd.manpage = h.run_manpage
dispatch h (Cmd.daemon op) = h.run_daemon op
dispatch h (Cmd.top_apps period limit json) = h.run_top_apps period limit json
dispatch h (Cmd.top_proc period) = h.run_top_proc period
dispatch h (Cmd.user_agent once) = h.run_user_agent once

abbrev pub is_by_day : TopBy → Bool
is_by_day TopBy.by_iface = false
is_by_day TopBy.by_day = true

module _ (f : Float) (p : Printing f) (j : Calendar) (cfg : Config f.Real) where
  -- The commands that print a report, at a time, on a machine and a database, which is none where
  -- it cannot be opened. The other commands stay as they are given.
  unfoldable pub reporting : ℤ → Machine → Option Db → Commands (List Line) → Commands (List Line)
  reporting now m db others = record others {
    run_show = λ period from iface json. cmd_show f p j cfg period now from iface json db;
    run_top = λ by limit. cmd_top f p j cfg (is_by_day by) limit db;
    run_status = λ json. cmd_status m json db;
    run_today = λ json. cmd_today f p j cfg now json db;
    run_export = λ from to format. cmd_export j (tz_local cfg) from to format db;
    run_top_apps = λ period limit json. cmd_top_apps f p j cfg period now limit json db;
  }
