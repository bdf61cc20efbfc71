-- ===== src/Cli/Machine.antt =====
-- What the commands of src/main.rs print where JSON is asked for.
use netmeter.Prelude.{Bool, true, false, List, [], ◌∷◌, Option, none, some}
use netmeter.Prelude.Float.{Float}
use netmeter.Config.{Config}
use netmeter.Db.{Db}
use netmeter.Show.Print.{Line, OutFmt}
use netmeter.Cli.Command.{Cmd}

-- Whether the command line asks for JSON.
abbrev pub asks_json : Cmd → Bool
asks_json (Cmd.live iface) = false
asks_json (Cmd.show period from iface json) = json
asks_json (Cmd.top by limit) = false
asks_json (Cmd.status json) = json
asks_json (Cmd.today json) = json
asks_json (Cmd.config op) = false
asks_json (Cmd.export from to OutFmt.csv) = false
asks_json (Cmd.export from to OutFmt.json) = true
asks_json (Cmd.import db) = false
asks_json (Cmd.completions shell) = false
asks_json Cmd.manpage = false
asks_json (Cmd.daemon op) = false
asks_json (Cmd.top_apps period limit json) = json
asks_json (Cmd.top_proc period) = false
asks_json (Cmd.user_agent once) = false

abbrev pub is_export : Cmd → Bool
is_export (Cmd.export from to format) = true
is_export other = false

-- Whether the lines are one JSON value and nothing else.
abbrev pub is_one_json : List Line → Bool
is_one_json (Line.json v ∷ []) = true
is_one_json other = false

abbrev pub is_missing : Option Db → Bool
is_missing none = true
is_missing (some db) = false
