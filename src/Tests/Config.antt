-- ===== src/Tests/Config.antt =====
-- The theorems on src/config.rs at concrete inputs.
use netmeter.Prelude.{
  ◌⊎◌, ℕ, ◌≡◌, ◌↔◌, ◌≤◌, refl, true, false, if◌then◌else◌, ◌==◌, insert, upsert, [], ◌∷◌, ◌++◌,
  none, some, Map, Text, codes, lookup, text_eq,
}
use netmeter.Prelude.Int.{pos_part}
use netmeter.Prelude.Decimal.{parse_i64}
use netmeter.Config.{Config, glob_match, normalize}
use netmeter.Config.Load.{System, Toml, load, finish}
use netmeter.Config.Laws.{glob_match_lem, load_bounds}
use netmeter.Tests.Values.{settings}
use netmeter.Show.Status.{integer, float, boolean, text, parse_setting}
use netmeter.Show.Configure.{Editor, Edit, config_set, current, reading}
use netmeter.Show.Configure.Laws.{config_set-load, layers, entry}

-- No files and no environment; serde gives back a polling interval of 600 seconds.
abbrev bare : System ℕ ℕ
bare = record {
  read_file = λ path. none;
  env = λ name. none;
  user_path = none;
  parse_toml = λ t. none;
  to_toml = λ cfg. Toml.table [];
  of_toml = λ v. some (record settings { poll_interval_sec = 600 });
  parse_f64 = λ t. none;
}

abbrev slow : Config ℕ
slow = record settings { poll_interval_sec = 600 }

load_bounds_example :
    (load bare settings ≡ some (finish bare slow))
    × (1 ≤ (finish bare slow).poll_interval_sec)
    × ((finish bare slow).poll_interval_sec ≤ 60)
    × (normalize (finish bare slow) ≡ finish bare slow)
load_bounds_example = load_bounds bare settings slow refl

abbrev lower : Map Text ℕ
lower = (codes "timezone", 3) ∷ (codes "budget_gb", 4) ∷ []

glob_match_example : (glob_match (codes "docker*") (codes "docker0") ≡ true) ↔ (
    (codes "docker*" ≡ codes "docker0")
    ⊎ ((pre : Text) × (rest : Text) × (codes "docker*" ≡ pre ++ b'*' ∷ [])
        × (codes "docker0" ≡ pre ++ rest)))
glob_match_example = glob_match_lem (codes "docker*") (codes "docker0")

-- A user's file with one number in it.
abbrev one_line : Text
one_line = codes "poll_interval_sec = 7"

abbrev user_file : Text
user_file = codes "/home/ann/.config/netmeter/config.toml"

abbrev editor : Editor ℕ ℕ
editor = record {
  system = record bare {
    user_path = some user_file;
    parse_toml = λ t.
        if t == one_line then some (Toml.table ((codes "poll_interval_sec", 7) ∷ [])) else none;
    to_toml = λ cfg. Toml.table lower;
  };
  to_text = λ m. some one_line;
  of_setting = λ v. elim v [ integer n ↦ pos_part n | float x ↦ x | boolean b ↦ 0 | text name ↦ 0 ];
  may_write = λ p. true;
}

config_set-load_example :
    (config_set editor false (codes "poll_interval_sec") (codes "7") []
      ≡ Edit.wrote user_file (insert user_file one_line []))
    × ((j : Text)
        → entry j (layers (reading editor.system (insert user_file one_line [])) settings) ≡ (
            if codes "poll_interval_sec" == j
            then some (editor.of_setting (parse_setting editor.system.parse_f64 (codes "7")))
            else entry j (layers (reading editor.system []) settings)))
unfolding current lookup upsert parse_setting parse_i64
config_set-load_example =
    config_set-load editor settings lower [] user_file (codes "poll_interval_sec") (codes "7")
      one_line [] refl refl refl refl tt (refl, refl) refl
