-- ===== src/Show/Configure.antt =====
-- `cmd_config` of src/main.rs: config path, get, set and reset. The files are a map from their
-- paths; toml, serde and the rights of the process are parameters.
pub mod Laws
use netmeter.Prelude.{
  ◌≡◌, Bool, List, [], ◌∷◌, Option, none, some, Map, lookup, insert, keep, not, get_or, Text,
  text_eq, ◌==◌, if◌then◌else◌,
}
use netmeter.Config.{Config}
use netmeter.Config.Load.{System, Toml, system_path}
use netmeter.Capture.Nft.{Json, get}
use netmeter.Show.Status.{Setting, parse_setting}

abbrev pub Files : Type 0
Files = Map Text Text

-- How `config set` ends: the file that was written, an error, or the panic of `unwrap`.
pub data Edit : Type 0 where
  wrote : Text → Files → Edit
  failed panicked : Edit

-- What the command calls besides the loading of the configuration.
pub record Editor (R V : Type 0) : Type 0 where
  pub system : System R V
  pub to_text : Map Text V → Option Text
  pub of_setting : Setting R → V
  -- `create_dir_all` of the parent, then the write
  pub may_write : Text → Bool

-- The configuration's parameters, reading these files.
abbrev pub reading : {R V : Type 0} → System R V → Files → System R V
reading s files = record s { read_file = λ p. lookup p files }

-- `ConfigOp::Path`: the lines printed.
unfoldable pub config_paths : {R V : Type 0} → System R V → List Text
config_paths s = system_path ∷ elim s.user_path [ none ↦ [] | some u ↦ u ∷ [] ]

-- `ConfigOp::Get`: the value printed, for serde's rendering of the configuration.
unfoldable pub config_get : Json → Option Text → Json
config_get v none = v
config_get v (some k) = get_or (get k v) Json.null

module _ {R V : Type 0} (e : Editor R V) where
  -- The file that `config set` edits.
  unfoldable pub edited_path : Bool → Option Text
  edited_path root = if root then some system_path else e.system.user_path

  -- The value in the file, the empty table where it is missing or does not parse.
  unfoldable pub current : Files → Text → Toml V
  current files path = elim (lookup path files) [
    | none ↦ Toml.table []
    | some t ↦ get_or (e.system.parse_toml t) (Toml.table [])
  ]

  abbrev pub write_table : Files → Text → Option Text → Edit
  write_table files path none = Edit.failed
  write_table files path (some t) =
      if e.may_write path then Edit.wrote path (insert path t files) else Edit.failed

  abbrev pub edit : Files → Text → Text → Setting R → Toml V → Edit
  edit files path key v (Toml.table cur) =
      write_table files path (e.to_text (insert key (e.of_setting v) cur))
  edit files path key v (Toml.other w) = Edit.panicked

  abbrev pub set_in : Files → Text → Setting R → Option Text → Edit
  set_in files key v none = Edit.failed
  set_in files key v (some path) = edit files path key v (current files path)

  -- `ConfigOp::Set`.
  unfoldable pub config_set : Bool → Text → Text → Files → Edit
  config_set root key value files =
      set_in files key (parse_setting e.system.parse_f64 value) (edited_path root)

  -- `ConfigOp::Reset`: the user's file is removed, if it is there.
  unfoldable pub config_reset : Files → Files
  config_reset files = elim e.system.user_path [
    | none ↦ files
    | some u ↦ keep (λ f. not (f.0 == u)) files
  ]
