-- ===== src/Config/Load.antt =====
-- `Config::load` of src/config.rs: the defaults, the two files over them, the environment over
-- those, then the bounds. Files, environment, the TOML parser and serde are parameters.
use netmeter.Prelude.{
  ℕ, ◌++◌, [], ◌∷◌, Option, none, some, min, max, Map, insert, Text, codes, text_eq, get_or,
}
use netmeter.Prelude.Decimal.{parse_u64}
use netmeter.Prelude.Strings.{strip_prefix}
use netmeter.Config.{Config, normalize}

-- A TOML value, as far as the program looks into it: a table or something else.
pub data Toml (V : Type 0) : Type 0 where
  table : Map Text V → Toml V
  other : V → Toml V

-- What the program calls: the file contents, the environment and the crates toml and serde.
pub record System (R V : Type 0) : Type 0 where
  pub read_file : Text → Option Text
  pub env : Text → Option Text
  -- `ProjectDirs::config_dir`, else `$HOME/.config/netmeter`
  pub user_path : Option Text
  pub parse_toml : Text → Option (Toml V)
  pub to_toml : Config R → Toml V
  pub of_toml : Toml V → Option (Config R)
  pub parse_f64 : Text → Option R

module _ {V : Type 0} where
  -- `for (k, v) in o { b.insert(k, v) }`.
  unfoldable pub insert_all : Map Text V → Map Text V → Map Text V
  insert_all [] b = b
  insert_all ((k, v) ∷ o) b = insert_all o (insert k v b)

  -- `merge_value`: top-level keys only; where one side is no table, the base.
  unfoldable pub merge_value : Toml V → Toml V → Toml V
  merge_value (Toml.table b) (Toml.table o) = Toml.table (insert_all o b)
  merge_value base over = base

-- `str_env`.
abbrev pub str_env : Option Text → Text → Text
str_env found dst = get_or found dst

-- `num_env`: a text that does not parse changes nothing.
abbrev pub num_env {ℓ} : {A : Type ℓ} → (Text → Option A) → Option Text → A → A
num_env parse none dst = dst
num_env parse (some v) dst = get_or (parse v) dst

-- `clamp(1, 60)`.
abbrev pub clamp_poll : ℕ → ℕ
clamp_poll n = min (max n 1) 60

abbrev pub system_path : Text
system_path = codes "/etc/netmeter/config.toml"

module _ {R V : Type 0} (s : System R V) where
  -- One file layer: a file that is missing or does not parse changes nothing.
  abbrev pub over_file : Option (Toml V) → Toml V → Toml V
  over_file none val = val
  over_file (some part) val = merge_value val part

  abbrev pub parsed_file : Option Text → Option (Toml V)
  parsed_file none = none
  parsed_file (some path) = elim (s.read_file path) [ none ↦ none | some t ↦ s.parse_toml t ]

  -- The environment's overrides.
  unfoldable pub over_env : Config R → Config R
  over_env cfg = record cfg {
    database_path = str_env (s.env (codes "NETMETER_DATABASE_PATH")) cfg.database_path;
    poll_interval_sec =
        num_env parse_u64 (s.env (codes "NETMETER_POLL_INTERVAL_SEC")) cfg.poll_interval_sec;
    units = str_env (s.env (codes "NETMETER_UNITS")) cfg.units;
    budget_gb = num_env s.parse_f64 (s.env (codes "NETMETER_BUDGET_GB")) cfg.budget_gb;
    budget_period = str_env (s.env (codes "NETMETER_BUDGET_PERIOD")) cfg.budget_period;
  }

  -- The end of `load`: environment, then the bound of the interval, then `normalize`.
  unfoldable pub finish : Config R → Config R
  finish cfg =
      let c = over_env cfg in
      normalize (record c { poll_interval_sec = clamp_poll c.poll_interval_sec })

  -- `load` from the given defaults; `none` where the merged value is no configuration.
  unfoldable pub load : Config R → Option (Config R)
  load defaults =
      let sys = over_file (parsed_file (some system_path)) (s.to_toml defaults) in
      let val = over_file (parsed_file s.user_path) sys in
      elim (s.of_toml val) [ none ↦ none | some cfg ↦ some (finish cfg) ]

  -- `shellexpand_tilde`: the home directory for a leading `~/`.
  unfoldable pub shellexpand_tilde : Text → Text
  shellexpand_tilde t = elim (strip_prefix t (codes "~/")) [
    | none ↦ t
    | some rest ↦ elim (s.env (codes "HOME")) [ none ↦ t | some h ↦ h ++ codes "/" ++ rest ]
  ]
