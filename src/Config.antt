-- ===== src/Config.antt =====
-- src/config.rs: the configuration, its layers and the tests on interface names.
pub mod Load
pub mod Laws
use netmeter.Prelude.{
  ℕ, Bool, true, false, List, [], ◌∷◌, Option, none, some, any, if◌then◌else◌, Text, codes, ◌==◌,
  text_eq, map,
}
use netmeter.Prelude.Int.{ℤ, pos}
use netmeter.Prelude.Strings.{strip_suffix, starts_with, to_lower}
use netmeter.Prelude.Float.{Float}

-- `Config`, over the type of its floating-point field.
pub record Config (R : Type 0) : Type 0 where
  pub poll_interval_sec : ℕ
  pub database_path : Text
  pub units : Text
  pub timezone : Text
  pub exclude_ifaces : List Text
  pub lan_subnets : List Text
  pub force_lan_ifaces : List Text
  pub retention_days_raw : ℤ
  pub retention_days_hourly : ℤ
  pub proc_retention_days : ℤ
  pub proc_recording : Bool
  pub max_rate_mbit : ℕ
  pub budget_period : Text
  pub budget_gb : R
  pub budget_basis : Text
  pub notify_on_budget : Bool

-- `Config::default`, with the functions d_poll to d_force_lan.
unfoldable pub default : (f : Float) → Config f.Real
default f = record {
  poll_interval_sec = 5;
  database_path = codes "/var/lib/netmeter/netmeter.db";
  units = codes "binary";
  timezone = codes "local";
  exclude_ifaces =
      codes "lo" ∷ codes "docker*" ∷ codes "veth*" ∷ codes "br-*" ∷ codes "virbr*" ∷ [];
  lan_subnets =
      codes "10.0.0.0/8"
      ∷ codes "172.16.0.0/12"
      ∷ codes "192.168.0.0/16"
      ∷ codes "fe80::/10"
      ∷ codes "fc00::/7"
      ∷ [];
  force_lan_ifaces = codes "tailscale0*" ∷ codes "zt*" ∷ [];
  retention_days_raw = pos 30;
  retention_days_hourly = pos 365;
  proc_retention_days = pos 30;
  proc_recording = true;
  max_rate_mbit = 10_000;
  budget_period = codes "month";
  budget_gb = f.of (pos 0);
  budget_basis = codes "total";
  notify_on_budget = true;
}

-- `glob_match` once the trailing star is taken off.
abbrev pub glob_case : Text → Text → Option Text → Bool
glob_case pat s none = pat == s
glob_case pat s (some pre) = starts_with s pre

unfoldable pub glob_match : Text → Text → Bool
glob_match pat s = glob_case pat s (strip_suffix pat b'*')

module _ {R : Type 0} where
  unfoldable pub excluded : Config R → Text → Bool
  excluded cfg iface = any (λ p. glob_match p iface) cfg.exclude_ifaces

  unfoldable pub forced_lan : Config R → Text → Bool
  forced_lan cfg iface = any (λ p. glob_match p iface) cfg.force_lan_ifaces

  -- `normalize`: the keys that name a choice, in lower case.
  unfoldable pub normalize : Config R → Config R
  normalize cfg = record cfg {
    units = map to_lower cfg.units;
    timezone = map to_lower cfg.timezone;
    budget_basis = map to_lower cfg.budget_basis;
    budget_period = map to_lower cfg.budget_period;
  }

  -- `cfg.timezone != "utc"`, the `tz_local` of the commands.
  abbrev pub tz_local : Config R → Bool
  tz_local cfg = if cfg.timezone == codes "utc" then false else true

-- The period that a budget is for: an unknown word counts as a month.
unfoldable pub budget_period_of : Text → Text
budget_period_of p =
    if p == codes "day"
    then p
    else if p == codes "week"
    then p
    else if p == codes "month"
    then p
    else codes "month"

module _ (f : Float) where
  -- `effective_budget`: `budget_gb > 0.0`, so none at zero, below it and for no number.
  unfoldable pub effective_budget : Config f.Real → Option (Text × f.Real)
  effective_budget cfg =
      if f.lt (f.of (pos 0)) cfg.budget_gb
      then some (budget_period_of cfg.budget_period, cfg.budget_gb)
      else none
