-- ===== src/Daemon/Loop.antt =====
-- The loop in `run` of src/daemon.rs: what the daemon keeps between two ticks, and one whole tick.
-- The clocks, the readings of the kernel and the drained counters of the recorder are its input;
-- errors of SQLite are not modelled.
pub mod Laws
pub mod Programs
pub mod Stored
pub mod Run
pub mod Measured
pub mod Steps
pub mod Turn
pub mod Refines
pub mod Reinstall
pub mod Counted
pub mod Counts
pub mod Restarts
use netmeter.Prelude.{
  ℕ, ◌+◌, ◌*◌, ◌/◌, ◌-◌, Bool, true, false, not, ◌&&◌, ◌||◌, List, [], ◌∷◌, Option, none, some, Map,
  lookup, insert, Text, codes, if◌then◌else◌, ltb, leb, nat_beq, text_eq, pair_eq, int_eq, add_at,
  max,
}
use netmeter.Prelude.Int.{ℤ, pos, negsuc, ◌-ℤ◌, as_i64, ltb_ℤ}
use netmeter.Prelude.Float.{Float}
use netmeter.Config.{Config, tz_local}
use netmeter.Capture.Ruleset.{render_ruleset}
use netmeter.Db.{Db, init}
use netmeter.Db.Time.{Calendar, floor_hour}
use netmeter.Db.Query.{bytes_amount}
use netmeter.Db.Rollup.{rollup}
use netmeter.Daemon.Rate.{max_bytes_per_tick}
use netmeter.Daemon.Sample.{
  Totals, PerIf, lan_delta, measure_all, rebaseline, write_samples, count_discarded, sum_rx, sum_tx,
}
use netmeter.Daemon.Retention.{enforce_retention}
use netmeter.Daemon.Budget.{check_budget}

-- The variables of the loop; `rulesets` are the calls of `install_nft`, the last first. Moments of
-- the monotonic clock are in nanoseconds.
pub record Loop : Type 0 where
  pub db : Db
  pub prev : Totals
  pub prev_lan : Option (ℕ × ℕ)
  pub last_tick : ℕ
  pub last_rollup : ℤ
  pub last_retain : ℤ
  pub nft_missing_ticks : ℕ
  pub nft_ok_reported : Option Bool
  pub rulesets : List Text

abbrev pub second : ℕ
second = 1_000_000_000

abbrev pub six_hours : ℕ
six_hours = 6 * 3600 * second

-- The variables before the loop.
unfoldable pub started : Db → ℕ → Loop
started db mono = record {
  db = db;
  prev = [];
  prev_lan = none;
  last_tick = mono;
  last_rollup = pos mono -ℤ pos (3600 * second);
  last_retain = pos mono;
  nft_missing_ticks = 0;
  nft_ok_reported = none;
  rulesets = [];
}

-- What one turn reads: both clocks, the counters, and the bytes of each program where they are
-- recorded.
pub record Reading : Type 0 where
  pub now : ℤ
  pub mono : ℕ
  pub totals : Totals
  pub lan : Option (ℕ × ℕ)
  pub table_exists : Bool
  pub apps : Option (Map Text (ℕ × ℕ))

abbrev pub is_some {ℓ} : {A : Type ℓ} → Option A → Bool
is_some none = false
is_some (some a) = true

abbrev pub on_off : Bool → Text
on_off b = if b then codes "on" else codes "off"

-- `Some(b) != o`.
abbrev pub differs : Bool → Option Bool → Bool
differs b none = true
differs true (some true) = false
differs true (some false) = true
differs false (some true) = true
differs false (some false) = false

-- Lines 146 to 159: `meta.nft_ok` where the answer is new.
unfoldable pub publish_nft : Bool → Loop → Loop
publish_nft ok s =
    if differs ok s.nft_ok_reported
    then record s {
      nft_ok_reported = some ok;
      db = record s.db { meta = insert (codes "nft_ok") (on_off ok) s.db.meta };
    }
    else s

-- Lines 160 to 175: the twelfth tick in a row without counters installs the table anew, if it is
-- gone.
unfoldable pub count_missing : List Text → Option (ℕ × ℕ) → Bool → Loop → Loop
count_missing subnets (some lan) table_exists s = record s { nft_missing_ticks = 0 }
count_missing subnets none table_exists s =
    let n = s.nft_missing_ticks + 1 in
    if nat_beq n 12 && not table_exists
    then record s { nft_missing_ticks = n; rulesets = render_ruleset subnets ∷ s.rulesets }
    else record s { nft_missing_ticks = n }

-- Lines 284 to 304, for the drained counters.
unfoldable pub record_apps : ℤ → Map Text (ℕ × ℕ) → Map (ℤ × Text) (ℤ × ℤ) → Map (ℤ × Text) (ℤ × ℤ)
record_apps hour [] t = t
record_apps hour ((comm, (rx, tx)) ∷ cur) t = record_apps hour cur (
    if ltb_ℤ (pos 0) (as_i64 rx) || ltb_ℤ (pos 0) (as_i64 tx)
    then add_at (hour, comm) (as_i64 rx, as_i64 tx) t
    else t)

abbrev pub is_empty {ℓ} : {A : Type ℓ} → List A → Bool
is_empty [] = true
is_empty (x ∷ xs) = false

module _ (f : Float) (j : Calendar) (cfg : Config f.Real) (speed : Text → Option ℕ) where
  -- Lines 239 to 279: the samples and the budget, where there are any bytes.
  unfoldable pub record_samples : ℤ → ℤ × ℤ → List PerIf → Db → Db
  record_samples now lan per db =
      let tot : ℤ × ℤ = (sum_rx per, sum_tx per) in
      let written = record db { samples = write_samples f cfg now lan tot per db.samples } in
      if is_empty per then db else check_budget f j cfg now written

  abbrev pub record_programs : ℤ → Option (Map Text (ℕ × ℕ)) → Db → Db
  record_programs now none db = db
  record_programs now (some cur) db = record db {
    proc_hourly = record_apps (floor_hour j now (tz_local cfg)) cur db.proc_hourly;
  }

  -- Lines 306 to 313.
  unfoldable pub roll_due : ℕ → Loop → Loop
  roll_due mono s =
      if ltb_ℤ (pos (3600 * second)) (pos mono -ℤ s.last_rollup)
      then record s { db = rollup j s.db (tz_local cfg); last_rollup = pos mono }
      else s

  unfoldable pub retain_due : ℤ → ℕ → Loop → Loop
  retain_due now mono s =
      if ltb_ℤ (pos six_hours) (pos mono -ℤ s.last_retain)
      then record s { db = enforce_retention cfg now s.db; last_retain = pos mono }
      else s

  -- Lines 176 to 304: the deltas against the last readings, and what is recorded of them.
  unfoldable pub sample : Reading → Loop → Loop
  sample r s =
      let lan = lan_delta s.prev_lan r.lan (max_bytes_per_tick f cfg speed (codes "lan")) in
      let (discarded, per) = measure_all f cfg speed s.prev r.totals in
      record s {
        prev = rebaseline f cfg r.totals;
        prev_lan = r.lan;
        db =
            record_programs r.now r.apps
              (record_samples r.now lan per (count_discarded discarded s.db));
      }

  -- Whether the tick comes so late that the machine has slept.
  unfoldable pub is_gap : Reading → Loop → Bool
  is_gap r s = ltb (max cfg.poll_interval_sec 1 * 2 + 5) ((r.mono - s.last_tick) / second)

  unfoldable pub tick : Reading → Loop → Loop
  tick r s =
      let timed = record s { last_tick = r.mono } in
      if is_gap r s
      then record timed { prev = []; prev_lan = r.lan }
      else retain_due r.now r.mono (
          roll_due r.mono (
            sample r (
              count_missing cfg.lan_subnets r.lan r.table_exists
                (publish_nft (is_some r.lan) timed))))

  -- A stop signal: the final rollup and retention.
  unfoldable pub stop : ℤ → Loop → Db
  stop now s = enforce_retention cfg now (rollup j s.db (tz_local cfg))
