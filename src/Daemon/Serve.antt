-- ===== src/Daemon/Serve.antt =====
-- `run` of src/daemon.rs from its start to the stop signal: the wait for a synchronized clock, the
-- table of nftables, and the loop with its sleep in chunks. The file of the database is opened by
-- the caller.
pub mod Laws
use netmeter.Prelude.{
  ℕ, zero, suc, ◌+◌, ◌*◌, Bool, List, [], ◌∷◌, Option, none, some, Text, if◌then◌else◌, max,
}
use netmeter.Prelude.Int.{ℤ, pos, ltb_ℤ}
use netmeter.Prelude.Float.{Float}
use netmeter.Config.{Config}
use netmeter.Capture.Ruleset.{render_ruleset}
use netmeter.Db.{Db}
use netmeter.Db.Time.{Calendar}
use netmeter.Daemon.Loop.{Loop, Reading, started, tick, stop}

-- The clock counts as synchronized after the first of January 2020.
abbrev pub synced_after : ℤ
synced_after = pos 1_577_836_800

-- The rounds of the wait that are left, and the sleeps of five seconds so far; `clock` is what the
-- clock shows after that many. The result is how many sleeps were made.
unfoldable pub await_clock : (ℕ → ℤ) → ℕ → ℕ → ℕ
await_clock clock zero slept = slept
await_clock clock (suc rounds) slept =
    let rest = await_clock clock rounds (slept + 1) in
    if ltb_ℤ synced_after (clock slept) then slept else rest

-- Naps of 200 ms, until the stop flag is seen. Moments are naps since the loop began.
unfoldable pub nap_until : (ℕ → Bool) → ℕ → ℕ → ℕ
nap_until stopped zero t = t
nap_until stopped (suc naps) t =
    let rest = nap_until stopped naps (t + 1) in if stopped t then t else rest

-- The naps of one interval.
abbrev pub naps_of : {R : Type 0} → Config R → ℕ
naps_of cfg = max cfg.poll_interval_sec 1 * 5

module _ (f : Float) (j : Calendar) (cfg : Config f.Real) (speed : Text → Option ℕ) where
  -- The ruleset is installed before the loop, if the table is not there; a failure is a warning.
  unfoldable pub boot : Bool → Db → ℕ → Loop
  boot table_exists db mono =
      if table_exists
      then started db mono
      else record (started db mono) { rulesets = render_ruleset cfg.lan_subnets ∷ [] }

  module _ (stopped : ℕ → Bool) (reads : ℕ → Reading) (last : ℕ → ℤ) where
    -- The loop, with fuel: from the moment `t` and the turn `i`. The result is the moment of the end
    -- and the database.
    unfoldable pub serve : ℕ → ℕ → ℕ → Loop → Option (ℕ × Db)
    serve zero t i s = none
    serve (suc fuel) t i s =
        let t' = nap_until stopped (naps_of cfg) t in
        let rest = serve fuel t' (suc i) (tick f j cfg speed (reads i) s) in
        if stopped t' then some (t', stop f j cfg speed (last t') s) else rest
