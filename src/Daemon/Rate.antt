-- ===== src/Daemon/Rate.antt =====
-- `max_bytes_per_tick` of src/daemon.rs: the most bytes that a link carries in one interval. The
-- link's speed, a file of sysfs, is an argument.
use netmeter.Prelude.{ℕ, max, Text, Option, get_or}
use netmeter.Prelude.Int.{pos}
use netmeter.Prelude.Float.{Float}
use netmeter.Config.{Config}

module _ (f : Float) where
  unfoldable pub max_bytes_per_tick : Config f.Real → (Text → Option ℕ) → Text → ℕ
  max_bytes_per_tick cfg speed iface =
      let mbit = max (get_or (speed iface) cfg.max_rate_mbit) 1 in
      f.trunc_u64 (
        f.mul
          (f.mul (f.div (f.mul (f.of (pos mbit)) (f.literal 1_000_000 1)) (f.literal 8 1))
            (f.of (pos cfg.poll_interval_sec)))
          (f.literal 5 4))
