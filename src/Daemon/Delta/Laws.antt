-- ===== src/Daemon/Delta/Laws.antt =====
-- What `delta` of src/daemon.rs gives for a counter that counts on, wraps, restarts or jumps.
use netmeter.Prelude.{
  ℕ, ◌+◌, ◌-◌, ◌%◌, ◌≤◌, ◌<◌, max, true, false, ltb, if◌then◌else◌, ◌≡◌, ◌⊎◌, arith,
}
use netmeter.Daemon.Delta.{delta, u32_mod, reset_limit}

-- A 32-bit counter that moved on by d, at most one tick's worth and less than 2^32, gives exactly d
-- and no spike, also where it wrapped around.
pub delta-wrap32 :
    (t d max_bytes : ℕ)
    → d ≤ max_bytes
    → d < u32_mod
    → delta (t % u32_mod) ((t + d) % u32_mod) max_bytes ≡ (d, false)
unfolding delta
delta-wrap32 t d max_bytes h k = ground arith

-- A counter that did not drop gives its growth, or is discarded if the growth passes the limit.
pub delta-grows :
    (old d max_bytes : ℕ)
    → delta old (old + d) max_bytes ≡ (if ltb max_bytes d then (0, true) else (d, false))
unfolding delta
delta-grows old d max_bytes = ground arith

-- An accepted delta is at most one tick's worth or a restarted counter's value below the reset
-- limit, and a discarded spike counts as nothing.
delta_bounds :
    (old new max_bytes : ℕ)
    → ((delta old new max_bytes).0 ≤ max max_bytes (reset_limit - 1))
      × ((if (delta old new max_bytes).1 then (delta old new max_bytes).0 else 0) ≡ 0)
unfolding delta
delta_bounds old new max_bytes = ground arith

-- A counter that dropped to below the reset limit, and was not within one tick of the 32-bit
-- boundary from below, gives what it counted since its restart.
delta-reset :
    (old new max_bytes : ℕ)
    → new < old
    → new < reset_limit
    → (old + max_bytes < u32_mod) ⊎ (u32_mod ≤ old)
    → delta old new max_bytes ≡ (new, false)
unfolding delta
delta-reset old new max_bytes h k far = ground arith

-- Where one tick's worth reaches 2^32, every drop from below 2^32 counts as a wrap around, also
-- that of a counter that restarted.
delta-phantom :
    (old new max_bytes : ℕ)
    → u32_mod ≤ max_bytes
    → new < old
    → old < u32_mod
    → delta old new max_bytes ≡ (u32_mod - old + new, false)
unfolding delta
delta-phantom old new max_bytes h k l = ground arith
