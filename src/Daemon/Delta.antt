-- ===== src/Daemon/Delta.antt =====
-- `delta` of src/daemon.rs: the bytes between two readings of a kernel counter, with the 32-bit
-- wrap, the reset of a counter and the filter for spikes. Counters are `u64`, so below 2 ^ 64.
pub mod Laws
use netmeter.Prelude.{
  ℕ, ◌+◌, ◌-◌, ◌*◌, ◌%◌, ◌^◌, Bool, true, false, not, ◌&&◌, ltb, leb, if◌then◌else◌,
}

-- `U32`: the modulus of a 32-bit counter.
abbrev pub u32_mod : ℕ
u32_mod = 2 ^ 32

abbrev pub u64_mod : ℕ
u64_mod = 2 ^ 64

-- Below this a counter that dropped is taken for a counter that began anew.
abbrev pub reset_limit : ℕ
reset_limit = 1024 * 1024

-- `near_wrap`; `-` on ℕ is `saturating_sub`.
abbrev pub near_wrap : ℕ → ℕ → Bool
near_wrap old max_bytes = leb (u32_mod - max_bytes) old && ltb old u32_mod

-- `d` of the source; the first case of the inner test is `new.wrapping_sub(old)`.
abbrev pub difference : ℕ → ℕ → ℕ
difference old new =
    if leb old new
    then new - old
    else if ltb u32_mod old
    then (new + u64_mod - old) % u64_mod
    else u32_mod - old + new

-- The accepted delta, and whether it was discarded as a spike.
unfoldable pub delta : ℕ → ℕ → ℕ → ℕ × Bool
delta old new max_bytes =
    if ltb new old && ltb new reset_limit && not (near_wrap old max_bytes)
    then (new, false)
    else let d = difference old new in if ltb max_bytes d then (0, true) else (d, false)
