-- ===== src/ProcCap/Recorder/Launch.antt =====
-- The capture thread of src/proc_cap.rs, `launch`, with its clocks, and its restart by `spawn` and
-- `ensure_running`. The receivers' sockets and the readings of the clock are its input.
pub mod Laws
use netmeter.Prelude.{
  ℕ, ◌-◌, Bool, true, false, ◌||◌, ◌&&◌, List, [], ◌∷◌, Text, length, if◌then◌else◌, ltb,
}
use netmeter.ProcCap.Address.{IpAddr}
use netmeter.ProcCap.Owners.{Owners}
use netmeter.ProcCap.Account.{Cum, Pnet, Next}
use netmeter.ProcCap.Recorder.{
  Shared, Recorder, NetworkInterface, flush, drain_deltas, locals, drain_all,
}
use netmeter.ProcCap.Recorder.Receivers.{
  Channel, Receivers, is_none_open, is_look_due, look_every, look,
}

-- The variables of the thread, and whether it runs. Moments of the monotonic clock are in
-- nanoseconds.
pub record Capture (R : Type 0) : Type 0 where
  pub recorder : Recorder R
  pub owners : Owners
  pub last_open : ℕ
  pub last_snap : ℕ
  pub last_flush : ℕ
  pub is_running : Bool

-- What a turn reads: the clock at its four places, the interfaces with their channels, and the
-- owners of the sockets.
pub record Sight (R : Type 0) : Type 0 where
  pub opened_at : ℕ
  pub woken_at : ℕ
  pub snapped_at : ℕ
  pub flushed_at : ℕ
  pub interfaces : List NetworkInterface
  pub channel : Text → Channel R
  pub owners : Owners

-- `Duration::from_secs(1)`.
abbrev pub flush_every : ℕ
flush_every = 1_000_000_000

module _ {R : Type 0} where
  -- The variables before the loop, with the shared counters as they are.
  unfoldable pub launch : Sight R → Shared → Capture R
  launch v shared = record {
    recorder = record { cum = []; shared = shared; receivers = [] };
    owners = v.owners;
    last_open = v.opened_at;
    last_snap = v.snapped_at;
    last_flush = v.flushed_at;
    is_running = true;
  }

  -- `spawn`.
  unfoldable pub spawn : Sight R → Capture R
  spawn v = launch v []

  -- `ensure_running`: a thread that has ended is launched anew; the shared counters stay.
  unfoldable pub ensure_running : Sight R → Capture R → Capture R
  ensure_running v c = if c.is_running then c else launch v c.recorder.shared

  -- The owners are read anew when the last snapshot is more than 15 seconds old.
  unfoldable pub snap_due : Sight R → Capture R → Capture R
  snap_due v c =
      if ltb look_every (v.snapped_at - c.last_snap)
      then record c { owners = v.owners; last_snap = v.snapped_at }
      else c

  -- The fold into the shared counters, once a second or where there are many entries.
  unfoldable pub flush_due : Sight R → Capture R → Capture R
  flush_due v c =
      if ltb flush_every (v.flushed_at - c.last_flush) || ltb 5000 (length c.recorder.cum)
      then record c { recorder = flush c.recorder; last_flush = v.flushed_at }
      else c

  module _ (n : Pnet) (next : R → Next × R) where
    -- The rest of a turn: a receiver that fails closes all of them.
    unfoldable pub capture : Sight R → Capture R → Capture R
    capture v c =
        let r = c.recorder in
        let (dead, (rs, cum)) = drain_all n next c.owners (locals r.receivers) r.receivers r.cum in
        if dead
        then record c { recorder = record r { cum = cum; receivers = [] } }
        else flush_due v
            (snap_due v (record c { recorder = record r { cum = cum; receivers = rs } }))

    -- One turn of the loop: a look at the interfaces where one is due; without an open receiver the
    -- thread then sleeps.
    unfoldable pub turn : List Text → Sight R → Capture R → Capture R
    turn exclude v c =
        let r = c.recorder in
        let looked = record c {
          recorder = record r { receivers = look v.channel exclude v.interfaces r.receivers };
          last_open = v.opened_at;
        } in
        if is_look_due (v.opened_at - c.last_open) r.receivers
        then (if is_none_open looked.recorder.receivers
            then record looked { last_open = v.woken_at }
            else capture v looked)
        else capture v c
