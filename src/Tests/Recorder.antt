-- ===== src/Tests/Recorder.antt =====
-- The theorems on the recorder of src/proc_cap.rs and on socket addresses at concrete inputs.
use netmeter.Prelude.{
  ◌+◌, ◌≡◌, refl, true, false, not, List, [], ◌∷◌, any, some, lookup, IsMap, Text, codes, text_eq,
  arith,
}
use netmeter.ProcCap.Address.{v4, parse_local}
use netmeter.ProcCap.Address.Printed.{Octets, print_local, address, parse_local-print_local}
use netmeter.Prelude.{ℕ, Map, min, if◌then◌else◌}
use netmeter.ProcCap.Owners.{no_owners, Netns, is_ours, foreign}
use netmeter.ProcCap.Owners.Namespaces.{count_in, count_in-foreign}
use netmeter.ProcCap.Recorder.{NetworkInterface, candidates, eligible, set_changed}
use netmeter.ProcCap.Recorder.Receivers.{
  Channel, Receivers, resolve, ips_of, open_all, names_of, names_of_wanted,
}
use netmeter.ProcCap.Recorder.Receivers.Current.{resolve-current}
use netmeter.ProcCap.Recorder.Receivers.Reopened.{opens, set_changed-open_all}
use netmeter.ProcCap.Recorder.Launch.{Sight, spawn}
use netmeter.ProcCap.Recorder.Launch.Laws.{stock}
use netmeter.Prelude.Int.{pos, ◌+ℤ◌}
use netmeter.Prelude.{upsert}
use netmeter.Prelude.Strings.{starts_with, strip_suffix}
use netmeter.Config.{glob_match}
use netmeter.ProcCap.Account.{drain_one, account, charge, drain, ends, is_up, l4_ports, rename}
use netmeter.ProcCap.Recorder.{sort, sort_in, drain_all, drain_deltas, flush, fold_comms}
use netmeter.ProcCap.Recorder.Receivers.{open_each, refresh_ips, set_ips, look}
use netmeter.ProcCap.Recorder.Launch.{ensure_running, launch, turn, capture, flush_due, snap_due}
use netmeter.ProcCap.Recorder.Launch.Laws.{happen}
use netmeter.Daemon.Loop.Stored.{
  Moment, stored, rows_of, thread_of, thread_after, over, lost_at, taken_at, AreSmall,
  stored-rows_of,
}
use netmeter.Tests.Capture.{tcp_only, next_of, frame}

-- 127.0.0.1:53.
abbrev local_host : List Octets
local_host = record { o0 = 127; o1 = 0; o2 = 0; o3 = 1 } ∷ []

parse_local-print_local_example :
    parse_local (print_local local_host 53) false ≡ some (address false local_host, 53)
parse_local-print_local_example =
    parse_local-print_local false local_host 53 refl
      ((omega arith, omega arith, omega arith, omega arith), tt) (omega arith)

abbrev wired : NetworkInterface
wired = record {
  name = codes "eth0";
  ips = v4 (10 ∷ 0 ∷ 0 ∷ 2 ∷ []) ∷ [];
  up = true;
  loopback = false;
}

abbrev tunnel : NetworkInterface
tunnel = record {
  name = codes "tun0";
  ips = v4 (10 ∷ 8 ∷ 0 ∷ 2 ∷ []) ∷ [];
  up = true;
  loopback = false;
}

-- The receiver that is open, with the address of an earlier lease.
abbrev stale : Receivers (List Text)
stale = (codes "eth0", (v4 (10 ∷ 0 ∷ 0 ∷ 7 ∷ []) ∷ [], [])) ∷ []

wired-eligible : lookup (codes "eth0") (eligible [] (wired ∷ [])) ≡ some wired.ips
unfolding eligible lookup candidates
wired-eligible = refl

eligible-IsMap : IsMap (eligible [] (wired ∷ []))
unfolding eligible lookup candidates
eligible-IsMap = (refl, tt)

abbrev ether : Text → Channel (List Text)
ether name = Channel.ethernet (frame ∷ [])

resolve-current_example :
    lookup (codes "eth0") (ips_of (resolve ether [] (wired ∷ []) 16000000000 stale))
    ≡ some wired.ips
resolve-current_example =
    resolve-current ether [] (wired ∷ []) 16000000000 stale (codes "eth0") wired.ips (omega arith)
      eligible-IsMap wired-eligible refl

-- A channel that is not one of Ethernet.
abbrev no_ether : Text → Channel (List Text)
no_ether name = Channel.other

set_changed-open_all_example :
    set_changed
      (names_of (open_all no_ether [] (wired ∷ tunnel ∷ [])))
      (names_of_wanted (eligible [] (wired ∷ tunnel ∷ [])))
    ≡ any (λ ni. not (opens no_ether ni)) (candidates [] (wired ∷ tunnel ∷ []))
set_changed-open_all_example = set_changed-open_all no_ether [] (wired ∷ tunnel ∷ [])

abbrev sight : Sight (List Text)
sight = record {
  opened_at = 20_000_000_000;
  woken_at = 50_000_000_000;
  snapped_at = 20_000_000_000;
  flushed_at = 20_000_000_000;
  interfaces = wired ∷ [];
  channel = ether;
  owners = no_owners;
}

abbrev late_sight : Sight (List Text)
late_sight = record sight { flushed_at = 30_000_000_000 }

-- A turn whose bytes are not flushed, a crash, a turn of the thread that a tick launches, and the
-- tick that stores its bytes.
abbrev restarted : List (Moment (List Text))
restarted =
    Moment.captured sight
    ∷ Moment.crashed
    ∷ Moment.ticked sight (pos 3600)
    ∷ Moment.captured late_sight
    ∷ Moment.ticked sight (pos 7200)
    ∷ []

restarted-AreSmall : AreSmall tcp_only next_of [] restarted (spawn sight)
unfolding AreSmall thread_after spawn drain_deltas ensure_running happen launch turn look
    set_changed sort eligible candidates sort_in open_all open_each capture drain_all drain_one
    flush_due glob_match lookup upsert starts_with strip_suffix account charge drain ends is_up
    l4_ports rename snap_due refresh_ips set_ips flush fold_comms
restarted-AreSmall = (tt, (tt, (tt, (tt, (((omega arith, omega arith), tt), tt)))))

stored-rows_of_example :
    stored false (rows_of tcp_only next_of [] restarted (spawn sight) [])
      +ℤ pos (
          stock false (thread_of tcp_only next_of [] restarted (spawn sight))
          + over tcp_only next_of [] (lost_at tcp_only next_of [] false) restarted (spawn sight))
    ≡ stored false []
      +ℤ pos (
          stock false (spawn sight)
          + over tcp_only next_of [] (taken_at tcp_only next_of [] false) restarted (spawn sight))
stored-rows_of_example =
    stored-rows_of tcp_only next_of [] false restarted (spawn sight) [] restarted-AreSmall

-- Two processes in a container, one in another, and one of our own.
abbrev processes : Map ℕ Netns
processes = (10, (4, 2)) ∷ (11, (4, 2)) ∷ (12, (4, 3)) ∷ (13, (4, 1)) ∷ []

count_in-foreign_example :
    count_in (4, 2) (foreign (some (4, 1)) [] processes)
    ≡ (if is_ours (some (4, 1)) (4, 2) then 0 else min 1 (count_in (4, 2) processes))
count_in-foreign_example = count_in-foreign (some (4, 1)) processes (4, 2)
