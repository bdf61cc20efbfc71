-- ===== src/Tests/Capture.antt =====
-- The theorems on src/capture.rs and src/proc_cap.rs at concrete inputs.
use netmeter.Prelude.{
  ℕ, ◌+◌, ◌≤◌, ◌≡◌, refl, false, List, [], ◌∷◌, Option, none, some, Text, codes, length, lookup,
  pair_eq, nat_eq, text_eq, arith, String, ◌++◌, replicate,
}
use mathlib.Core.List.{Perm}
use mathlib.Core.Logic.{◌↔◌}
use netmeter.ProcCap.Recorder.{set_changed}
use netmeter.ProcCap.Recorder.Names.{set_changed_iff}
use netmeter.Capture.Nft.{
  Json, number, string, array, object, item, end, field, stop, get, items_of, both,
  parse_nft_counters,
}
use netmeter.Capture.{parse_proc}
use netmeter.Capture.Printed.{Stat, Stats, IsStat, print_file, stats_rows}
use netmeter.Capture.RoundTrip.{parse_proc-print_file}
use netmeter.Capture.Laws.{last_counter, parse_nft_counters_lem}
use netmeter.Prelude.{upsert}
use netmeter.Prelude.Strings.{strip_prefix, strip_suffix, split_once, words_from, lines_from}
use netmeter.Prelude.Decimal.{parse_unsigned}
use netmeter.ProcCap.Address.{IpAddr, v4, ip_eq, parse_local, from_hex, to_le_bytes}
use netmeter.ProcCap.Owners.{
  no_owners, Process, snapshot, own_tables, tables_for, inode_to_pid, socket_inode, socket_of,
  scan_table,
}
use netmeter.ProcCap.Owners.Laws.{snapshot-tables_for}
use netmeter.ProcCap.Account.{Pnet, EtherType, NextHeader, Next, drain_one, max_drain_frames}
use netmeter.ProcCap.Account.Laws.{sum_cum, counted_all, frames, drain_one-sum_cum}

abbrev one_counter : String → ℕ → Json
one_counter name bytes = object (
    field (codes "counter")
      (object
        (field (codes "name") (string (codes name)) (field (codes "bytes") (number bytes) stop)))
      stop)

abbrev nft_output : Json
nft_output = object (
    field (codes "nftables")
      (array (
        item (one_counter "lan_rx_bytes" 70)
          (item (one_counter "lan_tx_bytes" 8) (item (one_counter "lan_rx_pkts" 3) end))))
      stop)

parse_nft_counters_lem_example :
    parse_nft_counters (some nft_output)
    ≡ both (
      last_counter (codes "lan_rx_bytes") (items_of (get (codes "nftables") nft_output)) none,
      last_counter (codes "lan_tx_bytes") (items_of (get (codes "nftables") nft_output)) none,
    )
parse_nft_counters_lem_example = parse_nft_counters_lem nft_output

-- Every frame is one of TCP from 1.2.3.4 to 5.6.7.8.
abbrev pub tcp_only : Pnet
tcp_only = record {
  ethernet = λ f. some (EtherType.ipv4, f);
  ipv4_packet = λ f. some (record {
    source = 1 ∷ 2 ∷ 3 ∷ 4 ∷ [];
    destination = 5 ∷ 6 ∷ 7 ∷ 8 ∷ [];
    next_header = NextHeader.tcp;
    payload = f;
  });
  ipv6_packet = λ f. none;
  tcp_ports = λ f. some (80, 90);
  udp_ports = λ f. none;
}

abbrev pub next_of : List Text → Next × List Text
next_of [] = (Next.timed_out, [])
next_of (f ∷ fs) = (Next.captured f, fs)

abbrev pub frame : Text
frame = replicate 54 0

drain_one-sum_cum_example :
    (sum_cum false (drain_one tcp_only next_of no_owners [] (frame ∷ frame ∷ []) []).1.1
      ≡ sum_cum false []
        + counted_all tcp_only no_owners [] false
            (frames tcp_only no_owners [] next_of max_drain_frames (frame ∷ frame ∷ [])))
    × (length (frames tcp_only no_owners [] next_of max_drain_frames (frame ∷ frame ∷ [])) ≤ 4096)
drain_one-sum_cum_example =
    drain_one-sum_cum tcp_only no_owners [] next_of false (frame ∷ frame ∷ []) []

-- A process that holds the socket of inode 4242, and the tables that list it.
abbrev holder : Process
holder = record { pid = 77; name = codes "curl"; targets = some (codes "socket:[4242]" ∷ []) }

abbrev tcp_table : Text
tcp_table =
    codes "heading"
    ++ 10 ∷ codes "0: 0100007F:0035 00000000:0000 0A 0:0 0:0 00000000 0 0 4242"
    ++ 10 ∷ []

abbrev read_tables : Text → Option Text
read_tables path = some tcp_table

abbrev endpoint : IpAddr × ℕ
endpoint = (v4 (127 ∷ 0 ∷ 0 ∷ 1 ∷ []), 53)

held : lookup endpoint (snapshot (holder ∷ []) read_tables own_tables).by_ep ≡ some 77
unfolding lookup upsert snapshot own_tables inode_to_pid socket_inode socket_of scan_table
    parse_local strip_prefix strip_suffix split_once words_from lines_from parse_unsigned from_hex
    to_le_bytes
held = refl

snapshot-tables_for_example :
    lookup endpoint
      (snapshot (holder ∷ []) read_tables (tables_for (some (1, 100)) ((11, (2, 200)) ∷ []))).by_ep
    ≡ some 77
snapshot-tables_for_example =
    snapshot-tables_for endpoint (holder ∷ []) read_tables (some (1, 100)) ((11, (2, 200)) ∷ []) 77
      held

abbrev eth : Text
eth = codes "eth0"

abbrev wlan : Text
wlan = codes "wlan0"

set_changed_iff_example :
    (set_changed (eth ∷ wlan ∷ []) (wlan ∷ eth ∷ []) ≡ false)
    ↔ Perm (eth ∷ wlan ∷ []) (wlan ∷ eth ∷ [])
set_changed_iff_example = set_changed_iff (eth ∷ wlan ∷ []) (wlan ∷ eth ∷ [])

-- The loopback interface, with its sixteen columns.
abbrev lo : Stat
lo = record {
  indent = 4;
  letter = b'l';
  letters = b'o' ∷ [];
  columns =
      (2, 1234)
      ∷ (3, 7)
      ∷ (0, 0)
      ∷ (0, 0)
      ∷ (0, 0)
      ∷ (0, 0)
      ∷ (0, 0)
      ∷ (0, 0)
      ∷ (1, 98)
      ∷ (0, 1)
      ∷ (0, 0)
      ∷ (0, 0)
      ∷ (0, 0)
      ∷ (0, 0)
      ∷ (0, 0)
      ∷ (0, 0)
      ∷ [];
}

lo-IsStat : IsStat 1234 98 lo
lo-IsStat = record {
  is_word = (refl, (refl, tt));
  no_colon = (refl, (refl, tt));
  enough = omega arith;
  first_is = refl;
  ninth_is = refl;
  rx_fits = omega arith;
  tx_fits = omega arith;
}

abbrev only_lo : Stats
only_lo = (lo, (1234, 98)) ∷ []

parse_proc-print_file_example :
    lookup (codes "lo") (parse_proc (print_file (codes "Inter-|") (codes " face |") only_lo))
    ≡ lookup (codes "lo") (stats_rows only_lo)
unfolding lookup
parse_proc-print_file_example =
    parse_proc-print_file (codes "Inter-|") (codes " face |") only_lo (codes "lo")
      (refl, (refl, (refl, (refl, (refl, (refl, (refl, tt)))))))
      (refl, (refl, (refl, (refl, (refl, (refl, (refl, tt))))))) (lo-IsStat, tt) (refl, tt)
