-- ===== src/ProcCap/Account.antt =====
-- The accounting of captured frames: `account` and `drain_one` of src/proc_cap.rs. Counters are
-- u64 in the source; 2 ^ 64 bytes are not reached between two flushes.
pub mod Laws
use netmeter.Prelude.{
  ℕ, zero, suc, ◌+◌, Bool, true, false, ◌||◌, List, [], ◌∷◌, any, Option, none, some, Text, codes,
  length, if◌then◌else◌, Map, lookup, upsert, get_or, ◌==◌, nat_eq, text_eq, pair_eq,
}
use netmeter.ProcCap.Address.{IpAddr, v4, v6, ip_eq}
use netmeter.ProcCap.Owners.{Owners}

-- `Cum`: for each process its name, and the bytes received and sent.
abbrev pub Cum : Type 0
Cum = Map ℕ (Text × (ℕ × ℕ))

pub data EtherType : Type 0 where
  ipv4 ipv6 other_type : EtherType

pub data NextHeader : Type 0 where
  tcp udp other_header : NextHeader

-- An IP packet: the octets of its addresses, its protocol and what it carries.
pub record IpPacket : Type 0 where
  pub source : Text
  pub destination : Text
  pub next_header : NextHeader
  pub payload : Text

-- The parsers of pnet, which refuse a buffer that is too short for the header.
pub record Pnet : Type 0 where
  pub ethernet : Text → Option (EtherType × Text)
  pub ipv4_packet : Text → Option IpPacket
  pub ipv6_packet : Text → Option IpPacket
  pub tcp_ports : Text → Option (ℕ × ℕ)
  pub udp_ports : Text → Option (ℕ × ℕ)

-- The two addresses of a frame, and its ports where it has them.
pub record Ends : Type 0 where
  pub src : IpAddr
  pub dst : IpAddr
  pub ports : Option (ℕ × ℕ)

module _ (n : Pnet) where
  unfoldable pub l4_ports : NextHeader → Text → Option (ℕ × ℕ)
  l4_ports NextHeader.tcp l4 = n.tcp_ports l4
  l4_ports NextHeader.udp l4 = n.udp_ports l4
  l4_ports NextHeader.other_header l4 = none

  abbrev pub ends_of : (Text → IpAddr) → Option IpPacket → Option Ends
  ends_of addr none = none
  ends_of addr (some ip) = some (record {
    src = addr ip.source;
    dst = addr ip.destination;
    ports = l4_ports ip.next_header ip.payload;
  })

  abbrev pub ends_by_type : Option (EtherType × Text) → Option Ends
  ends_by_type none = none
  ends_by_type (some (EtherType.ipv4, payload)) = ends_of v4 (n.ipv4_packet payload)
  ends_by_type (some (EtherType.ipv6, payload)) = ends_of v6 (n.ipv6_packet payload)
  ends_by_type (some (EtherType.other_type, payload)) = none

  -- The frames that `account` does not pass over.
  unfoldable pub ends : Text → Option Ends
  ends frame = ends_by_type (n.ethernet frame)

-- The process behind an endpoint.
abbrev pub named_owner : Owners → Option ℕ → ℕ × Text
named_owner owners none = (0, codes "unknown")
named_owner owners (some pid) = (pid, get_or (lookup pid owners.comm) (codes "?"))

abbrev pub owner_case : Owners → Bool → IpAddr → IpAddr → Option (ℕ × ℕ) → ℕ × Text
owner_case owners up src dst none = (0, codes "other")
owner_case owners up src dst (some (sp, dp)) =
    named_owner owners (lookup (if up then (src, sp) else (dst, dp)) owners.by_ep)

-- A name that says nothing gives way to the new one.
unfoldable pub rename : Text → Text → Text
rename comm old =
    if old == codes "?" || (old == codes "unknown" || old == codes "other") then comm else old

abbrev pub add_frame : Bool → ℕ → ℕ × ℕ → ℕ × ℕ
add_frame up bytes (rx, tx) = if up then (rx, tx + bytes) else (rx + bytes, tx)

-- `cum.entry(pid).or_insert_with(…)`, then the new name and the bytes.
unfoldable pub charge : Bool → ℕ → ℕ × Text → Cum → Cum
charge up bytes (pid, comm) cum =
    upsert pid (rename comm comm, add_frame up bytes (0, 0))
      (λ e. (rename comm e.0, add_frame up bytes e.1)) cum

unfoldable pub is_up : List IpAddr → Ends → Bool
is_up local e = any (λ ip. ip == e.src) local

abbrev pub account_ends : Text → Owners → List IpAddr → Option Ends → Cum → Cum
account_ends frame owners local none cum = cum
account_ends frame owners local (some e) cum =
    let up = is_up local e in
    charge up (length frame) (owner_case owners up e.src e.dst e.ports) cum

-- What a receiver returns: a frame, a timeout or another error.
pub data Next : Type 0 where
  captured : Text → Next
  timed_out failed : Next

abbrev pub max_drain_frames : ℕ
max_drain_frames = 4096

module _ (n : Pnet) where
  unfoldable pub account : Text → Owners → List IpAddr → Cum → Cum
  account frame owners local cum = account_ends frame owners local (ends n frame) cum

  module _ {R : Type 0} (next : R → Next × R) (owners : Owners) (local : List IpAddr) where
    -- The loop of `drain_one`; the Boolean says that the receiver failed.
    unfoldable pub drain : ℕ → R → Cum → Bool × (R × Cum)
    drain zero rx cum = (false, (rx, cum))
    drain (suc k) rx cum =
        let (got, rest) = next rx in
        elim got [
          | Next.captured f ↦ drain k rest (account f owners local cum)
          | Next.timed_out ↦ (false, (rest, cum))
          | Next.failed ↦ (true, (rest, cum))
        ]

    unfoldable pub drain_one : R → Cum → Bool × (R × Cum)
    unfolding drain
    drain_one rx cum = drain max_drain_frames rx cum
