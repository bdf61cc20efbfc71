-- ===== src/ProcCap/Owners.antt =====
-- The owners of sockets: `tables_for`, `inode_to_pid` and `snapshot` of src/proc_cap.rs. What the
-- program reads of /proc is an argument.
pub mod Laws
pub mod Namespaces
use netmeter.Prelude.{
  ℕ, zero, suc, Bool, true, false, not, ◌&&◌, ◌||◌, List, [], ◌∷◌, ◌++◌, map, any, Option, none,
  some, Text, codes, ltb, nat_beq, if◌then◌else◌, length, get_elem?, drop, Map, lookup, insert,
  or_insert, fold, ◌==◌, nat_eq, text_eq, pair_eq, Eq,
}
use netmeter.Prelude.Decimal.{print_nat, parse_u64}
use netmeter.Prelude.Strings.{strip_prefix, strip_suffix, split_whitespace, lines}
use netmeter.ProcCap.Address.{IpAddr, ip_eq, parse_local}

-- A network namespace: the device and the inode of its file.
abbrev pub Netns : Type 0
Netns = ℕ × ℕ

unfoldable pub own_tables : List Text
own_tables =
    codes "/proc/net/tcp"
    ∷ codes "/proc/net/tcp6"
    ∷ codes "/proc/net/udp"
    ∷ codes "/proc/net/udp6"
    ∷ []

abbrev pub table_path : ℕ → Text → Text
table_path pid proto = codes "/proc/" ++ (print_nat pid ++ (codes "/net/" ++ proto))

unfoldable pub tables_of : ℕ → List Text
tables_of pid =
    table_path pid (codes "tcp")
    ∷ table_path pid (codes "tcp6")
    ∷ table_path pid (codes "udp")
    ∷ table_path pid (codes "udp6")
    ∷ []

abbrev pub is_ours : Option Netns → Netns → Bool
is_ours none ns = false
is_ours (some o) ns = o == ns

-- The processes that the loop does not pass over, with the set `seen`: not in our namespace, and
-- the first of their own.
unfoldable pub foreign : Option Netns → List Netns → Map ℕ Netns → Map ℕ Netns
foreign ours seen [] = []
foreign ours seen ((pid, ns) ∷ procs) =
    let later = foreign ours seen procs in
    let others = foreign ours (ns ∷ seen) procs in
    if is_ours ours ns || any (λ s. s == ns) seen then later else (pid, ns) ∷ others

abbrev pub all_tables : Map ℕ Netns → List Text
all_tables [] = []
all_tables ((pid, ns) ∷ procs) = tables_of pid ++ all_tables procs

unfoldable pub tables_for : Option Netns → Map ℕ Netns → List Text
tables_for ours procs = all_tables (foreign ours [] procs) ++ own_tables

-- `Owners`.
pub record Owners : Type 0 where
  pub by_ep : Map (IpAddr × ℕ) ℕ
  pub comm : Map ℕ Text

abbrev pub no_owners : Owners
no_owners = record { by_ep = []; comm = [] }

-- One process of /proc: its name, and the targets of its open files where they can be listed.
pub record Process : Type 0 where
  pub pid : ℕ
  pub name : Text
  pub targets : Option (List Text)

abbrev closed : Option Text → Option Text
closed none = none
closed (some t) = strip_suffix t b']'

abbrev number_of : Option Text → Option ℕ
number_of none = none
number_of (some t) = parse_u64 t

-- The inode of a link `socket:[…]`.
unfoldable pub socket_inode : Text → Option ℕ
socket_inode target = number_of (closed (strip_prefix target (codes "socket:[")))

abbrev pub note_inode : ℕ → Text → Option ℕ → Map ℕ (ℕ × Text) → Map ℕ (ℕ × Text)
note_inode pid name none m = m
note_inode pid name (some ino) m = or_insert ino (pid, name) m

abbrev pub note_targets : ℕ → Text → Option (List Text) → Map ℕ (ℕ × Text) → Map ℕ (ℕ × Text)
note_targets pid name none m = m
note_targets pid name (some ts) m = fold (λ t s. note_inode pid name (socket_inode t) s) ts m

unfoldable pub inode_to_pid : List Process → Map ℕ (ℕ × Text)
inode_to_pid procs = fold (λ p m. note_targets p.pid p.name p.targets m) procs []

-- The address and the inode of a line of a socket table.
abbrev socket_case : Option (IpAddr × ℕ) → Option ℕ → Option ((IpAddr × ℕ) × ℕ)
socket_case none ino = none
socket_case (some ep) none = none
socket_case (some ep) (some ino) = if nat_beq ino 0 then none else some (ep, ino)

abbrev at_word : List Text → ℕ → Text
at_word [] i = []
at_word (w ∷ ws) zero = w
at_word (w ∷ ws) (suc i) = at_word ws i

unfoldable pub socket_of : Bool → Text → Option ((IpAddr × ℕ) × ℕ)
socket_of v6 line =
    let f = split_whitespace line in
    if ltb (length f) 10
    then none
    else socket_case (parse_local (at_word f 1) v6) (parse_u64 (at_word f 9))

abbrev pub own : IpAddr × ℕ → Option (ℕ × Text) → Owners → Owners
own ep none o = o
own ep (some (pid, name)) o = record {
  by_ep = insert ep pid o.by_ep;
  comm = or_insert pid name o.comm;
}

abbrev pub note_socket : Map ℕ (ℕ × Text) → Option ((IpAddr × ℕ) × ℕ) → Owners → Owners
note_socket inodes none o = o
note_socket inodes (some (ep, ino)) o = own ep (lookup ino inodes) o

-- The lines of one table, after its heading.
unfoldable pub scan_table : Map ℕ (ℕ × Text) → Bool → List Text → Owners → Owners
scan_table inodes v6 rows o = fold (λ l s. note_socket inodes (socket_of v6 l) s) rows o

abbrev scan_text : Map ℕ (ℕ × Text) → Bool → Option Text → Owners → Owners
scan_text inodes v6 none o = o
scan_text inodes v6 (some text) o = scan_table inodes v6 (drop 1 (lines text)) o

abbrev ends_in_6 : Option Text → Bool
ends_in_6 none = false
ends_in_6 (some t) = true

-- `snapshot`, over the tables that `netns_socket_tables` names and a function that reads files.
unfoldable pub snapshot : List Process → (Text → Option Text) → List Text → Owners
snapshot procs read paths =
    fold
      (λ path o. scan_text (inode_to_pid procs) (ends_in_6 (strip_suffix path b'6')) (read path) o)
      paths no_owners
