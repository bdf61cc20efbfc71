-- ===== src/Capture.antt =====
-- src/capture.rs: the kernel's interface counters and the LAN counters of nftables. What a file or
-- the command nft gives is an argument.
pub mod Nft
pub mod Ruleset
pub mod Laws
pub mod Printed
pub mod RoundTrip
use netmeter.Prelude.{
  ℕ, ◌+◌, List, [], ◌∷◌, Option, none, some, Map, insert, drop, get_elem?, get_or, length, ltb,
  if◌then◌else◌, Text, text_eq, Bool,
}
use netmeter.Prelude.Decimal.{parse_u64}
use netmeter.Prelude.Strings.{split_once, split_whitespace, trim, lines}

-- `rest[i].parse().unwrap_or(0)`.
abbrev pub column : List Text → ℕ → ℕ
column rest i = get_or (elim (get_elem? rest i) [ none ↦ none | some w ↦ parse_u64 w ]) 0

-- The columns behind the colon: none where there are fewer than 16.
unfoldable pub counters_of : Text → Text → Option (Text × (ℕ × ℕ))
counters_of before after =
    let rest = split_whitespace after in
    if ltb (length rest) 16 then none else some (trim before, (column rest 0, column rest 8))

abbrev pub counters_at : Option (Text × Text) → Option (Text × (ℕ × ℕ))
counters_at none = none
counters_at (some (before, after)) = counters_of before after

-- One line of `/proc/net/dev`: the interface with its received and sent bytes.
unfoldable pub parse_line : Text → Option (Text × (ℕ × ℕ))
parse_line line = counters_at (split_once line b':')

abbrev pub insert_row : Option (Text × (ℕ × ℕ)) → Map Text (ℕ × ℕ) → Map Text (ℕ × ℕ)
insert_row none m = m
insert_row (some (iface, counts)) m = insert iface counts m

unfoldable pub parse_lines : List Text → Map Text (ℕ × ℕ) → Map Text (ℕ × ℕ)
parse_lines [] m = m
parse_lines (line ∷ rest) m = parse_lines rest (insert_row (parse_line line) m)

-- `parse_proc`: the two header lines are skipped.
unfoldable pub parse_proc : Text → Map Text (ℕ × ℕ)
parse_proc text = parse_lines (drop 2 (lines text)) []

-- The counters of one interface in sysfs: the texts of two files.
abbrev pub sysfs_count : Option Text → ℕ
sysfs_count none = 0
sysfs_count (some t) = get_or (parse_u64 (trim t)) 0

unfoldable pub read_sysfs :
    List (Text × (Option Text × Option Text)) → Map Text (ℕ × ℕ) → Map Text (ℕ × ℕ)
read_sysfs [] m = m
read_sysfs ((iface, (rx, tx)) ∷ dir) m =
    read_sysfs dir (insert iface (sysfs_count rx, sysfs_count tx) m)

-- `read_proc`: the file, and sysfs where it cannot be read or holds no interface.
unfoldable pub read_proc :
    Option Text → List (Text × (Option Text × Option Text)) → Map Text (ℕ × ℕ)
read_proc none dir = read_sysfs dir []
read_proc (some text) dir = elim (parse_proc text) [
  | [] ↦ read_sysfs dir []
  | row ∷ rows ↦ row ∷ rows
]
