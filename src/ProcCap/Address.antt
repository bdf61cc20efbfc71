-- ===== src/ProcCap/Address.antt =====
-- The addresses in the kernel's socket tables: `parse_local` of src/proc_cap.rs.
pub mod Printed
use netmeter.Prelude.{
  ℕ, ◌≡◌, ◌+◌, ◌-◌, ◌*◌, ◌/◌, ◌%◌, Bool, true, false, ◌&&◌, [], ◌∷◌, ◌++◌, Option, none, some, Text,
  leb, nat_beq, if◌then◌else◌, length, take, drop, ◌↔◌, Eq, text_beq, text_beq_iff, zero, suc,
  arith,
}
use netmeter.Prelude.Strings.{split_once}

-- `IpAddr`, by its octets.
pub data IpAddr : Type 0 where
  v4 v6 : Text → IpAddr

abbrev pub ip_beq : IpAddr → IpAddr → Bool
ip_beq (v4 a) (v4 b) = text_beq a b
ip_beq (v4 a) (v6 b) = false
ip_beq (v6 a) (v4 b) = false
ip_beq (v6 a) (v6 b) = text_beq a b

pub ip_beq_iff : (a b : IpAddr) → (ip_beq a b ≡ true) ↔ (a ≡ b)
ip_beq_iff (v4 a) (v4 b) = ground (arith, text_beq_iff a b)
ip_beq_iff (v4 a) (v6 b) = ground arith
ip_beq_iff (v6 a) (v4 b) = ground arith
ip_beq_iff (v6 a) (v6 b) = ground (arith, text_beq_iff a b)

instance abbrev pub ip_eq : Eq IpAddr
ip_eq = record { eqb = ip_beq; eqb_iff = ip_beq_iff }

-- The value of a hexadecimal digit, in either case.
abbrev pub hex_digit : ℕ → Option ℕ
hex_digit c =
    if leb 48 c && leb c 57
    then some (c - 48)
    else if leb 97 c && leb c 102
    then some (c - 87)
    else if leb 65 c && leb c 70
    then some (c - 55)
    else none

abbrev pub shift_in : ℕ → Option ℕ → Option ℕ
shift_in acc none = none
shift_in acc (some d) = some (acc * 16 + d)

hex_value : Option ℕ → Text → Option ℕ
hex_value none t = none
hex_value (some acc) [] = some acc
hex_value (some acc) (c ∷ t) = hex_value (shift_in acc (hex_digit c)) t

hex_digits : Text → Option ℕ
unfolding hex_value
hex_digits [] = none
hex_digits (c ∷ t) = hex_value (some 0) (c ∷ t)

abbrev pub within : ℕ → Option ℕ → Option ℕ
within limit none = none
within limit (some n) = if leb n limit then some n else none

-- `from_str_radix(s, 16)` of an unsigned type with the given largest value: a plus sign may stand
-- in front, and there is at least one digit.
unfoldable pub from_hex : ℕ → Text → Option ℕ
unfolding hex_digits hex_value
from_hex limit [] = none
from_hex limit (c ∷ t) = within limit (if nat_beq c b'+' then hex_digits t else hex_digits (c ∷ t))

abbrev pub u16_max : ℕ
u16_max = 65_535

abbrev pub u32_max : ℕ
u32_max = 4_294_967_295

-- `u32::to_le_bytes`.
unfoldable pub to_le_bytes : ℕ → Text
to_le_bytes w = (w % 256) ∷ (w / 256 % 256) ∷ (w / 65_536 % 256) ∷ (w / 16_777_216 % 256) ∷ []

abbrev pub append_bytes : Option ℕ → Option Text → Option Text
append_bytes none rest = none
append_bytes (some w) none = none
append_bytes (some w) (some rest) = some (to_le_bytes w ++ rest)

-- The loop over the 32-bit words of an IPv6 address.
unfoldable pub words_of : ℕ → Text → Option Text
words_of zero t = some []
words_of (suc n) t = append_bytes (from_hex u32_max (take 8 t)) (words_of n (drop 8 t))

abbrev pub with_port : Option IpAddr → Option ℕ → Option (IpAddr × ℕ)
with_port none port = none
with_port (some ip) none = none
with_port (some ip) (some port) = some (ip, port)

abbrev pub as_v4 : Option ℕ → Option IpAddr
as_v4 none = none
as_v4 (some raw) = some (v4 (to_le_bytes raw))

abbrev pub as_v6 : Option Text → Option IpAddr
as_v6 none = none
as_v6 (some b) = some (v6 b)

-- Both shapes of an address.
abbrev pub read_address : Bool → Text → Option IpAddr
read_address true hex_ip = if nat_beq (length hex_ip) 32 then as_v6 (words_of 4 hex_ip) else none
read_address false hex_ip = as_v4 (from_hex u32_max hex_ip)

abbrev pub parse_parts : Bool → Option (Text × Text) → Option (IpAddr × ℕ)
parse_parts is_v6 none = none
parse_parts is_v6 (some (hex_ip, hex_port)) =
    with_port (read_address is_v6 hex_ip) (from_hex u16_max hex_port)

unfoldable pub parse_local : Text → Bool → Option (IpAddr × ℕ)
parse_local s is_v6 = parse_parts is_v6 (split_once s b':')
