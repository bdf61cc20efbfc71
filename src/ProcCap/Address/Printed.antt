-- ===== src/ProcCap/Address/Printed.antt =====
-- `parse_local` of src/proc_cap.rs reads back what the kernel prints for a socket's address: the
-- 32-bit words of the address in the machine's order of bytes, which is little-endian, each in
-- eight hexadecimal digits, a colon, and the port in four.
use mathlib.Core.List.{append-nil}
use netmeter.Prelude.{
  ℕ, zero, suc, ◌+◌, ◌*◌, ◌/◌, ◌%◌, ◌≤◌, ◌<◌, ◌≡◌, List, length-append, ap₂, refl, sym, ◌∙◌, ap,
  Bool, true, false, [], ◌∷◌, ◌++◌, some, Text, if◌then◌else◌, ltb, nat_beq, All, arith, length,
  take, drop,
}
use netmeter.Prelude.Strings.Split.{IsWithout, split_once-append}
use netmeter.ProcCap.Address.{
  IpAddr, v4, v6, hex_digit, shift_in, hex_value, hex_digits, within, from_hex, u16_max, u32_max,
  to_le_bytes, append_bytes, with_port, as_v4, as_v6, read_address, words_of, parse_parts,
  parse_local,
}

-- An upper-case digit, as `%X` prints it.
abbrev pub hex_char : ℕ → ℕ
hex_char d = if ltb d 10 then 48 + d else 55 + d

-- `%0kX`: the lowest `k` digits behind those that follow.
unfoldable pub hex_text : ℕ → ℕ → Text → Text
hex_text zero w rest = rest
hex_text (suc k) w rest = hex_text k (w / 16) (hex_char (w % 16) ∷ rest)

abbrev pub shifted : ℕ → ℕ → ℕ
shifted acc zero = acc
shifted acc (suc k) = shifted acc k * 16

abbrev pub bound : ℕ → ℕ
bound k = shifted 1 k

hex_digit-hex_char : (d : ℕ) → d < 16 → hex_digit (hex_char d) ≡ some d
hex_digit-hex_char d h = ground arith

hex_value-hex_text :
    (k acc w : ℕ) (rest : Text)
    → w < bound k
    → hex_value (some acc) (hex_text k w rest) ≡ hex_value (some (shifted acc k + w)) rest
unfolding hex_value hex_text
hex_value-hex_text zero acc w rest h = ap (λ n. hex_value (some n) rest) (omega arith)
hex_value-hex_text (suc k) acc w rest h =
    hex_value-hex_text k acc (w / 16) (hex_char (w % 16) ∷ rest) (omega arith)
    ∙ ap (λ o. hex_value (shift_in (shifted acc k + w / 16) o) rest)
        (hex_digit-hex_char (w % 16) (omega arith))
    ∙ ap (λ n. hex_value (some n) rest) (omega arith)

-- A number as the kernel prints it begins with a digit.
hex_text_first :
    (k w : ℕ) (rest : Text) → (d : ℕ) × (t : Text) × (hex_text (suc k) w rest ≡ hex_char d ∷ t)
unfolding hex_text
hex_text_first zero w rest = (w % 16, rest, refl)
hex_text_first (suc k) w rest = hex_text_first k (w / 16) (hex_char (w % 16) ∷ rest)

from_hex_unsigned :
    (limit d : ℕ) (t : Text)
    → from_hex limit (hex_char d ∷ t) ≡ within limit (hex_value (some 0) (hex_char d ∷ t))
unfolding from_hex hex_digits
from_hex_unsigned limit d t =
    let digit : nat_beq (hex_char d) b'+' ≡ false = ground arith in rw digit refl

shifted_zero : (k : ℕ) → shifted 0 k ≡ 0
shifted_zero zero = refl
shifted_zero (suc k) = omega (arith, shifted_zero k)

from_hex-hex_text :
    (limit k w : ℕ)
    → w < bound (suc k)
    → w ≤ limit
    → from_hex limit (hex_text (suc k) w []) ≡ some w
unfolding hex_value
from_hex-hex_text limit k w h small =
    let (d, t, first) = hex_text_first k w [] in
    ap (from_hex limit) first
    ∙ from_hex_unsigned limit d t
    ∙ ap (λ u. within limit (hex_value (some 0) u)) (sym first)
    ∙ ap (within limit) (hex_value-hex_text (suc k) 0 w [] h)
    ∙ ap (λ n. within limit (some (n * 16 + w))) (shifted_zero k)
    ∙ ground arith

IsWithout-hex_text :
    (k w : ℕ) (rest : Text) → IsWithout b':' rest → IsWithout b':' (hex_text k w rest)
unfolding hex_text
IsWithout-hex_text zero w rest h = h
IsWithout-hex_text (suc k) w rest h =
    IsWithout-hex_text k (w / 16) (hex_char (w % 16) ∷ rest) (ground arith, h)

-- What stands behind the digits.
hex_text-append : (k w : ℕ) (s t : Text) → hex_text k w (s ++ t) ≡ hex_text k w s ++ t
unfolding hex_text
hex_text-append zero w s t = refl
hex_text-append (suc k) w s t = hex_text-append k (w / 16) (hex_char (w % 16) ∷ s) t

length-hex_text : (k w : ℕ) (rest : Text) → length (hex_text k w rest) ≡ k + length rest
unfolding hex_text
length-hex_text zero w rest = omega arith
length-hex_text (suc k) w rest =
    omega (arith, length-hex_text k (w / 16) (hex_char (w % 16) ∷ rest))

-- The four octets of a word, as they stand in memory.
pub record Octets : Type 0 where
  pub o0 : ℕ
  pub o1 : ℕ
  pub o2 : ℕ
  pub o3 : ℕ

abbrev pub AreOctets : Octets → Type 0
AreOctets w = (w.o0 < 256) × (w.o1 < 256) × (w.o2 < 256) × (w.o3 < 256)

abbrev pub octets : Octets → Text
octets w = w.o0 ∷ w.o1 ∷ w.o2 ∷ w.o3 ∷ []

-- The word that a little-endian machine reads there.
abbrev pub word : Octets → ℕ
word w = w.o0 + 256 * w.o1 + 65_536 * w.o2 + 16_777_216 * w.o3

to_le_bytes-word : (w : Octets) → AreOctets w → to_le_bytes (word w) ≡ octets w
unfolding to_le_bytes
to_le_bytes-word w h = ground arith

word-le : (w : Octets) → AreOctets w → word w ≤ u32_max
word-le w h = omega arith

unfoldable pub print_words : List Octets → Text
print_words [] = []
print_words (w ∷ ws) = hex_text 8 (word w) [] ++ print_words ws

-- An address and a port as the socket tables hold them.
unfoldable pub print_local : List Octets → ℕ → Text
print_local ws port = print_words ws ++ b':' ∷ hex_text 4 port []

abbrev pub bytes_of : List Octets → Text
bytes_of [] = []
bytes_of (w ∷ ws) = octets w ++ bytes_of ws

abbrev pub address : Bool → List Octets → IpAddr
address true ws = v6 (bytes_of ws)
address false ws = v4 (bytes_of ws)

take-append : (s t : Text) → take (length s) (s ++ t) ≡ s
take-append [] t = refl
take-append (c ∷ s) t = ap (λ u. c ∷ u) (take-append s t)

drop-append : (s t : Text) → drop (length s) (s ++ t) ≡ t
drop-append [] t = refl
drop-append (c ∷ s) t = drop-append s t

from_hex-word :
    (w : Octets) → AreOctets w → from_hex u32_max (hex_text 8 (word w) []) ≡ some (word w)
from_hex-word w h = from_hex-hex_text u32_max 7 (word w) (omega arith) (word-le w h)

length-word : (w : Octets) → length (hex_text 8 (word w) []) ≡ 8
length-word w = length-hex_text 8 (word w) []

words_of-print_words :
    (ws : List Octets)
    → All AreOctets ws
    → words_of (length ws) (print_words ws) ≡ some (bytes_of ws)
unfolding words_of print_words
words_of-print_words [] h = refl
words_of-print_words (w ∷ ws) h =
    let s : Text = hex_text 8 (word w) [] in
    let t : Text = print_words ws in
    let first : take 8 (s ++ t) ≡ s =
      ap (λ n. take n (s ++ t)) (sym (length-word w)) ∙ take-append s t in
    let later : drop 8 (s ++ t) ≡ t =
      ap (λ n. drop n (s ++ t)) (sym (length-word w)) ∙ drop-append s t in
    ap₂ append_bytes (ap (from_hex u32_max) first ∙ from_hex-word w h.0)
      (ap (words_of (length ws)) later ∙ words_of-print_words ws h.1)
    ∙ ap (λ b. some (b ++ bytes_of ws)) (to_le_bytes-word w h.0)

length-print_words : (ws : List Octets) → length (print_words ws) ≡ 8 * length ws
unfolding print_words
length-print_words [] = omega arith
length-print_words (w ∷ ws) = omega (
  arith,
  length-append (hex_text 8 (word w) []) (print_words ws),
  length-word w,
  length-print_words ws,
)

IsWithout-append : (x : ℕ) (s t : Text) → IsWithout x s → IsWithout x t → IsWithout x (s ++ t)
IsWithout-append x [] t h k = k
IsWithout-append x (c ∷ s) t h k = (h.0, IsWithout-append x s t h.1 k)

IsWithout-print_words : (ws : List Octets) → IsWithout b':' (print_words ws)
unfolding print_words
IsWithout-print_words [] = tt
IsWithout-print_words (w ∷ ws) =
    IsWithout-append b':' (hex_text 8 (word w) []) (print_words ws)
      (IsWithout-hex_text 8 (word w) [] tt) (IsWithout-print_words ws)

read_address-print_words :
    (is_v6 : Bool) (ws : List Octets)
    → length ws ≡ (if is_v6 then 4 else 1)
    → All AreOctets ws
    → read_address is_v6 (print_words ws) ≡ some (address is_v6 ws)
read_address-print_words true ws n h =
    let full : nat_beq (length (print_words ws)) 32 ≡ true =
      ground (arith, length-print_words ws) in
    rw full (ap as_v6 (ap (λ k. words_of k (print_words ws)) (sym n) ∙ words_of-print_words ws h))
read_address-print_words false [] n h = absurd (omega arith)
read_address-print_words false (w ∷ []) n h =
    unfold print_words in
    ap (λ t. as_v4 (from_hex u32_max t)) (append-nil (hex_text 8 (word w) []))
    ∙ ap as_v4 (from_hex-word w h.0)
    ∙ ap (λ b. some (v4 b)) (to_le_bytes-word w h.0 ∙ sym (append-nil (octets w)))
read_address-print_words false (w ∷ x ∷ ws) n h = absurd (omega arith)

-- An address of one 32-bit word, or of four for IPv6, with octets below 256, and a port of at most
-- 65535, as a little-endian kernel prints them in its socket tables, are read back by parse_local.
pub parse_local-print_local :
    (is_v6 : Bool) (ws : List Octets) (port : ℕ)
    → length ws ≡ (if is_v6 then 4 else 1)
    → All AreOctets ws
    → port ≤ u16_max
    → parse_local (print_local ws port) is_v6 ≡ some (address is_v6 ws, port)
unfolding parse_local print_local
parse_local-print_local is_v6 ws port n h fits =
    ap (parse_parts is_v6)
      (split_once-append (print_words ws) (hex_text 4 port []) b':' (IsWithout-print_words ws))
    ∙ ap (with_port (read_address is_v6 (print_words ws)))
        (from_hex-hex_text u16_max 3 port (omega arith) fits)
    ∙ ap (λ a. with_port a (some port)) (read_address-print_words is_v6 ws n h)
