-- ===== src/Prelude/Decimal.antt =====
-- Decimal numbers as texts: `to_string` and `parse` of Rust's integers. The bound of the type is
-- an argument of the parsers; a value beyond it is an error, which the program reads as `none`.
pub mod Laws
use netmeter.Prelude.{
  ℕ, zero, suc, ◌+◌, ◌-◌, ◌*◌, ◌/◌, ◌%◌, ◌^◌, Bool, ◌&&◌, List, [], ◌∷◌, ◌++◌, Option, none, some,
  ltb, leb, nat_beq, if◌then◌else◌, Text,
}
use netmeter.Prelude.Int.{ℤ, pos, negsuc}

-- `to_string` of an unsigned integer. Division by ten falls below any fuel above the number.
digits : ℕ → ℕ → Text
digits zero n = []
digits (suc f) n =
    let high = digits f (n / 10) in if ltb n 10 then (48 + n) ∷ [] else high ++ (48 + n % 10) ∷ []

unfoldable pub print_nat : ℕ → Text
unfolding digits
print_nat n = digits (suc n) n

-- `to_string` of an `i64`.
unfoldable pub print_int : ℤ → Text
unfolding print_nat
print_int (pos n) = print_nat n
print_int (negsuc n) = b'-' ∷ print_nat (suc n)

abbrev pub is_digit : ℕ → Bool
is_digit c = leb 48 c && leb c 57

-- The value of a run of digits that follow the value `acc`.
value : ℕ → Text → Option ℕ
value acc [] = some acc
value acc (c ∷ t) = let rest = value (acc * 10 + (c - 48)) t in if is_digit c then rest else none

-- At least one digit.
some_digits : Text → Option ℕ
some_digits [] = none
some_digits (c ∷ t) = value 0 (c ∷ t)

-- A value of at most `limit`.
abbrev pub at_most : ℕ → Option ℕ → Option ℕ
at_most limit none = none
at_most limit (some n) = if leb n limit then some n else none

-- `str::parse::<u64>` and the smaller unsigned types, whose largest value is `limit`.
unfoldable pub parse_unsigned : ℕ → Text → Option ℕ
unfolding value some_digits
parse_unsigned limit [] = none
parse_unsigned limit (c ∷ t) =
    at_most limit (if nat_beq c b'+' then some_digits t else some_digits (c ∷ t))

abbrev pub u64_max : ℕ
u64_max = 2 ^ 64 - 1

abbrev pub i64_max : ℕ
i64_max = 2 ^ 63 - 1

abbrev pub parse_u64 : Text → Option ℕ
parse_u64 = parse_unsigned u64_max

-- The negative number of absolute value `n`.
abbrev pub negated : Option ℕ → Option ℤ
negated none = none
negated (some zero) = some (pos 0)
negated (some (suc n)) = some (negsuc n)

abbrev pub positive : Option ℕ → Option ℤ
positive none = none
positive (some n) = some (pos n)

-- `str::parse::<i64>`.
unfoldable pub parse_i64 : Text → Option ℤ
unfolding value some_digits parse_unsigned
parse_i64 [] = none
parse_i64 (c ∷ t) =
    if nat_beq c b'-'
    then negated (at_most (suc i64_max) (some_digits t))
    else positive (parse_unsigned i64_max (c ∷ t))
