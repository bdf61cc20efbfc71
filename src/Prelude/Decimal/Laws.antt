-- ===== src/Prelude/Decimal/Laws.antt =====
-- A number's decimal text parses to the number.
use mathlib.Core.Option.{some-injective}
use netmeter.Prelude.{
  ℕ, zero, suc, ◌+◌, ◌-◌, ◌*◌, ◌/◌, ◌%◌, ◌≤◌, ◌<◌, true, [], ◌∷◌, ◌++◌, some, ltb, Text, ◌≡◌, arith,
  inl, inr, Bool-cases, ◌∙◌, ap, All, All-append, subst, sym, refl, replicate,
}
use netmeter.Prelude.Int.{ℤ, pos, negsuc, pos_part, neg_part}
use netmeter.Prelude.Decimal.{
  digits, print_nat, print_int, is_digit, value, some_digits, parse_unsigned, parse_i64, i64_max,
}

-- One more digit behind a run of digits.
value-append :
    (acc : ℕ) (t : Text) (n c : ℕ)
    → value acc t ≡ some n
    → is_digit c ≡ true
    → value acc (t ++ c ∷ []) ≡ some (n * 10 + (c - 48))
unfolding value
value-append acc [] n c h d = ground arith
value-append acc (x ∷ t) n c h d = ground (arith, value-append (acc * 10 + (x - 48)) t n c)

value-digits : (f n : ℕ) → n < f → value 0 (digits f n) ≡ some n
unfolding digits
value-digits zero n h = elim h [ ]
value-digits (suc f) n h = elim (Bool-cases (ltb n 10)) [
  | inl small ↦ rw small (unfold value in ground arith)
  | inr big ↦ rw big (
      value-append 0 (digits f (n / 10)) (n / 10) (48 + n % 10)
        (value-digits f (n / 10) (ground arith)) (ground arith)
      ∙ ap some (omega arith))
]

-- A printed number begins with a digit.
digits-leads : (f n : ℕ) → n < f → (c : ℕ) × (t : Text) × (digits f n ≡ c ∷ t) × (is_digit c ≡ true)
unfolding digits
digits-leads zero n h = elim h [ ]
digits-leads (suc f) n h = elim (Bool-cases (ltb n 10)) [
  | inl small ↦ (48 + n, [], rw small, ground arith)
  | inr big ↦
      let (c, t, e, d) = digits-leads f (n / 10) (ground arith) in
      (c, t ++ (48 + n % 10) ∷ [], rw (big, e), d)
]

digits-All : (f n : ℕ) → n < f → All (λ c. is_digit c ≡ true) (digits f n)
unfolding digits
digits-All zero n h = tt
digits-All (suc f) n h = elim (Bool-cases (ltb n 10)) [
  | inl small ↦ rw small (ground arith, tt)
  | inr big ↦ rw big (
      All-append (λ c. is_digit c ≡ true) (digits f (n / 10)) _
        (digits-All f (n / 10) (ground arith)) (ground arith, tt))
]

-- A printed number is a digit and more digits.
pub print_nat-All :
    (n : ℕ)
    → (c : ℕ) × (t : Text) × (print_nat n ≡ c ∷ t)
      × (is_digit c ≡ true)
      × All (λ d. is_digit d ≡ true) t
unfolding print_nat
print_nat-All n =
    let (c, t, e, d) = digits-leads (suc n) n (omega arith) in
    let all : All (λ x. is_digit x ≡ true) (c ∷ t) =
      subst (All (λ x. is_digit x ≡ true)) e (digits-All (suc n) n (omega arith)) in
    (c, t, e, d, all.1)

some_digits-print_nat : (n : ℕ) → some_digits (print_nat n) ≡ some n
unfolding print_nat some_digits
some_digits-print_nat n =
    let (c, t, e, d) = digits-leads (suc n) n (omega arith) in
    rw e (rw (← e) (value-digits (suc n) n (omega arith)))

pub parse_unsigned-print_nat :
    (limit n : ℕ) → n ≤ limit → parse_unsigned limit (print_nat n) ≡ some n
parse_unsigned-print_nat limit n h =
    let (c, t, e, d) = digits-leads (suc n) n (omega arith) in
    let e' : print_nat n ≡ c ∷ t = unfold print_nat in e in
    let s : some_digits (c ∷ t) ≡ some n = rw (← e') (some_digits-print_nat n) in
    rw e' (unfold parse_unsigned in ground arith)

pub parse_i64-print_int :
    (n : ℤ) → pos_part n ≤ i64_max → neg_part n ≤ suc i64_max → parse_i64 (print_int n) ≡ some n
parse_i64-print_int (pos n) h k =
    let (c, t, e, d) = digits-leads (suc n) n (omega arith) in
    let e' : print_nat n ≡ c ∷ t = unfold print_nat in e in
    let s : parse_unsigned i64_max (c ∷ t) ≡ some n =
      rw (← e') (parse_unsigned-print_nat i64_max n h) in
    unfold print_int in rw e' (unfold parse_i64 in ground arith)
parse_i64-print_int (negsuc n) h k =
    unfold print_int parse_i64 in ground (arith, some_digits-print_nat (suc n))

-- Zeros in front do not change a value.
value-zeros : (k : ℕ) (t : Text) → value 0 (replicate k b'0' ++ t) ≡ value 0 t
unfolding value
value-zeros zero t = refl
value-zeros (suc k) t = value-zeros k t

some_digits-padded : (k n : ℕ) → some_digits (replicate k b'0' ++ print_nat n) ≡ some n
unfolding some_digits
some_digits-padded zero n = some_digits-print_nat n
some_digits-padded (suc k) n =
    value-zeros (suc k) (print_nat n) ∙ unfold print_nat in value-digits (suc n) n (omega arith)

-- Two numbers that are printed alike, with zeros in front, are the same.
pub padded-injective :
    (k l n m : ℕ) → replicate k b'0' ++ print_nat n ≡ replicate l b'0' ++ print_nat m → n ≡ m
padded-injective k l n m same =
    some-injective _ _ (sym (some_digits-padded k n) ∙ ap some_digits same ∙ some_digits-padded l m)

All-replicate : (k : ℕ) → All (λ c. is_digit c ≡ true) (replicate k b'0')
All-replicate zero = tt
All-replicate (suc k) = (refl, All-replicate k)

pub padded-All : (k n : ℕ) → All (λ c. is_digit c ≡ true) (replicate k b'0' ++ print_nat n)
unfolding print_nat
padded-All k n =
    All-append (λ c. is_digit c ≡ true) (replicate k b'0') _ (All-replicate k)
      (digits-All (suc n) n (omega arith))
