-- ===== src/Prelude/Float.antt =====
-- The floating-point numbers of the program, `f64`, as a parameter: the operations that the code
-- calls, and laws of IEEE 754 arithmetic on which proofs rest. Values come from integers.
use netmeter.Prelude.{ℕ, leb, ◌≡◌, ◌↔◌, Bool, true, false, Text, ◌≤◌, ◌<◌, ◌^◌}
use netmeter.Prelude.Int.{ℤ, pos, ◌≤ℤ◌}

pub record Float : Type 1 where
  pub Real : Type 0
  -- `n as f64`
  pub of : ℤ → Real
  -- the literal for the decimal fraction n / d
  pub literal : ℕ → ℕ → Real
  pub mul : Real → Real → Real
  pub div : Real → Real → Real
  pub le : Real → Real → Bool
  pub lt : Real → Real → Bool
  -- `x as i64`, which rounds toward zero
  pub trunc : Real → ℤ
  -- `x as u64`
  pub trunc_u64 : Real → ℕ

-- What the program prints of them: `{:.n}`, and `x.round() as usize`.
pub record Printing (f : Float) : Type 0 where
  pub fixed : ℕ → f.Real → Text
  pub round : f.Real → ℕ

-- The integers up to here are exact.
abbrev pub exact_limit : ℕ
exact_limit = 2 ^ 53

-- No integer of the program is above this.
abbrev pub word_limit : ℕ
word_limit = 2 ^ 64

pub record FloatLaws (f : Float) : Type 0 where
  -- Conversion keeps the order of integers.
  pub of_mono : (m n : ℕ) → m ≤ n → f.le (f.of (pos m)) (f.of (pos n)) ≡ true
  -- Products and quotients of numbers that are neither negative nor above the largest integer are
  -- not negative, and a division by an integer does not enlarge a number.
  pub mul_nonneg :
      (a b : f.Real)
      → f.le (f.of (pos 0)) a ≡ true
      → f.le a (f.of (pos word_limit)) ≡ true
      → f.le (f.of (pos 0)) b ≡ true
      → f.le b (f.of (pos word_limit)) ≡ true
      → f.le (f.of (pos 0)) (f.mul a b) ≡ true
  pub div_nonneg :
      (a : f.Real) (n : ℕ)
      → f.le (f.of (pos 0)) a ≡ true
      → f.le a (f.of (pos word_limit)) ≡ true
      → 0 < n
      → n ≤ word_limit
      → f.le (f.of (pos 0)) (f.div a (f.of (pos n))) ≡ true
  pub div_below :
      (a : f.Real) (n : ℕ)
      → f.le (f.of (pos 0)) a ≡ true
      → f.le a (f.of (pos word_limit)) ≡ true
      → 0 < n
      → n ≤ word_limit
      → f.le (f.div a (f.of (pos n))) a ≡ true
  pub trunc_nonneg : (a : f.Real) → f.le (f.of (pos 0)) a ≡ true → pos 0 ≤ℤ f.trunc a
  -- An exact integer comes back as it is; a number by itself is one; times one changes nothing.
  pub trunc-of : (n : ℕ) → n ≤ exact_limit → f.trunc (f.of (pos n)) ≡ pos n
  pub div_self :
      (n : ℕ) → 0 < n → n ≤ word_limit → f.div (f.of (pos n)) (f.of (pos n)) ≡ f.of (pos 1)
  pub mul_one : (n : ℕ) → f.mul (f.of (pos n)) (f.of (pos 1)) ≡ f.of (pos n)
  -- Comparison is transitive; the literal 0.8 is below one.
  pub le_trans : (a b c : f.Real) → f.le a b ≡ true → f.le b c ≡ true → f.le a c ≡ true
  pub le-literal : f.le (f.literal 8 10) (f.literal 1 1) ≡ true
  -- A quotient of exact integers is one or more exactly where it is in the integers.
  pub one-le-div :
      (a b : ℕ)
      → a ≤ exact_limit
      → b ≤ exact_limit
      → 0 < b
      → (f.le (f.literal 1 1) (f.div (f.of (pos a)) (f.of (pos b))) ≡ true) ↔ (b ≤ a)

-- A product with a number that is not above one rounds to at most the other factor.
pub record PrintingLaws (f : Float) (p : Printing f) : Type 0 where
  pub round_mul :
      (x : f.Real) (n : ℕ)
      → n ≤ exact_limit
      → f.lt (f.literal 1 1) x ≡ false
      → p.round (f.mul x (f.of (pos n))) ≤ n
  pub one_not_above : f.lt (f.literal 1 1) (f.literal 1 1) ≡ false
  pub zero_not_above : f.lt (f.literal 1 1) (f.literal 0 1) ≡ false

-- What percentages rest on: comparisons of the literals 0 and 1 with a number, and that a hundred
-- times a number from 0 to 1, which may be no number, is cut off to 100 or more for 1 only.
pub record PercentLaws (f : Float) : Type 0 where
  pub literal_zero : f.literal 0 1 ≡ f.of (pos 0)
  pub one-le-one : f.le (f.literal 1 1) (f.literal 1 1) ≡ true
  pub one-le-zero : f.le (f.literal 1 1) (f.literal 0 1) ≡ false
  pub one-lt-one : f.lt (f.literal 1 1) (f.literal 1 1) ≡ false
  pub one-lt-zero : f.lt (f.literal 1 1) (f.literal 0 1) ≡ false
  pub lt-zero_irrefl : f.lt (f.literal 0 1) (f.literal 0 1) ≡ false
  pub negative : (x : f.Real) → f.lt x (f.literal 0 1) ≡ true → f.le (f.literal 1 1) x ≡ false
  pub above_one : (x : f.Real) → f.lt (f.literal 1 1) x ≡ true → f.le (f.literal 1 1) x ≡ true
  pub hundredfold :
      (x : f.Real)
      → f.lt x (f.literal 0 1) ≡ false
      → f.lt (f.literal 1 1) x ≡ false
      → leb 100 (f.trunc_u64 (f.mul x (f.literal 100 1))) ≡ f.le (f.literal 1 1) x
