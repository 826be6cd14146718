-- ===== src/Prelude/Bits.antt =====
-- Laws of `|` and `&` at variables, digit by digit: the lowest digit of the result, and its other
-- digits. `halve k` is a right shift by `k`, in unary steps.
use Prim.Native.Nat.{ℕ, zero, suc, ◌+◌, ◌*◌, ◌/◌, ◌%◌, ◌≤◌, ◌<◌, max, bit_or, digits}
use Prim.Native.Nat.{bit_or-bitwise}
use mathlib.Core.Path.{◌≡◌, refl, ap, ◌∙◌}
use native.Mathlib.Omega.{arith}

abbrev or_digits : ℕ → ℕ → ℕ → ℕ
or_digits n a b = digits (λ b. b) max n a b

or_digits_fuel : (n m a b : ℕ) → a ≤ n → a ≤ m → or_digits n a b ≡ or_digits m a b
or_digits_fuel zero zero a b p q = refl
or_digits_fuel zero (suc m) zero b p q = refl
or_digits_fuel zero (suc m) (suc a) b p q = absurd (omega arith)
or_digits_fuel (suc n) zero zero b p q = refl
or_digits_fuel (suc n) zero (suc a) b p q = absurd (omega arith)
or_digits_fuel (suc n) (suc m) zero b p q = refl
or_digits_fuel (suc n) (suc m) (suc a) b p q =
    omega (arith, or_digits_fuel n m (suc a / 2) (b / 2) (omega arith) (omega arith))

zero-bit_or : (b : ℕ) → bit_or 0 b ≡ b
zero-bit_or b = bit_or-bitwise 0 b

pub bit_or_step : (a b : ℕ) → bit_or a b ≡ bit_or (a / 2) (b / 2) * 2 + max (a % 2) (b % 2)
bit_or_step zero b = omega (arith, zero-bit_or b, zero-bit_or (b / 2))
bit_or_step (suc a) b = omega (
  arith,
  bit_or-bitwise (suc a) b,
  bit_or-bitwise (suc a / 2) (b / 2),
  or_digits_fuel a (suc a / 2) (suc a / 2) (b / 2) (omega arith) (omega arith),
)

bit_or-zero_fuel : (n a : ℕ) → a ≤ n → bit_or a 0 ≡ a
bit_or-zero_fuel n zero h = zero-bit_or 0
bit_or-zero_fuel zero (suc a) h = absurd (omega arith)
bit_or-zero_fuel (suc n) (suc a) h =
    omega (arith, bit_or_step (suc a) 0, bit_or-zero_fuel n (suc a / 2) (omega arith))

pub bit_or-zero : (a : ℕ) → bit_or a 0 ≡ a
bit_or-zero a = bit_or-zero_fuel a a (omega arith)

pub halve : ℕ → ℕ → ℕ
halve zero x = x
halve (suc k) x = halve k (x / 2)

pub halve_12 : (x : ℕ) → halve 12 x ≡ x / 4096
unfolding halve
halve_12 x = omega arith

halve-bit_or : (k a b : ℕ) → halve k (bit_or a b) ≡ bit_or (halve k a) (halve k b)
unfolding halve
halve-bit_or zero a b = refl
halve-bit_or (suc k) a b =
    let e : bit_or a b / 2 ≡ bit_or (a / 2) (b / 2) = omega (arith, bit_or_step a b) in
    ap (halve k) e ∙ halve-bit_or k (a / 2) (b / 2)

-- Flags in the low twelve bits leave the page number as it is.
pub bit_or_page : (a b : ℕ) → b < 4096 → bit_or a b / 4096 ≡ a / 4096
bit_or_page a b h =
    let z : halve 12 b ≡ 0 = omega (arith, halve_12 b) in
    omega (
      arith,
      halve_12 (bit_or a b),
      halve_12 a,
      halve-bit_or 12 a b,
      ap (bit_or (halve 12 a)) z,
      bit_or-zero (halve 12 a),
    )

-- The lowest bit is set as soon as one of the two has it.
pub bit_or_low : (a b : ℕ) → b % 2 ≡ 1 → bit_or a b % 2 ≡ 1
bit_or_low a b h = omega (arith, bit_or_step a b)

-- A flag of weight 1, 2 and 256 is set, and the other digits stay.
pub bit_or_1 : (a : ℕ) → bit_or a 1 ≡ a / 2 * 2 + 1
bit_or_1 a = omega (arith, bit_or_step a 1, bit_or-zero (a / 2))

pub bit_or_2 : (a : ℕ) → bit_or a 2 ≡ a / 4 * 4 + 2 + a % 2
bit_or_2 a = omega (arith, bit_or_step a 2, bit_or_1 (a / 2))

bit_or_16 : (a : ℕ) → bit_or a 16 ≡ a / 32 * 32 + 16 + a % 16
bit_or_16 a = omega (
  arith,
  bit_or_step a 16,
  bit_or_step (a / 2) 8,
  bit_or_step (a / 2 / 2) 4,
  bit_or_2 (a / 2 / 2 / 2),
)

pub bit_or_256 : (a : ℕ) → bit_or a 256 ≡ a / 512 * 512 + 256 + a % 256
bit_or_256 a = omega (
  arith,
  bit_or_step a 256,
  bit_or_step (a / 2) 128,
  bit_or_step (a / 2 / 2) 64,
  bit_or_step (a / 2 / 2 / 2) 32,
  bit_or_16 (a / 2 / 2 / 2 / 2),
)
