-- ===== src/Common/Bits.antt =====
-- `bit_or` with a number that is shifted left: the digits below the shift stay.
use Prim.Native.Nat.{ℕ, zero, suc, ◌+◌, ◌*◌, ◌/◌, ◌%◌, ◌≤◌, max, bit_or, digits, bit_or-bitwise}
use mathlib.Core.Path.{◌≡◌, refl}
use native.Mathlib.Omega.{arith}

abbrev or_digits : ℕ → ℕ → ℕ → ℕ
or_digits n a b = digits (λ b. b) max n a b

or_digits_fuel : (n m a b : ℕ) → a ≤ n → a ≤ m → or_digits n a b ≡ or_digits m a b
or_digits_fuel zero zero a b p q = refl
or_digits_fuel zero (suc m) zero b p q = refl
or_digits_fuel zero (suc m) (suc a) b p q = absurd (omega arith)
or_digits_fuel (suc n) zero zero b p q = refl
or_digits_fuel (suc n) zero (suc a) b p q = absurd (omega arith)
or_digits_fuel (suc n) (suc m) zero b p q = refl
or_digits_fuel (suc n) (suc m) (suc a) b p q =
    omega (arith, or_digits_fuel n m (suc a / 2) (b / 2) (omega arith) (omega arith))

pub zero-bit_or : (b : ℕ) → bit_or 0 b ≡ b
zero-bit_or b = bit_or-bitwise 0 b

bit_or_step : (a b : ℕ) → bit_or a b ≡ bit_or (a / 2) (b / 2) * 2 + max (a % 2) (b % 2)
bit_or_step zero b = omega (arith, zero-bit_or b, zero-bit_or (b / 2))
bit_or_step (suc a) b = omega (
  arith,
  bit_or-bitwise (suc a) b,
  bit_or-bitwise (suc a / 2) (b / 2),
  or_digits_fuel a (suc a / 2) (suc a / 2) (b / 2) (omega arith) (omega arith),
)

or_half : (a b t : ℕ) → b / 2 ≡ t → b % 2 ≡ 0 → bit_or a b ≡ bit_or (a / 2) t * 2 + a % 2
or_half a b t e z = rw (← e) (omega (arith, bit_or_step a b))

-- One shift after another: by 1, 2, 4, 8 and 12 digits.
or_shift_1 : (a t : ℕ) → bit_or a (t * 2) ≡ bit_or (a / 2) t * 2 + a % 2
or_shift_1 a t = or_half a (t * 2) t (omega arith) (omega arith)

or_shift_2 : (a t : ℕ) → bit_or a (t * 4) ≡ bit_or (a / 4) t * 4 + a % 4
or_shift_2 a t =
    let twice : t * 4 ≡ t * 2 * 2 = omega arith in
    let quarter : a / 4 ≡ a / 2 / 2 = omega arith in
    rw (twice, quarter) (omega (arith, or_shift_1 a (t * 2), or_shift_1 (a / 2) t))

or_shift_4 : (a t : ℕ) → bit_or a (t * 16) ≡ bit_or (a / 16) t * 16 + a % 16
or_shift_4 a t =
    let twice : t * 16 ≡ t * 4 * 4 = omega arith in
    let parts : a / 16 ≡ a / 4 / 4 = omega arith in
    rw (twice, parts) (omega (arith, or_shift_2 a (t * 4), or_shift_2 (a / 4) t))

or_shift_8 : (a t : ℕ) → bit_or a (t * 256) ≡ bit_or (a / 256) t * 256 + a % 256
or_shift_8 a t =
    let twice : t * 256 ≡ t * 16 * 16 = omega arith in
    let parts : a / 256 ≡ a / 16 / 16 = omega arith in
    rw (twice, parts) (omega (arith, or_shift_4 a (t * 16), or_shift_4 (a / 16) t))

pub or_shift_12 : (a t : ℕ) → bit_or a (t * 4096) ≡ bit_or (a / 4096) t * 4096 + a % 4096
or_shift_12 a t =
    let twice : t * 4096 ≡ t * 16 * 256 = omega arith in
    let parts : a / 4096 ≡ a / 256 / 16 = omega arith in
    rw (twice, parts) (omega (arith, or_shift_8 a (t * 16), or_shift_4 (a / 256) t))
