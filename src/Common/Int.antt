-- ===== src/Common/Int.antt =====
-- Signed integers over the native numbers, and their two's complement patterns of a given modulus.
use Prim.Native.Nat.{ℕ, suc, ◌-◌, ◌%◌, ◌/◌, ◌≤◌, ◌<◌}
use mathlib.Core.Path.{◌≡◌}
use native.Mathlib.Nat.{mod-eq_of_lt}
use native.Mathlib.Omega.{arith}
use mmids_core.Common.Tests.{ltb, leb, if◌then◌else◌}

-- `negsuc n` is -(n + 1).
pub data ℤ : Type 0 where
  pos : ℕ → ℤ
  negsuc : ℕ → ℤ

abbrev pub pos_part : ℤ → ℕ
pos_part (pos n) = n
pos_part (negsuc n) = 0

abbrev pub neg_part : ℤ → ℕ
neg_part (pos n) = 0
neg_part (negsuc n) = suc n

-- a - b, as an integer.
abbrev pub sub_ℕ : ℕ → ℕ → ℤ
sub_ℕ a b = if leb b a then pos (a - b) else negsuc (b - a - 1)

-- The bit pattern of an integer, `x as uN`, for m = 2 ^ N.
abbrev pub to_word : ℕ → ℤ → ℕ
to_word m (pos n) = n % m
to_word m (negsuc n) = m - 1 - n % m

-- The integer of a bit pattern, `x as iN`.
abbrev pub of_word : ℕ → ℕ → ℤ
of_word m n = if ltb n (m / 2) then pos n else negsuc (m - 1 - n)

-- The integers that N bits hold.
abbrev pub Fits : ℕ → ℤ → Type 0
Fits m z = (pos_part z < m / 2) × (neg_part z ≤ m / 2)

pub of_word-to_word : (m : ℕ) (z : ℤ) → (0 < m) → m % 2 ≡ 0 → Fits m z → of_word m (to_word m z) ≡ z
of_word-to_word m (pos n) p e h =
    let small : n % m ≡ n = mod-eq_of_lt (omega arith) in rw small (ground arith)
of_word-to_word m (negsuc n) p e h =
    let small : n % m ≡ n = mod-eq_of_lt (omega arith) in rw small (ground arith)

pub to_word-lt : (m : ℕ) (z : ℤ) → 0 < m → to_word m z < m
to_word-lt m (pos n) p = grind arith
to_word-lt m (negsuc n) p = omega arith
