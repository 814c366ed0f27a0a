-- ===== src/Metadata/Buffer.antt =====
-- What the metadata code uses of the `bytes` crate: big-endian `put_u16` and the like, `get_u16` and
-- the like, and `split_to`. A buffer is a list of bytes; a read past the end, which panics in the
-- program, is `none`.
use native.Mathlib.Nat.{pow-suc, pow-zero}
use mmids_core.Common.{
  ℕ, zero, suc, ◌+◌, ◌*◌, ◌/◌, ◌%◌, ◌^◌, ◌<◌, ◌≡◌, refl, Option, none, some, List, [], ◌∷◌, ◌++◌,
  append_assoc, arith, length, length-append, leb, if◌then◌else◌, take, drop, take-append_self,
  drop-append_self,
}

infixl 5 ◌>>=◌
abbrev pub ◌>>=◌ {ℓ κ} : {A : Type ℓ} {B : Type κ} → Option A → (A → Option B) → Option B
none >>= f = none
some a >>= f = f a

-- The low k bytes of a number, the highest first.
unfoldable pub put_be : ℕ → ℕ → List ℕ
put_be zero n = []
put_be (suc k) n = put_be k (n / 256) ++ (n % 256 ∷ [])

unfoldable pub get_byte : List ℕ → Option (ℕ × List ℕ)
get_byte [] = none
get_byte (b ∷ rest) = some (b, rest)

unfoldable pub get_be : ℕ → List ℕ → Option (ℕ × List ℕ)
unfolding get_byte
get_be zero buffer = some (0, buffer)
get_be (suc k) buffer = do
  (high, rest) ← get_be k buffer
  (low, rest') ← get_byte rest
  some (high * 256 + low, rest')

-- `split_to(n)`: the first n bytes and the rest.
unfoldable pub split_to : ℕ → List ℕ → Option (List ℕ × List ℕ)
split_to n buffer = if leb n (length buffer) then some (take n buffer, drop n buffer) else none

pub length-put_be : (k n : ℕ) → length (put_be k n) ≡ k
unfolding put_be
length-put_be zero n = refl
length-put_be (suc k) n =
    omega (arith, length-append (put_be k (n / 256)) (n % 256 ∷ []), length-put_be k (n / 256))

-- What was put is read back, whatever follows.
pub get_be-put_be :
    (k n : ℕ) (rest : List ℕ) → n < 256 ^ k → get_be k (put_be k n ++ rest) ≡ some (n, rest)
unfolding get_be put_be
get_be-put_be zero n rest h = let none_left : n ≡ 0 = omega (arith, pow-zero 256) in rw none_left
get_be-put_be (suc k) n rest h =
    let fits : n / 256 < 256 ^ k = omega (arith, pow-suc 256 k) in
    let whole : n / 256 * 256 + n % 256 ≡ n = omega arith in
    rw (append_assoc (put_be k (n / 256)) (n % 256 ∷ []) rest)
      (rw (get_be-put_be k (n / 256) (n % 256 ∷ rest) fits) (rw whole))

pub split_to-append : (xs rest : List ℕ) → split_to (length xs) (xs ++ rest) ≡ some (xs, rest)
unfolding split_to
split_to-append xs rest =
    rw (take-append_self xs rest, drop-append_self xs rest) (ground (arith, length-append xs rest))
