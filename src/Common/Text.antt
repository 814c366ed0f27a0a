-- ===== src/Common/Text.antt =====
-- What the standard library does with the texts of parameters: `trim`, `split`, and `parse` for `u16`
-- and `Ipv4Addr`. An address is its 32-bit number.
use Prim.Native.Char.{Char, code}
use mmids_core.Common.{
  not, ◌^◌, ◌≤◌, Bool-cases, Option-cases, inl, inr, arith, ℕ, ◌+◌, ◌-◌, ◌*◌, String, ◌≡◌, refl,
  ◌≢◌, Bool, ◌&&◌, ◌||◌, Option, none, some, List, [], ◌∷◌, if◌then◌else◌, ltb, leb, ◌==◌, nat_eq,
  string_eq,
}
use mmids_core.Metadata.Buffer.{◌>>=◌}

is_whitespace : ℕ → Bool
is_whitespace c =
    leb 9 c && leb c 13
    || c == 32
    || c == 133
    || c == 160
    || c == 5760
    || leb 8192 c && leb c 8202
    || c == 8232
    || c == 8233
    || c == 8239
    || c == 8287
    || c == 12288

trim_start : String → String
trim_start String.[] = String.[]
trim_start (String.◌∷◌ c rest) =
    if is_whitespace (code c) then trim_start rest else String.◌∷◌ c rest

trim_end : String → String
trim_end String.[] = String.[]
trim_end (String.◌∷◌ c rest) =
    let trimmed = trim_end rest in
    if trimmed == "" && is_whitespace (code c) then "" else String.◌∷◌ c trimmed

unfoldable pub trim : String → String
unfolding trim_start trim_end is_whitespace
trim s = trim_start (trim_end s)

put_first : Char → List String → List String
put_first c [] = []
put_first c (piece ∷ pieces) = String.◌∷◌ c piece ∷ pieces

-- The pieces between the separators, one more than there are separators.
unfoldable pub split : ℕ → String → List String
unfolding put_first
split separator String.[] = "" ∷ []
split separator (String.◌∷◌ c rest) =
    let pieces = split separator rest in
    if code c == separator then "" ∷ pieces else put_first c pieces

put_first-nonempty : (c : Char) (pieces : List String) → pieces ≢ [] → put_first c pieces ≢ []
unfolding put_first
put_first-nonempty c [] n h = n refl
put_first-nonempty c (piece ∷ pieces) n h = cc

pub split-nonempty : (separator : ℕ) (s : String) → split separator s ≢ []
unfolding split put_first
split-nonempty separator String.[] h = cc
split-nonempty separator (String.◌∷◌ c rest) h = elim (Bool-cases (code c == separator)) [
  | inl same ↦ let emptied = rw same at h in cc
  | inr differs ↦
      put_first-nonempty c (split separator rest) (split-nonempty separator rest) (rw differs at h)
]

-- The number that the digits spell, after those that are read.
decimal : ℕ → String → Option ℕ
decimal n String.[] = some n
decimal n (String.◌∷◌ c rest) =
    if leb 48 (code c) && leb (code c) 57 then decimal (n * 10 + (code c - 48)) rest else none

-- A number of at most a bound, from digits of which there is one.
at_most : ℕ → String → Option ℕ
unfolding decimal
at_most bound String.[] = none
at_most bound (String.◌∷◌ c rest) =
    decimal 0 (String.◌∷◌ c rest) >>= λ n. if ltb bound n then none else some n

unsigned : String → String
unsigned String.[] = String.[]
unsigned (String.◌∷◌ c rest) = if code c == 43 then rest else String.◌∷◌ c rest

-- `parse::<u16>`: a plus sign may stand before the digits.
unfoldable pub parse_u16 : String → Option ℕ
unfolding at_most unsigned
parse_u16 s = at_most 65535 (unsigned s)

-- A number of an address has no leading zero.
octet : String → Option ℕ
unfolding at_most
octet String.[] = none
octet (String.◌∷◌ c rest) =
    if code c == 48 && not (rest == "") then none else at_most 255 (String.◌∷◌ c rest)

address_of : List String → Option ℕ
unfolding octet
address_of (first ∷ second ∷ third ∷ fourth ∷ []) = do
  a ← octet first
  b ← octet second
  c ← octet third
  d ← octet fourth
  some (a * 2 ^ 24 + b * 2 ^ 16 + c * 2 ^ 8 + d)
address_of _ = none

-- `parse::<Ipv4Addr>`.
unfoldable pub parse_ipv4 : String → Option ℕ
unfolding address_of
parse_ipv4 s = address_of (split 46 s)

at_most_bound : (bound : ℕ) (s : String) (n : ℕ) → at_most bound s ≡ some n → n ≤ bound
unfolding at_most
at_most_bound bound String.[] n h = cc
at_most_bound bound (String.◌∷◌ c rest) n h = elim (Option-cases (decimal 0 (String.◌∷◌ c rest))) [
  | inl p ↦ let absent = rw p at h in cc
  | inr (m, p) ↦ let tested = rw p at h in ground arith
]

pub parse_u16_bound : (s : String) (n : ℕ) → parse_u16 s ≡ some n → n ≤ 65535
unfolding parse_u16
parse_u16_bound s n h = at_most_bound 65535 (unsigned s) n h
