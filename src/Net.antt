-- ===== src/Net.antt =====
-- Lists of addresses in parameters: mmids-core/src/net/mod.rs. The CIDR library's `from_str` is a
-- parameter.
use mmids_core.Common.{
  ℕ, String, ◌≡◌, refl, sym, Bool, true, false, ◌||◌, Option, none, some, List, [], ◌∷◌, Result, ok,
  err, is_empty, is_ok, is_some, ◌&&◌, ok-injective, Option-cases, Result-cases, inl, inr,
}
use mmids_core.Common.Text.{split, parse_ipv4}
use mmids_core.RtmpServer.Types.{IpAddress, exact_address, cidr, matches, matches_any}

-- What the CIDR library reads from a text.
pub data IpCidr (C : Type 0) : Type 0 where
  ipv4_cidr : C → IpCidr C
  ipv6_cidr : IpCidr C

pub data IpAddressParseError : Type 0 where
  invalid_value : String → IpAddressParseError

module _ {C : Type 0} (from_str : String → Option (IpCidr C)) where
  abbrev range_of : Option (IpCidr C) → Option (IpAddress C)
  range_of (some (ipv4_cidr c)) = some (cidr c)
  range_of _ = none

  -- One piece of the list.
  unfoldable pub parse_address : String → Option (IpAddress C)
  parse_address input = elim (parse_ipv4 input) [
    | some ip ↦ some (exact_address ip)
    | none ↦ range_of (from_str input)
  ]

  -- The loop over the pieces: it ends at the first that is neither an address nor a range.
  unfoldable pub parse_all : List String → Result (List (IpAddress C)) IpAddressParseError
  parse_all [] = ok []
  parse_all (input ∷ rest) = elim (parse_address input) [
    | none ↦ err (invalid_value input)
    | some ip ↦ elim (parse_all rest) [ ok ips ↦ ok (ip ∷ ips) | err e ↦ err e ]
  ]

  unfoldable pub parse_comma_delimited_list :
      Option String → Result (List (IpAddress C)) IpAddressParseError
  parse_comma_delimited_list none = ok []
  parse_comma_delimited_list (some input) = parse_all (split 44 input)

  -- A piece of text that stands for an address, or for a range with it.
  unfoldable pub names : (C → ℕ → Bool) → String → ℕ → Bool
  names within piece a = elim (parse_address piece) [ none ↦ false | some ip ↦ matches within ip a ]

  unfoldable pub names_any : (C → ℕ → Bool) → List String → ℕ → Bool
  names_any within [] a = false
  names_any within (piece ∷ pieces) a = names within piece a || names_any within pieces a

  names_lem :
      (within : C → ℕ → Bool) (piece : String) (a : ℕ) (ip : IpAddress C)
      → parse_address piece ≡ some ip
      → names within piece a ≡ matches within ip a
  unfolding names
  names_lem within piece a ip h = rw (names, h) refl

  parsed_first :
      (piece : String) (pieces : List String) (ips : List (IpAddress C))
      → parse_all (piece ∷ pieces) ≡ ok ips
      → (ip : IpAddress C) × (rest : List (IpAddress C)) × (parse_address piece ≡ some ip)
        × (parse_all pieces ≡ ok rest)
        × (ips ≡ ip ∷ rest)
  unfolding parse_all
  parsed_first piece pieces ips h = elim (Option-cases (parse_address piece)) [
    | inl p ↦ let refused = rw (parse_all, p) at h in cc
    | inr (ip, p) ↦ elim (Result-cases (parse_all pieces)) [
      | inl (e, q) ↦ let refused = rw (parse_all, p, q) at h in cc
      | inr (rest, q) ↦ (ip, rest, p, q, sym (ok-injective (rw (parse_all, p, q) at h)))
    ]
  ]

  pub matches_any-parse_all :
      (within : C → ℕ → Bool) (pieces : List String) (ips : List (IpAddress C)) (a : ℕ)
      → parse_all pieces ≡ ok ips
      → matches_any within ips a ≡ names_any within pieces a
  unfolding parse_all matches_any names_any
  matches_any-parse_all within [] ips a h = rw (← ok-injective h) refl
  matches_any-parse_all within (piece ∷ pieces) ips a h =
      let (ip, rest, first, others, same) = parsed_first piece pieces ips h in
      rw same
        (cc (names_lem within piece a ip first, matches_any-parse_all within pieces rest a others))

  pub is_empty-parse_all :
      (pieces : List String) (ips : List (IpAddress C))
      → parse_all pieces ≡ ok ips
      → is_empty ips ≡ is_empty pieces
  unfolding parse_all
  is_empty-parse_all [] ips h = rw (← ok-injective h) refl
  is_empty-parse_all (piece ∷ pieces) ips h =
      let (ip, rest, first, others, same) = parsed_first piece pieces ips h in rw same refl

  -- Every piece is an address or an IPv4 range.
  unfoldable pub all_parse : List String → Bool
  all_parse [] = true
  all_parse (piece ∷ pieces) = is_some (parse_address piece) && all_parse pieces

  pub is_ok-parse_all : (pieces : List String) → is_ok (parse_all pieces) ≡ all_parse pieces
  unfolding parse_all all_parse
  is_ok-parse_all [] = refl
  is_ok-parse_all (piece ∷ pieces) = elim (Option-cases (parse_address piece)) [
    | inl p ↦ rw (p, parse_all, all_parse) refl
    | inr (ip, p) ↦ elim (Result-cases (parse_all pieces)) [
      | inl (e, q) ↦ rw (p, ← is_ok-parse_all pieces, parse_all, all_parse, q) refl
      | inr (ips, q) ↦ rw (p, ← is_ok-parse_all pieces, parse_all, all_parse, q) refl
    ]
  ]
