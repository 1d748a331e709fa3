-- ===== src/Egress/Hosts.antt =====
-- Host names and rules in crates/clawcrate-sandbox/src/egress_proxy.rs. `host.parse::<IpAddr>()`
-- is an argument: the text of the address, if the host is one.
use claw_crate.Base.{
  ℕ, ◌+◌, ◌*◌, ◌-◌, Text, codes, Bool, false, ◌&&◌, Option, none, some, List, [], ◌∷◌, ltb, leb,
  ◌==◌, if◌then◌else◌, text_eq, trim, trim_start_matches, trim_end_matches, to_ascii_lowercase,
  is_empty, strip_prefix, ends_with, any, rsplit_once,
}

unfoldable pub normalize_host : Text → Text
unfolding trim trim_start_matches trim_end_matches to_ascii_lowercase
normalize_host value = to_ascii_lowercase (
    trim_end_matches (λ c. c == 93)
      (trim_start_matches (λ c. c == 91) (trim_end_matches (λ c. c == 46) (trim value))))

unfoldable pub normalize_allowed_domains : List Text → List Text
unfolding normalize_host
normalize_allowed_domains [] = []
normalize_allowed_domains (value ∷ values) =
    let rest = normalize_allowed_domains values in
    if is_empty (normalize_host value) then rest else normalize_host value ∷ rest

abbrev pub is_digit : ℕ → Bool
is_digit c = leb 48 c && leb c 57

-- The digits of a number behind the value read so far; too large a value is an error.
unfoldable pub digits_below : ℕ → ℕ → Text → Option ℕ
digits_below limit value [] = some value
digits_below limit value (c ∷ s) =
    let rest = digits_below limit (10 * value + (c - 48)) s in
    if is_digit c && ltb (10 * value + (c - 48)) limit then rest else none

abbrev pub some_digits : Text → Option ℕ
some_digits [] = none
some_digits (c ∷ s) = digits_below 65536 0 (c ∷ s)

-- `parse::<u16>`: a `+` may stand before the digits, and one digit must be there.
unfoldable pub parse_u16 : Text → Option ℕ
unfolding digits_below strip_prefix
parse_u16 s = elim (strip_prefix s (codes "+")) [
  | some digits ↦ some_digits digits
  | none ↦ some_digits s
]

-- `s.find("]:")` with the texts around it.
unfoldable pub split_bracket : Text → Option (Text × Text)
split_bracket [] = none
split_bracket (c ∷ s) = elim (strip_prefix (c ∷ s) (codes "]:")) [
  | some after ↦ some ([], after)
  | none ↦ elim (split_bracket s) [ none ↦ none | some (a, b) ↦ some (c ∷ a, b) ]
]

abbrev pub host_and_port : Option (Text × Text) → Option (Text × ℕ)
host_and_port none = none
host_and_port (some (host, port)) = elim (parse_u16 port) [
  | none ↦ none
  | some n ↦ some (normalize_host host, n)
]

unfoldable pub parse_connect_target : Text → Option (Text × ℕ)
unfolding parse_u16 split_bracket rsplit_once normalize_host strip_prefix
parse_connect_target value =
    if is_empty value then none else elim (strip_prefix value (codes "[")) [
      | some rest ↦ host_and_port (split_bracket rest)
      | none ↦ host_and_port (rsplit_once 58 value)
    ]

-- Whether a rule lets a normalized host through that is no address.
unfoldable pub rule_allows : Text → Text → Bool
unfolding strip_prefix ends_with text_eq
rule_allows host rule = elim (strip_prefix rule (codes "*.")) [
  | some suffix ↦ ends_with host (46 ∷ suffix)
  | none ↦ text_eq host rule
]

-- Whether a normalized host is allowed that is an address or not.
unfoldable pub allowed_by : Text → List Text → Option Text → Bool
unfolding rule_allows text_eq
allowed_by name allowed_domains (some ip) = any (λ rule. text_eq rule ip) allowed_domains
allowed_by name allowed_domains none = any (rule_allows name) allowed_domains

unfoldable pub is_host_allowed : (Text → Option Text) → Text → List Text → Bool
unfolding normalize_host allowed_by
is_host_allowed parse_ip host allowed_domains =
    let name = normalize_host host in
    if is_empty name then false else allowed_by name allowed_domains (parse_ip name)

unfoldable pub hostnames_match : Text → Text → Bool
unfolding normalize_host text_eq
hostnames_match expected observed = text_eq (normalize_host expected) (normalize_host observed)
