-- ===== src/Approval/References.antt =====
-- The hosts that a command's arguments name (crates/clawcrate-cli/src/approval.rs).
use claw_crate.Base.{
  ℕ, zero, suc, ◌+◌, Text, codes, Bool, true, false, ◌&&◌, ◌||◌, not, if◌then◌else◌, Option, none,
  some, [], ◌∷◌, length, any, text_eq, is_empty, starts_with, contains_char, strip_prefix,
  split_once, rsplit_once, trim, trim_start_matches, trim_end_matches, to_ascii_lowercase, ◌==◌,
  leb,
}

abbrev pub unwrap_or : Option Text → Text → Text
unwrap_or none default = default
unwrap_or (some a) default = a

abbrev pub second : Option (Text × Text) → Option Text
second none = none
second (some (a, b)) = some b

abbrev pub first : Option (Text × Text) → Option Text
first none = none
first (some (a, b)) = some a

unfoldable pub normalize_host : Text → Text
unfolding trim rsplit_once trim_start_matches trim_end_matches to_ascii_lowercase
normalize_host input =
    let without_userinfo = unwrap_or (second (rsplit_once 64 (trim input))) (trim input) in
    to_ascii_lowercase (
      trim_end_matches (λ c. c == 46)
        (trim_end_matches (λ c. c == 93) (trim_start_matches (λ c. c == 91) without_userinfo)))

-- `contains` of a text.
unfoldable pub contains : Text → Text → Bool
unfolding starts_with
contains [] t = starts_with [] t
contains (c ∷ s) t = starts_with (c ∷ s) t || contains s t

unfoldable pub without_port : Text → Text
unfolding rsplit_once
without_port host_port = elim (rsplit_once 58 host_port) [
  | none ↦ host_port
  | some (host, port) ↦ if is_empty host then host_port else host
]

unfoldable pub split_host_port : Text → Option Text
unfolding split_once rsplit_once strip_prefix without_port
split_host_port input =
    let authority = unwrap_or (first (split_once 47 input)) input in
    if is_empty authority
    then none
    else (let host_port = unwrap_or (second (rsplit_once 64 authority)) authority in
        elim (strip_prefix host_port (codes "[")) [
          | some rest ↦ first (split_once 93 rest)
          | none ↦ some (without_port host_port)
        ])

abbrev pub normalized : Option Text → Option Text
normalized none = none
normalized (some host) = some (normalize_host host)

-- An argument without an assignment.
unfoldable pub extract_plain : Text → Option Text
unfolding strip_prefix split_host_port contains split_once contains_char normalize_host
extract_plain trimmed = elim (strip_prefix trimmed (codes "https://")) [
  | some rest ↦ normalized (split_host_port rest)
  | none ↦ elim (strip_prefix trimmed (codes "http://")) [
    | some rest ↦ normalized (split_host_port rest)
    | none ↦ elim (strip_prefix trimmed (codes "ssh://")) [
      | some rest ↦ normalized (split_host_port rest)
      | none ↦ if contains trimmed (codes "://") then none else elim (split_once 58 trimmed) [
        | none ↦ none
        | some (authority, path) ↦
            if contains_char 64 authority then some (normalize_host authority) else none
      ]
    ]
  ]
]

-- What an assigned value gives, or else the argument itself.
abbrev pub or_plain : Text → Option (Option Text) → Option (Option Text)
or_plain trimmed none = none
or_plain trimmed (some none) = some (extract_plain trimmed)
or_plain trimmed (some (some host)) = some (some host)

-- On fuel, which `none` says is out.
unfoldable pub extract_from : ℕ → Text → Option (Option Text)
unfolding trim split_once extract_plain
extract_from zero value = none
extract_from (suc fuel) value =
    let trimmed = trim value in
    if is_empty trimmed then some none else elim (split_once 61 trimmed) [
      | none ↦ some (extract_plain trimmed)
      | some (name, assigned_value) ↦
          if is_empty assigned_value
          then some (extract_plain trimmed)
          else or_plain trimmed (extract_from fuel assigned_value)
    ]

abbrev pub flatten : Option (Option Text) → Option Text
flatten none = none
flatten (some o) = o

unfoldable pub extract_host_from_reference : Text → Option Text
unfolding extract_from
extract_host_from_reference value = flatten (extract_from (length value + 1) value)

abbrev pub is_alphabetic : ℕ → Bool
is_alphabetic c = (leb 65 c && leb c 90) || (leb 97 c && leb c 122)

abbrev pub is_none : Option Text → Bool
is_none none = true
is_none (some a) = false

abbrev pub right_hand_side : Text → Text
right_hand_side trimmed = elim (rsplit_once 61 trimmed) [
  | none ↦ trimmed
  | some (name, value) ↦ if is_empty (trim value) then trimmed else trim value
]

-- The tests behind the first two, in turn; `parse_ip` is `parse::<IpAddr>`.
unfoldable pub is_ambiguous_network_reference : (Text → Option Text) → Text → Bool
unfolding trim rsplit_once starts_with contains contains_char text_eq to_ascii_lowercase
is_ambiguous_network_reference parse_ip value =
    let trimmed = trim value in
    let candidate = right_hand_side trimmed in
    if is_empty trimmed
    then false
    else if starts_with candidate (codes "-")
    then false
    else if starts_with candidate (codes "$") || contains candidate (codes "${")
    then true
    else if contains candidate (codes "://")
    then true
    else if contains_char 64 candidate && contains_char 58 candidate
    then true
    else if text_eq (to_ascii_lowercase candidate) (codes "localhost")
        || not (is_none (parse_ip candidate))
    then true
    else if contains_char 47 candidate || contains_char 92 candidate
    then false
    else contains_char 46 candidate && any is_alphabetic candidate
