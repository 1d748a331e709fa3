-- ===== src/Approval/Named.antt =====
-- A command that names a host in a plain address is asked about, unless the host is allowed.
use claw_crate.Base.{
  ℕ, suc, ◌+◌, ◌≡◌, inl, inr, refl, sym, ap, ◌∙◌, subst, append-nil, Text, codes, Bool, true, false,
  not, ◌&&◌, ◌||◌, if◌then◌else◌, Option, none, some, [], ◌∷◌, ◌++◌, any, map, length, leb, ◌==◌,
  text_order, is_empty, is_whitespace, to_lower, trim, trim_end_matches, to_ascii_lowercase,
  split_once, rsplit_once, strip_prefix, arith, Bool-cases,
}
use claw_crate.Approval.References.{
  normalize_host, split_host_port, without_port, extract_plain, extract_from, or_plain, flatten,
  extract_host_from_reference, unwrap_or, first, second,
}
use claw_crate.Approval.Texts.{
  HasNone, HasNone-append, trim_start-none, trim_end-none, trim_end-last, trim-none,
  split_once-none, split_once-first, rsplit_once-none,
}

-- Lower-case letters, digits, dashes and dots.
abbrev pub is_host_char : ℕ → Bool
is_host_char c = (leb 97 c && leb c 122) || (leb 48 c && leb c 57) || c == 45 || c == 46

-- A host of such characters, of which the last is no dot.
abbrev pub IsPlainHost : Text → Type 0
IsPlainHost host =
    (any (λ c. not (is_host_char c)) host ≡ false)
    × ((front : Text) × (last : ℕ) × (host ≡ front ++ last ∷ []) × ((last == 46) ≡ false))

-- Nothing behind the host, or a slash and then neither spaces nor `=`.
abbrev pub IsPlainTail : Text → Type 0
IsPlainTail [] = Unit {0}
IsPlainTail (c ∷ rest) =
    (c ≡ 47) × (any is_whitespace rest ≡ false) × (any (λ d. d == 61) rest ≡ false)

pub data Scheme : Type 0 where
  https http ssh : Scheme

abbrev pub scheme_text : Scheme → Text
scheme_text https = codes "https://"
scheme_text http = codes "http://"
scheme_text ssh = codes "ssh://"

abbrev pub address : Scheme → Text → Text → Text
address scheme host tail = scheme_text scheme ++ (host ++ tail)

-- A host character is none of a kind that no host character is of.
none_of_kind :
    (kind : ℕ → Bool) (s : Text)
    → ((c : ℕ) → is_host_char c ≡ true → kind c ≡ false)
    → any (λ c. not (is_host_char c)) s ≡ false
    → HasNone kind s
none_of_kind kind [] other h = refl
none_of_kind kind (c ∷ s) other h = elim (Bool-cases (is_host_char c)) [
  | inl is_one ↦ rw (other c is_one) (none_of_kind kind s other (ground arith))
  | inr odd ↦ ground arith
]

lower-host : (s : Text) → any (λ c. not (is_host_char c)) s ≡ false → map to_lower s ≡ s
unfolding to_lower
lower-host [] h = refl
lower-host (c ∷ s) h = ground (arith, lower-host s)

host-no_space : (c : ℕ) → is_host_char c ≡ true → is_whitespace c ≡ false
unfolding is_whitespace
host-no_space c h = ground arith

append-not_empty : (s : Text) (c : ℕ) → is_empty (s ++ c ∷ []) ≡ false
append-not_empty [] c = refl
append-not_empty (d ∷ s) c = refl

starts_otherwise : (s : Text) → HasNone (λ d. d == 91) s → strip_prefix s (codes "[") ≡ none
unfolding strip_prefix
starts_otherwise [] h = refl
starts_otherwise (c ∷ s) h = ground arith

abbrev on_trimmed : ℕ → Text → Option (Option Text)
on_trimmed fuel trimmed = if is_empty trimmed then some none else elim (split_once 61 trimmed) [
  | none ↦ some (extract_plain trimmed)
  | some (name, assigned_value) ↦
      if is_empty assigned_value
      then some (extract_plain trimmed)
      else or_plain trimmed (extract_from fuel assigned_value)
]

module _ (host : Text) (plain : IsPlainHost host) where
  has_none :
      (kind : ℕ → Bool) → ((c : ℕ) → is_host_char c ≡ true → kind c ≡ false) → HasNone kind host
  has_none kind other = none_of_kind kind host other plain.0

  no_spaces : HasNone is_whitespace host
  no_spaces = has_none is_whitespace host-no_space

  no_user : rsplit_once 64 host ≡ none
  no_user = rsplit_once-none 64 host (has_none (λ d. d == 64) (λ c h. ground arith))

  no_last_dot : trim_end_matches (λ c. c == 46) host ≡ host
  no_last_dot =
      let (front, last, e, h) = plain.1 in
      subst (λ t. trim_end_matches (λ c. c == 46) t ≡ t) (sym e)
        (trim_end-last (λ c. c == 46) front last h)

  pub normalize-plain : normalize_host host ≡ host
  unfolding normalize_host
  normalize-plain =
      rw
        (
          normalize_host,
          trim-none host no_spaces,
          no_user,
          trim_start-none (λ c. c == 91) host (has_none (λ d. d == 91) (λ c h. ground arith)),
          trim_end-none (λ c. c == 93) host (has_none (λ d. d == 93) (λ c h. ground arith)),
          no_last_dot,
        )
        (unfold to_ascii_lowercase in lower-host host plain.0)

  not_empty : is_empty host ≡ false
  not_empty =
      let (front, last, e, h) = plain.1 in
      subst (λ t. is_empty t ≡ false) (sym e) (append-not_empty front last)

  no_bracket : strip_prefix host (codes "[") ≡ none
  no_bracket = starts_otherwise host (has_none (λ d. d == 91) (λ c h. ground arith))

  no_port : without_port host ≡ host
  unfolding without_port
  no_port =
      rw (without_port, rsplit_once-none 58 host (has_none (λ d. d == 58) (λ c h. ground arith)))
        refl

  abbrev from_authority : Text → Option Text
  from_authority authority =
      if is_empty authority
      then none
      else elim (strip_prefix (unwrap_or (second (rsplit_once 64 authority)) authority)
          (codes "[")) [
            | some rest ↦ first (split_once 93 rest)
            | none ↦ some (without_port (unwrap_or (second (rsplit_once 64 authority)) authority))
          ]

  of_authority :
      (input : Text)
      → unwrap_or (first (split_once 47 input)) input ≡ host
      → split_host_port input ≡ some host
  unfolding split_host_port
  of_authority input e =
      ap from_authority e ∙ rw (not_empty, no_user, no_bracket, no_user, no_port) refl

  no_slash : HasNone (λ d. d == 47) host
  no_slash = has_none (λ d. d == 47) (λ c h. ground arith)

  split_host_port-plain :
      (tail : Text) → IsPlainTail tail → split_host_port (host ++ tail) ≡ some host
  split_host_port-plain [] t = of_authority (host ++ []) (
      subst (λ x. unwrap_or (first (split_once 47 x)) x ≡ host) (sym (append-nil host))
        (rw (split_once-none 47 host no_slash) refl))
  split_host_port-plain (c ∷ tail) (e, s, q) = of_authority (host ++ c ∷ tail) (
      subst (λ x. unwrap_or (first (split_once 47 (host ++ x ∷ tail))) (host ++ x ∷ tail) ≡ host)
        (sym e) (rw (split_once-first 47 host tail no_slash) refl))

  module _ (tail : Text) (plain_tail : IsPlainTail tail) where
    from_scheme : (scheme : Scheme) → extract_plain (address scheme host tail) ≡ some host
    unfolding extract_plain strip_prefix
    from_scheme https = rw (split_host_port-plain tail plain_tail, normalize-plain) refl
    from_scheme http = rw (split_host_port-plain tail plain_tail, normalize-plain) refl
    from_scheme ssh = rw (split_host_port-plain tail plain_tail, normalize-plain) refl

    tail-no_spaces : (t : Text) → IsPlainTail t → HasNone is_whitespace t
    unfolding is_whitespace
    tail-no_spaces [] h = refl
    tail-no_spaces (c ∷ t) (e, s, q) = rw (e, s) refl

    tail-no_equals : (t : Text) → IsPlainTail t → HasNone (λ d. d == 61) t
    tail-no_equals [] h = refl
    tail-no_equals (c ∷ t) (e, s, q) = rw (e, q) refl

    scheme-no_spaces : (scheme : Scheme) → HasNone is_whitespace (scheme_text scheme)
    unfolding is_whitespace
    scheme-no_spaces https = refl
    scheme-no_spaces http = refl
    scheme-no_spaces ssh = refl

    scheme-no_equals : (scheme : Scheme) → HasNone (λ d. d == 61) (scheme_text scheme)
    scheme-no_equals https = refl
    scheme-no_equals http = refl
    scheme-no_equals ssh = refl

    address-not_empty : (scheme : Scheme) → is_empty (address scheme host tail) ≡ false
    address-not_empty https = refl
    address-not_empty http = refl
    address-not_empty ssh = refl

    address-trim : (scheme : Scheme) → trim (address scheme host tail) ≡ address scheme host tail
    address-trim scheme = trim-none (address scheme host tail) (
        HasNone-append is_whitespace (scheme_text scheme) (host ++ tail) (scheme-no_spaces scheme)
          (HasNone-append is_whitespace host tail no_spaces (tail-no_spaces tail plain_tail)))

    address-split : (scheme : Scheme) → split_once 61 (address scheme host tail) ≡ none
    address-split scheme = split_once-none 61 (address scheme host tail) (
        HasNone-append (λ d. d == 61) (scheme_text scheme) (host ++ tail) (scheme-no_equals scheme)
          (HasNone-append (λ d. d == 61) host tail (has_none (λ d. d == 61) (λ c h. ground arith))
            (tail-no_equals tail plain_tail)))

    from_fuel :
        (fuel : ℕ) (scheme : Scheme)
        → extract_from (suc fuel) (address scheme host tail) ≡ some (some host)
    unfolding extract_from
    from_fuel fuel scheme =
        ap (on_trimmed fuel) (address-trim scheme)
        ∙ rw (address-not_empty scheme, address-split scheme) (ap some (from_scheme scheme))

    -- The host of the address is what is read of it.
    pub extract_host-address :
        (scheme : Scheme) → extract_host_from_reference (address scheme host tail) ≡ some host
    unfolding extract_host_from_reference
    extract_host-address scheme =
        let arg = address scheme host tail in
        let one_more : length arg + 1 ≡ suc (length arg) = omega arith in
        ap (λ n. flatten (extract_from n arg)) one_more ∙ ap flatten (from_fuel (length arg) scheme)
