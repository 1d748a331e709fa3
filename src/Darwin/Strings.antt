-- ===== src/Darwin/Strings.antt =====
-- A string of the Seatbelt profile reads back as what was escaped.
use claw_crate.Base.{
  ℕ, ◌≡◌, refl, ap, ◌∙◌, Text, Bool, true, false, if◌then◌else◌, Option, none, some, [], ◌∷◌, ◌++◌,
  ◌==◌, ==_iff, append_assoc, arith, Bool-cases, inl, inr,
}
use claw_crate.Darwin.{replace, escape_sbpl_string, escape_sbpl_regex}

-- A reader of what stands between the quotes of a string: a quote ends it, a backslash takes the
-- next character as it is, and before an `n` stands for a newline.
abbrev pub escaped_char : ℕ → ℕ
escaped_char c = if c == b'n' then 10 else c

abbrev pub put : ℕ → Option (Text × Text) → Option (Text × Text)
put c none = none
put c (some (value, rest)) = some (c ∷ value, rest)

-- The flag tells whether a backslash stands just before.
unfoldable pub read_string : Bool → Text → Option (Text × Text)
read_string escaped [] = none
read_string true (c ∷ s) = put (escaped_char c) (read_string false s)
read_string false (c ∷ s) =
    let behind = read_string true s in
    let next = read_string false s in
    if c == 34 then some ([], s) else if c == 92 then behind else put c next

-- One character of the escaped text.
abbrev pub escape_char : ℕ → Text
escape_char c =
    if c == 92
    then 92 ∷ 92 ∷ []
    else if c == 34
    then 92 ∷ 34 ∷ []
    else if c == 10
    then 92 ∷ b'n' ∷ []
    else c ∷ []

escape_cons :
    (c : ℕ) (value : Text)
    → escape_sbpl_string (c ∷ value) ≡ escape_char c ++ escape_sbpl_string value
unfolding escape_sbpl_string replace
escape_cons c value = elim (Bool-cases (c == 92)) [
  | inl backslash ↦ rw backslash refl
  | inr other ↦ elim (Bool-cases (c == 34)) [
    | inl quote ↦ rw (other, quote) refl
    | inr plain ↦ rw (other, plain) (ground arith)
  ]
]

read_string-escape_char :
    (c : ℕ) (s : Text) → read_string false (escape_char c ++ s) ≡ put c (read_string false s)
unfolding read_string
read_string-escape_char c s = elim (Bool-cases (c == 92)) [
  | inl backslash ↦ rw ((==_iff c 92).0 backslash) refl
  | inr other ↦ elim (Bool-cases (c == 34)) [
    | inl quote ↦ rw ((==_iff c 34).0 quote) refl
    | inr plain ↦ elim (Bool-cases (c == 10)) [
      | inl newline ↦ rw ((==_iff c 10).0 newline) refl
      | inr char ↦ rw (other, plain, char) (rw (plain, other) refl)
    ]
  ]
]

-- Whatever a text holds, quotes, backslashes and newlines included: the reader gets from its
-- escaped form and a closing quote the text, and stands right behind the quote.
pub read-escape_sbpl_string :
    (value rest : Text)
    → read_string false (escape_sbpl_string value ++ 34 ∷ rest) ≡ some (value, rest)
read-escape_sbpl_string [] rest = unfold read_string escape_sbpl_string replace in refl
read-escape_sbpl_string (c ∷ value) rest =
    ap (λ t. read_string false (t ++ 34 ∷ rest)) (escape_cons c value)
    ∙ ap (read_string false) (append_assoc (escape_char c) (escape_sbpl_string value) (34 ∷ rest))
    ∙ read_string-escape_char c (escape_sbpl_string value ++ 34 ∷ rest)
    ∙ ap (put c) (read-escape_sbpl_string value rest)

-- In a regular expression newlines are left as they are.
abbrev escape_regex_char : ℕ → Text
escape_regex_char c = if c == 92 then 92 ∷ 92 ∷ [] else if c == 34 then 92 ∷ 34 ∷ [] else c ∷ []

escape_regex_cons :
    (c : ℕ) (value : Text)
    → escape_sbpl_regex (c ∷ value) ≡ escape_regex_char c ++ escape_sbpl_regex value
unfolding escape_sbpl_regex replace
escape_regex_cons c value = elim (Bool-cases (c == 92)) [
  | inl backslash ↦ rw backslash refl
  | inr other ↦ elim (Bool-cases (c == 34)) [
    | inl quote ↦ rw (other, quote) refl
    | inr plain ↦ rw (other, plain) refl
  ]
]

read_string-escape_regex_char :
    (c : ℕ) (s : Text) → read_string false (escape_regex_char c ++ s) ≡ put c (read_string false s)
unfolding read_string
read_string-escape_regex_char c s = elim (Bool-cases (c == 92)) [
  | inl backslash ↦ rw ((==_iff c 92).0 backslash) refl
  | inr other ↦ elim (Bool-cases (c == 34)) [
    | inl quote ↦ rw ((==_iff c 34).0 quote) refl
    | inr plain ↦ rw (other, plain) (rw (plain, other) refl)
  ]
]

-- The same for the escaped form of a regular expression.
pub read-escape_sbpl_regex :
    (value rest : Text)
    → read_string false (escape_sbpl_regex value ++ 34 ∷ rest) ≡ some (value, rest)
read-escape_sbpl_regex [] rest = unfold read_string escape_sbpl_regex replace in refl
read-escape_sbpl_regex (c ∷ value) rest =
    ap (λ t. read_string false (t ++ 34 ∷ rest)) (escape_regex_cons c value)
    ∙ ap (read_string false)
        (append_assoc (escape_regex_char c) (escape_sbpl_regex value) (34 ∷ rest))
    ∙ read_string-escape_regex_char c (escape_sbpl_regex value ++ 34 ∷ rest)
    ∙ ap (put c) (read-escape_sbpl_regex value rest)
