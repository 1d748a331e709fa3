-- ===== src/Darwin/Globs.antt =====
-- The regular expression of a pattern reads back as the pattern.
use claw_crate.Base.{
  ℕ, ◌≡◌, refl, ap, ◌∙◌, Text, Bool, true, false, ◌&&◌, ◌||◌, not, if◌then◌else◌, Option, none,
  some, List, [], ◌∷◌, ◌++◌, ◌==◌, append_assoc, is_empty, arith, Bool-cases, inl, inr,
}
use claw_crate.Darwin.{is_special, one_char, glob_chars, glob_to_regex}

-- What a pattern and its regular expression say: any run of characters, any run without a slash,
-- one character but a slash, and one given character.
pub data Piece : Type 0 where
  any_run segment_run any_char : Piece
  char : ℕ → Piece

-- The pattern, by its wildcards.
pub glob_pieces : Text → List Piece
glob_pieces [] = []
glob_pieces (c ∷ []) =
    (if c == b'*' then segment_run else if c == b'?' then any_char else char c) ∷ []
glob_pieces (c ∷ d ∷ rest) =
    let both = glob_pieces rest in
    let one = glob_pieces (d ∷ rest) in
    if c == b'*'
    then (if d == b'*' then any_run ∷ both else segment_run ∷ one)
    else (if c == b'?' then any_char else char c) ∷ one

-- The characters that mean something in a regular expression, spelled without a backslash.
abbrev is_operator : ℕ → Bool
is_operator c =
    c == b'.'
    || c == b'*'
    || c == b'+'
    || c == b'?'
    || c == 40
    || c == 41
    || c == 91
    || c == 93
    || c == 123
    || c == 125
    || c == b'|'
    || c == b'^'
    || c == b'$'
    || c == 92

-- Whether a text is one of the pieces in turn.
abbrev run_of : (ℕ → Bool) → (Text → Bool) → Text → Bool
run_of in_run next [] = next []
run_of in_run next (c ∷ s) = let more = run_of in_run next s in next (c ∷ s) || (in_run c && more)

abbrev next_char : (ℕ → Bool) → (Text → Bool) → Text → Bool
next_char is_it next [] = false
next_char is_it next (c ∷ s) = is_it c && next s

abbrev pub fits : List Piece → Text → Bool
fits [] s = is_empty s
fits (any_run ∷ pieces) s = run_of (λ c. true) (fits pieces) s
fits (segment_run ∷ pieces) s = run_of (λ c. not (c == b'/')) (fits pieces) s
fits (any_char ∷ pieces) s = next_char (λ c. not (c == b'/')) (fits pieces) s
fits (char d ∷ pieces) s = next_char (λ c. c == d) (fits pieces) s

-- A reader of the regular expressions that are built of these pieces; any other operator is
-- refused, and the expression ends with its anchor.
pub data Mode : Type 0 where
  start after_dot in_class_1 in_class_2 in_class_3 after_class after_backslash : Mode

abbrev pub cons : Piece → Option (List Piece) → Option (List Piece)
cons piece none = none
cons piece (some pieces) = some (piece ∷ pieces)

abbrev pub at_end : Text → Option (List Piece)
at_end [] = some []
at_end (c ∷ s) = none

-- What follows a character at the start of a piece is read by one of these.
abbrev pub on_start : ℕ → Text → (Mode → Option (List Piece)) → Option (List Piece)
on_start c s next =
    if c == b'$'
    then at_end s
    else if c == b'.'
    then next after_dot
    else if c == 91
    then next in_class_1
    else if c == 92
    then next after_backslash
    else if is_operator c
    then none
    else cons (char c) (next start)

unfoldable pub read_pieces : Mode → Text → Option (List Piece)
read_pieces mode [] = none
read_pieces start (c ∷ s) = on_start c s (λ mode. read_pieces mode s)
read_pieces after_dot (c ∷ s) =
    let next = read_pieces start s in if c == b'*' then cons any_run next else none
read_pieces in_class_1 (c ∷ s) =
    let next = read_pieces in_class_2 s in if c == b'^' then next else none
read_pieces in_class_2 (c ∷ s) =
    let next = read_pieces in_class_3 s in if c == b'/' then next else none
read_pieces in_class_3 (c ∷ s) =
    let next = read_pieces after_class s in if c == 93 then next else none
read_pieces after_class (c ∷ s) =
    let next = read_pieces start s in
    let other = on_start c s (λ mode. read_pieces mode s) in
    if c == b'*' then cons segment_run next else cons any_char other
read_pieces after_backslash (c ∷ s) = cons (char c) (read_pieces start s)

-- The expression starts with its anchor.
abbrev pub read_regex : Text → Option (List Piece)
read_regex [] = none
read_regex (c ∷ s) = if c == b'^' then read_pieces start s else none

abbrev piece_of : ℕ → Piece
piece_of c = if c == b'?' then any_char else char c

-- A text that does not start with a star.
abbrev NoStar : Text → Type 0
NoStar [] = ⊥
NoStar (c ∷ s) = c == b'*' ≡ false

-- A character that is not escaped is no operator.
plain-char :
    (c : ℕ)
    → (c == b'*') ≡ false
    → (c == b'?') ≡ false
    → is_special c ≡ false
    → ((c == b'$') ≡ false)
      × ((c == b'.') ≡ false)
      × ((c == 91) ≡ false)
      × ((c == 92) ≡ false)
      × (is_operator c ≡ false)
plain-char c star question plain = ground arith

read-one_char :
    (c : ℕ) (s : Text)
    → (c == b'*') ≡ false
    → NoStar s
    → read_pieces start (one_char c ++ s) ≡ cons (piece_of c) (read_pieces start s)
unfolding read_pieces
read-one_char c [] n h = absurd h
read-one_char c (d ∷ s) n h = elim (Bool-cases (c == b'?')) [
  | inl question ↦ rw question (ground arith)
  | inr other ↦ elim (Bool-cases (is_special c)) [
    | inl special ↦ rw (other, special) refl
    | inr plain ↦
        let (dollar, dot, class, backslash, none_of_them) = plain-char c n other plain in
        rw (other, plain) (rw (none_of_them, dollar, dot, class, backslash) refl)
  ]
]

one_char-NoStar : (c : ℕ) (s : Text) → (c == b'*') ≡ false → NoStar (one_char c ++ s)
one_char-NoStar c s n = ground arith

glob_chars-NoStar : (g : Text) → NoStar (glob_chars g ++ b'$' ∷ [])
unfolding glob_chars
glob_chars-NoStar [] = refl
glob_chars-NoStar (c ∷ []) = elim (Bool-cases (c == b'*')) [
  | inl star ↦ rw star refl
  | inr other ↦ rw other (one_char-NoStar c (b'$' ∷ []) other)
]
glob_chars-NoStar (c ∷ d ∷ rest) = elim (Bool-cases (c == b'*')) [
  | inl star ↦ elim (Bool-cases (d == b'*')) [
    | inl again ↦ rw (star, again) refl
    | inr once ↦ rw (star, once) refl
  ]
  | inr other ↦
      rw (other, append_assoc (one_char c) (glob_chars (d ∷ rest)) (b'$' ∷ []))
        (one_char-NoStar c (glob_chars (d ∷ rest) ++ b'$' ∷ []) other)
]

read-glob_chars : (g : Text) → read_pieces start (glob_chars g ++ b'$' ∷ []) ≡ some (glob_pieces g)
unfolding glob_chars read_pieces glob_pieces
read-glob_chars [] = refl
read-glob_chars (c ∷ []) = elim (Bool-cases (c == b'*')) [
  | inl star ↦ rw star refl
  | inr other ↦ rw other (unfold read_pieces in read-one_char c (b'$' ∷ []) other refl)
]
read-glob_chars (c ∷ d ∷ rest) = elim (Bool-cases (c == b'*')) [
  | inl star ↦ elim (Bool-cases (d == b'*')) [
    | inl again ↦ rw (star, again) (ap (cons any_run) (read-glob_chars rest))
    | inr once ↦ rw (star, once) (ap (cons segment_run) (read-glob_chars (d ∷ rest)))
  ]
  | inr other ↦
      rw (other, append_assoc (one_char c) (glob_chars (d ∷ rest)) (b'$' ∷ []))
        (read-one_char c (glob_chars (d ∷ rest) ++ b'$' ∷ []) other (glob_chars-NoStar (d ∷ rest))
          ∙ ap (cons (piece_of c)) (read-glob_chars (d ∷ rest)))
]

-- Whatever the pattern: its regular expression is built of the pieces of the reader alone, and
-- reads back as the pattern with two stars for any run, one star for a run without a slash, a
-- question mark for one character but a slash, and every other character for itself.
pub read-glob_to_regex : (glob : Text) → read_regex (glob_to_regex glob) ≡ some (glob_pieces glob)
unfolding glob_to_regex
read-glob_to_regex glob = read-glob_chars glob
