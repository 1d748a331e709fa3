-- ===== src/Egress/Lines/Pieces.antt =====
-- How the bytes arrive makes no difference to the line that is read.
use claw_crate.Base.{
  ℕ, suc, ◌+◌, ◌-◌, ◌≤◌, ◌<◌, ◌≡◌, refl, sym, ap, ◌∙◌, subst, ◌≢◌, inl, inr, none, some, List, [],
  ◌∷◌, ◌++◌, append_assoc, append-nil, length, length-append, length-take, take, drop, All, ltb,
  ◌==◌, ==_iff, if◌then◌else◌, arith, Bool-cases, Option-cases,
}
use claw_crate.Egress.Lines.{
  Fill, bytes, failure, LimitedLineRead, eof, line, too_long, read_failed, newline_index, at_end,
  Reader, Taken, return, more, take_available, read_limited_from, read_limited_line,
}

-- The bytes up to the first newline, it included, or all; and those behind it.
abbrev pub first_line : List ℕ → List ℕ
first_line [] = []
first_line (b ∷ s) = if b == 10 then b ∷ [] else b ∷ first_line s

abbrev pub behind_line : List ℕ → List ℕ
behind_line [] = []
behind_line (b ∷ s) = if b == 10 then s else behind_line s

abbrev pub IsData : Fill → Type 0
IsData (bytes []) = ⊥
IsData (bytes (b ∷ piece)) = Unit
IsData failure = ⊥

abbrev pub arriving : List Fill → List ℕ
arriving [] = []
arriving (bytes piece ∷ fills) = piece ++ arriving fills
arriving (failure ∷ fills) = arriving fills

abbrev pub stream : Reader → List ℕ
stream reader = reader.buffer ++ arriving reader.later

-- A result for a line of which `l` is read and `s` are the bytes to come.
abbrev pub IsRead : ℕ → List ℕ → List ℕ → LimitedLineRead × Reader → Type 0
IsRead max_bytes l s (eof, reader) = (l ≡ []) × (s ≡ [])
IsRead max_bytes l s (line x, reader) =
    (x ≢ []) × (x ≡ l ++ first_line s) × (length x ≤ max_bytes) × (stream reader ≡ behind_line s)
IsRead max_bytes l s (too_long, reader) = max_bytes < length l + length (first_line s)
IsRead max_bytes l s (read_failed, reader) = ⊥

newline_index-none :
    (a s : List ℕ)
    → newline_index a ≡ none
    → (first_line (a ++ s) ≡ a ++ first_line s) × (behind_line (a ++ s) ≡ behind_line s)
unfolding newline_index
newline_index-none [] s h = (refl, refl)
newline_index-none (b ∷ a) s h = elim (Bool-cases (b == 10)) [
  | inl e ↦ ground arith
  | inr e ↦ elim (Option-cases (newline_index a)) [
    | inl n ↦ (let (x, y) = newline_index-none a s n in rw e (ap (λ t. b ∷ t) x, y))
    | inr (i, n) ↦ ground arith
  ]
]

newline_index-some :
    (a s : List ℕ) (i : ℕ)
    → newline_index a ≡ some i
    → (first_line (a ++ s) ≡ take (suc i) a)
      × (behind_line (a ++ s) ≡ drop (suc i) a ++ s)
      × (i < length a)
unfolding newline_index
newline_index-some [] s i h = ground arith
newline_index-some (b ∷ a) s i h = elim (Bool-cases (b == 10)) [
  | inl e ↦ (let first : i ≡ 0 = ground arith in rw (first, e) (refl, refl, omega arith))
  | inr e ↦ elim (Option-cases (newline_index a)) [
    | inl n ↦ ground arith
    | inr (j, n) ↦
        (let (x, y, z) = newline_index-some a s j n in
          let later : i ≡ suc j = ground arith in rw (later, e) (ap (λ t. b ∷ t) x, y, omega arith))
  ]
]

-- A round of the loop against the bytes to come: those available, and `s` behind them.
abbrev TakesPart : ℕ → List ℕ → List ℕ → List ℕ → Taken → Type 0
TakesPart max_bytes l available s (more l') =
    (l' ≡ l ++ available)
    × (length l' ≤ max_bytes)
    × (first_line (available ++ s) ≡ available ++ first_line s)
    × (behind_line (available ++ s) ≡ behind_line s)
TakesPart max_bytes l available s (return (line x) rest) =
    (x ≢ [])
    × (x ≡ l ++ first_line (available ++ s))
    × (length x ≤ max_bytes)
    × (rest ++ s ≡ behind_line (available ++ s))
TakesPart max_bytes l available s (return too_long rest) =
    max_bytes < length l + length (first_line (available ++ s))
TakesPart max_bytes l available s (return eof rest) = ⊥
TakesPart max_bytes l available s (return read_failed rest) = ⊥

first_line-length : (b : ℕ) (s : List ℕ) → 1 ≤ length (first_line (b ∷ s))
first_line-length b s = ground arith

take_available-TakesPart :
    (max_bytes : ℕ) (l : List ℕ) (b : ℕ) (a s : List ℕ)
    → length l ≤ max_bytes
    → TakesPart max_bytes l (b ∷ a) s (take_available max_bytes l (b ∷ a))
unfolding take_available
take_available-TakesPart max_bytes l b a s h = elim (Bool-cases (max_bytes - length l == 0)) [
  | inl full ↦
      rw full
        (omega (arith, first_line-length b (a ++ s), (==_iff (max_bytes - length l) 0).0 full))
  | inr room ↦ elim (Option-cases (newline_index (b ∷ a))) [
    | inl n ↦
        (let (x, y) = newline_index-none (b ∷ a) s n in
          elim (Bool-cases (ltb (max_bytes - length l) (length (b ∷ a)))) [
            | inl over ↦
                rw (room, n, over)
                  (let gap : max_bytes - length l < length (b ∷ a) = ground arith in
                    omega (arith, gap, ap length x, length-append (b ∷ a) (first_line s)))
            | inr fits ↦
                rw (room, n, fits)
                  (let gap : length (b ∷ a) ≤ max_bytes - length l = ground arith in
                    (refl, omega (arith, gap, h, length-append l (b ∷ a)), x, y))
          ])
    | inr (i, n) ↦
        (let (x, y, z) = newline_index-some (b ∷ a) s i n in
          elim (Bool-cases (ltb (max_bytes - length l) (i + 1))) [
            | inl over ↦
                rw (room, n, over)
                  (let gap : max_bytes - length l < i + 1 = ground arith in
                    omega (arith, gap, z, ap length x, length-take (suc i) (b ∷ a)))
            | inr fits ↦
                (let gap : i + 1 ≤ max_bytes - length l = ground arith in
                  let next : i + 1 ≡ suc i = omega arith in
                  let size = length-append l (take (suc i) (b ∷ a)) in
                  let taken = length-take (suc i) (b ∷ a) in
                  rw (room, n, fits, next)
                    (
                      λ none_there. omega (arith, size, taken, z, ap length none_there),
                      ap (λ t. l ++ t) (sym x),
                      omega (arith, gap, h, size, taken, z),
                      sym y,
                    ))
          ])
  ]
]

-- What a round for available bytes leads to.
abbrev pub after_round : ℕ → List Fill → Taken → LimitedLineRead × Reader
after_round max_bytes later (return result rest) = (result, record { buffer = rest; later = later })
after_round max_bytes later (more l') = read_limited_from max_bytes l' later

read_limited_from-bytes :
    (max_bytes : ℕ) (l : List ℕ) (b : ℕ) (a : List ℕ) (later : List Fill)
    → read_limited_from max_bytes l (bytes (b ∷ a) ∷ later)
      ≡ after_round max_bytes later (take_available max_bytes l (b ∷ a))
unfolding read_limited_from
read_limited_from-bytes max_bytes l b a later = ground arith

at_end-IsRead :
    (max_bytes : ℕ) (l : List ℕ) (reader : Reader)
    → length l ≤ max_bytes
    → stream reader ≡ []
    → IsRead max_bytes l [] (at_end l, reader)
at_end-IsRead max_bytes [] reader h e = (refl, refl)
at_end-IsRead max_bytes (b ∷ l) reader h e = (λ c. ground arith, rw append-nil, h, e)

-- A result for a longer line with fewer bytes to come is one for the shorter line.
IsRead-more :
    (max_bytes : ℕ) (l a s : List ℕ) (result : LimitedLineRead) (reader : Reader)
    → 1 ≤ length a
    → first_line (a ++ s) ≡ a ++ first_line s
    → behind_line (a ++ s) ≡ behind_line s
    → IsRead max_bytes (l ++ a) s (result, reader)
    → IsRead max_bytes l (a ++ s) (result, reader)
IsRead-more max_bytes l a s eof reader n first behind (none_read, none_left) =
    absurd (omega (arith, ap length none_read, length-append l a, n))
IsRead-more max_bytes l a s (line x) reader n first behind (some_read, same, below, rest) = (
  some_read,
  same ∙ append_assoc l a (first_line s) ∙ ap (λ t. l ++ t) (sym first),
  below,
  rest ∙ sym behind,
)
IsRead-more max_bytes l a s too_long reader n first behind over =
    omega (arith, over, length-append l a, ap length first, length-append a (first_line s))
IsRead-more max_bytes l a s read_failed reader n first behind r = absurd r

after_round-IsRead :
    (max_bytes : ℕ) (l : List ℕ) (b : ℕ) (a : List ℕ) (later : List Fill) (t : Taken)
    → ((l' : List ℕ)
        → length l' ≤ max_bytes
        → IsRead max_bytes l' (arriving later) (read_limited_from max_bytes l' later))
    → TakesPart max_bytes l (b ∷ a) (arriving later) t
    → IsRead max_bytes l ((b ∷ a) ++ arriving later) (after_round max_bytes later t)
after_round-IsRead max_bytes l b a later (return (line x) rest) d p = p
after_round-IsRead max_bytes l b a later (return too_long rest) d p = p
after_round-IsRead max_bytes l b a later (return eof rest) d p = absurd p
after_round-IsRead max_bytes l b a later (return read_failed rest) d p = absurd p
after_round-IsRead max_bytes l b a later (more l') d (same, below, first, behind) =
    let r = read_limited_from max_bytes l' later in
    IsRead-more max_bytes l (b ∷ a) (arriving later) r.0 r.1 (omega arith) first behind
      (subst (λ k. IsRead max_bytes k (arriving later) r) same (d l' below))

read_limited_from-IsRead :
    (max_bytes : ℕ) (l : List ℕ) (later : List Fill)
    → All IsData later
    → length l ≤ max_bytes
    → IsRead max_bytes l (arriving later) (read_limited_from max_bytes l later)
read_limited_from-IsRead max_bytes l [] d h =
    unfold read_limited_from in at_end-IsRead max_bytes l _ h refl
read_limited_from-IsRead max_bytes l (bytes [] ∷ later) d h = absurd (d.0)
read_limited_from-IsRead max_bytes l (failure ∷ later) d h = absurd (d.0)
read_limited_from-IsRead max_bytes l (bytes (b ∷ a) ∷ later) d h =
    subst (IsRead max_bytes l ((b ∷ a) ++ arriving later))
      (sym (read_limited_from-bytes max_bytes l b a later))
      (after_round-IsRead max_bytes l b a later (take_available max_bytes l (b ∷ a))
        (λ l' h'. read_limited_from-IsRead max_bytes l' later (d.1) h')
        (take_available-TakesPart max_bytes l b a (arriving later) h))

buffered-IsRead :
    (max_bytes : ℕ) (buffer : List ℕ) (later : List Fill)
    → All IsData later
    → IsRead max_bytes []
        (buffer ++ arriving later)
        (read_limited_line max_bytes (record { buffer = buffer; later = later }))
unfolding read_limited_line
buffered-IsRead max_bytes [] later d = read_limited_from-IsRead max_bytes [] later d (omega arith)
buffered-IsRead max_bytes (b ∷ rest) later d =
    read_limited_from-IsRead max_bytes [] (bytes (b ∷ rest) ∷ later) (ground arith, d) (omega arith)

-- Where the input yields bytes, no errors, the result does not depend on the pieces they come in:
-- it is the end of the input where there are none; or, where the bytes up to the first newline,
-- it included, or else up to the end, are no more than the bound, exactly these, with the others
-- left to be read; or that the line is too long.
pub read_limited_line-IsRead :
    (max_bytes : ℕ) (reader : Reader)
    → All IsData reader.later
    → IsRead max_bytes [] (stream reader) (read_limited_line max_bytes reader)
read_limited_line-IsRead max_bytes reader d = buffered-IsRead max_bytes reader.buffer reader.later d
