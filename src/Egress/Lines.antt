-- ===== src/Egress/Lines.antt =====
-- `read_limited_line` (crates/clawcrate-sandbox/src/egress_proxy.rs) over what the buffered reader
-- hands out.
pub mod Pieces
use claw_crate.Base.{
  ℕ, zero, suc, ◌+◌, ◌-◌, Bool, true, false, Option, none, some, List, [], ◌∷◌, ◌++◌, length, take,
  drop, ltb, leb, ◌==◌, if◌then◌else◌, min,
}

-- What `fill_buf` yields next: bytes, or an error. At the end of the input there is no more.
pub data Fill : Type 0 where
  bytes : List ℕ → Fill
  failure : Fill

pub data LimitedLineRead : Type 0 where
  eof : LimitedLineRead
  line : List ℕ → LimitedLineRead
  too_long : LimitedLineRead
  read_failed : LimitedLineRead

-- `iter().position(|byte| *byte == b'\n')`.
unfoldable pub newline_index : List ℕ → Option ℕ
newline_index [] = none
newline_index (b ∷ available) =
    if b == 10
    then some 0
    else elim (newline_index available) [ none ↦ none | some i ↦ some (i + 1) ]

abbrev pub at_end : List ℕ → LimitedLineRead
at_end [] = eof
at_end (b ∷ l) = line (b ∷ l)

-- A buffered reader: the bytes not yet consumed of the last `fill_buf`, and the later ones.
pub record Reader : Type 0 where
  pub buffer : List ℕ
  pub later : List Fill

pub data Taken : Type 0 where
  return : LimitedLineRead → List ℕ → Taken
  more : List ℕ → Taken

-- One round of the loop for available bytes: the line so far goes on, or the result and the bytes
-- that are left in the buffer.
unfoldable pub take_available : ℕ → List ℕ → List ℕ → Taken
unfolding newline_index
take_available max_bytes l available =
    let remaining_capacity = max_bytes - length l in
    if remaining_capacity == 0 then return too_long available else elim (newline_index available) [
      | some i ↦
          if ltb remaining_capacity (i + 1)
          then return too_long available
          else return (line (l ++ take (i + 1) available)) (drop (i + 1) available)
      | none ↦
          if ltb remaining_capacity (length available)
          then return too_long (drop remaining_capacity available)
          else more (l ++ available)
    ]

unfoldable pub read_limited_from : ℕ → List ℕ → List Fill → LimitedLineRead × Reader
read_limited_from max_bytes l [] = (at_end l, record { buffer = []; later = [] })
read_limited_from max_bytes l (failure ∷ later) =
    (read_failed, record { buffer = []; later = later })
read_limited_from max_bytes l (bytes [] ∷ later) = (at_end l, record { buffer = []; later = later })
read_limited_from max_bytes l (bytes (b ∷ piece) ∷ later) =
    elim (take_available max_bytes l (b ∷ piece)) [
      | return result rest ↦ (result, record { buffer = rest; later = later })
      | more l' ↦ read_limited_from max_bytes l' later
    ]

unfoldable pub read_limited_line : ℕ → Reader → LimitedLineRead × Reader
read_limited_line max_bytes reader = elim reader.buffer [
  | [] ↦ read_limited_from max_bytes [] reader.later
  | b ∷ rest ↦ read_limited_from max_bytes [] (bytes (b ∷ rest) ∷ reader.later)
]
