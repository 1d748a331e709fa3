-- ===== src/Env/Wildcard.antt =====
-- `wildcard_matches` of crates/clawcrate-sandbox/src/env_scrub.rs: the loop over two byte indices
-- with one remembered star. The proofs are in the modules below.
pub mod Pattern
mod Rounds
pub mod Escape
pub mod Total
pub mod Sound
pub mod Complete
use claw_crate.Base.{
  ℕ, zero, suc, ◌+◌, ◌*◌, Text, Bool, true, false, Option, none, some, List, [], ◌∷◌, length,
  get_elem?, drop, ◌==◌, if◌then◌else◌, text_eq,
}

abbrev pub star : ℕ
star = b'*'

-- The local variables of the loop, under their names.
pub record Scan : Type 0 where
  pub p : ℕ
  pub c : ℕ
  pub star_idx : Option ℕ
  pub match_after_star : ℕ

-- `p < pattern_bytes.len() && pattern_bytes[p] == b`.
abbrev pub holds_at : Text → ℕ → ℕ → Bool
holds_at pattern p b = elim (get_elem? pattern p) [ none ↦ false | some x ↦ x == b ]

-- Back to the remembered star, which takes one more byte.
abbrev pub retry : Option ℕ → Scan → Option Scan
retry none s = none
retry (some last_star_idx) s = some (record s {
  p = suc last_star_idx;
  match_after_star = suc s.match_after_star;
  c = suc s.match_after_star;
})

-- One round of the `while` loop at the candidate byte `b`; `none` is `return false`.
unfoldable pub round : Text → ℕ → Scan → Option Scan
round pattern b s =
    if holds_at pattern s.p b
    then some (record s { p = suc s.p; c = suc s.c })
    else if holds_at pattern s.p star
    then some (record s { star_idx = some s.p; p = suc s.p; match_after_star = s.c })
    else retry s.star_idx s

-- The second loop and the last test: only stars are left of the pattern.
unfoldable pub only_stars : Text → Bool
only_stars [] = true
only_stars (x ∷ xs) = if x == star then only_stars xs else false

-- The first loop, on fuel; `none` means that the fuel ran out.
unfoldable pub scan : ℕ → Text → Text → Scan → Option Bool
scan zero pattern candidate s = none
scan (suc fuel) pattern candidate s = elim (get_elem? candidate s.c) [
  | none ↦ some (only_stars (drop s.p pattern))
  | some b ↦ elim (round pattern b s) [ none ↦ some false | some t ↦ scan fuel pattern candidate t ]
]

abbrev pub start : Scan
start = record { p = 0; c = 0; star_idx = none; match_after_star = 0 }

-- Enough rounds for the two lengths.
abbrev pub enough : Text → Text → ℕ
enough pattern candidate = suc (suc (length candidate) * suc (length pattern + length candidate))

abbrev pub answer : Option Bool → Bool
answer none = false
answer (some b) = b

unfoldable pub wildcard_matches : Text → Text → Bool
unfolding scan round only_stars text_eq
wildcard_matches pattern candidate =
    if text_eq pattern (star ∷ [])
    then true
    else answer (scan (enough pattern candidate) pattern candidate start)
