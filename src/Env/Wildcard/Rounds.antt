-- ===== src/Env/Wildcard/Rounds.antt =====
-- One round of the loop of `wildcard_matches`, by what it has seen of the pattern.
use claw_crate.Base.{
  ℕ, suc, Text, ◌≡◌, refl, ◌≢◌, true, false, Option, none, some, get_elem?, arith, Bool-cases, inl,
  inr,
}
use claw_crate.Env.Wildcard.{star, Scan, holds_at, retry, round}

pub holds_at-true : (p : Text) (i b : ℕ) → holds_at p i b ≡ true → get_elem? p i ≡ some b
holds_at-true p i b h = ground (arith)

-- Neither the byte itself nor a star stands at the pattern's index.
abbrev pub IsStuck : Text → ℕ → Scan → Type 0
IsStuck pattern b s = (x : ℕ) → get_elem? pattern s.p ≡ some x → (x ≢ b) × (x ≢ star)

pub data Rounded (pattern : Text) (b : ℕ) (s : Scan) : Option Scan → Type 0 where
  literal :
      get_elem? pattern s.p ≡ some b
      → Rounded pattern b s (some (record s { p = suc s.p; c = suc s.c }))
  opened :
      get_elem? pattern s.p ≡ some star
      → b ≢ star
      → Rounded pattern b s
          (some (record s { star_idx = some s.p; p = suc s.p; match_after_star = s.c }))
  retried :
      (l : ℕ)
      → IsStuck pattern b s
      → s.star_idx ≡ some l
      → Rounded pattern b s (
          some (record s {
            p = suc l;
            match_after_star = suc s.match_after_star;
            c = suc s.match_after_star;
          }))
  failed : IsStuck pattern b s → s.star_idx ≡ none → Rounded pattern b s none

IsStuck-of_tests :
    (pattern : Text) (b : ℕ) (s : Scan)
    → holds_at pattern s.p b ≡ false
    → holds_at pattern s.p star ≡ false
    → IsStuck pattern b s
IsStuck-of_tests pattern b s h k x e = (ground arith, ground arith)

retry-Rounded :
    (pattern : Text) (b : ℕ) (s : Scan) (o : Option ℕ)
    → s.star_idx ≡ o
    → IsStuck pattern b s
    → Rounded pattern b s (retry o s)
retry-Rounded pattern b s none e h = failed h e
retry-Rounded pattern b s (some l) e h = retried l h e

pub round-Rounded : (pattern : Text) (b : ℕ) (s : Scan) → Rounded pattern b s (round pattern b s)
unfolding round
round-Rounded pattern b s = elim (Bool-cases (holds_at pattern s.p b)) [
  | inl same ↦ rw same (literal (holds_at-true pattern s.p b same))
  | inr other ↦ elim (Bool-cases (holds_at pattern s.p star)) [
    | inl open_star ↦
        rw (other, open_star) (opened (holds_at-true pattern s.p star open_star) (ground arith))
    | inr closed ↦
        rw (other, closed)
          (retry-Rounded pattern b s s.star_idx refl (IsStuck-of_tests pattern b s other closed))
  ]
]

-- What holds of the state after a round, if there is one.
abbrev pub OnSome {ℓ} : (Scan → Type ℓ) → Option Scan → Type ℓ
OnSome P none = Unit
OnSome P (some t) = P t
