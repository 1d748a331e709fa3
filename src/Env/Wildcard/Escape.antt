-- ===== src/Env/Wildcard/Escape.antt =====
-- A star byte of the candidate is taken by the star of the pattern as a literal.
use claw_crate.Base.{
  ℕ, ap, suc, ◌+◌, ◌-◌, ◌*◌, Text, ◌≡◌, refl, ◌≢◌, false, some, ◌∷◌, length, arith,
}
use claw_crate.Env.Wildcard.{star, round, scan, start, answer, wildcard_matches}
use claw_crate.Env.Wildcard.Pattern.{Matches, grow, skip}

-- Two rounds: the stars pair off, and then nothing is remembered to go back to.
scan_pairs_stars :
    (fuel : ℕ) (x y : ℕ) (p c : Text)
    → x ≢ y
    → x ≢ star
    → scan (suc (suc fuel)) (star ∷ x ∷ p) (star ∷ y ∷ c) start ≡ some false
unfolding scan round
scan_pairs_stars fuel x y p c h k = ground arith

enough_twice :
    (n m : ℕ) → (f : ℕ) × (suc (suc (suc (suc n)) * suc (suc (suc m) + suc (suc n))) ≡ suc (suc f))
enough_twice n m = (suc (suc (suc n)) * suc (suc (suc m) + suc (suc n)) - 1, omega arith)

-- A pattern that begins with a star and another byte is refused at a candidate that begins with a
-- star and a third byte, although it matches wherever the rest of the pattern matches the rest of
-- the candidate.
pub star_escapes :
    (x y : ℕ) (p c : Text)
    → x ≢ y
    → x ≢ star
    → Matches (x ∷ p) c
    → Matches (star ∷ x ∷ p) (star ∷ y ∷ c)
      × (wildcard_matches (star ∷ x ∷ p) (star ∷ y ∷ c) ≡ false)
unfolding wildcard_matches
star_escapes x y p c h k m =
    let (f, e) = enough_twice (length c) (length p) in
    (grow refl (grow refl (skip refl m)), rw e (ap answer (scan_pairs_stars f x y p c h k)))
