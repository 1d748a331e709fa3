-- ===== src/Env/Wildcard/Sound.antt =====
-- A match that `wildcard_matches` reports is one: whatever the bytes are.
use claw_crate.Base.{
  ℕ, zero, suc, ◌+◌, ◌≤◌, ◌-◌, Text, ◌≡◌, refl, Bool, true, Option, none, some, [], ◌∷◌, get_elem?,
  drop, arith, ◌==◌, ==_iff, Bool-cases, Option-cases, inl, inr, drop_of_some, drop_of_none,
  drop-drop, sym, ap, subst, text_eq_iff, text_eq,
}
use claw_crate.Env.Wildcard.{star, Scan, round, scan, start, enough, answer, wildcard_matches}
use claw_crate.Env.Wildcard.Pattern.{
  Matches, done, literal, skip, grow, suffix_star, only_stars_sound,
}
use claw_crate.Env.Wildcard.Rounds.{Rounded, round-Rounded, OnSome}

module _ (pattern candidate : Text) where
  -- Each way in which the loop can still succeed is a match of the whole.
  record IsWitness (s : Scan) : Type 0 where
    here : Matches (drop s.p pattern) (drop s.c candidate) → Matches pattern candidate
    back :
        (l k : ℕ)
        → s.star_idx ≡ some l
        → s.match_after_star ≤ k
        → Matches (drop (suc l) pattern) (drop k candidate)
        → Matches pattern candidate

  pair_byte : {p c : Text} (b : ℕ) → Matches p c → Matches (b ∷ p) (b ∷ c)
  pair_byte b m = elim (Bool-cases (b == star)) [
    | inl e ↦ let e' = (==_iff b star).0 e in grow e' (skip e' m)
    | inr n ↦ literal (ground arith) m
  ]

  star_at :
      (i c k : ℕ)
      → get_elem? pattern i ≡ some star
      → c ≤ k
      → Matches (drop (suc i) pattern) (drop k candidate)
      → Matches (drop i pattern) (drop c candidate)
  star_at i c k e le m =
      let same : c + (k - c) ≡ k = omega arith in
      rw (drop_of_some pattern i star e)
        (suffix_star (k - c) _ _ refl (rw (drop-drop (k - c) c candidate, same) m))

  round-IsWitness :
      (b : ℕ) (s : Scan)
      → IsWitness s
      → get_elem? candidate s.c ≡ some b
      → (r : Option Scan) → Rounded pattern b s r
      → OnSome IsWitness r
  round-IsWitness b s w e _ (Rounded.literal at) = record {
    here = λ m.
        w.here (rw (drop_of_some pattern s.p b at, drop_of_some candidate s.c b e) (pair_byte b m));
    back = w.back;
  }
  round-IsWitness b s w e _ (Rounded.opened at _) = record {
    here = λ m. w.here (star_at s.p s.c s.c at (omega arith) m);
    back = λ l k same le m. w.here (
        star_at s.p s.c k at le
          (subst (λ j. Matches (drop (suc j) pattern) (drop k candidate)) (ground arith) m));
  }
  round-IsWitness b s w e _ (Rounded.retried l _ at) = record {
    here = λ m. w.back l (suc s.match_after_star) at (omega arith) m;
    back = λ j k same le m. w.back j k same (omega arith) m;
  }
  round-IsWitness b s w e _ (Rounded.failed _ _) = tt

  scan_sound :
      (fuel : ℕ) (s : Scan)
      → IsWitness s
      → scan fuel pattern candidate s ≡ some true
      → Matches pattern candidate
  unfolding scan
  scan_sound zero s w h = absurd (ground arith)
  scan_sound (suc fuel) s w h = elim (Option-cases (get_elem? candidate s.c)) [
    | inl end ↦ w.here (rw (drop_of_none candidate s.c end) (only_stars_sound _ (ground arith)))
    | inr (b, e) ↦ elim (Option-cases (round pattern b s)) [
      | inl failed ↦ absurd (ground arith)
      | inr (t, e') ↦
          scan_sound fuel t (rw e' at (round-IsWitness b s w e _ (round-Rounded pattern b s)))
            (ground arith)
    ]
  ]

IsWitness-start : (pattern candidate : Text) → IsWitness pattern candidate start
IsWitness-start pattern candidate = record { here = λ m. m; back = λ l k e. absurd (ground arith) }

only_star : (candidate : Text) → Matches (star ∷ []) candidate
only_star [] = skip refl done
only_star (y ∷ c) = grow refl (only_star c)

answer-true : (o : Option Bool) → answer o ≡ true → o ≡ some true
answer-true none h = absurd (ground arith)
answer-true (some b) h = ap some h

pub wildcard_matches_sound :
    (pattern candidate : Text)
    → wildcard_matches pattern candidate ≡ true
    → Matches pattern candidate
unfolding wildcard_matches
wildcard_matches_sound pattern candidate h = elim (Bool-cases (text_eq pattern (star ∷ []))) [
  | inl e ↦ subst (λ p. Matches p candidate) (sym ((text_eq_iff _ _).0 e)) (only_star candidate)
  | inr n ↦
      scan_sound pattern candidate (enough pattern candidate) start
        (IsWitness-start pattern candidate) (answer-true _ (rw n at h))
]
