-- ===== src/Env/Wildcard/Total.antt =====
-- The loop of `wildcard_matches` ends within `enough` rounds.
use claw_crate.Base.{
  ℕ, zero, suc, ◌+◌, ◌*◌, ◌≤◌, ◌<◌, ◌-◌, Text, ◌≡◌, Bool, false, Option, some, length, get_elem?,
  drop, arith, Option-cases, inl, inr, lt_of_some,
}
use claw_crate.Env.Wildcard.{Scan, round, scan, start, enough, only_stars}
use claw_crate.Env.Wildcard.Rounds.{Rounded, round-Rounded, OnSome}

mul_mono : (a b k : ℕ) → a ≤ b → a * k ≤ b * k
mul_mono a b k h = grind arith

mul_step : (d e k : ℕ) → e ≡ suc d → e * k ≡ d * k + k
mul_step d e k h = rw h (omega arith)

module _ (pattern candidate : Text) where
  abbrev span : ℕ
  span = suc (length pattern + length candidate)

  abbrev measure : Scan → ℕ
  measure s =
      (length candidate - s.match_after_star) * span
      + (length pattern - s.p)
      + (length candidate - s.c)

  record IsInside (s : Scan) : Type 0 where
    behind : s.match_after_star ≤ s.c
    candidate_end : s.c ≤ length candidate
    pattern_end : s.p ≤ length pattern
    star_end : (l : ℕ) → s.star_idx ≡ some l → l < length pattern

  abbrev Smaller : Scan → Scan → Type 0
  Smaller s t = IsInside t × (measure t < measure s)

  round-Smaller :
      (b : ℕ) (s : Scan)
      → IsInside s
      → s.c < length candidate
      → (r : Option Scan) → Rounded pattern b s r
      → OnSome (Smaller s) r
  round-Smaller b s w h _ (Rounded.literal at) =
      let i : s.p < length pattern = lt_of_some pattern s.p b at in
      (
        record {
          behind = omega (arith, w.behind);
          candidate_end = h;
          pattern_end = i;
          star_end = w.star_end;
        },
        omega arith,
      )
  round-Smaller b s w h _ (Rounded.opened at _) =
      let i : s.p < length pattern = lt_of_some pattern s.p _ at in
      let later =
        mul_mono (length candidate - s.c) (length candidate - s.match_after_star) span
          (omega (arith, w.behind)) in
      (
        record {
          behind = omega arith;
          candidate_end = w.candidate_end;
          pattern_end = i;
          star_end = λ l e. ground arith;
        },
        omega arith,
      )
  round-Smaller b s w h _ (Rounded.retried l _ at) =
      let i : l < length pattern = w.star_end l at in
      let fewer =
        mul_step (length candidate - suc s.match_after_star) (length candidate - s.match_after_star)
          span (omega (arith, w.behind)) in
      (
        record {
          behind = omega arith;
          candidate_end = omega (arith, w.behind);
          pattern_end = i;
          star_end = w.star_end;
        },
        omega arith,
      )
  round-Smaller b s w h _ (Rounded.failed _ _) = tt

  scan_total :
      (fuel : ℕ) (s : Scan)
      → IsInside s
      → measure s < fuel
      → (b : Bool) × (scan fuel pattern candidate s ≡ some b)
  unfolding scan
  scan_total zero s w h = absurd (omega arith)
  scan_total (suc fuel) s w h = elim (Option-cases (get_elem? candidate s.c)) [
    | inl end ↦ (only_stars (drop s.p pattern), rw (end, scan))
    | inr (b, e) ↦ elim (Option-cases (round pattern b s)) [
      | inl failed ↦ (false, rw (e, failed, scan))
      | inr (t, e') ↦
          let (inside, less) : Smaller s t =
            rw e' at
              (round-Smaller b s w (lt_of_some candidate s.c b e) _ (round-Rounded pattern b s)) in
          let (v, r) = scan_total fuel t inside (omega arith) in (v, rw (e, e', scan) r)
    ]
  ]

measure_of : (n p m : ℕ) → m ≡ n → m * suc (p + n) + (p - 0) + m < suc (suc n * suc (p + n))
measure_of n p m e = rw e (omega arith)

measure_start : (n p : ℕ) → (n - 0) * suc (p + n) + (p - 0) + (n - 0) < suc (suc n * suc (p + n))
measure_start n p = measure_of n p (n - 0) (omega arith)

-- The loop returns an answer within `enough` rounds, for every pattern and candidate.
pub scan_returns :
    (pattern candidate : Text)
    → (b : Bool) × (scan (enough pattern candidate) pattern candidate start ≡ some b)
scan_returns pattern candidate =
    scan_total pattern candidate _ start
      (record {
        behind = omega arith;
        candidate_end = omega arith;
        pattern_end = omega arith;
        star_end = λ l e. absurd (ground arith);
      })
      (measure_start (length candidate) (length pattern))
