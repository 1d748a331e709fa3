-- ===== src/Approval/Ends.antt =====
-- The recursion on assigned values ends.
use claw_crate.Base.{
  ℕ, zero, suc, ◌+◌, ◌≤◌, ◌<◌, ◌≡◌, refl, ap, ◌≢◌, inl, inr, Text, Bool, Option, none, some, [],
  ◌∷◌, length, reverse, Bool-cases, Option-cases, arith, is_empty, drop_while, trim_start_matches,
  trim_end_matches, trim, is_whitespace, split_once, ◌==◌,
}
use mathlib.Core.List.{reverse_aux}
use claw_crate.Approval.References.{extract_plain, or_plain, extract_from}

drop_while-length : (p : ℕ → Bool) (s : Text) → length (drop_while p s) ≤ length s
unfolding drop_while
drop_while-length p [] = omega arith
drop_while-length p (c ∷ s) = ground (arith, drop_while-length p s)

reverse_aux-length : (s t : Text) → length (reverse_aux s t) ≡ length s + length t
reverse_aux-length [] t = omega arith
reverse_aux-length (c ∷ s) t = omega (arith, reverse_aux-length s (c ∷ t))

reverse-length : (s : Text) → length (reverse s) ≡ length s
reverse-length s = omega (arith, reverse_aux-length s [])

trim-length : (s : Text) → length (trim s) ≤ length s
unfolding trim trim_start_matches trim_end_matches
trim-length s =
    let started = drop_while is_whitespace s in
    omega (
      arith,
      drop_while-length is_whitespace s,
      reverse-length started,
      drop_while-length is_whitespace (reverse started),
      reverse-length (drop_while is_whitespace (reverse started)),
    )

split_once-length : (c : ℕ) (s a b : Text) → split_once c s ≡ some (a, b) → length b < length s
unfolding split_once
split_once-length c [] a b h = ground arith
split_once-length c (d ∷ s) a b h = elim (Bool-cases (d == c)) [
  | inl e ↦ (let q : s ≡ b = ground arith in omega (arith, ap length q))
  | inr e ↦ elim (Option-cases (split_once c s)) [
    | inl n ↦ ground arith
    | inr ((x, y), f) ↦
        (let q : y ≡ b = ground arith in omega (arith, ap length q, split_once-length c s x y f))
  ]
]

or_plain-returns :
    (trimmed : Text) (o : Option (Option Text)) → o ≢ none → or_plain trimmed o ≢ none
or_plain-returns trimmed none r = λ h. r refl
or_plain-returns trimmed (some none) r = λ h. ground arith
or_plain-returns trimmed (some (some host)) r = λ h. ground arith

some-returns : (o : Option Text) → some o ≢ none
some-returns o h = ground arith

-- For every argument, fuel above its length is enough for the recursion on assigned values to
-- return a host or none.
pub extract_from-returns :
    (fuel : ℕ) (value : Text) → length value < fuel → extract_from fuel value ≢ none
unfolding extract_from
extract_from-returns zero value enough = absurd (omega arith)
extract_from-returns (suc fuel) value enough = elim (Bool-cases (is_empty (trim value))) [
  | inl e ↦ rw (e, extract_from) (some-returns none)
  | inr e ↦ elim (Option-cases (split_once 61 (trim value))) [
    | inl n ↦ rw (e, n, extract_from) (some-returns (extract_plain (trim value)))
    | inr ((name, assigned_value), s) ↦ elim (Bool-cases (is_empty assigned_value)) [
      | inl n ↦ rw (e, s, n, extract_from) (some-returns (extract_plain (trim value)))
      | inr n ↦
          rw (e, s, n, extract_from)
            (or_plain-returns (trim value) (extract_from fuel assigned_value) (
              extract_from-returns fuel assigned_value (
                omega (
                  arith,
                  trim-length value,
                  split_once-length 61 (trim value) name assigned_value s,
                ))))
    ]
  ]
]
