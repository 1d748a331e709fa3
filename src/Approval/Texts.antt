-- ===== src/Approval/Texts.antt =====
-- Texts without the characters that the reading of arguments looks for.
use claw_crate.Base.{
  ℕ, ◌≡◌, refl, ap, ◌∙◌, Text, Bool, false, ◌||◌, none, some, [], ◌∷◌, ◌++◌, any, reverse,
  reverse-append, reverse-reverse, ◌==◌, drop_while, trim, trim_start_matches, trim_end_matches,
  is_whitespace, split_once, rsplit_once, arith,
}

any-append : (p : ℕ → Bool) (s t : Text) → any p (s ++ t) ≡ any p s || any p t
any-append p [] t = refl
any-append p (c ∷ s) t = ground (arith, any-append p s t)

any-reverse : (p : ℕ → Bool) (s : Text) → any p (reverse s) ≡ any p s
any-reverse p [] = refl
any-reverse p (c ∷ s) =
    ap (any p) (reverse-append (c ∷ []) s)
    ∙ any-append p (reverse s) (c ∷ [])
    ∙ ground (arith, any-reverse p s)

-- No character of the text is of the kind.
abbrev pub HasNone : (ℕ → Bool) → Text → Type 0
HasNone p s = any p s ≡ false

pub HasNone-append : (p : ℕ → Bool) (s t : Text) → HasNone p s → HasNone p t → HasNone p (s ++ t)
HasNone-append p s t h k = any-append p s t ∙ ground (arith, h, k)

drop_while-none : (p : ℕ → Bool) (s : Text) → HasNone p s → drop_while p s ≡ s
unfolding drop_while
drop_while-none p [] h = refl
drop_while-none p (c ∷ s) h = ground arith

pub trim_start-none : (p : ℕ → Bool) (s : Text) → HasNone p s → trim_start_matches p s ≡ s
unfolding trim_start_matches
trim_start-none p s h = drop_while-none p s h

pub trim_end-none : (p : ℕ → Bool) (s : Text) → HasNone p s → trim_end_matches p s ≡ s
unfolding trim_end_matches
trim_end-none p s h =
    ap reverse (drop_while-none p (reverse s) (any-reverse p s ∙ h)) ∙ reverse-reverse s

-- Only the last character counts.
pub trim_end-last :
    (p : ℕ → Bool) (s : Text) (c : ℕ) → p c ≡ false → trim_end_matches p (s ++ c ∷ []) ≡ s ++ c ∷ []
unfolding trim_end_matches drop_while
trim_end-last p s c h =
    ap (λ t. reverse (drop_while p t)) (reverse-append s (c ∷ []))
    ∙ rw h (ap reverse {x = c ∷ reverse s} refl)
    ∙ reverse-append (c ∷ []) (reverse s)
    ∙ ap (λ t. t ++ c ∷ []) (reverse-reverse s)

pub trim-none : (s : Text) → HasNone is_whitespace s → trim s ≡ s
unfolding trim
trim-none s h =
    ap (trim_end_matches is_whitespace) (trim_start-none is_whitespace s h)
    ∙ trim_end-none is_whitespace s h

pub split_once-none : (c : ℕ) (s : Text) → HasNone (λ d. d == c) s → split_once c s ≡ none
unfolding split_once
split_once-none c [] h = refl
split_once-none c (d ∷ s) h = ground (arith, split_once-none c s)

pub split_once-first :
    (c : ℕ) (s t : Text) → HasNone (λ d. d == c) s → split_once c (s ++ c ∷ t) ≡ some (s, t)
unfolding split_once
split_once-first c [] t h = ground arith
split_once-first c (d ∷ s) t h = ground (arith, split_once-first c s t)

pub rsplit_once-none : (c : ℕ) (s : Text) → HasNone (λ d. d == c) s → rsplit_once c s ≡ none
unfolding rsplit_once
rsplit_once-none c s h =
    rw (split_once-none c (reverse s) (any-reverse (λ d. d == c) s ∙ h), rsplit_once) refl
