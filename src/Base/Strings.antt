-- ===== src/Base/Strings.antt =====
-- Rust strings as lists of code points. UTF-8 keeps prefixes, suffixes and the order of texts, so
-- what the sources do bytewise with `starts_with`, `==` or `cmp` is the same here.
use Prim.Native.Nat.{ℕ, ◌+◌}
use Prim.Native.Char.{code}
use Prim.Native.String.{String}
use mathlib.Core.Path.{◌≡◌}
use mathlib.Core.Logic.{◌↔◌, inl, inr}
use mathlib.Core.Bool.{Bool, true, false, ◌&&◌, ◌||◌}
use mathlib.Core.Option.{Option, none, some}
use mathlib.Core.List.{List, [], ◌∷◌, ◌++◌, map, reverse}
use native.Mathlib.Omega.{arith}
use claw_crate.Base.Tests.{Option-cases, leb, ◌==◌, if◌then◌else◌}

abbrev pub Text : Type 0
Text = List ℕ

abbrev pub codes : String → Text
codes String.[] = []
codes (String.◌∷◌ c s) = code c ∷ codes s

unfoldable pub text_eq : Text → Text → Bool
text_eq [] [] = true
text_eq (x ∷ xs) (y ∷ ys) = x == y && text_eq xs ys
text_eq _ _ = false

pub text_eq_iff : (s t : Text) → (text_eq s t ≡ true) ↔ (s ≡ t)
unfolding text_eq
text_eq_iff [] [] = ground arith
text_eq_iff [] (y ∷ ys) = ground arith
text_eq_iff (x ∷ xs) [] = ground arith
text_eq_iff (x ∷ xs) (y ∷ ys) = ground (arith, text_eq_iff xs ys)

-- `char::is_whitespace`: the code points with the property White_Space.
unfoldable pub is_whitespace : ℕ → Bool
is_whitespace c =
    (leb 9 c && leb c 13)
    || c == 32
    || c == 0x85
    || c == 0xA0
    || c == 0x1680
    || (leb 0x2000 c && leb c 0x200A)
    || c == 0x2028
    || c == 0x2029
    || c == 0x202F
    || c == 0x205F
    || c == 0x3000

-- `u8::to_ascii_lowercase`, also on code points.
unfoldable pub to_lower : ℕ → ℕ
to_lower c = if leb 65 c && leb c 90 then c + 32 else c

unfoldable pub to_ascii_lowercase : Text → Text
unfolding to_lower
to_ascii_lowercase s = map to_lower s

unfoldable pub drop_while : (ℕ → Bool) → Text → Text
drop_while p [] = []
drop_while p (c ∷ s) = if p c then drop_while p s else c ∷ s

unfoldable pub trim_start_matches : (ℕ → Bool) → Text → Text
unfolding drop_while
trim_start_matches p s = drop_while p s

unfoldable pub trim_end_matches : (ℕ → Bool) → Text → Text
unfolding drop_while
trim_end_matches p s = reverse (drop_while p (reverse s))

unfoldable pub trim : Text → Text
unfolding trim_start_matches trim_end_matches is_whitespace
trim s = trim_end_matches is_whitespace (trim_start_matches is_whitespace s)

-- `s.strip_prefix(prefix)`.
unfoldable pub strip_prefix : Text → Text → Option Text
strip_prefix s [] = some s
strip_prefix [] (p ∷ ps) = none
strip_prefix (c ∷ s) (p ∷ ps) = if c == p then strip_prefix s ps else none

unfoldable pub starts_with : Text → Text → Bool
unfolding strip_prefix
starts_with s p = elim (strip_prefix s p) [ none ↦ false | some _ ↦ true ]

unfoldable pub ends_with : Text → Text → Bool
unfolding starts_with
ends_with s p = starts_with (reverse s) (reverse p)

unfoldable pub contains_char : ℕ → Text → Bool
contains_char c [] = false
contains_char c (d ∷ s) = d == c || contains_char c s

abbrev pub is_empty : Text → Bool
is_empty [] = true
is_empty (c ∷ s) = false

-- `s.split_once(c)`: the texts before and after the first `c`.
unfoldable pub split_once : ℕ → Text → Option (Text × Text)
split_once c [] = none
split_once c (d ∷ s) =
    if d == c
    then some ([], s)
    else elim (split_once c s) [ none ↦ none | some (a, b) ↦ some (d ∷ a, b) ]

-- `s.rsplit_once(c)`: the texts before and after the last `c`.
unfoldable pub rsplit_once : ℕ → Text → Option (Text × Text)
unfolding split_once
rsplit_once c s = elim (split_once c (reverse s)) [
  | none ↦ none
  | some (a, b) ↦ some (reverse b, reverse a)
]

pub strip_prefix_iff : (s p r : Text) → (strip_prefix s p ≡ some r) ↔ (s ≡ p ++ r)
unfolding strip_prefix
strip_prefix_iff s [] r = ground arith
strip_prefix_iff [] (p ∷ ps) r = ground arith
strip_prefix_iff (c ∷ s) (p ∷ ps) r = ground (arith, strip_prefix_iff s ps r)

pub starts_with_iff : (s p : Text) → (starts_with s p ≡ true) ↔ ((r : Text) × (s ≡ p ++ r))
unfolding starts_with
starts_with_iff s p = elim (Option-cases (strip_prefix s p)) [
  | inl e ↦ (λ h. ground arith, λ h. ground (arith, strip_prefix_iff s p h.0))
  | inr (r, e) ↦ (λ h. (r, (strip_prefix_iff s p r).0 e), λ h. rw (e, starts_with))
]
