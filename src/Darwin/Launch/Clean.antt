-- ===== src/Darwin/Launch/Clean.antt =====
-- The name of the profile's file stays in its directory.
use mathlib.Core.List.{reverse_aux}
use claw_crate.Base.{
  ℕ, zero, suc, ◌≡◌, refl, Text, Bool, true, [], ◌∷◌, all, reverse, is_empty, drop_while,
  trim_start_matches, trim_end_matches, arith, Bool-cases, inl, inr,
}
use claw_crate.Darwin.Launch.{
  is_clean, sanitize_chars, is_underscore, sanitize_identifier_component,
}

-- Only letters, digits, dashes and underscores.
abbrev pub IsClean : Text → Type 0
IsClean text = all is_clean text ≡ true

sanitize_chars-IsClean : (room : ℕ) (value : Text) → IsClean (sanitize_chars room value)
unfolding sanitize_chars
sanitize_chars-IsClean room [] = refl
sanitize_chars-IsClean zero (c ∷ value) = refl
sanitize_chars-IsClean (suc room) (c ∷ value) = ground (arith, sanitize_chars-IsClean room value)

drop_while-IsClean : (p : ℕ → Bool) (text : Text) → IsClean text → IsClean (drop_while p text)
unfolding drop_while
drop_while-IsClean p [] h = h
drop_while-IsClean p (c ∷ text) h = ground (arith, drop_while-IsClean p text)

reverse_aux-IsClean : (xs ys : Text) → IsClean xs → IsClean ys → IsClean (reverse_aux xs ys)
reverse_aux-IsClean [] ys h k = k
reverse_aux-IsClean (x ∷ xs) ys h k = reverse_aux-IsClean xs (x ∷ ys) (ground arith) (ground arith)

-- With a fallback of clean characters the result has only such: no slash and no dot.
pub sanitize_identifier_component-IsClean :
    (value fallback : Text) (max_len : ℕ)
    → IsClean fallback
    → IsClean (sanitize_identifier_component value max_len fallback)
unfolding sanitize_identifier_component
sanitize_identifier_component-IsClean value fallback max_len h =
    let front = drop_while is_underscore (sanitize_chars max_len value) in
    let back = drop_while is_underscore (reverse front) in
    let clean : IsClean (reverse back) =
      reverse_aux-IsClean back []
        (drop_while-IsClean is_underscore (reverse front) (
          reverse_aux-IsClean front []
            (drop_while-IsClean is_underscore (sanitize_chars max_len value)
              (sanitize_chars-IsClean max_len value))
            refl))
        refl in
    unfold trim_start_matches trim_end_matches in
    elim (Bool-cases (is_empty (reverse back))) [
      | inl nothing ↦ rw nothing h
      | inr something ↦ rw something clean
    ]
