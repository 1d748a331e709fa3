-- ===== src/Profiles/Chain/Climb.antt =====
-- A profile that extends itself by a path with `..`.
use claw_crate.Base.{
  ℕ, zero, suc, ◌+◌, ◌*◌, ◌<◌, ◌≡◌, refl, sym, ap, ◌∙◌, subst, Text, false, Option, none, some,
  List, [], ◌∷◌, ◌++◌, length, length-append, All, any, reverse, reverse-append, reverse-reverse,
  FilePath, path_eq, path_eq_iff, normal, parent_dir, append_assoc, Bool-cases, inl, inr, arith,
}
use claw_crate.Profiles.Merge.{RawProfile}
use claw_crate.Profiles.Resolve.{ok}
use claw_crate.Profiles.Chain.{
  ProfileEntry, path, from_reference, file_path, parent, without_first, Store, over_base,
  resolve_entry,
}

-- The reference `../d/f`.
abbrev pub up_and_down : Text → Text → FilePath
up_and_down d f = parent_dir ∷ normal d ∷ normal f ∷ []

module _ (base : FilePath) (d f : Text) where
  -- Up and down again, any number of times: one directory for a file system without links there.
  abbrev pub climb : ℕ → FilePath
  climb zero = base
  climb (suc n) = climb n ++ normal d ∷ parent_dir ∷ []

  abbrev pub spelled : ℕ → FilePath
  spelled n = climb n ++ normal d ∷ normal f ∷ []

  length-climb : (n : ℕ) → length (climb n) ≡ length base + 2 * n
  length-climb zero = omega arith
  length-climb (suc n) =
      omega (arith, length-append (climb n) (normal d ∷ parent_dir ∷ []), length-climb n)

  length-spelled : (n : ℕ) → length (spelled n) ≡ length base + 2 * n + 2
  length-spelled n =
      omega (arith, length-append (climb n) (normal d ∷ normal f ∷ []), length-climb n)

  parent-spelled : (n : ℕ) → parent (spelled n) ≡ some (climb n ++ normal d ∷ [])
  parent-spelled n =
      ap without_first (reverse-append (climb n) (normal d ∷ normal f ∷ []))
      ∙ ap some (reverse-append (normal d ∷ []) (reverse (climb n)))
      ∙ ap (λ p. some (p ++ normal d ∷ [])) (reverse-reverse (climb n))

  next_file :
      (n : ℕ) (dir : FilePath)
      → file_path (path (up_and_down d f)) (some (climb n ++ normal d ∷ [])) dir ≡ spelled (suc n)
  unfolding file_path
  next_file n dir =
      append_assoc (climb n) (normal d ∷ []) (up_and_down d f)
      ∙ sym (append_assoc (climb n) (normal d ∷ parent_dir ∷ []) (normal d ∷ normal f ∷ []))

  -- No shorter path is the same.
  longer_is_new :
      (p : FilePath) (visited : List FilePath)
      → All (λ q. length q < length p) visited
      → any (path_eq p) visited ≡ false
  longer_is_new p [] h = refl
  longer_is_new p (q ∷ visited) (h, hs) = elim (Bool-cases (path_eq p q)) [
    | inl same ↦ absurd (omega (arith, h, ap length ((path_eq_iff p q).0 same)))
    | inr other ↦ rw other (longer_is_new p visited hs)
  ]

  longer_still :
      (n : ℕ) (visited : List FilePath)
      → All (λ q. length q < length (spelled n)) visited
      → All (λ q. length q < length (spelled (suc n))) visited
  longer_still n [] h = tt
  longer_still n (q ∷ visited) (h, hs) =
      (omega (arith, h, length-spelled n, length-spelled (suc n)), longer_still n visited hs)

  module _ (store : Store) (raw : RawProfile) (reference : Text)
      (loads : (n : ℕ) (entry : ProfileEntry) → store.load entry (spelled n) ≡ ok raw)
      (extends : raw.extends ≡ some reference)
      (refers : from_reference reference ≡ path (up_and_down d f)) where
    climbs :
        (fuel n : ℕ) (entry : ProfileEntry) (relative_to : Option FilePath)
        (visited : List FilePath)
        → file_path entry relative_to store.profiles_dir ≡ spelled n
        → All (λ q. length q < length (spelled n)) visited
        → resolve_entry store fuel entry relative_to visited ≡ none
    unfolding resolve_entry
    climbs zero n entry relative_to visited e h = refl
    climbs (suc fuel) n entry relative_to visited e h =
        let file = file_path entry relative_to store.profiles_dir in
        let new : any (path_eq file) visited ≡ false =
          subst (λ p. any (path_eq p) visited ≡ false) (sym e)
            (longer_is_new (spelled n) visited h) in
        let loaded : store.load entry file ≡ ok raw =
          subst (λ p. store.load entry p ≡ ok raw) (sym e) (loads n entry) in
        let above =
          climbs fuel (suc n) (path (up_and_down d f)) (some (climb n ++ normal d ∷ []))
            (spelled n ∷ visited) (next_file n store.profiles_dir)
            (omega (arith, length-spelled n, length-spelled (suc n)), longer_still n visited h) in
        let below : resolve_entry store fuel (from_reference reference) (parent file)
              (file ∷ visited)
            ≡ none =
          subst
            (λ p.
              resolve_entry store fuel (from_reference reference) (parent p) (p ∷ visited) ≡ none)
            (sym e) (rw (refers, parent-spelled n) above) in
        rw (new, loaded, extends) (ap (over_base raw file) below)

-- A profile at `base/d/f` that extends `../d/f`, so itself, where the file system takes `..` after
-- `d` for the way back: no amount of fuel is enough to resolve it, and the cycle is never reported,
-- since every round spells the path of the file anew.
pub climbing_cycle_unseen :
    (base : FilePath) (d f : Text) (store : Store) (raw : RawProfile) (reference : Text) (fuel : ℕ)
    → ((n : ℕ) (entry : ProfileEntry) → store.load entry (spelled base d f n) ≡ ok raw)
    → raw.extends ≡ some reference
    → from_reference reference ≡ path (up_and_down d f)
    → resolve_entry store fuel (path (spelled base d f 0)) none [] ≡ none
climbing_cycle_unseen base d f store raw reference fuel loads extends refers =
    climbs base d f store raw reference loads extends refers fuel 0 (path (spelled base d f 0)) none
      [] (unfold file_path in refl) tt
