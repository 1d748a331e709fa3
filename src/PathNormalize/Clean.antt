-- ===== src/PathNormalize/Clean.antt =====
-- What a normalized path looks like, and that normalizing is done once.
use claw_crate.Base.{
  ◌≡◌, refl, ap, ap₂, ◌≢◌, inl, inr, true, Option, none, some, List, [], ◌∷◌, ◌++◌, All, FilePath,
  root_dir, cur_dir, parent_dir, normal, is_absolute, Bool-cases, arith,
}
use claw_crate.Profiles.Resolve.{without_dots}
use claw_crate.PathNormalize.{
  expand_home_path, lexically_clean, resolve_path_with_home, normalize_paths,
}

-- A path from the root, with no `.` in it.
abbrev pub IsCleanAbsolute : FilePath → Type 0
IsCleanAbsolute [] = ⊥
IsCleanAbsolute (root_dir ∷ rest) = All (λ c. c ≢ cur_dir) rest
IsCleanAbsolute (cur_dir ∷ rest) = ⊥
IsCleanAbsolute (parent_dir ∷ rest) = ⊥
IsCleanAbsolute (normal n ∷ rest) = ⊥

without_dots-All : (p : FilePath) → All (λ c. c ≢ cur_dir) (without_dots p)
without_dots-All [] = ground arith
without_dots-All (cur_dir ∷ p) = without_dots-All p
without_dots-All (root_dir ∷ p) = ((λ h. ground arith), without_dots-All p)
without_dots-All (parent_dir ∷ p) = ((λ h. ground arith), without_dots-All p)
without_dots-All (normal n ∷ p) = ((λ h. ground arith), without_dots-All p)

without_dots-clean : (p : FilePath) → All (λ c. c ≢ cur_dir) p → without_dots p ≡ p
without_dots-clean [] h = refl
without_dots-clean (cur_dir ∷ p) h = absurd (h.0 refl)
without_dots-clean (root_dir ∷ p) h = ap (λ q. root_dir ∷ q) (without_dots-clean p (h.1))
without_dots-clean (parent_dir ∷ p) h = ap (λ q. parent_dir ∷ q) (without_dots-clean p (h.1))
without_dots-clean (normal n ∷ p) h = ap (λ q. normal n ∷ q) (without_dots-clean p (h.1))

lexically_clean-IsCleanAbsolute :
    (p : FilePath) → is_absolute p ≡ true → IsCleanAbsolute (lexically_clean p)
unfolding lexically_clean
lexically_clean-IsCleanAbsolute [] h = ground arith
lexically_clean-IsCleanAbsolute (root_dir ∷ rest) h = without_dots-All rest
lexically_clean-IsCleanAbsolute (cur_dir ∷ rest) h = ground arith
lexically_clean-IsCleanAbsolute (parent_dir ∷ rest) h = ground arith
lexically_clean-IsCleanAbsolute (normal n ∷ rest) h = ground arith

absolute-append : (p q : FilePath) → is_absolute p ≡ true → is_absolute (p ++ q) ≡ true
absolute-append [] q h = ground arith
absolute-append (root_dir ∷ rest) q h = refl
absolute-append (cur_dir ∷ rest) q h = ground arith
absolute-append (parent_dir ∷ rest) q h = ground arith
absolute-append (normal n ∷ rest) q h = ground arith

resolve-IsCleanAbsolute :
    (cwd path : FilePath) (home : Option FilePath)
    → is_absolute cwd ≡ true
    → IsCleanAbsolute (resolve_path_with_home cwd path home)
unfolding resolve_path_with_home
resolve-IsCleanAbsolute cwd path home h =
    elim (Bool-cases (is_absolute (expand_home_path path home))) [
      | inl e ↦ rw e (lexically_clean-IsCleanAbsolute (expand_home_path path home) e)
      | inr e ↦ rw e (
          lexically_clean-IsCleanAbsolute (cwd ++ expand_home_path path home)
            (absolute-append cwd (expand_home_path path home) h))
    ]

resolve_again :
    (cwd p : FilePath) (home : Option FilePath)
    → IsCleanAbsolute p
    → resolve_path_with_home cwd p home ≡ p
unfolding resolve_path_with_home expand_home_path lexically_clean
resolve_again cwd [] home h = absurd h
resolve_again cwd (cur_dir ∷ rest) home h = absurd h
resolve_again cwd (parent_dir ∷ rest) home h = absurd h
resolve_again cwd (normal n ∷ rest) home h = absurd h
resolve_again cwd (root_dir ∷ rest) none h = ap (λ q. root_dir ∷ q) (without_dots-clean rest h)
resolve_again cwd (root_dir ∷ rest) (some home) h =
    ap (λ q. root_dir ∷ q) (without_dots-clean rest h)

normalize_again :
    (cwd : FilePath) (paths : List FilePath) (home : Option FilePath)
    → All IsCleanAbsolute paths
    → normalize_paths cwd paths home ≡ paths
unfolding normalize_paths
normalize_again cwd [] home h = refl
normalize_again cwd (p ∷ paths) home h =
    ap₂ (λ x xs. x ∷ xs) (resolve_again cwd p home (h.0)) (normalize_again cwd paths home (h.1))

normalize_paths-All :
    (cwd : FilePath) (paths : List FilePath) (home : Option FilePath)
    → is_absolute cwd ≡ true
    → All IsCleanAbsolute (normalize_paths cwd paths home)
unfolding normalize_paths
normalize_paths-All cwd [] home h = ground arith
normalize_paths-All cwd (p ∷ paths) home h =
    (resolve-IsCleanAbsolute cwd p home h, normalize_paths-All cwd paths home h)

-- From an absolute working directory, whatever the paths and the home are: every normalized path
-- starts at the root and has no `.` in it, and normalizing them again, from any directory and with
-- any home, changes nothing.
pub normalize_paths-IsCleanAbsolute :
    (cwd other : FilePath) (paths : List FilePath) (home home' : Option FilePath)
    → is_absolute cwd ≡ true
    → All IsCleanAbsolute (normalize_paths cwd paths home)
      × (normalize_paths other (normalize_paths cwd paths home) home'
          ≡ normalize_paths cwd paths home)
normalize_paths-IsCleanAbsolute cwd other paths home home' h =
    let clean = normalize_paths-All cwd paths home h in
    (clean, normalize_again other (normalize_paths cwd paths home) home' clean)
