-- ===== src/PathNormalize/Tests.antt =====
-- Paths of a profile, and the theorem at them.
use claw_crate.Base.{
  ◌≡◌, refl, codes, none, some, List, [], ◌∷◌, All, FilePath, starts_with, root_dir, cur_dir,
  parent_dir, normal,
}
use claw_crate.PathNormalize.{home_from_env_pairs, normalize_paths}
use claw_crate.PathNormalize.Clean.{IsCleanAbsolute, normalize_paths-IsCleanAbsolute}

abbrev cwd : FilePath
cwd = root_dir ∷ normal (codes "work") ∷ []

abbrev home_dir : FilePath
home_dir = root_dir ∷ normal (codes "home") ∷ []

abbrev paths : List FilePath
paths =
    (cur_dir ∷ [])
    ∷ (normal (codes "~") ∷ cur_dir ∷ normal (codes ".npm") ∷ [])
    ∷ (parent_dir ∷ normal (codes "b") ∷ [])
    ∷ []

found_home :
    home_from_env_pairs ((codes "HOME", []) ∷ (codes "HOME", codes "/home") ∷ []) ≡ some home_dir
unfolding home_from_env_pairs starts_with
found_home = refl

normalized_paths :
    normalize_paths cwd paths (some home_dir)
    ≡ cwd
      ∷ (root_dir ∷ normal (codes "home") ∷ normal (codes ".npm") ∷ [])
      ∷ (root_dir ∷ normal (codes "work") ∷ parent_dir ∷ normal (codes "b") ∷ [])
      ∷ []
unfolding normalize_paths
normalized_paths = refl

normalize_paths-IsCleanAbsolute_example :
    All IsCleanAbsolute (normalize_paths cwd paths (some home_dir))
    × (normalize_paths home_dir (normalize_paths cwd paths (some home_dir)) none
        ≡ normalize_paths cwd paths (some home_dir))
normalize_paths-IsCleanAbsolute_example =
    normalize_paths-IsCleanAbsolute cwd home_dir paths (some home_dir) none refl
