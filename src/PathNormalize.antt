-- ===== src/PathNormalize.antt =====
-- crates/clawcrate-sandbox/src/path_normalize.rs. A path here keeps its `.` components, as the text of
-- it does.
pub mod Clean
mod Tests
use claw_crate.Base.{
  Text, codes, Bool, true, false, ◌&&◌, not, if◌then◌else◌, Option, none, some, List, [], ◌∷◌, ◌++◌,
  text_eq, is_empty, FilePath, Component, root_dir, cur_dir, parent_dir, normal, is_absolute,
}
use claw_crate.Profiles.Resolve.{to_path, inner_without_dots, without_dots}

unfoldable pub home_from_env_pairs : List (Text × Text) → Option FilePath
unfolding text_eq to_path
home_from_env_pairs [] = none
home_from_env_pairs ((key, value) ∷ env) =
    let rest = home_from_env_pairs env in
    if text_eq key (codes "HOME") && not (is_empty value) then some (to_path value) else rest

abbrev pub is_tilde : Component → Bool
is_tilde (normal name) = text_eq name (codes "~")
is_tilde root_dir = false
is_tilde cur_dir = false
is_tilde parent_dir = false

-- The components behind the `~` are pushed one by one, without the `.` among them.
unfoldable pub expand_home_path : FilePath → Option FilePath → FilePath
unfolding text_eq
expand_home_path [] home = []
expand_home_path (c ∷ rest) none = c ∷ rest
expand_home_path (c ∷ rest) (some home_path) =
    if is_tilde c then home_path ++ without_dots rest else c ∷ rest

abbrev pub or_dot : FilePath → FilePath
or_dot [] = cur_dir ∷ []
or_dot (c ∷ rest) = c ∷ rest

unfoldable pub lexically_clean : FilePath → FilePath
lexically_clean path = or_dot (inner_without_dots path)

unfoldable pub resolve_path_with_home : FilePath → FilePath → Option FilePath → FilePath
unfolding expand_home_path lexically_clean
resolve_path_with_home cwd path home =
    let expanded = expand_home_path path home in
    lexically_clean (if is_absolute expanded then expanded else cwd ++ expanded)

unfoldable pub normalize_paths : FilePath → List FilePath → Option FilePath → List FilePath
unfolding resolve_path_with_home
normalize_paths cwd [] home = []
normalize_paths cwd (path ∷ paths) home =
    resolve_path_with_home cwd path home ∷ normalize_paths cwd paths home
