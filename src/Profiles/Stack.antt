-- ===== src/Profiles/Stack.antt =====
-- `resolve_auto` (crates/clawcrate-profiles/src/lib.rs): the stack of a workspace and what it adds
-- to a profile. Where the files of the workspace are is an argument.
use claw_crate.Base.{
  Text, codes, Bool, not, if◌then◌else◌, List, [], ◌∷◌, ◌++◌, all, text_eq, FilePath, path_eq,
  normal, cur_dir,
}
use claw_crate.Profiles.Resolve.{ResolvedProfile}

pub data DetectedStack : Type 0 where
  rust node python unknown : DetectedStack

-- `workspace_root.is_dir()`, and `is_file()` of a name in it.
pub record Workspace : Type 0 where
  pub is_dir : Bool
  pub is_file : Text → Bool

unfoldable pub detect_stack : Workspace → DetectedStack
detect_stack workspace =
    if not workspace.is_dir
    then unknown
    else if workspace.is_file (codes "Cargo.toml")
    then rust
    else if workspace.is_file (codes "package.json")
    then node
    else if workspace.is_file (codes "pyproject.toml")
    then python
    else unknown

-- A path beginning with `~`, which is a name like others, or with `.`.
abbrev pub home : List Text → FilePath
home names = normal (codes "~") ∷ under names
  where
    under : List Text → FilePath
    under [] = []
    under (n ∷ ns) = normal n ∷ under ns

unfoldable pub push_unique_path : List FilePath → FilePath → List FilePath
push_unique_path values path =
    if all (λ existing. not (path_eq existing path)) values then values ++ path ∷ [] else values

unfoldable pub push_unique_string : List Text → Text → List Text
unfolding text_eq
push_unique_string values candidate =
    if all (λ existing. not (text_eq existing candidate)) values
    then values ++ candidate ∷ []
    else values

unfoldable pub apply_stack_overrides : ResolvedProfile → DetectedStack → ResolvedProfile
unfolding push_unique_path push_unique_string
apply_stack_overrides profile rust = profile
apply_stack_overrides profile unknown = profile
apply_stack_overrides profile node = record profile {
  fs_read =
      push_unique_path (push_unique_path profile.fs_read (home (codes ".npm" ∷ [])))
        (home (codes ".pnpm-store" ∷ []));
  fs_write =
      push_unique_path
        (push_unique_path
          (push_unique_path profile.fs_write (cur_dir ∷ normal (codes "node_modules") ∷ []))
          (home (codes ".npm" ∷ [])))
        (home (codes ".pnpm-store" ∷ []));
  env_passthrough = push_unique_string profile.env_passthrough (codes "NPM_CONFIG_CACHE");
}
apply_stack_overrides profile python = record profile {
  fs_read = push_unique_path profile.fs_read (home (codes ".cache" ∷ codes "pip" ∷ []));
  fs_write =
      push_unique_path (push_unique_path profile.fs_write (cur_dir ∷ normal (codes ".venv") ∷ []))
        (home (codes ".cache" ∷ codes "pip" ∷ []));
  env_passthrough = push_unique_string profile.env_passthrough (codes "PIP_CACHE_DIR");
}
