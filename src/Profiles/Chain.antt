-- ===== src/Profiles/Chain.antt =====
-- `resolve_entry` (crates/clawcrate-profiles/src/lib.rs): the chain of `extends`. Reading and
-- parsing a profile is an argument. A path keeps its `.` and `..` components, as the text of it does, by
-- which the source compares; only repeated slashes of the text are not kept.
pub mod Nearest
pub mod Ends
pub mod Climb
use claw_crate.Base.{
  ℕ, zero, suc, ◌≡◌, Text, codes, Bool, true, false, ◌||◌, if◌then◌else◌, Option, none, some, List,
  [], ◌∷◌, ◌++◌, FilePath, path_eq, any, ends_with, starts_with, contains_char, reverse,
  is_absolute, normal, root_dir, cur_dir,
}
use claw_crate.Profiles.Merge.{RawProfile, InheritedProfile, from_raw, merge_profiles}
use claw_crate.Profiles.Resolve.{Result, ok, err, ProfileError, inheritance_cycle, to_path}

pub data ProfileEntry : Type 0 where
  builtin : Text → ProfileEntry
  path : FilePath → ProfileEntry

unfoldable pub looks_like_path : Text → Bool
unfolding ends_with starts_with contains_char
looks_like_path reference =
    ends_with reference (codes ".yaml")
    || ends_with reference (codes ".yml")
    || starts_with reference (codes ".")
    || starts_with reference (codes "/")
    || contains_char 47 reference

unfoldable pub from_reference : Text → ProfileEntry
unfolding looks_like_path
from_reference reference =
    if looks_like_path reference then path (to_path reference) else builtin reference

unfoldable pub file_path : ProfileEntry → Option FilePath → FilePath → FilePath
file_path (builtin name) relative_to profiles_dir =
    profiles_dir ++ normal (name ++ codes ".yaml") ∷ []
file_path (path p) none profiles_dir = p
file_path (path p) (some base) profiles_dir = if is_absolute p then p else base ++ p

-- `Path::parent`.
abbrev pub drop_dots : FilePath → FilePath
drop_dots (cur_dir ∷ c ∷ rest) = drop_dots (c ∷ rest)
drop_dots p = p

abbrev pub without_first : FilePath → Option FilePath
without_first [] = none
without_first (root_dir ∷ rest) = none
without_first (c ∷ rest) = some (reverse (drop_dots rest))

abbrev pub parent : FilePath → Option FilePath
parent p = without_first (reverse p)

-- `load_builtin_profile` and `load_raw_profile`, by the entry and its file.
pub record Store : Type 0 where
  pub profiles_dir : FilePath
  pub load : ProfileEntry → FilePath → Result RawProfile

-- The profile over what its base resolves to.
abbrev pub over_base :
    RawProfile → FilePath → Option (Result InheritedProfile) → Option (Result InheritedProfile)
over_base raw file none = none
over_base raw file (some (err e)) = some (err e)
over_base raw file (some (ok base)) = some (ok (merge_profiles base (from_raw raw file)))

-- `visited` holds the paths of the files of the entries above, as they are spelled; `none` when the fuel is out. The entry that is
-- done takes its file out again, so the caller's set is as before.
unfoldable pub resolve_entry :
    Store → ℕ → ProfileEntry → Option FilePath → List FilePath → Option (Result InheritedProfile)
resolve_entry store zero entry relative_to visited = none
resolve_entry store (suc fuel) entry relative_to visited =
    let file = file_path entry relative_to store.profiles_dir in
    if any (path_eq file) visited
    then some (err (inheritance_cycle file))
    else elim (store.load entry file) [
      | err e ↦ some (err e)
      | ok raw ↦ elim raw.extends [
        | none ↦ some (ok (from_raw raw file))
        | some base ↦
            over_base raw file
              (resolve_entry store fuel (from_reference base) (parent file) (file ∷ visited))
      ]
    ]
