-- ===== src/Replica/Copy.antt =====
-- crates/clawcrate-cli/src/replica.rs: the copying of a workspace into a replica. A directory is the list of
-- its entries; which operation on an entry fails is an argument.
pub mod Copied
use claw_crate.Base.{
  ℕ, zero, suc, Text, codes, Bool, true, false, not, ◌&&◌, ◌||◌, if◌then◌else◌, Option, none, some,
  List, [], ◌∷◌, ◌++◌, map, trim, is_empty, starts_with, text_eq, FilePath, normal, join, ◌==◌,
}
use claw_crate.Audit.Log.{AuditEventKind, replica_created}
use claw_crate.Replica.{Matcher, should_exclude_replica_path}

-- Files with their contents, symbolic links with their targets, directories, and what is none of
-- these; each with its name and the entries behind it.
pub data Entries : Type 0 where
  nil : Entries
  file : Text → Text → Entries → Entries
  symlink : Text → Text → Entries → Entries
  dir : Text → Entries → Entries → Entries
  other : Text → Entries → Entries

-- Whether listing a directory, or reading and making an entry at a path from the root on, works.
abbrev pub Works : Type 0
Works = FilePath → Bool

abbrev pub with_file : Text → Text → Option Entries → Option Entries
with_file name contents none = none
with_file name contents (some rest) = some (file name contents rest)

abbrev pub with_symlink : Text → Text → Option Entries → Option Entries
with_symlink name target none = none
with_symlink name target (some rest) = some (symlink name target rest)

abbrev pub with_dir : Text → Option Entries → Option Entries → Option Entries
with_dir name none rest = none
with_dir name (some inner) none = none
with_dir name (some inner) (some rest) = some (dir name inner rest)

abbrev pub if_works : Bool → Option Entries → Option Entries
if_works true entries = entries
if_works false entries = none

-- A clone of a file or else a copy of it.
abbrev pub materialize_replica_file : Bool → Bool → Bool
materialize_replica_file clones copies = clones || copies

abbrev pub child : FilePath → Text → FilePath
child relative name = relative ++ normal name ∷ []

module _ (source_root : FilePath) (ignored : Matcher) (works clones : Works) where
  -- The directory at `relative` with these entries; what is made in the empty target, or an error.
  unfoldable pub copy_directory_recursive : FilePath → Entries → Option Entries
  unfolding should_exclude_replica_path
  copy_directory_recursive relative nil = some nil
  copy_directory_recursive relative (file name contents rest) =
      let copied = copy_directory_recursive relative rest in
      if should_exclude_replica_path (child relative name) false source_root ignored
      then copied
      else if_works
          (materialize_replica_file (clones (child relative name)) (works (child relative name)))
          (with_file name contents copied)
  copy_directory_recursive relative (symlink name target rest) =
      let copied = copy_directory_recursive relative rest in
      if should_exclude_replica_path (child relative name) false source_root ignored
      then copied
      else if_works (works (child relative name)) (with_symlink name target copied)
  copy_directory_recursive relative (dir name inner rest) =
      let copied = copy_directory_recursive relative rest in
      let below = copy_directory_recursive (child relative name) inner in
      if should_exclude_replica_path (child relative name) true source_root ignored
      then copied
      else if_works (works (child relative name)) (with_dir name below copied)
  copy_directory_recursive relative (other name rest) = copy_directory_recursive relative rest

  -- For the source, if it is a directory; whether a replica is there already, and whether its
  -- removal and the making of the new one work.
  unfoldable pub copy_workspace_with_default_exclusions :
      Option Entries → Bool → Bool → Bool → Option Entries
  unfolding copy_directory_recursive
  copy_workspace_with_default_exclusions none exists removes makes = none
  copy_workspace_with_default_exclusions (some entries) exists removes makes =
      if exists && not removes
      then none
      else if not makes
      then none
      else if_works (works []) (copy_directory_recursive [] entries)

-- The lines of an ignore file.
abbrev pub add_char : ℕ → List Text → List Text
add_char c [] = (c ∷ []) ∷ []
add_char c (l ∷ ls) = (c ∷ l) ∷ ls

unfoldable pub text_lines : Text → List Text
text_lines [] = []
text_lines (c ∷ s) = if c == 10 then [] ∷ text_lines s else add_char c (text_lines s)

unfoldable pub user_patterns : List Text → List Text
unfolding trim starts_with
user_patterns [] = []
user_patterns (l ∷ ls) =
    let pattern = trim l in
    let rest = user_patterns ls in
    if is_empty pattern || starts_with pattern (codes "#") then rest else pattern ∷ rest

-- For a path that is a file or not; its contents, if they can be read.
unfoldable pub load_user_ignore_patterns : Bool → Option Text → Option (List Text)
unfolding user_patterns text_lines
load_user_ignore_patterns false content = some []
load_user_ignore_patterns true none = none
load_user_ignore_patterns true (some content) = some (user_patterns (text_lines content))

-- The patterns, and the matcher that the ignore library builds of the file, if it does.
abbrev pub with_matcher : Option (List Text) → Option Matcher → Option (List Text × Matcher)
with_matcher none matcher = none
with_matcher (some patterns) none = none
with_matcher (some patterns) (some ignored) = some (patterns, ignored)

unfoldable pub load_replica_ignore_config :
    Bool → Option Text → Option Matcher → Option (List Text × Matcher)
unfolding load_user_ignore_patterns
load_replica_ignore_config is_file content matcher =
    with_matcher (load_user_ignore_patterns is_file content) matcher

abbrev pub default_patterns : List Text
default_patterns = codes ".env" ∷ codes ".env.*" ∷ codes "**/.git/config" ∷ []

pub data Materialized : Type 0 where
  -- In direct mode nothing is made.
  untouched failed : Materialized
  -- The replica, and the event, if it could be appended.
  made : Entries → AuditEventKind → Bool → Materialized

abbrev pub made_of : FilePath → FilePath → List Text → Bool → Option Entries → Materialized
made_of source copy patterns appends none = failed
made_of source copy patterns appends (some replica) =
    made replica (replica_created source copy (default_patterns ++ patterns)) appends

-- What the file system and the audit log answer.
pub record CopyWorld : Type 0 where
  pub works : Works
  pub clones : Works
  pub replica_exists : Bool
  pub removes : Bool
  pub makes : Bool
  pub appends : Bool

module _ (world : CopyWorld) where
  abbrev pub with_config :
      FilePath → FilePath → Option Entries → Option (List Text × Matcher) → Materialized
  with_config source copy entries none = failed
  with_config source copy entries (some (patterns, ignored)) =
      made_of source copy patterns world.appends (
        copy_workspace_with_default_exclusions source ignored world.works world.clones entries
          world.replica_exists world.removes world.makes)

  -- For a plan in replica mode (its source and copy), or not; the source's entries, if it is a
  -- directory, and its ignore file.
  unfoldable pub materialize_workspace_for_execution :
      Option (FilePath × FilePath)
      → Option Entries
      → Bool
      → Option Text
      → Option Matcher
      → Materialized
  unfolding copy_workspace_with_default_exclusions load_replica_ignore_config
  materialize_workspace_for_execution none entries is_file content matcher = untouched
  materialize_workspace_for_execution (some (source, copy)) entries is_file content matcher =
      with_config source copy entries (load_replica_ignore_config is_file content matcher)
