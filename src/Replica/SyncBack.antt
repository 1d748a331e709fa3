-- ===== src/Replica/SyncBack.antt =====
-- crates/clawcrate-cli/src/replica.rs: `apply_replica_sync_back`, by which changes of a replica come back to
-- the source. What the file system answers for each change is an argument.
pub mod Tried
pub mod Contained
use claw_crate.Base.{
  Bool, true, false, not, if◌then◌else◌, Option, none, some, List, [], ◌∷◌, ◌++◌, FilePath, join,
}
use claw_crate.Capture.Snapshots.{FsChangeKind, created, modified, deleted}
use claw_crate.Profiles.Chain.{parent}
use claw_crate.Replica.{ReplicaSyncChange, Ended, ok, error}

pub data FileType : Type 0 where
  regular link directory special : FileType

-- The kinds of the entries, links not followed, or that there is none; whether the path in the source
-- exists, links followed; and which operations work.
pub record Answers : Type 0 where
  pub replica_type : Option FileType
  pub source_type : Option FileType
  pub source_exists : Bool
  pub makes : Bool
  pub removes : Bool
  pub links : Bool
  pub copies : Bool

pub data SyncOp : Type 0 where
  made_dirs removed : FilePath → SyncOp
  linked copied : FilePath → FilePath → SyncOp

abbrev pub Done : Type 0
Done = List SyncOp × Ended

abbrev pub ended : Bool → Ended
ended true = ok
ended false = error

abbrev pub then_do : List SyncOp → Bool → Done → Done
then_do ops false next = (ops, error)
then_do ops true (more, end) = (ops ++ more, end)

abbrev pub is_link : FileType → Bool
is_link link = true
is_link _ = false

-- `none` for what is neither a link nor a file.
abbrev pub syncable_type : Option FileType → Option FileType
syncable_type (some regular) = some regular
syncable_type (some link) = some link
syncable_type _ = none

abbrev pub replaces : Option FileType → Bool
replaces none = false
replaces (some directory) = false
replaces (some _) = true

module _ (answers : Answers) (replica_path source_path : FilePath) where
  -- A link is made anew, a file copied; what failed is tried too.
  abbrev pub put : FileType → Done
  put file_type =
      if is_link file_type
      then (linked replica_path source_path ∷ [], ended answers.links)
      else (copied replica_path source_path ∷ [], ended answers.copies)

  abbrev pub replace_then_put : FileType → Done
  replace_then_put file_type =
      if replaces answers.source_type
      then then_do (removed source_path ∷ []) answers.removes (put file_type)
      else put file_type

  abbrev pub make_then_put : Option FilePath → FileType → Done
  make_then_put none file_type = replace_then_put file_type
  make_then_put (some dir) file_type =
      then_do (made_dirs dir ∷ []) answers.makes (replace_then_put file_type)

  abbrev pub bring : Option FileType → Done
  bring none = ([], ok)
  bring (some file_type) = make_then_put (parent source_path) file_type

  -- A path that exists has an entry to look at, or its inspection fails.
  abbrev pub delete_entry : Option FileType → Done
  delete_entry none = ([], error)
  delete_entry (some file_type) =
      if replaces (some file_type)
      then (removed source_path ∷ [], ended answers.removes)
      else ([], ok)

  abbrev pub by_kind : FsChangeKind → Done
  by_kind created = bring (syncable_type answers.replica_type)
  by_kind modified = bring (syncable_type answers.replica_type)
  by_kind deleted = if answers.source_exists then delete_entry answers.source_type else ([], ok)

abbrev pub go_on : Done → Done → Done
go_on (ops, error) next = (ops, error)
go_on (ops, ok) (more, end) = (ops ++ more, end)

module _ (source_root copy_root : FilePath) where
  unfoldable pub sync_change : ReplicaSyncChange → Answers → Done
  unfolding join
  sync_change change answers =
      by_kind answers (join copy_root change.relative_path) (join source_root change.relative_path)
        change.kind

  -- The changes with the answers for each; the first error ends the loop.
  unfoldable pub apply_replica_sync_back : List (ReplicaSyncChange × Answers) → Done
  unfolding sync_change
  apply_replica_sync_back [] = ([], ok)
  apply_replica_sync_back ((change, answers) ∷ changes) =
      go_on (sync_change change answers) (apply_replica_sync_back changes)
