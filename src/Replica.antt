-- ===== src/Replica.antt =====
-- crates/clawcrate-cli/src/replica.rs: what a replica leaves out, which of its changes can be synced
-- back, and when that is done. The matcher of `.clawcrateignore`, the terminal and the user are
-- arguments.
pub mod Synced
pub mod Decision
pub mod Copy
pub mod SyncBack
mod Tests
use claw_crate.Base.{
  ℕ, zero, suc, ◌+◌, Text, codes, Bool, true, false, ◌&&◌, ◌||◌, not, if◌then◌else◌, Option, none,
  some, List, [], ◌∷◌, ◌++◌, length, reverse, text_eq, starts_with, FilePath, Component, normal,
  join, strip_path, file_name, trim, to_ascii_lowercase,
}
use claw_crate.Capture.Snapshots.{FsChange, FsChangeKind}
use claw_crate.Audit.Log.{AuditEventKind, replica_sync_back}
use claw_crate.Profiles.Resolve.{DefaultMode, direct, replica}

unfoldable pub is_secret_env_filename : Text → Bool
unfolding text_eq starts_with
is_secret_env_filename name = text_eq name (codes ".env") || starts_with name (codes ".env.")

abbrev pub holds : (Text → Bool) → Option Text → Bool
holds test none = false
holds test (some name) = test name

unfoldable pub matches_exact_dotenv : FilePath → Bool
unfolding text_eq
matches_exact_dotenv relative_path =
    holds (λ name. text_eq name (codes ".env")) (file_name relative_path)

unfoldable pub matches_secret_dotenv_variant : FilePath → Bool
unfolding is_secret_env_filename
matches_secret_dotenv_variant relative_path = holds is_secret_env_filename (file_name relative_path)

-- The components from the last on.
abbrev pub ends_in_git_config : List Component → Bool
ends_in_git_config (normal config ∷ normal git_dir ∷ rest) =
    text_eq config (codes "config") && text_eq git_dir (codes ".git")
ends_in_git_config _ = false

unfoldable pub matches_git_config_path : FilePath → Bool
unfolding text_eq
matches_git_config_path relative_path = ends_in_git_config (reverse relative_path)

unfoldable pub should_exclude_default_replica_path : FilePath → Bool
unfolding matches_exact_dotenv matches_secret_dotenv_variant matches_git_config_path
should_exclude_default_replica_path relative_path =
    matches_exact_dotenv relative_path
    || matches_secret_dotenv_variant relative_path
    || matches_git_config_path relative_path

-- Whether the patterns of `.clawcrateignore` ignore a path or one of its parents.
abbrev pub Matcher : Type 0
Matcher = FilePath → Bool → Bool

unfoldable pub should_exclude_replica_path : FilePath → Bool → FilePath → Matcher → Bool
unfolding should_exclude_default_replica_path join
should_exclude_replica_path relative_path is_dir source_root ignored =
    if should_exclude_default_replica_path relative_path
    then true
    else ignored (join source_root relative_path) is_dir

pub record ReplicaSyncChange : Type 0 where
  pub relative_path : FilePath
  pub kind : FsChangeKind

-- The closure of `filter_map` behind `strip_prefix`.
unfoldable pub syncable :
    FilePath → Matcher → FsChangeKind → Option FilePath → Option ReplicaSyncChange
unfolding should_exclude_replica_path
syncable source_root ignored kind none = none
syncable source_root ignored kind (some []) = none
syncable source_root ignored kind (some (c ∷ rest)) =
    if should_exclude_replica_path (c ∷ rest) false source_root ignored
    then none
    else some (record { relative_path = c ∷ rest; kind = kind })

abbrev pub push_some : Option ReplicaSyncChange → List ReplicaSyncChange → List ReplicaSyncChange
push_some none changes = changes
push_some (some change) changes = change ∷ changes

unfoldable pub collect_syncable_replica_changes :
    FilePath → FilePath → List FsChange → Matcher → List ReplicaSyncChange
unfolding syncable strip_path
collect_syncable_replica_changes copy_root source_root [] ignored = []
collect_syncable_replica_changes copy_root source_root (change ∷ fs_diff) ignored =
    push_some (syncable source_root ignored change.kind (strip_path change.path copy_root))
      (collect_syncable_replica_changes copy_root source_root fs_diff ignored)

unfoldable pub is_replica_sync_back_interactive : Bool → Bool → Bool
is_replica_sync_back_interactive stdin_is_terminal stdout_is_terminal =
    stdin_is_terminal && stdout_is_terminal

-- The answer at the prompt, or the failure to read one.
unfoldable pub accepts : Text → Bool
unfolding text_eq trim to_ascii_lowercase
accepts answer =
    let a = to_ascii_lowercase (trim answer) in text_eq a (codes "y") || text_eq a (codes "yes")

pub record Session : Type 0 where
  pub json : Bool
  pub stdin_is_terminal : Bool
  pub stdout_is_terminal : Bool
  pub answer : Option Text
  -- Whether `apply_replica_sync_back` works, and whether the audit event can be appended.
  pub apply_works : Bool
  pub append_works : Bool

pub data SyncEffect : Type 0 where
  prompted : SyncEffect
  applied : List ReplicaSyncChange → SyncEffect
  appended : AuditEventKind → SyncEffect

pub data Ended : Type 0 where
  ok error : Ended

module _ (session : Session) where
  abbrev pub append_last : AuditEventKind → List SyncEffect × Ended
  append_last event = (appended event ∷ [], if session.append_works then ok else error)

  abbrev pub then_append : List SyncEffect → AuditEventKind → List SyncEffect × Ended
  then_append effects event =
      (effects ++ appended event ∷ [], if session.append_works then ok else error)

  abbrev pub at_prompt : List ReplicaSyncChange → Option Text → List SyncEffect × Ended
  at_prompt changes none = (prompted ∷ [], error)
  at_prompt changes (some answer) =
      if accepts answer
      then (if session.apply_works
          then then_append (prompted ∷ applied changes ∷ [])
              (replica_sync_back true (length changes))
          else (prompted ∷ applied changes ∷ [], error))
      else then_append (prompted ∷ []) (replica_sync_back false (length changes))

  -- `maybe_sync_back_replica` behind the collection of the changes.
  unfoldable pub sync_back_changes : List ReplicaSyncChange → List SyncEffect × Ended
  unfolding is_replica_sync_back_interactive accepts
  sync_back_changes [] = append_last (replica_sync_back false 0)
  sync_back_changes (change ∷ changes) =
      let n = length (change ∷ changes) in
      if session.json
      then append_last (replica_sync_back false n)
      else if not
          (is_replica_sync_back_interactive session.stdin_is_terminal session.stdout_is_terminal)
      then append_last (replica_sync_back false n)
      else at_prompt (change ∷ changes) session.answer

  -- For a plan in replica mode (its source and copy), or not; the ignore file may not load.
  unfoldable pub maybe_sync_back_replica :
      Option (FilePath × FilePath) → Option Matcher → List FsChange → List SyncEffect × Ended
  unfolding sync_back_changes collect_syncable_replica_changes
  maybe_sync_back_replica none matcher fs_diff = ([], ok)
  maybe_sync_back_replica (some (source, copy)) none fs_diff = ([], error)
  maybe_sync_back_replica (some (source, copy)) (some ignored) fs_diff =
      sync_back_changes (collect_syncable_replica_changes copy source fs_diff ignored)

unfoldable pub select_default_mode : DefaultMode → Bool → Bool → DefaultMode
select_default_mode default_mode replica_flag direct_flag =
    if replica_flag then replica else if direct_flag then direct else default_mode
