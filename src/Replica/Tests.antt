-- ===== src/Replica/Tests.antt =====
-- Runs of the sync-back, and the theorems at such runs.
use claw_crate.Base.{
  ◌≡◌, ◌↔◌, refl, codes, Bool, true, false, Option, none, some, List, [], ◌∷◌, FilePath, normal,
  root_dir, join, trim, starts_with,
}
use claw_crate.Capture.Snapshots.{FsChange, created, modified, deleted}
use claw_crate.Audit.Log.{replica_sync_back}
use claw_crate.Replica.{
  Matcher, ReplicaSyncChange, collect_syncable_replica_changes, Session, prompted, applied,
  appended, ok, error, maybe_sync_back_replica,
}
use claw_crate.Replica.Copy.{
  Entries, nil, file, symlink, dir, other, Works, copy_directory_recursive,
  copy_workspace_with_default_exclusions, text_lines, user_patterns, load_user_ignore_patterns,
}
use claw_crate.Replica.Copy.Copied.{link_to, Has, Stays, copy_workspace-Has}
use claw_crate.Replica.SyncBack.{
  FileType, regular, link, Answers, made_dirs, removed, copied, sync_change,
  apply_replica_sync_back,
}
use claw_crate.Replica.SyncBack.Tried.{AreTried}
use claw_crate.Replica.SyncBack.Contained.{apply_replica_sync_back-AreTried}
use claw_crate.Replica.Decision.{IsFaithful, maybe_sync_back_replica-IsFaithful}

abbrev copy : FilePath
copy = root_dir ∷ normal (codes "tmp") ∷ normal (codes "workspace") ∷ []

abbrev source : FilePath
source = root_dir ∷ normal (codes "home") ∷ []

abbrev none_ignored : Matcher
none_ignored path is_dir = false

abbrev changed : FilePath → FsChange
changed path = record { path = path; kind = created; size_bytes = none; sha256 = none }

-- A file, a secret, and a path that is not below the copy.
abbrev diff : List FsChange
diff =
    changed
      (root_dir ∷ normal (codes "tmp") ∷ normal (codes "workspace") ∷ normal (codes "a.rs") ∷ [])
    ∷ changed
        (root_dir ∷ normal (codes "tmp") ∷ normal (codes "workspace") ∷ normal (codes ".env") ∷ [])
    ∷ changed (root_dir ∷ normal (codes "var") ∷ [])
    ∷ []

abbrev one : List ReplicaSyncChange
one = record { relative_path = normal (codes "a.rs") ∷ []; kind = created } ∷ []

collected : collect_syncable_replica_changes copy source diff none_ignored ≡ one
unfolding collect_syncable_replica_changes
collected = refl

abbrev session : Session
session = record {
  json = false;
  stdin_is_terminal = true;
  stdout_is_terminal = true;
  answer = some (codes " Yes\n");
  apply_works = true;
  append_works = true;
}

approved :
    maybe_sync_back_replica session (some (source, copy)) (some none_ignored) diff
    ≡ (prompted ∷ applied one ∷ appended (replica_sync_back true 1) ∷ [], ok)
unfolding maybe_sync_back_replica
approved = refl

maybe_sync_back_replica-IsFaithful_example :
    IsFaithful session
      (collect_syncable_replica_changes copy source diff none_ignored)
      (maybe_sync_back_replica session (some (source, copy)) (some none_ignored) diff)
maybe_sync_back_replica-IsFaithful_example =
    maybe_sync_back_replica-IsFaithful session source copy none_ignored diff

-- A workspace of a file, a secret, a directory with a link in it, and what is none of these.
abbrev workspace : Entries
workspace = file (codes "a.rs") (codes "x") (
    file (codes ".env") (codes "key")
      (dir (codes "src") (symlink (codes "b") (codes "../a.rs") nil) (other (codes "pipe") nil)))

abbrev replica_of_it : Entries
replica_of_it =
    file (codes "a.rs") (codes "x")
      (dir (codes "src") (symlink (codes "b") (codes "../a.rs") nil) nil)

abbrev all_works : Works
all_works path = true

copied_it :
    copy_workspace_with_default_exclusions source none_ignored all_works all_works
      (some workspace)
      true
      true
      true
    ≡ some replica_of_it
unfolding copy_workspace_with_default_exclusions copy_directory_recursive
copied_it = refl

copy_workspace-Has_example :
    Has (codes "src" ∷ codes "b" ∷ []) (link_to (codes "../a.rs")) replica_of_it ↔ (
      Stays source none_ignored [] (codes "src" ∷ codes "b" ∷ [])
      × Has (codes "src" ∷ codes "b" ∷ []) (link_to (codes "../a.rs")) workspace)
copy_workspace-Has_example =
    copy_workspace-Has source none_ignored all_works all_works workspace replica_of_it true true
      true (codes "src" ∷ codes "b" ∷ []) (link_to (codes "../a.rs")) copied_it

patterns_read :
    load_user_ignore_patterns true (some (codes "# local\n target \n\n*.log"))
    ≡ some (codes "target" ∷ codes "*.log" ∷ [])
unfolding load_user_ignore_patterns user_patterns text_lines trim starts_with
patterns_read = refl

-- A file over a link, a removed file, and a link over what cannot be removed.
abbrev sync_changes : List (ReplicaSyncChange × Answers)
sync_changes =
    (
      record { relative_path = normal (codes "a") ∷ []; kind = modified },
      answered (some regular) (some link) true,
    )
    ∷ (
      record { relative_path = normal (codes "b") ∷ []; kind = deleted },
      answered none (some regular) true,
    )
    ∷ (
      record { relative_path = normal (codes "c") ∷ []; kind = created },
      answered (some link) (some regular) false,
    )
    ∷ []
  where
    answered : Option FileType → Option FileType → Bool → Answers
    answered replica_type source_type removes = record {
      replica_type = replica_type;
      source_type = source_type;
      source_exists = true;
      makes = true;
      removes = removes;
      links = true;
      copies = true;
    }

synced_back : apply_replica_sync_back source copy sync_changes ≡ (
  made_dirs source
      ∷ removed (join source (normal (codes "a") ∷ []))
      ∷ copied (join copy (normal (codes "a") ∷ [])) (join source (normal (codes "a") ∷ []))
      ∷ removed (join source (normal (codes "b") ∷ []))
      ∷ made_dirs source
      ∷ removed (join source (normal (codes "c") ∷ []))
      ∷ [],
  error,
)
unfolding apply_replica_sync_back sync_change
synced_back = refl

apply_replica_sync_back-AreTried_example :
    AreTried source copy sync_changes
      (apply_replica_sync_back source copy sync_changes).0
      (apply_replica_sync_back source copy sync_changes).1
apply_replica_sync_back-AreTried_example = apply_replica_sync_back-AreTried source copy sync_changes
