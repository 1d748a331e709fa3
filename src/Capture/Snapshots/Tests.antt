-- ===== src/Capture/Snapshots/Tests.antt =====
-- Snapshots of two small trees, what is reported between them, and the theorem there.
use claw_crate.Base.{
  ℕ, Text, codes, ◌≡◌, refl, true, false, none, some, [], ◌∷◌, FilePath, normal, path_eq,
  path_order, get, IsAscending, if◌then◌else◌,
}
use claw_crate.Capture.Snapshots.{
  FileFingerprint, FileSnapshot, created, modified, deleted, FileSystem, missing, directory,
  metadata_first, snapshot_paths_with_mode, diff_snapshots,
}
use claw_crate.Capture.Snapshots.Changes.{Reported, change_at}
use claw_crate.Capture.Snapshots.Ordered.{paths}
use claw_crate.Capture.Snapshots.Taken.{diff-snapshot_paths}

abbrev at : Text → FilePath
at name = normal (codes "w") ∷ normal name ∷ []

abbrev root : FilePath
root = normal (codes "w") ∷ []

-- Files "a", "b" of 3 bytes each, then "a" of 4 bytes and "c".
abbrev old_tree : FileSystem
old_tree = record {
  root = λ p.
      if path_eq p root
      then directory
          (some (at (codes "b"), true) ∷ some (root, false) ∷ some (at (codes "a"), true) ∷ [])
      else missing;
  metadata = λ p. some (3, 7);
  hash_sha256 = λ p. some (codes "old");
}

abbrev new_tree : FileSystem
new_tree = record {
  root = λ p. directory (some (at (codes "c"), true) ∷ some (at (codes "a"), true) ∷ []);
  metadata = λ p. some (4, 7);
  hash_sha256 = λ p. some (codes "new");
}

abbrev print : ℕ → FileFingerprint
print size = record { size_bytes = size; modified_unix_nanos = 7; sha256 = none }

abbrev old_files : FileSnapshot
old_files = (at (codes "a"), print 3) ∷ (at (codes "b"), print 3) ∷ []

abbrev new_files : FileSnapshot
new_files = (at (codes "a"), print 4) ∷ (at (codes "c"), print 4) ∷ []

old_taken :
    snapshot_paths_with_mode old_tree (root ∷ at (codes "z") ∷ []) metadata_first ≡ some old_files
unfolding snapshot_paths_with_mode
old_taken = refl

new_taken :
    snapshot_paths_with_mode new_tree (root ∷ at (codes "z") ∷ []) metadata_first ≡ some new_files
unfolding snapshot_paths_with_mode
new_taken = refl

diff_run :
    diff_snapshots new_tree old_files new_files
    ≡ record {
      path = at (codes "a");
      kind = modified;
      size_bytes = some 4;
      sha256 = some (codes "new");
    }
      ∷ record { path = at (codes "b"); kind = deleted; size_bytes = some 3; sha256 = none }
      ∷ record {
        path = at (codes "c");
        kind = created;
        size_bytes = some 4;
        sha256 = some (codes "new");
      }
      ∷ []
unfolding diff_snapshots
diff_run = refl

diff-snapshot_paths_example :
    IsAscending (paths (diff_snapshots new_tree old_files new_files))
    × ((p : FilePath)
        → Reported new_tree p
            (get p old_files)
            (get p new_files)
            (change_at p (diff_snapshots new_tree old_files new_files)))
diff-snapshot_paths_example =
    diff-snapshot_paths old_tree new_tree (root ∷ at (codes "z") ∷ []) metadata_first metadata_first
      old_files new_files old_taken new_taken
