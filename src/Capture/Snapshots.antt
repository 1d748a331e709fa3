-- ===== src/Capture/Snapshots.antt =====
-- `snapshot_paths` and `diff_snapshots` (crates/clawcrate-capture/src/lib.rs): the regular files
-- under some roots before and after a run, and what has changed between the two. The file system
-- is an argument. The proofs are in `Capture/Snapshots/Changes.antt`.
pub mod Changes
pub mod Ordered
pub mod Taken
mod Tests
use claw_crate.Base.{
  ℕ, Text, codes, Bool, true, false, not, ◌&&◌, ◌||◌, Option, none, some, List, [], ◌∷◌, ◌++◌, ◌==◌,
  if◌then◌else◌, text_eq, FilePath, path_eq, path_order, get, contains_key, map_insert, any, trim,
}

pub record FileFingerprint : Type 0 where
  pub size_bytes : ℕ
  pub modified_unix_nanos : ℕ
  pub sha256 : Option Text

pub data SnapshotMode : Type 0 where
  metadata_first full_hash : SnapshotMode

-- `SnapshotMode::from_env`, over the variable's value.
unfoldable pub from_env : Option Text → SnapshotMode
unfolding trim text_eq
from_env none = metadata_first
from_env (some value) =
    if any (λ word. text_eq (trim value) word) (codes "1" ∷ codes "true" ∷ codes "yes" ∷ [])
    then full_hash
    else metadata_first

abbrev pub FileSnapshot : Type 0
FileSnapshot = List (FilePath × FileFingerprint)

pub data FsChangeKind : Type 0 where
  created modified deleted : FsChangeKind

pub record FsChange : Type 0 where
  pub path : FilePath
  pub kind : FsChangeKind
  pub size_bytes : Option ℕ
  pub sha256 : Option Text

-- What the functions ask the file system: whether a root is there and what it is, the entries
-- below a directory (with the test for a regular file) or the error of the walk, the metadata of a
-- file, and the hash of its contents, where each may fail.
pub data Root : Type 0 where
  missing : Root
  file : Root
  directory : List (Option (FilePath × Bool)) → Root

pub record FileSystem : Type 0 where
  pub root : FilePath → Root
  pub metadata : FilePath → Option (ℕ × ℕ)
  pub hash_sha256 : FilePath → Option Text

-- `fingerprint_path`; `none` is `CaptureError::SnapshotIo`.
unfoldable pub fingerprint_path : FileSystem → FilePath → SnapshotMode → Option FileFingerprint
fingerprint_path fs path mode = elim (fs.metadata path) [
  | none ↦ none
  | some (size, nanos) ↦ elim mode [
    | metadata_first ↦
        some (record { size_bytes = size; modified_unix_nanos = nanos; sha256 = none })
    | full_hash ↦ elim (fs.hash_sha256 path) [
      | none ↦ none
      | some hash ↦
          some (record { size_bytes = size; modified_unix_nanos = nanos; sha256 = some hash })
    ]
  ]
]

-- One file into the map, or the error.
unfoldable pub insert_file :
    FileSystem → SnapshotMode → FilePath → FileSnapshot → Option FileSnapshot
unfolding fingerprint_path map_insert
insert_file fs mode path entries = elim (fingerprint_path fs path mode) [
  | none ↦ none
  | some fingerprint ↦ some (map_insert path fingerprint entries)
]

-- The walk below one directory.
unfoldable pub walk :
    FileSystem → SnapshotMode → List (Option (FilePath × Bool)) → FileSnapshot → Option FileSnapshot
unfolding insert_file
walk fs mode [] entries = some entries
walk fs mode (none ∷ rest) entries = none
walk fs mode (some (path, is_file) ∷ rest) entries = elim is_file [
  | false ↦ walk fs mode rest entries
  | true ↦ elim (insert_file fs mode path entries) [
    | none ↦ none
    | some next ↦ walk fs mode rest next
  ]
]

-- One root.
unfoldable pub snapshot_root :
    FileSystem → SnapshotMode → FilePath → FileSnapshot → Option FileSnapshot
unfolding walk
snapshot_root fs mode root entries = elim (fs.root root) [
  | missing ↦ some entries
  | file ↦ insert_file fs mode root entries
  | directory below ↦ walk fs mode below entries
]

unfoldable pub snapshot_from :
    FileSystem → SnapshotMode → List FilePath → FileSnapshot → Option FileSnapshot
unfolding snapshot_root
snapshot_from fs mode [] entries = some entries
snapshot_from fs mode (root ∷ roots) entries = elim (snapshot_root fs mode root entries) [
  | none ↦ none
  | some next ↦ snapshot_from fs mode roots next
]

unfoldable pub snapshot_paths_with_mode :
    FileSystem → List FilePath → SnapshotMode → Option FileSnapshot
unfolding snapshot_from
snapshot_paths_with_mode fs paths mode = snapshot_from fs mode paths []

-- `==` of two fingerprints, and of two optional hashes.
unfoldable pub hash_eq : Option Text → Option Text → Bool
unfolding text_eq
hash_eq none none = true
hash_eq (some a) (some b) = text_eq a b
hash_eq _ _ = false

unfoldable pub fingerprint_eq : FileFingerprint → FileFingerprint → Bool
unfolding hash_eq
fingerprint_eq a b =
    a.size_bytes == b.size_bytes
    && a.modified_unix_nanos == b.modified_unix_nanos
    && hash_eq a.sha256 b.sha256

-- The hash that the snapshot has, or that of the file as it is now.
unfoldable pub changed_file_hash : FileSystem → FilePath → FileFingerprint → Option Text
changed_file_hash fs path fingerprint = elim fingerprint.sha256 [
  | some hash ↦ some hash
  | none ↦ fs.hash_sha256 path
]

-- The body of the first loop: a file of the first snapshot.
unfoldable pub deleted_or_modified :
    FileSystem → FilePath → FileFingerprint → Option FileFingerprint → Option FsChange
unfolding fingerprint_eq changed_file_hash
deleted_or_modified fs path before none = some (record {
  path = path;
  kind = deleted;
  size_bytes = some before.size_bytes;
  sha256 = before.sha256;
})
deleted_or_modified fs path before (some after) =
    if not (fingerprint_eq after before)
    then some (record {
      path = path;
      kind = modified;
      size_bytes = some after.size_bytes;
      sha256 = changed_file_hash fs path after;
    })
    else none

abbrev pub push : Option FsChange → List FsChange → List FsChange
push none changes = changes
push (some c) changes = c ∷ changes

unfoldable pub first_loop : FileSystem → FileSnapshot → FileSnapshot → List FsChange
unfolding deleted_or_modified get
first_loop fs after [] = []
first_loop fs after ((path, fingerprint) ∷ before) =
    push (deleted_or_modified fs path fingerprint (get path after)) (first_loop fs after before)

-- The body of the second loop.
unfoldable pub created_change : FileSystem → FilePath → FileFingerprint → FsChange
unfolding changed_file_hash
created_change fs path after = record {
  path = path;
  kind = created;
  size_bytes = some after.size_bytes;
  sha256 = changed_file_hash fs path after;
}

unfoldable pub second_loop : FileSystem → FileSnapshot → FileSnapshot → List FsChange
unfolding created_change contains_key
second_loop fs before [] = []
second_loop fs before ((path, fingerprint) ∷ after) =
    if not (contains_key path before)
    then created_change fs path fingerprint ∷ second_loop fs before after
    else second_loop fs before after

-- `sort_by` on the paths, which is stable.
unfoldable pub insert_change : FsChange → List FsChange → List FsChange
insert_change c [] = c ∷ []
insert_change c (d ∷ ds) =
    if path_order.lt d.path c.path then d ∷ insert_change c ds else c ∷ d ∷ ds

unfoldable pub sort_by_path : List FsChange → List FsChange
unfolding insert_change
sort_by_path [] = []
sort_by_path (c ∷ cs) = insert_change c (sort_by_path cs)

unfoldable pub diff_snapshots : FileSystem → FileSnapshot → FileSnapshot → List FsChange
unfolding first_loop second_loop sort_by_path
diff_snapshots fs before after =
    sort_by_path (first_loop fs after before ++ second_loop fs before after)
