-- ===== src/Capture/Snapshots/Taken.antt =====
-- Snapshots as they are taken have the order that `diff_snapshots` relies on.
use claw_crate.Base.{
  ◌≡◌, subst, inl, inr, Bool, true, false, Option, none, some, List, [], ◌∷◌, arith, Option-cases,
  FilePath, path_order, get, map_insert-IsAscending, keys, IsAscending,
}
use claw_crate.Capture.Snapshots.{
  FileSnapshot, FileSystem, Root, missing, file, directory, SnapshotMode, diff_snapshots,
  insert_file, walk, snapshot_root, snapshot_from, snapshot_paths_with_mode, fingerprint_path,
}
use claw_crate.Capture.Snapshots.Changes.{change_at, Reported}
use claw_crate.Capture.Snapshots.Ordered.{paths, diff_snapshots-Reported}

abbrev Ascends : FileSnapshot → Type 0
Ascends m = IsAscending (keys m)

some-eq : {a b : FileSnapshot} → some a ≡ some b → a ≡ b
some-eq e = cc

module _ (fs : FileSystem) (mode : SnapshotMode) where
  insert_file-IsAscending :
      (path : FilePath) (entries next : FileSnapshot)
      → IsAscending (keys entries)
      → insert_file fs mode path entries ≡ some next
      → IsAscending (keys next)
  unfolding insert_file
  insert_file-IsAscending path entries next h e =
      elim (Option-cases (fingerprint_path fs path mode)) [
        | inl failed ↦ absurd (ground arith)
        | inr (f, same) ↦ subst Ascends (ground arith) (map_insert-IsAscending path f entries h)
      ]

  walk-IsAscending :
      (below : List (Option (FilePath × Bool))) (entries next : FileSnapshot)
      → IsAscending (keys entries)
      → walk fs mode below entries ≡ some next
      → IsAscending (keys next)
  unfolding walk
  walk-IsAscending [] entries next h e = subst Ascends (some-eq e) h
  walk-IsAscending (none ∷ rest) entries next h e = absurd (ground arith)
  walk-IsAscending (some (path, false) ∷ rest) entries next h e =
      walk-IsAscending rest entries next h e
  walk-IsAscending (some (path, true) ∷ rest) entries next h e =
      elim (Option-cases (insert_file fs mode path entries)) [
        | inl failed ↦ absurd (ground arith)
        | inr (m, same) ↦
            walk-IsAscending rest m next (insert_file-IsAscending path entries m h same)
              (ground arith)
      ]

  snapshot_root-IsAscending :
      (root : FilePath) (entries next : FileSnapshot)
      → IsAscending (keys entries)
      → snapshot_root fs mode root entries ≡ some next
      → IsAscending (keys next)
  unfolding snapshot_root
  snapshot_root-IsAscending root entries next h e = at_kind (fs.root root) e
    where
      at_kind :
          (r : Root)
          → elim r [
            | missing ↦ some entries
            | file ↦ insert_file fs mode root entries
            | directory below ↦ walk fs mode below entries
          ]
            ≡ some next
          → IsAscending (keys next)
      at_kind missing e = subst Ascends (some-eq e) h
      at_kind file e = insert_file-IsAscending root entries next h e
      at_kind (directory below) e = walk-IsAscending below entries next h e

  snapshot_from-IsAscending :
      (roots : List FilePath) (entries next : FileSnapshot)
      → IsAscending (keys entries)
      → snapshot_from fs mode roots entries ≡ some next
      → IsAscending (keys next)
  unfolding snapshot_from
  snapshot_from-IsAscending [] entries next h e = subst Ascends (some-eq e) h
  snapshot_from-IsAscending (root ∷ roots) entries next h e =
      elim (Option-cases (snapshot_root fs mode root entries)) [
        | inl failed ↦ absurd (ground arith)
        | inr (m, same) ↦
            snapshot_from-IsAscending roots m next (snapshot_root-IsAscending root entries m h same)
              (ground arith)
      ]

-- Two snapshots that are both taken of the roots by `snapshot_paths_with_mode`, in any modes and
-- of any states of the file system, are reported on path by path: nothing for a path that is in
-- neither or whose fingerprints are equal, created or deleted for a path that is in one only,
-- modified for a path whose fingerprints differ; and the changes ascend strictly by path.
pub diff-snapshot_paths :
    (fs_before fs_after : FileSystem) (roots : List FilePath) (m n : SnapshotMode)
    (before after : FileSnapshot)
    → snapshot_paths_with_mode fs_before roots m ≡ some before
    → snapshot_paths_with_mode fs_after roots n ≡ some after
    → IsAscending (paths (diff_snapshots fs_after before after))
      × ((p : FilePath)
          → Reported fs_after p
              (get p before)
              (get p after)
              (change_at p (diff_snapshots fs_after before after)))
unfolding snapshot_paths_with_mode
diff-snapshot_paths fs_before fs_after roots m n before after h k =
    diff_snapshots-Reported fs_after before after
      (snapshot_from-IsAscending fs_before m roots [] before tt h)
      (snapshot_from-IsAscending fs_after n roots [] after tt k)
