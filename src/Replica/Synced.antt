-- ===== src/Replica/Synced.antt =====
-- Which changes of a replica are collected to be synced back.
use claw_crate.Base.{
  ◌≡◌, refl, sym, ap, ◌∙◌, ◌≢◌, inl, inr, true, false, Option, none, some, List, [], ◌∷◌, ◌++◌,
  FilePath, strip_path, strip_path_iff, Bool-cases, arith,
}
use claw_crate.Capture.Snapshots.{FsChange}
use claw_crate.Replica.{
  Matcher, ReplicaSyncChange, syncable, push_some, collect_syncable_replica_changes,
  should_exclude_replica_path,
}

contradiction : true ≢ false
contradiction h = ground arith

module _ (copy_root source_root : FilePath) (ignored : Matcher) where
  -- A change below the copy, at a path that is not left out.
  abbrev pub IsSyncable : FsChange → FilePath → Type 0
  IsSyncable change relative =
      (change.path ≡ copy_root ++ relative)
      × (relative ≢ [])
      × (should_exclude_replica_path relative false source_root ignored ≡ false)

  -- The changes that are collected: each of the others is at no path like that.
  pub data Collected : List FsChange → List ReplicaSyncChange → Type 0 where
    empty : Collected [] []
    kept :
        {change : FsChange} {relative : FilePath} {changes : List FsChange}
        {synced : List ReplicaSyncChange}
        → IsSyncable change relative
        → Collected changes synced
        → Collected
            (change ∷ changes)
            (record { relative_path = relative; kind = change.kind } ∷ synced)
    left_out :
        {change : FsChange} {changes : List FsChange} {synced : List ReplicaSyncChange}
        → ((relative : FilePath) → ¬ IsSyncable change relative)
        → Collected changes synced
        → Collected (change ∷ changes) synced

  same_relative :
      (path relative found : FilePath)
      → strip_path path copy_root ≡ some found
      → path ≡ copy_root ++ relative
      → found ≡ relative
  same_relative path relative found e p =
      ground (arith, (strip_path_iff path copy_root relative).1 p)

  one_Collected :
      (change : FsChange) (changes : List FsChange) (synced : List ReplicaSyncChange)
      (o : Option FilePath)
      → strip_path change.path copy_root ≡ o
      → Collected changes synced
      → Collected (change ∷ changes) (push_some (syncable source_root ignored change.kind o) synced)
  unfolding syncable
  one_Collected change changes synced none e c =
      left_out
        (λ relative (p, _, _). ground (arith, (strip_path_iff change.path copy_root relative).1 p))
        c
  one_Collected change changes synced (some []) e c =
      left_out
        (λ relative (p, some_there, _).
          some_there (sym (same_relative change.path relative [] e p)))
        c
  one_Collected change changes synced (some (r ∷ rest)) e c =
      elim (Bool-cases (should_exclude_replica_path (r ∷ rest) false source_root ignored)) [
        | inl out ↦ rw out (
            left_out
              (λ relative (p, _, stays). contradiction (
                sym out
                ∙ ap (λ r'. should_exclude_replica_path r' false source_root ignored)
                    (same_relative change.path relative (r ∷ rest) e p)
                ∙ stays))
              c)
        | inr stays ↦ rw stays (
            kept ((strip_path_iff change.path copy_root (r ∷ rest)).0 e, (λ h. ground arith), stays)
              c)
      ]

-- Of the changes of a run exactly those are collected, in order and with their kinds, that are at
-- a path strictly below the copy which the default rules and the ignore file do not leave out,
-- each with its path from the copy on.
pub collect_syncable_replica_changes-Collected :
    (copy_root source_root : FilePath) (fs_diff : List FsChange) (ignored : Matcher)
    → Collected copy_root source_root ignored fs_diff
        (collect_syncable_replica_changes copy_root source_root fs_diff ignored)
unfolding collect_syncable_replica_changes
collect_syncable_replica_changes-Collected copy_root source_root [] ignored = empty
collect_syncable_replica_changes-Collected copy_root source_root (change ∷ fs_diff) ignored =
    one_Collected copy_root source_root ignored change fs_diff _ (strip_path change.path copy_root)
      refl (collect_syncable_replica_changes-Collected copy_root source_root fs_diff ignored)
