-- ===== src/Replica/SyncBack/Contained.antt =====
-- What is done to the source by a sync-back.
use claw_crate.Base.{
  ◌≡◌, ◌⊎◌, inl, inr, refl, ap, Bool, true, false, if◌then◌else◌, Option, none, some, List, [], ◌∷◌,
  FilePath, join, arith,
}
use claw_crate.Capture.Snapshots.{FsChangeKind, created, modified, deleted}
use claw_crate.Profiles.Chain.{parent}
use claw_crate.Replica.{ReplicaSyncChange, Ended, ok, error}
use claw_crate.Replica.SyncBack.{
  FileType, regular, link, directory, special, Answers, SyncOp, made_dirs, removed, Done, ended,
  then_do, syncable_type, replaces, put, replace_then_put, make_then_put, bring, delete_entry,
  by_kind, sync_change, go_on, apply_replica_sync_back,
}
use claw_crate.Replica.SyncBack.Tried.{
  brings, IsTried, unbrought, gone, unseen, failed, above, removal, relink, copying, AreTried, over,
  next, broken,
}

syncable_type_lem :
    (entry : Option FileType) (file_type : FileType)
    → syncable_type entry ≡ some file_type
    → (entry ≡ some file_type) × ((file_type ≡ regular) ⊎ (file_type ≡ link))
syncable_type_lem none file_type e = ground arith
syncable_type_lem (some regular) file_type e = (e, inl (ground arith))
syncable_type_lem (some link) file_type e = (e, inr (ground arith))
syncable_type_lem (some directory) file_type e = ground arith
syncable_type_lem (some special) file_type e = ground arith

module _ (source_root copy_root : FilePath) (change : ReplicaSyncChange) (answers : Answers) where
  abbrev replica_path : FilePath
  replica_path = join copy_root change.relative_path

  abbrev source_path : FilePath
  source_path = join source_root change.relative_path

  abbrev Tried : Option FileType → Done → Type 0
  Tried standing done = IsTried source_root copy_root change answers standing done.0 done.1

  then-Tried :
      (worked : Bool) (op : SyncOp) (standing later : Option FileType) (done : Done)
      → ((ops : List SyncOp) (end : Ended)
          → Tried later (ops, end)
          → Tried standing (op ∷ ops, end))
      → Tried later done
      → Tried standing (then_do (op ∷ []) worked done)
  then-Tried true op standing later (ops, end) on h = on ops end h
  then-Tried false op standing later (ops, end) on h = on [] error (failed later)

  module _ (brings_it : brings change.kind ≡ true) where
    put-IsTried :
        (file_type : FileType) (standing : Option FileType)
        → replaces standing ≡ false
        → answers.replica_type ≡ some file_type
        → (file_type ≡ regular) ⊎ (file_type ≡ link)
        → Tried standing (put answers replica_path source_path file_type)
    put-IsTried regular standing free e k = copying standing (ended answers.copies) free brings_it e
    put-IsTried link standing free e k = relink standing (ended answers.links) free brings_it e
    put-IsTried directory standing free e k = ground arith
    put-IsTried special standing free e k = ground arith

    replaced-IsTried :
        (file_type : FileType) (standing : Option FileType) (taken : Bool)
        → replaces standing ≡ taken
        → answers.replica_type ≡ some file_type
        → (file_type ≡ regular) ⊎ (file_type ≡ link)
        → Tried standing (
            if taken
            then then_do
                (removed source_path ∷ [])
                answers.removes
                (put answers replica_path source_path file_type)
            else put answers replica_path source_path file_type)
    replaced-IsTried file_type standing true free e k =
        then-Tried answers.removes (removed source_path) standing none
          (put answers replica_path source_path file_type)
          (λ ops end h. removal standing ops end free h) (put-IsTried file_type none refl e k)
    replaced-IsTried file_type standing false free e k = put-IsTried file_type standing free e k

    made-IsTried :
        (above_it : Option FilePath) (file_type : FileType)
        → parent source_path ≡ above_it
        → answers.replica_type ≡ some file_type
        → (file_type ≡ regular) ⊎ (file_type ≡ link)
        → Tried answers.source_type
            (make_then_put answers replica_path source_path above_it file_type)
    made-IsTried none file_type p e k =
        replaced-IsTried file_type answers.source_type (replaces answers.source_type) refl e k
    made-IsTried (some dir) file_type p e k =
        then-Tried answers.makes (made_dirs dir) answers.source_type answers.source_type
          (replace_then_put answers replica_path source_path file_type)
          (λ ops end h. above answers.source_type dir ops end p h)
          (replaced-IsTried file_type answers.source_type (replaces answers.source_type) refl e k)

    bring-IsTried :
        (entry : Option FileType)
        → syncable_type answers.replica_type ≡ entry
        → Tried answers.source_type (bring answers replica_path source_path entry)
    bring-IsTried none e = unbrought answers.source_type brings_it e
    bring-IsTried (some file_type) e =
        let (same, kinds) = syncable_type_lem answers.replica_type file_type e in
        made-IsTried (parent source_path) file_type refl same kinds

  module _ (deletes : brings change.kind ≡ false) where
    taken-IsTried :
        (works : Bool) (standing : Option FileType)
        → replaces standing ≡ true
        → Tried standing (removed source_path ∷ [], ended works)
    taken-IsTried true standing e = removal standing [] ok e (gone none deletes refl)
    taken-IsTried false standing e = removal standing [] error e (failed none)

    delete-IsTried :
        (standing : Option FileType)
        → Tried standing (delete_entry answers replica_path source_path standing)
    delete-IsTried none = failed none
    delete-IsTried (some directory) = gone (some directory) deletes refl
    delete-IsTried (some regular) = taken-IsTried answers.removes (some regular) refl
    delete-IsTried (some link) = taken-IsTried answers.removes (some link) refl
    delete-IsTried (some special) = taken-IsTried answers.removes (some special) refl

    existing-IsTried :
        (exists : Bool)
        → answers.source_exists ≡ exists
        → Tried answers.source_type (
            if exists
            then delete_entry answers replica_path source_path answers.source_type
            else ([], ok))
    existing-IsTried true e = delete-IsTried answers.source_type
    existing-IsTried false e = unseen answers.source_type deletes e

  by_kind-IsTried :
      (kind : FsChangeKind)
      → change.kind ≡ kind
      → Tried answers.source_type (by_kind answers replica_path source_path kind)
  by_kind-IsTried created e = bring-IsTried (ap brings e) (syncable_type answers.replica_type) refl
  by_kind-IsTried modified e = bring-IsTried (ap brings e) (syncable_type answers.replica_type) refl
  by_kind-IsTried deleted e = existing-IsTried (ap brings e) answers.source_exists refl

  go_on-AreTried :
      (changes : List (ReplicaSyncChange × Answers)) (done after : Done)
      → Tried answers.source_type done
      → AreTried source_root copy_root changes after.0 after.1
      → AreTried source_root copy_root
          ((change, answers) ∷ changes)
          (go_on done after).0
          (go_on done after).1
  go_on-AreTried changes (ops, ok) (more, end) h hs = next change answers changes ops more end h hs
  go_on-AreTried changes (ops, error) after h hs = broken change answers changes ops h

-- Whatever the file system answers: a sync-back treats the changes in order up to the first error.
-- For each it makes at most the directory above the path in the source, and takes away at most what
-- stands there and is no directory; and only when nothing but a directory stands there any more, and
-- for a change that is no deletion, does it copy from a file of the replica or make a link anew from
-- a link of it. Without an error that is what has been tried of every change that is no deletion,
-- except where the replica has neither a file nor a link, and of a deletion that nothing but a
-- directory is left, except where the path leads to nothing that exists.
pub apply_replica_sync_back-AreTried :
    (source_root copy_root : FilePath) (changes : List (ReplicaSyncChange × Answers))
    → AreTried source_root copy_root changes
        (apply_replica_sync_back source_root copy_root changes).0
        (apply_replica_sync_back source_root copy_root changes).1
unfolding apply_replica_sync_back sync_change join
apply_replica_sync_back-AreTried source_root copy_root [] = over
apply_replica_sync_back-AreTried source_root copy_root ((change, answers) ∷ changes) =
    go_on-AreTried source_root copy_root change answers changes
      (sync_change source_root copy_root change answers)
      (apply_replica_sync_back source_root copy_root changes)
      (by_kind-IsTried source_root copy_root change answers change.kind refl)
      (apply_replica_sync_back-AreTried source_root copy_root changes)
