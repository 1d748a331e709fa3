-- ===== src/Replica/SyncBack/Tried.antt =====
-- What may be done to the source for a change of a replica.
use claw_crate.Base.{
  ◌≡◌, Bool, true, false, Option, none, some, List, [], ◌∷◌, ◌++◌, FilePath, join,
}
use claw_crate.Capture.Snapshots.{FsChangeKind, created, modified, deleted}
use claw_crate.Profiles.Chain.{parent}
use claw_crate.Replica.{ReplicaSyncChange, Ended, ok, error}
use claw_crate.Replica.SyncBack.{
  FileType, regular, link, Answers, SyncOp, made_dirs, removed, linked, copied, syncable_type,
  replaces,
}

abbrev pub brings : FsChangeKind → Bool
brings created = true
brings modified = true
brings deleted = false

module _ (source_root copy_root : FilePath) where
  -- What is done, in order, for a change and how it ends, while an entry of a kind, or none, stands
  -- at its path in the source: make the directory above, take the entry away unless it is a
  -- directory, and, if nothing but a directory stands there and the change is no deletion, make a
  -- link anew from a link, or copy from a file.
  pub data IsTried (change : ReplicaSyncChange) (answers : Answers)
      : Option FileType → List SyncOp → Ended → Type 0 where
    -- Of the kinds of the answers only files and links are brought.
    unbrought :
        (standing : Option FileType)
        → brings change.kind ≡ true
        → syncable_type answers.replica_type ≡ none
        → IsTried change answers standing [] ok
    -- A deletion is done where nothing but a directory stands.
    gone :
        (standing : Option FileType)
        → brings change.kind ≡ false
        → replaces standing ≡ false
        → IsTried change answers standing [] ok
    unseen :
        (standing : Option FileType)
        → brings change.kind ≡ false
        → answers.source_exists ≡ false
        → IsTried change answers standing [] ok
    failed : (standing : Option FileType) → IsTried change answers standing [] error
    above :
        (standing : Option FileType) (dir : FilePath) (ops : List SyncOp) (end : Ended)
        → parent (join source_root change.relative_path) ≡ some dir
        → IsTried change answers standing ops end
        → IsTried change answers standing (made_dirs dir ∷ ops) end
    removal :
        (standing : Option FileType) (ops : List SyncOp) (end : Ended)
        → replaces standing ≡ true
        → IsTried change answers none ops end
        → IsTried change answers standing
            (removed (join source_root change.relative_path) ∷ ops)
            end
    relink :
        (standing : Option FileType) (end : Ended)
        → replaces standing ≡ false
        → brings change.kind ≡ true
        → answers.replica_type ≡ some link
        → IsTried change answers standing
            (linked (join copy_root change.relative_path) (join source_root change.relative_path)
              ∷ [])
            end
    copying :
        (standing : Option FileType) (end : Ended)
        → replaces standing ≡ false
        → brings change.kind ≡ true
        → answers.replica_type ≡ some regular
        → IsTried change answers standing
            (copied (join copy_root change.relative_path) (join source_root change.relative_path)
              ∷ [])
            end

  -- The same for the changes one after the other, up to the first that ends in an error.
  pub data AreTried : List (ReplicaSyncChange × Answers) → List SyncOp → Ended → Type 0 where
    over : AreTried [] [] ok
    next :
        (change : ReplicaSyncChange) (answers : Answers)
        (changes : List (ReplicaSyncChange × Answers)) (ops more : List SyncOp) (end : Ended)
        → IsTried change answers answers.source_type ops ok
        → AreTried changes more end
        → AreTried ((change, answers) ∷ changes) (ops ++ more) end
    broken :
        (change : ReplicaSyncChange) (answers : Answers)
        (changes : List (ReplicaSyncChange × Answers)) (ops : List SyncOp)
        → IsTried change answers answers.source_type ops error
        → AreTried ((change, answers) ∷ changes) ops error
