-- ===== src/Replica/Copy/Copied.antt =====
-- What is in a replica: what is in the source and not left out.
use claw_crate.Base.{
  ◌≡◌, ◌↔◌, ◌⊎◌, refl, Text, Bool, true, false, not, ◌&&◌, if◌then◌else◌, Option, none, some, List,
  [], ◌∷◌, FilePath, arith, subst,
}
use claw_crate.Replica.{Matcher, should_exclude_replica_path}
use claw_crate.Replica.Copy.{
  Entries, nil, file, symlink, dir, other, Works, with_file, with_symlink, with_dir, if_works,
  child, copy_directory_recursive, copy_workspace_with_default_exclusions,
}

pub data Leaf : Type 0 where
  contents link_to : Text → Leaf

-- A file or a symbolic link stands at a path of names.
pub Has : List Text → Leaf → Entries → Type 0
Has [] leaf entries = ⊥
Has (n ∷ names) leaf nil = ⊥
Has (n ∷ []) leaf (file name text rest) =
    ((name ≡ n) × (contents text ≡ leaf)) ⊎ Has (n ∷ []) leaf rest
Has (n ∷ []) leaf (symlink name target rest) =
    ((name ≡ n) × (link_to target ≡ leaf)) ⊎ Has (n ∷ []) leaf rest
Has (n ∷ []) leaf (dir name inner rest) = Has (n ∷ []) leaf rest
Has (n ∷ m ∷ names) leaf (file name text rest) = Has (n ∷ m ∷ names) leaf rest
Has (n ∷ m ∷ names) leaf (symlink name target rest) = Has (n ∷ m ∷ names) leaf rest
Has (n ∷ m ∷ names) leaf (dir name inner rest) =
    ((name ≡ n) × Has (m ∷ names) leaf inner) ⊎ Has (n ∷ m ∷ names) leaf rest
Has (n ∷ []) leaf (other name rest) = Has (n ∷ []) leaf rest
Has (n ∷ m ∷ names) leaf (other name rest) = Has (n ∷ m ∷ names) leaf rest

module _ (source_root : FilePath) (ignored : Matcher) where
  abbrev excluded : FilePath → Bool → Bool
  excluded relative is_dir = should_exclude_replica_path relative is_dir source_root ignored

  -- No directory on the way and not the entry itself is left out.
  abbrev pub Stays : FilePath → List Text → Type 0
  Stays relative [] = Unit {0}
  Stays relative (n ∷ []) =
      should_exclude_replica_path (child relative n) false source_root ignored ≡ false
  Stays relative (n ∷ m ∷ names) =
      (should_exclude_replica_path (child relative n) true source_root ignored ≡ false)
      × Stays (child relative n) (m ∷ names)

  -- What is copied of some entries, for a path of names.
  abbrev Copied : List Text → Leaf → FilePath → Entries → Entries → Type 0
  Copied names leaf relative entries replica =
      Has names leaf replica ↔ (Stays relative names × Has names leaf entries)

  module _ (leaf : Leaf) (relative : FilePath) (name text : Text) (rest replica : Entries) where
    file-Copied :
        (names : List Text) (left_out works : Bool) (copied : Option Entries)
        → excluded (child relative name) false ≡ left_out
        → ((r : Entries) → copied ≡ some r → Copied names leaf relative rest r)
        → (if left_out then copied else if_works works (with_file name text copied)) ≡ some replica
        → Copied names leaf relative (file name text rest) replica
    unfolding Has
    file-Copied [] left_out works copied e ih h = (λ m. absurd m, λ m. m.1)
    file-Copied (n ∷ []) true works copied e ih h = ground (arith, ih replica h)
    file-Copied (n ∷ []) false true (some r) e ih h =
        let same : file name text r ≡ replica = ground arith in
        subst (Copied (n ∷ []) leaf relative (file name text rest)) same (ground (arith, ih r refl))
    file-Copied (n ∷ []) false true none e ih h = ground arith
    file-Copied (n ∷ []) false false copied e ih h = ground arith
    file-Copied (n ∷ m ∷ names) true works copied e ih h = ih replica h
    file-Copied (n ∷ m ∷ names) false true (some r) e ih h =
        let same : file name text r ≡ replica = ground arith in
        subst (Copied (n ∷ m ∷ names) leaf relative (file name text rest)) same (ih r refl)
    file-Copied (n ∷ m ∷ names) false true none e ih h = ground arith
    file-Copied (n ∷ m ∷ names) false false copied e ih h = ground arith

    symlink-Copied :
        (names : List Text) (left_out works : Bool) (copied : Option Entries)
        → excluded (child relative name) false ≡ left_out
        → ((r : Entries) → copied ≡ some r → Copied names leaf relative rest r)
        → (if left_out then copied else if_works works (with_symlink name text copied))
          ≡ some replica
        → Copied names leaf relative (symlink name text rest) replica
    unfolding Has
    symlink-Copied [] left_out works copied e ih h = (λ m. absurd m, λ m. m.1)
    symlink-Copied (n ∷ []) true works copied e ih h = ground (arith, ih replica h)
    symlink-Copied (n ∷ []) false true (some r) e ih h =
        let same : symlink name text r ≡ replica = ground arith in
        subst (Copied (n ∷ []) leaf relative (symlink name text rest)) same
          (ground (arith, ih r refl))
    symlink-Copied (n ∷ []) false true none e ih h = ground arith
    symlink-Copied (n ∷ []) false false copied e ih h = ground arith
    symlink-Copied (n ∷ m ∷ names) true works copied e ih h = ih replica h
    symlink-Copied (n ∷ m ∷ names) false true (some r) e ih h =
        let same : symlink name text r ≡ replica = ground arith in
        subst (Copied (n ∷ m ∷ names) leaf relative (symlink name text rest)) same (ih r refl)
    symlink-Copied (n ∷ m ∷ names) false true none e ih h = ground arith
    symlink-Copied (n ∷ m ∷ names) false false copied e ih h = ground arith

  module _ (leaf : Leaf) (relative : FilePath) (name : Text) (inner rest replica : Entries) where
    dir-Copied :
        (names : List Text) (left_out works : Bool) (below copied : Option Entries)
        → excluded (child relative name) true ≡ left_out
        → ((m : Text) (more : List Text) (r : Entries)
            → below ≡ some r
            → Copied (m ∷ more) leaf (child relative name) inner r)
        → ((r : Entries) → copied ≡ some r → Copied names leaf relative rest r)
        → (if left_out then copied else if_works works (with_dir name below copied)) ≡ some replica
        → Copied names leaf relative (dir name inner rest) replica
    unfolding Has
    dir-Copied [] left_out works below copied e down ih h = (λ m. absurd m, λ m. m.1)
    dir-Copied (n ∷ []) true works below copied e down ih h = ih replica h
    dir-Copied (n ∷ []) false true (some b) (some r) e down ih h =
        let same : dir name b r ≡ replica = ground arith in
        subst (Copied (n ∷ []) leaf relative (dir name inner rest)) same (ih r refl)
    dir-Copied (n ∷ m ∷ names) true works below copied e down ih h = ground (arith, ih replica h)
    dir-Copied (n ∷ m ∷ names) false true (some b) (some r) e down ih h =
        let same : dir name b r ≡ replica = ground arith in
        subst (Copied (n ∷ m ∷ names) leaf relative (dir name inner rest)) same
          (ground (arith, ih r refl, down m names b refl))
    dir-Copied names false true none copied e down ih h = ground arith
    dir-Copied names false true (some b) none e down ih h = ground arith
    dir-Copied names false false below copied e down ih h = ground arith

module _ (source_root : FilePath) (ignored : Matcher) (works clones : Works) (leaf : Leaf) where
  empty_copied :
      (names : List Text) (relative : FilePath) (replica : Entries)
      → nil ≡ replica
      → (Has names leaf replica ↔ (Stays source_root ignored relative names × Has names leaf nil))
  unfolding Has
  empty_copied [] relative replica e = (λ m. absurd m, λ m. m.1)
  empty_copied (n ∷ names) relative replica e =
      subst
        (λ r.
          Has (n ∷ names) leaf r
          ↔ (Stays source_root ignored relative (n ∷ names) × Has (n ∷ names) leaf nil))
        e (λ m. absurd m, λ m. m.1)

  other_copied :
      (names : List Text) (relative : FilePath) (name : Text) (rest replica : Entries)
      → (Has names leaf replica ↔ (Stays source_root ignored relative names × Has names leaf rest))
      → (Has names leaf replica
          ↔ (Stays source_root ignored relative names × Has names leaf (other name rest)))
  unfolding Has
  other_copied [] relative name rest replica h = (λ m. absurd m, λ m. m.1)
  other_copied (n ∷ []) relative name rest replica h = h
  other_copied (n ∷ m ∷ names) relative name rest replica h = h

  copied_iff :
      (names : List Text) (relative : FilePath) (entries replica : Entries)
      → copy_directory_recursive source_root ignored works clones relative entries ≡ some replica
      → (Has names leaf replica
          ↔ (Stays source_root ignored relative names × Has names leaf entries))
  unfolding copy_directory_recursive
  copied_iff names relative nil replica h = empty_copied names relative replica (ground arith)
  copied_iff names relative (file name text rest) replica h =
      file-Copied source_root ignored leaf relative name text rest replica names _ _
        (copy_directory_recursive source_root ignored works clones relative rest) refl
        (λ r e. copied_iff names relative rest r e) h
  copied_iff names relative (symlink name text rest) replica h =
      symlink-Copied source_root ignored leaf relative name text rest replica names _ _
        (copy_directory_recursive source_root ignored works clones relative rest) refl
        (λ r e. copied_iff names relative rest r e) h
  copied_iff names relative (dir name inner rest) replica h =
      dir-Copied source_root ignored leaf relative name inner rest replica names _ _
        (copy_directory_recursive source_root ignored works clones (child relative name) inner)
        (copy_directory_recursive source_root ignored works clones relative rest) refl
        (λ m more r e. copied_iff (m ∷ more) (child relative name) inner r e)
        (λ r e. copied_iff names relative rest r e) h
  copied_iff names relative (other name rest) replica h =
      other_copied names relative name rest replica (copied_iff names relative rest replica h)

-- Whatever the ignore file leaves out, and whichever clones work: when the workspace is copied, a
-- file with its contents or a symbolic link with its target is at a path of the replica exactly if
-- it is at that path of the source, and neither that path, as one of no directory, nor one of the
-- directories on the way is left out.
pub copy_workspace-Has :
    (source_root : FilePath) (ignored : Matcher) (works clones : Works) (entries replica : Entries)
    (exists removes makes : Bool) (names : List Text) (leaf : Leaf)
    → copy_workspace_with_default_exclusions source_root ignored works clones
        (some entries)
        exists
        removes
        makes
      ≡ some replica
    → (Has names leaf replica ↔ (Stays source_root ignored [] names × Has names leaf entries))
unfolding copy_workspace_with_default_exclusions
copy_workspace-Has source_root ignored works clones entries replica exists removes makes names leaf
      h =
    copied_iff source_root ignored works clones leaf names [] entries replica (
      reached exists removes makes (works [])
        (copy_directory_recursive source_root ignored works clones [] entries) h)
  where
    reached :
        (exists removes makes lists : Bool) (o : Option Entries)
        → (if exists && not removes then none else if not makes then none else if_works lists o)
          ≡ some replica
        → o ≡ some replica
    reached exists removes makes lists o e = ground arith
