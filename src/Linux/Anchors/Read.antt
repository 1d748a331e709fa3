-- ===== src/Linux/Anchors/Read.antt =====
-- What may be read: exactly the listed paths that exist, never a parent of one that does not.
use claw_crate.Base.{
  ◌≡◌, ◌↔◌, ◌⊎◌, refl, ap, ◌∙◌, true, List, [], ◌∷◌, ◌++◌, map, Any, FilePath, set_insert,
  set_insert-mem, path_order, inl, inr, arith, Bool-cases, subst,
}
use claw_crate.Profiles.Resolve.{to_path}
use claw_crate.Linux.Landlock.{LandlockPathGrant}
use claw_crate.Linux.Anchors.{
  Kernel, PreparedPaths, Result, ok, err, IoError, is_not_found, resolved, linux_system_read_paths,
  insert_existing, read_anchors, open_read, open_linux_landlock_read_path_fds, unless_gone,
  open_linux_landlock_grant,
}

abbrev pub Among : FilePath → List FilePath → Type 0
Among path paths = Any (λ p. p ≡ path) paths

abbrev pub Granted : LandlockPathGrant → List LandlockPathGrant → Type 0
Granted grant grants = Any (λ g. g ≡ grant) grants

module _ (kernel : Kernel) where
  insert_existing_iff :
      (path : FilePath) (paths anchors : List FilePath)
      → Among path (insert_existing kernel paths anchors)
        ↔ (Among path anchors ⊎ (Among path paths × (kernel.exists path ≡ true)))
  unfolding insert_existing
  insert_existing_iff path [] anchors = ground arith
  insert_existing_iff path (p ∷ paths) anchors = elim (Bool-cases (kernel.exists p)) [
    | inl there ↦ rw there (
        ground (
          arith,
          insert_existing_iff path paths (set_insert p anchors),
          set_insert-mem p path anchors,
        ))
    | inr missing ↦ rw missing (ground (arith, insert_existing_iff path paths anchors))
  ]

  -- The path exists and is one of the system's or of the profile's, the latter from the directory
  -- of the command on.
  abbrev pub IsReadable : PreparedPaths → FilePath → Type 0
  IsReadable prepared path =
      (kernel.exists path ≡ true)
      × (Among path (map to_path linux_system_read_paths)
          ⊎ Among path (map (resolved prepared.cwd) (prepared.fs_read ++ prepared.fs_write)))

  read_anchors_iff :
      (prepared : PreparedPaths) (path : FilePath)
      → Among path (read_anchors kernel prepared) ↔ IsReadable prepared path
  unfolding read_anchors
  read_anchors_iff prepared path =
      let profile = map (resolved prepared.cwd) (prepared.fs_read ++ prepared.fs_write) in
      let system = map to_path linux_system_read_paths in
      ground (
        arith,
        insert_existing_iff path system (insert_existing kernel profile []),
        insert_existing_iff path profile [],
      )

  -- The grant is what opening one of the anchors gave.
  abbrev pub OpenedFrom : List FilePath → LandlockPathGrant → Type 0
  OpenedFrom anchors grant =
      (path : FilePath) × Among path anchors × (open_linux_landlock_grant kernel path ≡ ok grant)

  first_opened :
      (anchor : FilePath) (anchors : List FilePath) (gs : List LandlockPathGrant)
      (grant g : LandlockPathGrant)
      → open_linux_landlock_grant kernel anchor ≡ ok g
      → (Granted grant gs ↔ OpenedFrom anchors grant)
      → (Granted grant (g ∷ gs) ↔ OpenedFrom (anchor ∷ anchors) grant)
  first_opened anchor anchors gs grant g e ih = (
    λ m. elim m [
      | inl same ↦ (anchor, inl refl, e ∙ ap ok same)
      | inr later ↦ (let (path, among, opens) = ih.0 later in (path, inr among, opens))
    ],
    λ (path, among, opens). elim among [
      | inl same ↦ inl (ground arith)
      | inr later ↦ inr (ih.1 (path, later, opens))
    ],
  )

  skipped :
      (anchor : FilePath) (anchors : List FilePath) (gs : List LandlockPathGrant)
      (grant : LandlockPathGrant) (x : IoError)
      → open_linux_landlock_grant kernel anchor ≡ err x
      → (Granted grant gs ↔ OpenedFrom anchors grant)
      → (Granted grant gs ↔ OpenedFrom (anchor ∷ anchors) grant)
  skipped anchor anchors gs grant x e ih = (
    λ m. (let (path, among, opens) = ih.0 m in (path, inr among, opens)),
    λ (path, among, opens). elim among [
      | inl same ↦ absurd (ground arith)
      | inr later ↦ ih.1 (path, later, opens)
    ],
  )

  open_read_one :
      (anchor : FilePath) (anchors : List FilePath) (grants : List LandlockPathGrant)
      (grant : LandlockPathGrant) (res : Result LandlockPathGrant)
      (rest : Result (List LandlockPathGrant))
      → open_linux_landlock_grant kernel anchor ≡ res
      → ((gs : List LandlockPathGrant)
          → rest ≡ ok gs
          → (Granted grant gs ↔ OpenedFrom anchors grant))
      → unless_gone kernel res rest ≡ ok grants
      → (Granted grant grants ↔ OpenedFrom (anchor ∷ anchors) grant)
  open_read_one anchor anchors grants grant (ok g) (ok gs) e ih h =
      let same : g ∷ gs ≡ grants = ground arith in
      subst (λ l. Granted grant l ↔ OpenedFrom (anchor ∷ anchors) grant) same
        (first_opened anchor anchors gs grant g e (ih gs refl))
  open_read_one anchor anchors grants grant (ok g) (err x) e ih h = ground arith
  open_read_one anchor anchors grants grant (err x) rest e ih h =
      elim (Bool-cases (is_not_found x)) [
        | inl gone ↦ skipped anchor anchors grants grant x e (ih grants (ground arith))
        | inr broken ↦ ground arith
      ]

  open_read_iff :
      (anchors : List FilePath) (grants : List LandlockPathGrant) (grant : LandlockPathGrant)
      → open_read kernel anchors ≡ ok grants
      → (Granted grant grants ↔ OpenedFrom anchors grant)
  unfolding open_read
  open_read_iff [] grants grant h = (λ g. ground arith, λ (p, m, e). absurd m)
  open_read_iff (anchor ∷ anchors) grants grant h =
      open_read_one anchor anchors grants grant (open_linux_landlock_grant kernel anchor)
        (open_read kernel anchors) refl (λ gs e. open_read_iff anchors gs grant e) h

-- When the rules of reading can be opened: a descriptor is granted exactly if opening a path gave
-- it that exists and is one of the system's paths or one of those that the profile reads or
-- writes, from the directory of the command on. A path that does not exist grants nothing, and
-- none of its parents either.
pub open_linux_landlock_read_path_fds_iff :
    (kernel : Kernel) (prepared : PreparedPaths) (grants : List LandlockPathGrant)
    (grant : LandlockPathGrant)
    → open_linux_landlock_read_path_fds kernel prepared ≡ ok grants
    → (Granted grant grants ↔ (
        (path : FilePath) × IsReadable kernel prepared path
        × (open_linux_landlock_grant kernel path ≡ ok grant)))
unfolding open_linux_landlock_read_path_fds
open_linux_landlock_read_path_fds_iff kernel prepared grants grant h =
    let read = open_read_iff kernel (read_anchors kernel prepared) grants grant h in
    (
      λ m.
          (let (path, among, opens) = read.0 m in
            (path, (read_anchors_iff kernel prepared path).0 among, opens)),
      λ (path, readable, opens).
          read.1 (path, (read_anchors_iff kernel prepared path).1 readable, opens),
    )
