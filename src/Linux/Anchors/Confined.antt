-- ===== src/Linux/Anchors/Confined.antt =====
-- The rules of a child give what its profile lists, and no more.
use Prim.Native.Nat.{bit_and}
use claw_crate.Base.{ℕ, ◌≡◌, refl, ap, ◌∙◌, sym, subst, List, [], ◌∷◌, FilePath, inl, inr, arith}
use claw_crate.Linux.Landlock.{
  LandlockPathGrant, LinuxLandlockContext, Call, create_ruleset, add_rule, set_no_new_privs,
  restrict_self, close_ruleset, landlock_access_for_path_type, landlock_write_access_mask_for_abi,
  landlock_read_access_mask_for_abi, apply_linux_landlock_restrictions, behind,
}
use claw_crate.Linux.Landlock.Applied.{
  rules_of, all_rules, apply_linux_landlock_restrictions-Restricts,
}
use claw_crate.Linux.Landlock.Rights.{masks-AreConfined}
use claw_crate.Linux.Anchors.{
  Kernel, PreparedPaths, Result, ok, err, all_or_error, then_open, both, for_abi, open_write,
  write_anchors, open_linux_landlock_grant, open_linux_landlock_read_path_fds,
  open_linux_landlock_write_path_fds, prepare_linux_landlock_context,
}
use claw_crate.Linux.Anchors.Read.{
  Granted, OpenedFrom, IsReadable, open_linux_landlock_read_path_fds_iff,
}
use claw_crate.Linux.Anchors.Write.{IsWritable, write_anchors-IsWritable}
use claw_crate.Linux.Landlock
use claw_crate.Linux.Anchors.Added.{Called, Called-append, Restricts-rules, rules_of-grant}

module _ (kernel : Kernel) where
  one_written :
      (anchor : FilePath) (anchors : List FilePath) (grants : List LandlockPathGrant)
      (grant : LandlockPathGrant) (res : Result LandlockPathGrant)
      (rest : Result (List LandlockPathGrant))
      → open_linux_landlock_grant kernel anchor ≡ res
      → ((gs : List LandlockPathGrant)
          → rest ≡ ok gs
          → Granted grant gs
          → OpenedFrom kernel anchors grant)
      → all_or_error kernel res rest ≡ ok grants
      → Granted grant grants
      → OpenedFrom kernel (anchor ∷ anchors) grant
  one_written anchor anchors grants grant (err x) rest e ih h m = ground arith
  one_written anchor anchors grants grant (ok g) (err x) e ih h m = ground arith
  one_written anchor anchors grants grant (ok g) (ok gs) e ih h m =
      let same : g ∷ gs ≡ grants = ground arith in
      elim (subst (Granted grant) (sym same) m) [
        | inl first ↦ (anchor, inl refl, e ∙ ap ok first)
        | inr later ↦ (let (p, among, opens) = ih gs refl later in (p, inr among, opens))
      ]

  open_write-OpenedFrom :
      (anchors : List FilePath) (grants : List LandlockPathGrant) (grant : LandlockPathGrant)
      → open_write kernel anchors ≡ ok grants
      → Granted grant grants
      → OpenedFrom kernel anchors grant
  unfolding open_write
  open_write-OpenedFrom [] grants grant h m = ground arith
  open_write-OpenedFrom (anchor ∷ anchors) grants grant h m =
      one_written anchor anchors grants grant (open_linux_landlock_grant kernel anchor)
        (open_write kernel anchors) refl (λ gs e n. open_write-OpenedFrom anchors gs grant e n) h m

  -- What is anchored for writing, and opened.
  abbrev pub WrittenFrom : PreparedPaths → LandlockPathGrant → Type 0
  WrittenFrom prepared grant =
      (anchor : FilePath) × IsWritable kernel prepared.cwd prepared.fs_write anchor
      × (open_linux_landlock_grant kernel anchor ≡ ok grant)

  abbrev pub ReadFrom : PreparedPaths → LandlockPathGrant → Type 0
  ReadFrom prepared grant =
      (path : FilePath) × IsReadable kernel prepared path
      × (open_linux_landlock_grant kernel path ≡ ok grant)

  anchored :
      (prepared : PreparedPaths) (grants : List LandlockPathGrant) (grant : LandlockPathGrant)
      (res : Result (List FilePath))
      → write_anchors kernel prepared.cwd prepared.fs_write [] ≡ res
      → then_open kernel res ≡ ok grants
      → Granted grant grants
      → WrittenFrom prepared grant
  anchored prepared grants grant (err x) e h m = ground arith
  anchored prepared grants grant (ok anchors) e h m =
      let (anchor, among, opens) = open_write-OpenedFrom anchors grants grant h m in
      elim (write_anchors-IsWritable kernel prepared.cwd prepared.fs_write [] anchors anchor e
        among) [ inl before ↦ absurd before | inr writable ↦ (anchor, writable, opens) ]

  written_grant :
      (prepared : PreparedPaths) (grants : List LandlockPathGrant) (grant : LandlockPathGrant)
      → open_linux_landlock_write_path_fds kernel prepared ≡ ok grants
      → Granted grant grants
      → WrittenFrom prepared grant
  unfolding open_linux_landlock_write_path_fds
  written_grant prepared grants grant h m =
      anchored prepared grants grant (write_anchors kernel prepared.cwd prepared.fs_write []) refl h
        m

  -- A rule for an opened anchor: of writing, with no right to read, at the longest part that exists
  -- of a path that the profile writes; or of reading, with no right to write, at an existing path
  -- of the system or the profile.
  pub data Allowed (abi_version : ℕ) (prepared : PreparedPaths) (access fd : ℕ) : Type 0 where
    writing :
        (grant : LandlockPathGrant)
        → fd ≡ grant.fd
        → bit_and access (landlock_read_access_mask_for_abi abi_version) ≡ 0
        → WrittenFrom prepared grant
        → Allowed abi_version prepared access fd
    reading :
        (grant : LandlockPathGrant)
        → fd ≡ grant.fd
        → bit_and access (landlock_write_access_mask_for_abi abi_version) ≡ 0
        → ReadFrom prepared grant
        → Allowed abi_version prepared access fd

  -- The two lists of grants behind a context.
  pub data ContextOf (prepared : PreparedPaths) : LinuxLandlockContext → Type 0 where
    context_of :
        (abi_version : ℕ) (write_grants read_grants : List LandlockPathGrant)
        → kernel.abi ≡ ok abi_version
        → open_linux_landlock_write_path_fds kernel prepared ≡ ok write_grants
        → open_linux_landlock_read_path_fds kernel prepared ≡ ok read_grants
        → ContextOf prepared (record {
          write_access_mask = landlock_write_access_mask_for_abi abi_version;
          read_access_mask = landlock_read_access_mask_for_abi abi_version;
          allowed_write_paths = write_grants;
          allowed_read_paths = read_grants;
        })

  both-ContextOf :
      (prepared : PreparedPaths) (abi_version : ℕ) (context : LinuxLandlockContext)
      (w r : Result (List LandlockPathGrant))
      → kernel.abi ≡ ok abi_version
      → open_linux_landlock_write_path_fds kernel prepared ≡ w
      → open_linux_landlock_read_path_fds kernel prepared ≡ r
      → both kernel abi_version w r ≡ ok context
      → ContextOf prepared context
  both-ContextOf prepared abi_version context (ok ws) (ok rs) a ew er h =
      subst (ContextOf prepared) (ground arith) (context_of abi_version ws rs a ew er)
  both-ContextOf prepared abi_version context (ok ws) (err x) a ew er h = ground arith
  both-ContextOf prepared abi_version context (err x) r a ew er h = ground arith

  prepare-ContextOf :
      (prepared : PreparedPaths) (context : LinuxLandlockContext) (abi : Result ℕ)
      → kernel.abi ≡ abi
      → for_abi kernel prepared abi ≡ ok context
      → ContextOf prepared context
  prepare-ContextOf prepared context (err x) e h = ground arith
  prepare-ContextOf prepared context (ok v) e h =
      both-ContextOf prepared v context (open_linux_landlock_write_path_fds kernel prepared)
        (open_linux_landlock_read_path_fds kernel prepared) e refl refl h

  rules-Allowed :
      (prepared : PreparedPaths) (context : LinuxLandlockContext) (access fd : ℕ)
      → ContextOf prepared context
      → Called (add_rule access fd) (all_rules context)
      → (v : ℕ) × (kernel.abi ≡ ok v) × Allowed v prepared access fd
  rules-Allowed prepared context access fd (context_of v ws rs a ew er) m = (
    v,
    a,
    elim (Called-append (add_rule access fd) (rules_of (landlock_write_access_mask_for_abi v) ws)
        (rules_of (landlock_read_access_mask_for_abi v) rs) m) [
          | inl w ↦
              (let (grant, among, rule) =
                  rules_of-grant (landlock_write_access_mask_for_abi v) access fd ws w in
                writing grant rule.1 (rw rule.0 (masks-AreConfined v grant.is_dir).write_reads_not)
                  (written_grant prepared ws grant ew among))
          | inr r ↦
              (let (grant, among, rule) =
                  rules_of-grant (landlock_read_access_mask_for_abi v) access fd rs r in
                reading grant rule.1 (rw rule.0 (masks-AreConfined v grant.is_dir).read_writes_not)
                  ((open_linux_landlock_read_path_fds_iff kernel prepared rs grant er).0 among))
        ],
  )

-- Every rule that a child adds, whatever the kernel answers to it, from the context that was
-- prepared for a profile: it gives no right to read and is anchored at the longest part that
-- exists of a path that the profile writes, or it gives no right to write and is anchored at an
-- existing path of the system or one that the profile reads or writes, each from the directory of
-- the command on.
pub rules_confined :
    (kernel : Kernel) (child : Landlock.Kernel) (prepared : PreparedPaths)
    (context : LinuxLandlockContext) (access fd : ℕ)
    → prepare_linux_landlock_context kernel prepared ≡ ok context
    → Called (add_rule access fd) (apply_linux_landlock_restrictions child context).0
    → (v : ℕ) × (kernel.abi ≡ ok v) × Allowed kernel v prepared access fd
unfolding prepare_linux_landlock_context
rules_confined kernel child prepared context access fd h m =
    rules-Allowed kernel prepared context access fd
      (prepare-ContextOf kernel prepared context kernel.abi refl h)
      (Restricts-rules child access fd context
        (apply_linux_landlock_restrictions-Restricts child context) m)
