-- ===== src/Linux/Landlock.antt =====
-- The file system rules of a child (crates/clawcrate-sandbox/src/linux.rs): the rights of each rule, and the
-- system calls by which the child is restricted. What the kernel answers is an argument.
pub mod Rights
pub mod Applied
use Prim.Native.Nat.{bit_and, bit_or}
use claw_crate.Base.{
  ℕ, zero, suc, Bool, true, false, if◌then◌else◌, Option, none, some, List, [], ◌∷◌, ◌++◌, leb,
  ◌==◌,
}

abbrev pub access_fs_write_file : ℕ
access_fs_write_file = 0x2

abbrev pub access_fs_read_file : ℕ
access_fs_read_file = 0x4

abbrev pub access_fs_read_dir : ℕ
access_fs_read_dir = 0x8

abbrev pub access_fs_refer : ℕ
access_fs_refer = 0x2000

abbrev pub access_fs_truncate : ℕ
access_fs_truncate = 0x4000

-- `REMOVE_DIR` and `REMOVE_FILE`, then `MAKE_CHAR` to `MAKE_SYM`.
abbrev pub access_fs_remove_or_make : List ℕ
access_fs_remove_or_make = 0x10 ∷ 0x20 ∷ 0x40 ∷ 0x80 ∷ 0x100 ∷ 0x200 ∷ 0x400 ∷ 0x800 ∷ 0x1000 ∷ []

abbrev pub bits : ℕ → List ℕ → ℕ
bits mask [] = mask
bits mask (b ∷ bs) = bits (bit_or mask b) bs

abbrev pub access_fs_base_write : ℕ
access_fs_base_write = bits access_fs_write_file access_fs_remove_or_make

abbrev pub access_fs_base_read : ℕ
access_fs_base_read = bit_or access_fs_read_file access_fs_read_dir

abbrev pub access_fs_file_applicable : ℕ
access_fs_file_applicable =
    bit_or (bit_or access_fs_write_file access_fs_read_file) access_fs_truncate

unfoldable pub landlock_access_for_path_type : ℕ → Bool → ℕ
landlock_access_for_path_type access_mask is_dir =
    if is_dir then access_mask else bit_and access_mask access_fs_file_applicable

-- The version of a kernel that supports Landlock is not negative.
unfoldable pub landlock_write_access_mask_for_abi : ℕ → ℕ
landlock_write_access_mask_for_abi abi_version =
    let base = access_fs_base_write in
    let with_refer = if leb 2 abi_version then bit_or base access_fs_refer else base in
    if leb 3 abi_version then bit_or with_refer access_fs_truncate else with_refer

unfoldable pub landlock_read_access_mask_for_abi : ℕ → ℕ
landlock_read_access_mask_for_abi abi_version = access_fs_base_read

pub record LandlockPathGrant : Type 0 where
  pub fd : ℕ
  pub is_dir : Bool

pub record LinuxLandlockContext : Type 0 where
  pub write_access_mask : ℕ
  pub read_access_mask : ℕ
  pub allowed_write_paths : List LandlockPathGrant
  pub allowed_read_paths : List LandlockPathGrant

-- The system calls that are made, with what they are given beside the ruleset's descriptor.
pub data Call : Type 0 where
  create_ruleset : ℕ → Call
  add_rule : ℕ → ℕ → Call
  set_no_new_privs restrict_self close_ruleset : Call

-- The number of the error that a call fails with, if it fails.
pub record Kernel : Type 0 where
  pub creates : ℕ → Option ℕ
  pub adds : ℕ → ℕ → Option ℕ
  pub sets_no_new_privs : Option ℕ
  pub restricts : Option ℕ
  pub closes : Option ℕ

pub data Ended : Type 0 where
  ok : Ended
  os_error : ℕ → Ended

unfoldable pub landlock_errno_to_io_error : Option ℕ → Option ℕ → Option ℕ
landlock_errno_to_io_error (some errno) cleanup_errno = some errno
landlock_errno_to_io_error none cleanup_errno = cleanup_errno

abbrev pub ended_by : Option ℕ → Ended
ended_by none = ok
ended_by (some errno) = os_error errno

abbrev pub behind : Call → List Call × Ended → List Call × Ended
behind call (calls, ended) = (call ∷ calls, ended)

module _ (kernel : Kernel) where
  abbrev pub on_no_new_privs : Option ℕ → List Call × Ended
  on_no_new_privs (some errno) = (set_no_new_privs ∷ close_ruleset ∷ [], os_error errno)
  on_no_new_privs none = (
    set_no_new_privs ∷ restrict_self ∷ close_ruleset ∷ [],
    ended_by (landlock_errno_to_io_error kernel.restricts kernel.closes),
  )

  abbrev pub on_add : ℕ → ℕ → Option ℕ → List Call × Ended → List Call × Ended
  on_add access fd (some errno) next = (add_rule access fd ∷ close_ruleset ∷ [], os_error errno)
  on_add access fd none next = behind (add_rule access fd) next

  -- The rules of one of the two sets, and what is done behind them.
  unfoldable pub add_rules : ℕ → List LandlockPathGrant → List Call × Ended → List Call × Ended
  unfolding landlock_access_for_path_type
  add_rules allowed_access [] next = next
  add_rules allowed_access (grant ∷ grants) next =
      let rest = add_rules allowed_access grants next in
      let access = landlock_access_for_path_type allowed_access grant.is_dir in
      if access == 0 then rest else on_add access grant.fd (kernel.adds access grant.fd) rest

  abbrev pub on_create : ℕ → Option ℕ → List Call × Ended → List Call × Ended
  on_create handled (some errno) next = (create_ruleset handled ∷ [], os_error errno)
  on_create handled none next = behind (create_ruleset handled) next

  unfoldable pub apply_linux_landlock_restrictions : LinuxLandlockContext → List Call × Ended
  unfolding add_rules landlock_errno_to_io_error
  apply_linux_landlock_restrictions context =
      let handled = bit_or context.write_access_mask context.read_access_mask in
      on_create handled (kernel.creates handled) (
        add_rules context.write_access_mask context.allowed_write_paths (
          add_rules context.read_access_mask context.allowed_read_paths
            (on_no_new_privs kernel.sets_no_new_privs)))
