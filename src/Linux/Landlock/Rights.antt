-- ===== src/Linux/Landlock/Rights.antt =====
-- The rights of a rule, on every version of Landlock.
use Prim.Native.Nat.{bit_and, bit_or}
use claw_crate.Base.{ℕ, ◌≡◌, ◌≢◌, refl, Bool, true, false, if◌then◌else◌, leb, arith}
use claw_crate.Linux.Landlock.{
  landlock_access_for_path_type, landlock_write_access_mask_for_abi,
  landlock_read_access_mask_for_abi, access_fs_file_applicable,
}

-- Every right in `a` is one in `b`.
infix 50 ◌⊆◌
abbrev pub ◌⊆◌ : ℕ → ℕ → Type 0
a ⊆ b = bit_and a b ≡ a

-- For two masks and an anchor that is a directory or not.
pub record AreConfined (write_mask read_mask : ℕ) (is_dir : Bool) : Type 0 where
  -- What a rule of writing gives is handled, is no reading, and is not nothing.
  pub write_handled : landlock_access_for_path_type write_mask is_dir ⊆ bit_or write_mask read_mask
  pub write_reads_not : bit_and (landlock_access_for_path_type write_mask is_dir) read_mask ≡ 0
  pub write_some : landlock_access_for_path_type write_mask is_dir ≢ 0
  -- What a rule of reading gives is handled, is no writing, and is not nothing.
  pub read_handled : landlock_access_for_path_type read_mask is_dir ⊆ bit_or write_mask read_mask
  pub read_writes_not : bit_and (landlock_access_for_path_type read_mask is_dir) write_mask ≡ 0
  pub read_some : landlock_access_for_path_type read_mask is_dir ≢ 0
  -- For an anchor that is no directory both keep to the rights that a file can have.
  pub file_write :
      is_dir ≡ false → landlock_access_for_path_type write_mask is_dir ⊆ access_fs_file_applicable
  pub file_read :
      is_dir ≡ false → landlock_access_for_path_type read_mask is_dir ⊆ access_fs_file_applicable

abbrev mask : Bool → Bool → ℕ
mask refer truncate =
    let with_refer = if refer then bit_or 0x1FF2 0x2000 else 0x1FF2 in
    if truncate then bit_or with_refer 0x4000 else with_refer

mask_lem :
    (abi_version : ℕ)
    → landlock_write_access_mask_for_abi abi_version ≡ mask (leb 2 abi_version) (leb 3 abi_version)
unfolding landlock_write_access_mask_for_abi
mask_lem abi_version = refl

confined_at : (refer truncate is_dir : Bool) → AreConfined (mask refer truncate) 0xC is_dir
unfolding landlock_access_for_path_type
confined_at false false false = ground arith
confined_at false false true = ground arith
confined_at false true false = ground arith
confined_at false true true = ground arith
confined_at true false false = ground arith
confined_at true false true = ground arith
confined_at true true false = ground arith
confined_at true true true = ground arith

-- On every version of Landlock and for an anchor of either kind: what a rule of writing gives is
-- handled by the ruleset and holds no right to read, what a rule of reading gives is handled and
-- holds no right to write, neither is empty, and for an anchor that is no directory both hold
-- only rights that a file can have.
pub masks-AreConfined :
    (abi_version : ℕ) (is_dir : Bool)
    → AreConfined
        (landlock_write_access_mask_for_abi abi_version)
        (landlock_read_access_mask_for_abi abi_version)
        is_dir
unfolding landlock_read_access_mask_for_abi
masks-AreConfined abi_version is_dir =
    rw (mask_lem abi_version) (confined_at (leb 2 abi_version) (leb 3 abi_version) is_dir)
