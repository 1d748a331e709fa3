-- ===== src/Linux/Anchors.antt =====
-- Where the file system rules of a child are anchored (crates/clawcrate-sandbox/src/linux.rs). Which paths
-- exist and what opening them gives is an argument. Paths are compared by their components.
pub mod Read
pub mod Write
pub mod Added
pub mod Confined
use claw_crate.Base.{
  ℕ, zero, suc, Text, codes, Bool, true, false, if◌then◌else◌, Option, none, some, List, [], ◌∷◌,
  ◌++◌, map, reverse, ◌==◌, FilePath, Component, root_dir, cur_dir, parent_dir, normal, is_absolute,
  join, path_order, set_insert, contains_char, not,
}
use claw_crate.Profiles.Resolve.{to_path}
use claw_crate.Linux.Landlock.{
  LandlockPathGrant, LinuxLandlockContext, landlock_write_access_mask_for_abi,
  landlock_read_access_mask_for_abi,
}

abbrev pub linux_system_read_paths : List Text
linux_system_read_paths = map codes (
    "/bin" ∷ "/sbin" ∷ "/usr/bin" ∷ "/usr/sbin" ∷ "/usr/local/bin" ∷ "/lib" ∷ "/lib32" ∷ "/lib64"
    ∷ "/usr/lib" ∷ "/usr/lib64" ∷ "/usr/local/lib" ∷ "/usr/local/lib64" ∷ "/usr/libexec"
    ∷ "/usr/share" ∷ "/etc/resolv.conf" ∷ "/etc/hosts" ∷ "/etc/nsswitch.conf" ∷ "/etc/gai.conf"
    ∷ "/etc/services" ∷ "/run/systemd/resolve" ∷ "/etc/ssl" ∷ "/etc/pki" ∷ "/etc/ca-certificates"
    ∷ "/etc/crypto-policies" ∷ "/etc/ld.so.cache" ∷ "/etc/ld.so.conf" ∷ "/etc/ld.so.conf.d"
    ∷ "/etc/alternatives" ∷ "/etc/localtime" ∷ "/etc/timezone" ∷ "/etc/os-release" ∷ "/etc/terminfo"
    ∷ "/etc/passwd" ∷ "/etc/group" ∷ "/dev/null" ∷ "/dev/zero" ∷ "/dev/urandom" ∷ "/dev/random"
    ∷ "/dev/full" ∷ "/dev/tty" ∷ "/proc/self" ∷ "/proc/cpuinfo" ∷ "/proc/meminfo" ∷ "/proc/stat"
    ∷ "/proc/loadavg" ∷ "/proc/version" ∷ "/proc/filesystems" ∷ [])

-- Errors of the system by their numbers, and two that the code makes.
pub data IoError : Type 0 where
  os : ℕ → IoError
  invalid_input no_anchor : IoError

-- `ErrorKind::NotFound`, for `ENOENT`.
abbrev pub is_not_found : IoError → Bool
is_not_found (os errno) = errno == 2
is_not_found invalid_input = false
is_not_found no_anchor = true

pub data Result (A : Type 0) : Type 0 where
  ok : A → Result A
  err : IoError → Result A

-- `exists` at the time of the check; `open_path` opens a path for its descriptor or fails with a
-- number; `fstat` of a descriptor tells whether it is of a directory, or fails; `abi` is the version
-- of Landlock or the error of the query.
pub record Kernel : Type 0 where
  pub abi : Result ℕ
  pub exists : FilePath → Bool
  pub open_path : FilePath → Result ℕ
  pub fstat : ℕ → Result Bool

pub record PreparedPaths : Type 0 where
  pub cwd : FilePath
  pub fs_read : List FilePath
  pub fs_write : List FilePath

abbrev pub resolved : FilePath → FilePath → FilePath
resolved cwd path = if is_absolute path then path else join cwd path

abbrev pub has_nul : FilePath → Bool
has_nul [] = false
has_nul (normal name ∷ rest) = if contains_char 0 name then true else has_nul rest
has_nul (root_dir ∷ rest) = has_nul rest
has_nul (cur_dir ∷ rest) = has_nul rest
has_nul (parent_dir ∷ rest) = has_nul rest

module _ (kernel : Kernel) where
  unfoldable pub open_linux_landlock_path : FilePath → Result ℕ
  unfolding contains_char
  open_linux_landlock_path path = if has_nul path then err invalid_input else kernel.open_path path

  abbrev pub granted : ℕ → Result Bool → Result LandlockPathGrant
  granted fd (ok is_dir) = ok (record { fd = fd; is_dir = is_dir })
  granted fd (err e) = err e

  abbrev pub opened : Result ℕ → Result LandlockPathGrant
  opened (ok fd) = granted fd (kernel.fstat fd)
  opened (err e) = err e

  unfoldable pub open_linux_landlock_grant : FilePath → Result LandlockPathGrant
  unfolding open_linux_landlock_path
  open_linux_landlock_grant path = opened (open_linux_landlock_path path)

  -- One of the loops that collect anchors of reading.
  unfoldable pub insert_existing : List FilePath → List FilePath → List FilePath
  unfolding set_insert
  insert_existing [] anchors = anchors
  insert_existing (path ∷ paths) anchors =
      insert_existing paths (if kernel.exists path then set_insert path anchors else anchors)

  unfoldable pub read_anchors : PreparedPaths → List FilePath
  unfolding insert_existing join to_path
  read_anchors prepared =
      insert_existing (map to_path linux_system_read_paths)
        (insert_existing (map (resolved prepared.cwd) (prepared.fs_read ++ prepared.fs_write)) [])

  abbrev pub ok_before :
      LandlockPathGrant → Result (List LandlockPathGrant) → Result (List LandlockPathGrant)
  ok_before grant (ok grants) = ok (grant ∷ grants)
  ok_before grant (err e) = err e

  abbrev pub unless_gone :
      Result LandlockPathGrant → Result (List LandlockPathGrant) → Result (List LandlockPathGrant)
  unless_gone (ok grant) rest = ok_before grant rest
  unless_gone (err e) rest = if is_not_found e then rest else err e

  unfoldable pub open_read : List FilePath → Result (List LandlockPathGrant)
  unfolding open_linux_landlock_grant
  open_read [] = ok []
  open_read (anchor ∷ anchors) = unless_gone (open_linux_landlock_grant anchor) (open_read anchors)

  unfoldable pub open_linux_landlock_read_path_fds : PreparedPaths → Result (List LandlockPathGrant)
  unfolding read_anchors open_read
  open_linux_landlock_read_path_fds prepared = open_read (read_anchors prepared)

  -- The loop over the parents, for the components from the last on.
  unfoldable pub existing_parent : List Component → Option FilePath
  existing_parent [] = none
  existing_parent (root_dir ∷ rest) = none
  existing_parent (c ∷ rest) =
      let up = existing_parent rest in
      if kernel.exists (reverse rest) then some (reverse rest) else up

  abbrev pub or_no_anchor : Option FilePath → Result FilePath
  or_no_anchor none = err no_anchor
  or_no_anchor (some anchor) = ok anchor

  unfoldable pub nearest_existing_landlock_anchor : FilePath → Result FilePath
  unfolding existing_parent
  nearest_existing_landlock_anchor path =
      if kernel.exists path then ok path else or_no_anchor (existing_parent (reverse path))

  abbrev pub insert_anchor :
      Result FilePath → (FilePath → Result (List FilePath)) → Result (List FilePath)
  insert_anchor (ok anchor) next = next anchor
  insert_anchor (err e) next = err e

  unfoldable pub write_anchors : FilePath → List FilePath → List FilePath → Result (List FilePath)
  unfolding nearest_existing_landlock_anchor join set_insert
  write_anchors cwd [] anchors = ok anchors
  write_anchors cwd (path ∷ paths) anchors =
      insert_anchor (nearest_existing_landlock_anchor (resolved cwd path))
        (λ anchor. write_anchors cwd paths (set_insert anchor anchors))

  abbrev pub all_or_error :
      Result LandlockPathGrant → Result (List LandlockPathGrant) → Result (List LandlockPathGrant)
  all_or_error (ok grant) rest = ok_before grant rest
  all_or_error (err e) rest = err e

  unfoldable pub open_write : List FilePath → Result (List LandlockPathGrant)
  unfolding open_linux_landlock_grant
  open_write [] = ok []
  open_write (anchor ∷ anchors) =
      all_or_error (open_linux_landlock_grant anchor) (open_write anchors)

  abbrev pub then_open : Result (List FilePath) → Result (List LandlockPathGrant)
  then_open (ok anchors) = open_write anchors
  then_open (err e) = err e

  unfoldable pub open_linux_landlock_write_path_fds :
      PreparedPaths → Result (List LandlockPathGrant)
  unfolding write_anchors open_write
  open_linux_landlock_write_path_fds prepared =
      then_open (write_anchors prepared.cwd prepared.fs_write [])

  abbrev pub both :
      ℕ
      → Result (List LandlockPathGrant)
      → Result (List LandlockPathGrant)
      → Result LinuxLandlockContext
  both abi_version (ok write_grants) (ok read_grants) = ok (record {
    write_access_mask = landlock_write_access_mask_for_abi abi_version;
    read_access_mask = landlock_read_access_mask_for_abi abi_version;
    allowed_write_paths = write_grants;
    allowed_read_paths = read_grants;
  })
  both abi_version (ok write_grants) (err e) = err e
  both abi_version (err e) read_grants = err e

  abbrev pub for_abi : PreparedPaths → Result ℕ → Result LinuxLandlockContext
  for_abi prepared (ok abi_version) =
      both abi_version (open_linux_landlock_write_path_fds prepared)
        (open_linux_landlock_read_path_fds prepared)
  for_abi prepared (err e) = err e

  unfoldable pub prepare_linux_landlock_context : PreparedPaths → Result LinuxLandlockContext
  unfolding open_linux_landlock_write_path_fds open_linux_landlock_read_path_fds
  prepare_linux_landlock_context prepared = for_abi prepared kernel.abi
