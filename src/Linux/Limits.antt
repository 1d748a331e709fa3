-- ===== src/Linux/Limits.antt =====
-- The resource limits that a child gives itself (crates/clawcrate-sandbox/src/linux.rs). The kernel's limits
-- are the state; which calls it refuses is an argument.
pub mod Lowered
use claw_crate.Base.{
  ℕ, zero, suc, Bool, true, false, ◌&&◌, if◌then◌else◌, Option, none, some, List, [], ◌∷◌, ◌==◌,
  min,
}
use claw_crate.Profiles.Resolve.{ResourceLimits}
use claw_crate.Rlimits.{
  Resource, rlimit_cpu, rlimit_as, rlimit_nofile, rlimit_fsize, rlimit_nproc, number, u64_max,
  Limit, Limits, saturating_mul,
}
use claw_crate.Linux.Landlock.{Ended, ok, os_error}

unfoldable pub memory_mb_to_bytes : ℕ → ℕ
unfolding saturating_mul
memory_mb_to_bytes memory_mb = saturating_mul (saturating_mul memory_mb 1024) 1024

pub record LinuxRlimitTarget : Type 0 where
  pub resource : Resource
  pub desired_soft : ℕ

-- `rlim_t` has the 64 bits of `u64`, so the conversion changes no value.
unfoldable pub build_linux_rlimit_targets : ResourceLimits → List LinuxRlimitTarget
unfolding memory_mb_to_bytes
build_linux_rlimit_targets limits =
    record { resource = rlimit_cpu; desired_soft = limits.max_cpu_seconds }
    ∷ record { resource = rlimit_as; desired_soft = memory_mb_to_bytes limits.max_memory_mb }
    ∷ record { resource = rlimit_nofile; desired_soft = limits.max_open_files }
    ∷ record { resource = rlimit_fsize; desired_soft = limits.max_output_bytes }
    ∷ record { resource = rlimit_nproc; desired_soft = limits.max_processes }
    ∷ []

-- The number of the error of `getrlimit` for a resource, and of `setrlimit` to a limit, if they fail.
pub record Kernel : Type 0 where
  pub gets : Resource → Option ℕ
  pub sets : Resource → ℕ → Option ℕ

-- `setrlimit` to the same soft and hard limit.
abbrev pub set_limit : Resource → ℕ → Limits → Limits
set_limit r value limits s =
    if number r == number s then record { soft = value; hard = value } else limits s

-- `RLIM_INFINITY` is the largest number of 64 bits.
unfoldable pub effective_limit : ℕ → ℕ → ℕ
effective_limit desired_soft hard = if hard == u64_max then desired_soft else min desired_soft hard

module _ (kernel : Kernel) where
  abbrev pub on_set : Option ℕ → Resource → ℕ → Limits → Option ℕ × Limits
  on_set (some errno) r value limits = (some errno, limits)
  on_set none r value limits = (none, set_limit r value limits)

  abbrev pub on_get : Option ℕ → Resource → ℕ → Limits → Option ℕ × Limits
  on_get (some errno) r desired limits = (some errno, limits)
  on_get none r desired limits =
      let value = effective_limit desired (limits r).hard in
      if value == (limits r).soft && value == (limits r).hard
      then (none, limits)
      else on_set (kernel.sets r value) r value limits

  -- The body of the loop.
  unfoldable pub apply_target : LinuxRlimitTarget → Limits → Option ℕ × Limits
  unfolding effective_limit
  apply_target target limits =
      on_get (kernel.gets target.resource) target.resource target.desired_soft limits

  abbrev pub unless_failed : Option ℕ × Limits → (Limits → Ended × Limits) → Ended × Limits
  unless_failed (some errno, limits) rest = (os_error errno, limits)
  unless_failed (none, limits) rest = rest limits

  unfoldable pub apply_linux_rlimit_targets : List LinuxRlimitTarget → Limits → Ended × Limits
  unfolding apply_target
  apply_linux_rlimit_targets [] limits = (ok, limits)
  apply_linux_rlimit_targets (target ∷ targets) limits =
      unless_failed (apply_target target limits) (apply_linux_rlimit_targets targets)
