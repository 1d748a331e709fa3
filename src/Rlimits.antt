-- ===== src/Rlimits.antt =====
-- crates/clawcrate-sandbox/src/rlimits.rs on Linux: the soft limits that a profile asks for. The
-- kernel's limits are the state; which calls it refuses is an argument.
pub mod Applied
pub mod Total
mod Tests
use claw_crate.Base.{
  ℕ, zero, suc, ◌+◌, ◌*◌, Bool, true, false, not, if◌then◌else◌, Option, none, some, List, [], ◌∷◌,
  ◌++◌, ◌==◌, min,
}
use claw_crate.Profiles.Resolve.{ResourceLimits}

pub data Resource : Type 0 where
  rlimit_cpu rlimit_as rlimit_nofile rlimit_fsize rlimit_nproc : Resource

abbrev pub number : Resource → ℕ
number rlimit_cpu = 0
number rlimit_as = 1
number rlimit_nofile = 2
number rlimit_fsize = 3
number rlimit_nproc = 4

-- `u64::MAX`, which is `RLIM_INFINITY` too.
abbrev pub u64_max : ℕ
u64_max = 0xFFFFFFFFFFFFFFFF

pub record Limit : Type 0 where
  pub soft : ℕ
  pub hard : ℕ

abbrev pub Limits : Type 0
Limits = Resource → Limit

abbrev pub set_soft : Resource → ℕ → Limits → Limits
set_soft r soft limits s =
    if number r == number s then record { soft = soft; hard = (limits s).hard } else limits s

-- Whether `getrlimit` of a resource works, and `setrlimit` to a soft limit under a hard one.
pub record Kernel : Type 0 where
  pub answers : Resource → Bool
  pub accepts : Resource → ℕ → ℕ → Bool

pub record AppliedRlimit : Type 0 where
  pub resource : Resource
  pub previous_soft : ℕ
  pub effective_soft : ℕ
  pub hard : ℕ
  pub changed : Bool

pub data RlimitError : Type 0 where
  query : Resource → RlimitError
  apply : Resource → RlimitError

pub data Result (A : Type 0) : Type 0 where
  ok : A → Result A
  error : RlimitError → Result A

unfoldable pub saturating_mul : ℕ → ℕ → ℕ
saturating_mul a b = min (a * b) u64_max

unfoldable pub memory_mb_to_bytes : ℕ → ℕ
unfolding saturating_mul
memory_mb_to_bytes memory_mb = saturating_mul (saturating_mul memory_mb 1024) 1024

unfoldable pub clamp_to_hard_limit : ℕ → ℕ → ℕ
clamp_to_hard_limit desired_soft hard =
    if hard == u64_max then desired_soft else min desired_soft hard

-- `rlim_t` has the 64 bits of `u64`, so neither conversion changes a value.
unfoldable pub build_targets : ResourceLimits → List (Resource × ℕ)
unfolding memory_mb_to_bytes
build_targets limits =
    (rlimit_cpu, limits.max_cpu_seconds)
    ∷ (rlimit_as, memory_mb_to_bytes limits.max_memory_mb)
    ∷ (rlimit_nofile, limits.max_open_files)
    ∷ (rlimit_fsize, limits.max_output_bytes)
    ∷ (rlimit_nproc, limits.max_processes)
    ∷ []

module _ (kernel : Kernel) where
  abbrev pub report : Resource → Limit → ℕ → AppliedRlimit
  report r before effective = record {
    resource = r;
    previous_soft = before.soft;
    effective_soft = effective;
    hard = before.hard;
    changed = not (effective == before.soft);
  }

  unfoldable pub apply_soft_limit : Resource → ℕ → Limits → Result AppliedRlimit × Limits
  unfolding clamp_to_hard_limit
  apply_soft_limit r desired_soft limits =
      let before = limits r in
      let effective = clamp_to_hard_limit desired_soft before.hard in
      if not (kernel.answers r)
      then (error (query r), limits)
      else if effective == before.soft
      then (ok (report r before effective), limits)
      else if kernel.accepts r effective before.hard
      then (ok (report r before effective), set_soft r effective limits)
      else (error (apply r), limits)

  -- The loop with what it has applied so far; the first error ends it.
  unfoldable pub apply_from :
      List AppliedRlimit → List (Resource × ℕ) → Limits → Result (List AppliedRlimit) × Limits
  apply_from applied [] limits = (ok applied, limits)
  apply_from applied ((r, desired_soft) ∷ targets) limits =
      let (result, limits') = apply_soft_limit r desired_soft limits in
      elim result [
        | error e ↦ (error e, limits')
        | ok one ↦ apply_from (applied ++ one ∷ []) targets limits'
      ]

  unfoldable pub apply_resource_limits :
      ResourceLimits → Limits → Result (List AppliedRlimit) × Limits
  unfolding build_targets
  apply_resource_limits limits = apply_from [] (build_targets limits)
