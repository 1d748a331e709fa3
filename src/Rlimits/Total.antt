-- ===== src/Rlimits/Total.antt =====
-- A kernel that takes every soft limit up to the hard one makes the limits succeed.
use claw_crate.Base.{
  ℕ, ◌≤◌, ◌≡◌, refl, ap, ap₂, ◌∙◌, inl, inr, true, List, [], ◌∷◌, ◌++◌, All, ◌==◌, arith,
  Bool-cases,
}
use claw_crate.Profiles.Resolve.{ResourceLimits}
use claw_crate.Rlimits.{
  Resource, number, u64_max, Limits, set_soft, Kernel, AppliedRlimit, ok, memory_mb_to_bytes,
  saturating_mul, clamp_to_hard_limit, build_targets, apply_soft_limit, apply_from,
  apply_resource_limits,
}
use claw_crate.Rlimits.Applied.{settle, soft_limit-settle, apply_from-cons, continue}

-- `getrlimit` answers, and `setrlimit` to a soft limit within the hard one works.
abbrev pub IsWilling : Kernel → Type 0
IsWilling kernel =
    ((r : Resource) → kernel.answers r ≡ true)
    × ((r : Resource) (soft hard : ℕ) → soft ≤ hard → kernel.accepts r soft hard ≡ true)

abbrev pub AreBounded : Limits → Type 0
AreBounded limits = (r : Resource) → (limits r).hard ≤ u64_max

settle-AreBounded :
    (r : Resource) (desired : ℕ) (limits : Limits)
    → AreBounded limits
    → AreBounded (settle r desired limits)
settle-AreBounded r desired limits b s = elim (Bool-cases (number r == number s)) [
  | inl e ↦ rw (e, settle, set_soft) (b s)
  | inr e ↦ rw (e, settle, set_soft) (b s)
]

clamp-below :
    (desired hard : ℕ)
    → desired ≤ u64_max
    → hard ≤ u64_max
    → clamp_to_hard_limit desired hard ≤ hard
unfolding clamp_to_hard_limit
clamp-below desired hard a b = ground arith

module _ (kernel : Kernel) (willing : IsWilling kernel) where
  soft_limit-returns :
      (r : Resource) (desired : ℕ) (limits : Limits)
      → desired ≤ u64_max
      → AreBounded limits
      → (one : AppliedRlimit) × ((apply_soft_limit kernel r desired limits).0 ≡ ok one)
  unfolding apply_soft_limit
  soft_limit-returns r desired limits d b =
      let answer = willing.0 r in
      let works =
        willing.1 r (clamp_to_hard_limit desired (limits r).hard) (limits r).hard
          (clamp-below desired (limits r).hard d (b r)) in
      elim (Bool-cases (clamp_to_hard_limit desired (limits r).hard == (limits r).soft)) [
        | inl same ↦ rw (answer, same) (_, refl)
        | inr other ↦ rw (answer, other, works) (_, refl)
      ]

  apply_from-returns :
      (applied : List AppliedRlimit) (targets : List (Resource × ℕ)) (limits : Limits)
      → All (λ t. t.1 ≤ u64_max) targets
      → AreBounded limits
      → (res : List AppliedRlimit) × ((apply_from kernel applied targets limits).0 ≡ ok res)
  apply_from-returns applied [] limits a b = unfold apply_from in (applied, refl)
  apply_from-returns applied (target ∷ targets) limits a b =
      let (one, e) = soft_limit-returns target.0 target.1 limits (a.0) b in
      let (res, rest) =
        apply_from-returns (applied ++ one ∷ []) targets (settle target.0 target.1 limits) (a.1)
          (settle-AreBounded target.0 target.1 limits b) in
      let there : apply_soft_limit kernel target.0 target.1 limits
          ≡ (ok one, settle target.0 target.1 limits) =
        ap₂ (λ x y. (x, y)) e (soft_limit-settle kernel target.0 target.1 limits one e) in
      (
        res,
        ap (λ r. r.0)
              (apply_from-cons kernel applied target targets limits
                ∙ ap (continue kernel applied targets) there)
            ∙ rest,
      )

-- The numbers of a profile that fit in 64 bits.
abbrev pub FitIn64 : ResourceLimits → Type 0
FitIn64 limits =
    (limits.max_cpu_seconds ≤ u64_max)
    × (limits.max_open_files ≤ u64_max)
    × (limits.max_output_bytes ≤ u64_max)
    × (limits.max_processes ≤ u64_max)

-- Applying a profile's limits, numbers of 64 bits, succeeds on a kernel that answers every query
-- and takes every soft limit within the hard one, whatever its limits of 64 bits are.
pub apply_resource_limits-returns :
    (kernel : Kernel) (limits : ResourceLimits) (before : Limits)
    → IsWilling kernel
    → FitIn64 limits
    → AreBounded before
    → (res : List AppliedRlimit) × ((apply_resource_limits kernel limits before).0 ≡ ok res)
unfolding apply_resource_limits build_targets memory_mb_to_bytes saturating_mul
apply_resource_limits-returns kernel limits before willing (a, b, c, d) bounded =
    apply_from-returns kernel willing [] (build_targets limits) before
      (a, (omega arith, (b, (c, (d, ground arith))))) bounded
