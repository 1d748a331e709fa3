-- ===== src/Linux/Limits/Lowered.antt =====
-- A child that goes on has lowered all its limits, the hard ones too.
use claw_crate.Base.{
  ℕ, ◌≤◌, ◌≡◌, refl, sym, subst, ap, ◌∙◌, ◌&&◌, Option, none, some, List, [], ◌∷◌, ◌==◌, ==_iff,
  min, arith, Bool-cases, inl, inr,
}
use claw_crate.Profiles.Resolve.{ResourceLimits}
use claw_crate.Rlimits.{
  Resource, rlimit_cpu, rlimit_as, rlimit_nofile, rlimit_fsize, rlimit_nproc, number, u64_max,
  Limits, saturating_mul,
}
use claw_crate.Rlimits.Applied.{asked, number_injective}
use claw_crate.Linux.Landlock.{Ended, ok}
use claw_crate.Linux.Limits.{
  LinuxRlimitTarget, build_linux_rlimit_targets, Kernel, set_limit, effective_limit, on_set, on_get,
  apply_target, unless_failed, apply_linux_rlimit_targets, memory_mb_to_bytes,
}

abbrev settle : LinuxRlimitTarget → Limits → Limits
settle target limits =
    set_limit target.resource (effective_limit target.desired_soft (limits target.resource).hard)
      limits

abbrev settle_all : List LinuxRlimitTarget → Limits → Limits
settle_all [] limits = limits
settle_all (target ∷ targets) limits = settle_all targets (settle target limits)

unchanged :
    (r s : Resource) (value : ℕ) (limits : Limits)
    → value ≡ (limits r).soft
    → value ≡ (limits r).hard
    → limits s ≡ set_limit r value limits s
unchanged r s value limits soft hard = elim (Bool-cases (number r == number s)) [
  | inl e ↦
      (let same : r ≡ s = number_injective r s ((==_iff _ _).0 e) in
        rw (e, set_limit)
          (ground (arith, ap (λ t. (limits t).soft) same, ap (λ t. (limits t).hard) same)))
  | inr e ↦ rw (e, set_limit) refl
]

module _ (kernel : Kernel) where
  on_set-settle :
      (o : Option ℕ) (r : Resource) (value : ℕ) (limits : Limits)
      → (on_set kernel o r value limits).0 ≡ none
      → (on_set kernel o r value limits).1 ≡ set_limit r value limits
  on_set-settle (some errno) r value limits h = ground arith
  on_set-settle none r value limits h = refl

  on_get-settle :
      (o : Option ℕ) (r : Resource) (desired : ℕ) (limits : Limits)
      → (on_get kernel o r desired limits).0 ≡ none
      → (on_get kernel o r desired limits).1
        ≡ set_limit r (effective_limit desired (limits r).hard) limits
  on_get-settle (some errno) r desired limits h = ground arith
  on_get-settle none r desired limits h =
      let value = effective_limit desired (limits r).hard in
      elim (Bool-cases (value == (limits r).soft && value == (limits r).hard)) [
        | inl same ↦ rw same (λ i s. unchanged r s value limits (ground arith) (ground arith) i)
        | inr other ↦ rw other (on_set-settle (kernel.sets r value) r value limits (rw other at h))
      ]

  unless_failed-settle :
      (step : Option ℕ × Limits) (next goal : Limits) (rest : Limits → Ended × Limits)
      → (step.0 ≡ none → step.1 ≡ next)
      → ((rest next).0 ≡ ok → (rest next).1 ≡ goal)
      → (unless_failed kernel step rest).0 ≡ ok
      → (unless_failed kernel step rest).1 ≡ goal
  unless_failed-settle (some errno, limits) next goal rest moves goes h = ground arith
  unless_failed-settle (none, limits) next goal rest moves goes h =
      subst (λ l. (rest l).0 ≡ ok → (rest l).1 ≡ goal) (sym (moves refl)) goes h

  targets-settle :
      (targets : List LinuxRlimitTarget) (limits : Limits)
      → (apply_linux_rlimit_targets kernel targets limits).0 ≡ ok
      → (apply_linux_rlimit_targets kernel targets limits).1 ≡ settle_all targets limits
  unfolding apply_linux_rlimit_targets
  targets-settle [] limits h = refl
  targets-settle (target ∷ targets) limits h =
      unless_failed-settle (apply_target kernel target limits) (settle target limits)
        (settle_all targets (settle target limits)) (apply_linux_rlimit_targets kernel targets)
        (unfold apply_target in
          on_get-settle (kernel.gets target.resource) target.resource target.desired_soft limits)
        (targets-settle targets (settle target limits)) h

settled :
    (limits : ResourceLimits) (before : Limits) (r : Resource)
    → settle_all (build_linux_rlimit_targets limits) before r ≡ record {
      soft = effective_limit (asked limits r) (before r).hard;
      hard = effective_limit (asked limits r) (before r).hard;
    }
unfolding build_linux_rlimit_targets memory_mb_to_bytes saturating_mul
settled limits before rlimit_cpu = refl
settled limits before rlimit_as = refl
settled limits before rlimit_nofile = refl
settled limits before rlimit_fsize = refl
settled limits before rlimit_nproc = refl

effective-min :
    (desired hard : ℕ)
    → desired ≤ u64_max
    → hard ≤ u64_max
    → effective_limit desired hard ≡ min desired hard
unfolding effective_limit
effective-min desired hard a b = ground arith

-- What a child's limits become when setting them succeeds: for a resource of which the profile
-- asks at most the largest number of 64 bits, and whose hard limit was at most that, the soft and
-- the hard limit are both the smaller one of what the profile asks for and the hard limit before.
pub apply_linux_rlimit_targets-ok :
    (kernel : Kernel) (limits : ResourceLimits) (before : Limits) (r : Resource)
    → asked limits r ≤ u64_max
    → (before r).hard ≤ u64_max
    → (apply_linux_rlimit_targets kernel (build_linux_rlimit_targets limits) before).0 ≡ ok
    → (apply_linux_rlimit_targets kernel (build_linux_rlimit_targets limits) before).1 r ≡ record {
      soft = min (asked limits r) (before r).hard;
      hard = min (asked limits r) (before r).hard;
    }
apply_linux_rlimit_targets-ok kernel limits before r below bounded h =
    ap (λ l. l r) (targets-settle kernel (build_linux_rlimit_targets limits) before h)
    ∙ settled limits before r
    ∙ rw (effective-min (asked limits r) (before r).hard below bounded)
