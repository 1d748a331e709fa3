-- ===== src/Rlimits/Applied.antt =====
-- What the limits are behind `apply_resource_limits`.
use claw_crate.Base.{
  ℕ, ◌*◌, ◌≤◌, ◌≡◌, refl, sym, ap, ap₂, ◌∙◌, ◌≢◌, ◌⊎◌, inl, inr, List, [], ◌∷◌, ◌++◌, ◌==◌, ==_iff,
  min, arith, Bool-cases,
}
use claw_crate.Profiles.Resolve.{ResourceLimits}
use claw_crate.Rlimits.{
  Resource, rlimit_cpu, rlimit_as, rlimit_nofile, rlimit_fsize, rlimit_nproc, number, u64_max,
  Limits, set_soft, Kernel, AppliedRlimit, RlimitError, Result, ok, error, memory_mb_to_bytes,
  saturating_mul, clamp_to_hard_limit, build_targets, apply_soft_limit, apply_from,
  apply_resource_limits,
}

abbrev pub settle : Resource → ℕ → Limits → Limits
settle r desired limits = set_soft r (clamp_to_hard_limit desired (limits r).hard) limits

abbrev settle_all : List (Resource × ℕ) → Limits → Limits
settle_all [] limits = limits
settle_all (target ∷ targets) limits = settle_all targets (settle target.0 target.1 limits)

pub number_injective : (r s : Resource) → number r ≡ number s → r ≡ s
number_injective rlimit_cpu rlimit_cpu h = refl
number_injective rlimit_as rlimit_as h = refl
number_injective rlimit_nofile rlimit_nofile h = refl
number_injective rlimit_fsize rlimit_fsize h = refl
number_injective rlimit_nproc rlimit_nproc h = refl
number_injective _ _ h = ground arith

unchanged :
    (r s : Resource) (soft : ℕ) (limits : Limits)
    → soft ≡ (limits r).soft
    → limits s ≡ set_soft r soft limits s
unchanged r s soft limits h = elim (Bool-cases (number r == number s)) [
  | inl e ↦
      (let q : soft ≡ (limits s).soft =
          h ∙ ap (λ t. (limits t).soft) (number_injective r s ((==_iff _ _).0 e)) in
        rw (e, set_soft) (ap (λ x. record { soft = x; hard = (limits s).hard }) (sym q)))
  | inr e ↦ rw (e, set_soft) refl
]

error_not_ok : (e : RlimitError) (a : AppliedRlimit) → error e ≢ ok a
error_not_ok e a h = ground arith

module _ (kernel : Kernel) where
  pub soft_limit-settle :
      (r : Resource) (desired : ℕ) (limits : Limits) (one : AppliedRlimit)
      → (apply_soft_limit kernel r desired limits).0 ≡ ok one
      → (apply_soft_limit kernel r desired limits).1 ≡ settle r desired limits
  unfolding apply_soft_limit
  soft_limit-settle r desired limits one h = elim (Bool-cases (kernel.answers r)) [
    | inr e ↦ absurd (error_not_ok _ _ (rw e at h))
    | inl e ↦ elim (Bool-cases (clamp_to_hard_limit desired (limits r).hard == (limits r).soft)) [
      | inl same ↦ rw (e, same) (λ i s. unchanged r s _ limits ((==_iff _ _).0 same) i)
      | inr other ↦
          elim (Bool-cases
            (kernel.accepts r (clamp_to_hard_limit desired (limits r).hard) (limits r).hard)) [
              | inl works ↦ rw (e, other, works) refl
              | inr fails ↦ absurd (error_not_ok _ _ (rw (e, other, fails) at h))
            ]
    ]
  ]

  abbrev pub continue :
      List AppliedRlimit
      → List (Resource × ℕ)
      → Result AppliedRlimit × Limits
      → Result (List AppliedRlimit) × Limits
  continue applied targets (error e, limits) = (error e, limits)
  continue applied targets (ok one, limits) = apply_from kernel (applied ++ one ∷ []) targets limits

  Result-cases :
      (r : Result AppliedRlimit)
      → ((a : AppliedRlimit) × (r ≡ ok a)) ⊎ ((e : RlimitError) × (r ≡ error e))
  Result-cases (ok a) = inl (a, refl)
  Result-cases (error e) = inr (e, refl)

  pub apply_from-cons :
      (applied : List AppliedRlimit) (target : Resource × ℕ) (targets : List (Resource × ℕ))
      (limits : Limits)
      → apply_from kernel applied (target ∷ targets) limits
        ≡ continue applied targets (apply_soft_limit kernel target.0 target.1 limits)
  unfolding apply_from
  apply_from-cons applied target targets limits =
      elim (Result-cases (apply_soft_limit kernel target.0 target.1 limits).0) [
        | inl (one, e) ↦ rw (e, apply_from) refl
        | inr (failed, e) ↦ rw (e, apply_from) refl
      ]

  failed_not_ok :
      (e : RlimitError) (res : List AppliedRlimit)
      → ◌≢◌ {A = Result (List AppliedRlimit)} (error e) (ok res)
  failed_not_ok e res h = ground arith

  apply_from-settle :
      (applied : List AppliedRlimit) (targets : List (Resource × ℕ)) (limits : Limits)
      (res : List AppliedRlimit)
      → (apply_from kernel applied targets limits).0 ≡ ok res
      → (apply_from kernel applied targets limits).1 ≡ settle_all targets limits
  apply_from-settle applied [] limits res h = unfold apply_from in refl
  apply_from-settle applied (target ∷ targets) limits res h =
      let cons = apply_from-cons applied target targets limits in
      let step = apply_soft_limit kernel target.0 target.1 limits in
      elim (Result-cases step.0) [
        | inr (failed, e) ↦ absurd (
            failed_not_ok failed res (
              sym (ap (λ r. (continue applied targets r).0) (ap (λ x. (x, step.1)) e))
              ∙ sym (ap (λ r. r.0) cons)
              ∙ h))
        | inl (one, e) ↦
            (let there : step ≡ (ok one, settle target.0 target.1 limits) =
                ap₂ (λ a b. (a, b)) e (soft_limit-settle target.0 target.1 limits one e) in
              let next : apply_from kernel applied (target ∷ targets) limits
                  ≡ apply_from kernel (applied ++ one ∷ []) targets
                      (settle target.0 target.1 limits) =
                cons ∙ ap (continue applied targets) there in
              ap (λ r. r.1) next
              ∙ apply_from-settle (applied ++ one ∷ []) targets (settle target.0 target.1 limits)
                  res (sym (ap (λ r. r.0) next) ∙ h))
      ]

-- What a profile asks of each resource.
abbrev pub asked : ResourceLimits → Resource → ℕ
asked limits rlimit_cpu = limits.max_cpu_seconds
asked limits rlimit_as = min (min (limits.max_memory_mb * 1024) u64_max * 1024) u64_max
asked limits rlimit_nofile = limits.max_open_files
asked limits rlimit_fsize = limits.max_output_bytes
asked limits rlimit_nproc = limits.max_processes

clamp-min :
    (desired hard : ℕ)
    → desired ≤ u64_max
    → hard ≤ u64_max
    → clamp_to_hard_limit desired hard ≡ min desired hard
unfolding clamp_to_hard_limit
clamp-min desired hard a b = ground arith

settled :
    (limits : ResourceLimits) (before : Limits) (r : Resource)
    → settle_all (build_targets limits) before r ≡ record {
      soft = clamp_to_hard_limit (asked limits r) (before r).hard;
      hard = (before r).hard;
    }
unfolding build_targets memory_mb_to_bytes saturating_mul
settled limits before rlimit_cpu = refl
settled limits before rlimit_as = refl
settled limits before rlimit_nofile = refl
settled limits before rlimit_fsize = refl
settled limits before rlimit_nproc = refl

-- Whatever the kernel's limits were, with the hard ones at most the largest number: when applying
-- a profile's limits succeeds, the soft limit of a resource that the profile asks no more than
-- that number of is the smaller one of what the profile asks for, memory in bytes, and the hard
-- limit, and the hard limit is as it was.
pub apply_resource_limits-ok :
    (kernel : Kernel) (limits : ResourceLimits) (before : Limits) (res : List AppliedRlimit)
    (r : Resource)
    → asked limits r ≤ u64_max
    → (before r).hard ≤ u64_max
    → (apply_resource_limits kernel limits before).0 ≡ ok res
    → (((apply_resource_limits kernel limits before).1 r).soft
        ≡ min (asked limits r) (before r).hard)
      × (((apply_resource_limits kernel limits before).1 r).hard ≡ (before r).hard)
unfolding apply_resource_limits
apply_resource_limits-ok kernel limits before res r below bounded h =
    let same = apply_from-settle kernel [] (build_targets limits) before res h in
    let there = ap (λ l. l r) same ∙ settled limits before r in
    (
      ap (λ l. l.soft) there ∙ clamp-min (asked limits r) (before r).hard below bounded,
      ap (λ l. l.hard) there,
    )
