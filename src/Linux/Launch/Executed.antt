-- ===== src/Linux/Launch/Executed.antt =====
-- A child that goes on to exec is confined.
use claw_crate.Base.{
  ℕ, ◌≤◌, ◌≡◌, refl, sym, subst, ap, ◌∙◌, true, Option, none, some, List, [], ◌∷◌, ◌++◌, min, arith,
}
use claw_crate.Profiles.Resolve.{ResourceLimits}
use claw_crate.Rlimits.{Resource, u64_max, Limits}
use claw_crate.Rlimits.Applied.{asked}
use claw_crate.Linux.Landlock.{
  LinuxLandlockContext, Call, create_ruleset, restrict_self, close_ruleset, Ended, ok, os_error,
  ended_by, landlock_errno_to_io_error, behind, apply_linux_landlock_restrictions,
}
use claw_crate.Linux.Landlock
use claw_crate.Linux.Landlock.Applied.{
  all_rules, handled, TakesAll, Restricting, refused, privileged, restricted, Restricts, no_ruleset,
  with_ruleset, apply_linux_landlock_restrictions-Restricts,
}
use claw_crate.Linux.Filter.{LinuxSeccompContext}
use claw_crate.Linux.Limits.{build_linux_rlimit_targets, apply_linux_rlimit_targets}
use claw_crate.Linux.Limits.Lowered.{apply_linux_rlimit_targets-ok}
use claw_crate.Linux.Launch.{
  FilterCall, set_no_new_privs, close_listener, apply_filter, install_with_listener, hand_over,
  Acknowledged, byte, end, read_error, FilterKernel, install, with_listener, hand_over_listener,
  on_no_new_privs, apply_linux_seccomp_filter, ChildKernel, Child, after_filter, after_landlock,
  after_limits, run_child, ended,
}

-- Every rule was taken, new privileges are refused, and the restriction is in force.
pub record IsRestricted (kernel : Landlock.Kernel) (context : LinuxLandlockContext)
    (calls : List Call) : Type 0 where
  pub made :
      calls
      ≡ create_ruleset (handled context)
        ∷ (all_rules context ++ Landlock.set_no_new_privs ∷ restrict_self ∷ close_ruleset ∷ [])
  pub taken : TakesAll kernel (all_rules context)
  pub no_new_privs : kernel.sets_no_new_privs ≡ none
  pub in_force : kernel.restricts ≡ none

errno-none :
    (primary cleanup : Option ℕ)
    → ended_by (landlock_errno_to_io_error primary cleanup) ≡ ok
    → primary ≡ none
unfolding landlock_errno_to_io_error
errno-none none cleanup h = refl
errno-none (some errno) cleanup h = ground arith

module _ (kernel : Landlock.Kernel) (context : LinuxLandlockContext) where
  Restricting-ok :
      {next : List Call × Ended}
      → Restricting kernel (all_rules context) next
      → next.1 ≡ ok
      → IsRestricted kernel context (create_ruleset (handled context) ∷ next.0)
  Restricting-ok (refused before after rule errno e t x) h = ground arith
  Restricting-ok (privileged errno t e) h = ground arith
  Restricting-ok (restricted t e) h = record {
    made = refl;
    taken = t;
    no_new_privs = e;
    in_force = errno-none kernel.restricts kernel.closes h;
  }

  Restricts-ok :
      {next : List Call × Ended}
      → Restricts kernel context next
      → next.1 ≡ ok
      → IsRestricted kernel context next.0
  Restricts-ok (no_ruleset errno e) h = ground arith
  Restricts-ok (with_ruleset e r) h = Restricting-ok r h

-- The plain filter is installed, or the one that notifies, whose listener the supervisor has
-- acknowledged.
pub data IsFiltered (kernel : FilterKernel) (context : LinuxSeccompContext)
    : List FilterCall → Type 0 where
  plainly :
      context.listener_channel_child ≡ none
      → kernel.applies ≡ none
      → IsFiltered kernel context (set_no_new_privs ∷ apply_filter context.program ∷ [])
  notifying :
      (channel listener : ℕ)
      → context.listener_channel_child ≡ some channel
      → kernel.installs ≡ some listener
      → kernel.acknowledgement ≡ byte
      → IsFiltered kernel context (
          set_no_new_privs
          ∷ install_with_listener context.notify_program
          ∷ hand_over channel listener
          ∷ close_listener
          ∷ [])

module _ (kernel : FilterKernel) (context : LinuxSeccompContext) where
  acknowledged-byte :
      (sends : Option ℕ) (acknowledgement : Acknowledged)
      → hand_over_listener sends acknowledgement ≡ ok
      → acknowledgement ≡ byte
  acknowledged-byte (some errno) acknowledgement h = ground arith
  acknowledged-byte none byte h = refl
  acknowledged-byte none end h = ground arith
  acknowledged-byte none (read_error errno) h = ground arith

  ended-none : (o : Option ℕ) → ended o ≡ ok → o ≡ none
  ended-none none h = refl
  ended-none (some errno) h = ground arith

  with_listener-IsFiltered :
      (channel : ℕ) (o : Option ℕ)
      → context.listener_channel_child ≡ some channel
      → kernel.installs ≡ o
      → (with_listener kernel context.notify_program channel o).1 ≡ ok
      → IsFiltered kernel context (with_listener kernel context.notify_program channel o).0
  with_listener-IsFiltered channel none c e h = ground arith
  with_listener-IsFiltered channel (some listener) c e h =
      notifying channel listener c e (acknowledged-byte kernel.sends kernel.acknowledgement h)

  install-IsFiltered :
      (o : Option ℕ)
      → context.listener_channel_child ≡ o
      → (install kernel context o).1 ≡ ok
      → IsFiltered kernel context (install kernel context o).0
  install-IsFiltered none c h = plainly c (ended-none kernel.applies h)
  install-IsFiltered (some channel) c h = with_listener-IsFiltered channel kernel.installs c refl h

  on_no_new_privs-IsFiltered :
      (o : Option ℕ)
      → (on_no_new_privs kernel context o).1 ≡ ok
      → IsFiltered kernel context (on_no_new_privs kernel context o).0
  on_no_new_privs-IsFiltered (some errno) h = ground arith
  on_no_new_privs-IsFiltered none h = install-IsFiltered context.listener_channel_child refl h

-- Each resource of which the profile asks a number of 64 bits has both its limits at the smaller
-- one of that and the hard limit before; the rules and the filter are in force.
pub record IsConfined (kernel : ChildKernel) (resource_limits : ResourceLimits)
    (landlock : LinuxLandlockContext) (seccomp : LinuxSeccompContext) (before : Limits)
    (child : Child) : Type 0 where
  pub lowered :
      (r : Resource)
      → asked resource_limits r ≤ u64_max
      → (before r).hard ≤ u64_max
      → child.limits r ≡ record {
        soft = min (asked resource_limits r) (before r).hard;
        hard = min (asked resource_limits r) (before r).hard;
      }
  pub restricts : IsRestricted kernel.landlock landlock child.landlock_calls
  pub filters : IsFiltered kernel.seccomp seccomp child.filter_calls

module _ (kernel : ChildKernel) (landlock : LinuxLandlockContext)
    (seccomp : LinuxSeccompContext) where
  filter_ok :
      (limits : Limits) (calls : List Call) (p : List FilterCall × Ended)
      → (after_filter kernel limits calls p).execs ≡ true
      → (p.1 ≡ ok)
        × (after_filter kernel limits calls p
            ≡ record { limits = limits; landlock_calls = calls; filter_calls = p.0; execs = true })
  filter_ok limits calls (filter_calls, ok) h = (refl, refl)
  filter_ok limits calls (filter_calls, os_error errno) h = ground arith

  landlock_ok :
      (limits : Limits) (p : List Call × Ended)
      → (after_landlock kernel seccomp limits p).execs ≡ true
      → (p.1 ≡ ok)
        × (after_landlock kernel seccomp limits p
            ≡ after_filter kernel limits p.0 (apply_linux_seccomp_filter kernel.seccomp seccomp))
  landlock_ok limits (calls, ok) h = (refl, refl)
  landlock_ok limits (calls, os_error errno) h = ground arith

  limits_ok :
      (p : Ended × Limits)
      → (after_limits kernel landlock seccomp p).execs ≡ true
      → (p.0 ≡ ok)
        × (after_limits kernel landlock seccomp p
            ≡ after_landlock kernel seccomp p.1
                (apply_linux_landlock_restrictions kernel.landlock landlock))
  limits_ok (ok, limits) h = (refl, refl)
  limits_ok (os_error errno, limits) h = ground arith

-- Whatever the kernel answers and whatever the limits were: when a child goes on to exec, its
-- limits are lowered to what the profile asks for, its file system rules were all taken and
-- restrict it, and behind that one filter was installed, either the plain one, or the one that
-- notifies, with an acknowledgement from the supervisor that it has the listener.
pub run_child-IsConfined :
    (kernel : ChildKernel) (resource_limits : ResourceLimits) (landlock : LinuxLandlockContext)
    (seccomp : LinuxSeccompContext) (before : Limits)
    → (run_child kernel resource_limits landlock seccomp before).execs ≡ true
    → IsConfined kernel resource_limits landlock seccomp before
        (run_child kernel resource_limits landlock seccomp before)
unfolding run_child apply_linux_seccomp_filter
run_child-IsConfined kernel resource_limits landlock seccomp before h =
    let targets = build_linux_rlimit_targets resource_limits in
    let first = apply_linux_rlimit_targets kernel.rlimits targets before in
    let second = apply_linux_landlock_restrictions kernel.landlock landlock in
    let third = apply_linux_seccomp_filter kernel.seccomp seccomp in
    let (a, a') = limits_ok kernel landlock seccomp first h in
    let (b, b') =
      landlock_ok kernel landlock seccomp first.1 second (ap (λ c. c.execs) (sym a') ∙ h) in
    let (c, c') =
      filter_ok kernel landlock seccomp first.1 second.0 third
        (ap (λ x. x.execs) (sym (a' ∙ b')) ∙ h) in
    subst (IsConfined kernel resource_limits landlock seccomp before) (sym (a' ∙ b' ∙ c')) (record {
      lowered = λ r below bounded.
          apply_linux_rlimit_targets-ok kernel.rlimits resource_limits before r below bounded a;
      restricts =
          Restricts-ok kernel.landlock landlock
            (apply_linux_landlock_restrictions-Restricts kernel.landlock landlock) b;
      filters = on_no_new_privs-IsFiltered kernel.seccomp seccomp kernel.seccomp.no_new_privs c;
    })
