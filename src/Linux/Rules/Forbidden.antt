-- ===== src/Linux/Rules/Forbidden.antt =====
-- The filter and the system calls that must never be in it.
use claw_crate.Base.{
  ℕ, Text, codes, ◌≡◌, refl, Bool, true, not, ◌&&◌, Option, none, List, [], ◌∷◌, text_order, get,
  all, All, Any, all_iff, inl, inr, arith,
}
use claw_crate.Profiles.Resolve.{NetLevel, no_network, open_network, filtered}
use claw_crate.Linux.Syscalls.{
  TargetArch, x86_64, other_arch, linux_seccomp_allowed_syscalls, linux_seccomp_forbidden_syscalls,
}
use claw_crate.Linux.Rules.{Seccompiler, filter_rules}
use claw_crate.Linux.Rules.Entries.{is_among, filter_rules-entry}

-- Not allowed, and neither of the two system calls with a rule.
abbrev is_clear : TargetArch → NetLevel → Text → Bool
is_clear arch net name =
    not (text_order.beq (codes "prctl") name)
    && not (text_order.beq (codes "sendmsg") name)
    && not (is_among name (linux_seccomp_allowed_syscalls arch net))

forbidden_clear :
    (arch : TargetArch) (net : NetLevel)
    → all (is_clear arch net) (linux_seccomp_forbidden_syscalls arch) ≡ true
unfolding linux_seccomp_allowed_syscalls linux_seccomp_forbidden_syscalls
forbidden_clear x86_64 no_network = refl
forbidden_clear x86_64 open_network = refl
forbidden_clear x86_64 (filtered allowed) = refl
forbidden_clear other_arch no_network = refl
forbidden_clear other_arch open_network = refl
forbidden_clear other_arch (filtered allowed) = refl

All-Any :
    (p : Text → Bool) (name : Text) (names : List Text)
    → All (λ n. p n ≡ true) names
    → Any (λ n. n ≡ name) names
    → p name ≡ true
All-Any p name [] h m = absurd m
All-Any p name (n ∷ names) (h, hs) (inl e) = rw (← e) h
All-Any p name (n ∷ names) (h, hs) (inr m) = All-Any p name names hs m

-- A system call of the list of those that must never be allowed has no entry in the map of the
-- filter, whatever the architecture, the profile's network and the channel of the listener.
pub filter_rules_forbidden :
    (lib : Seccompiler) (arch : TargetArch) (net : NetLevel) (channel : Option ℕ) (name : Text)
    → Any (λ n. n ≡ name) (linux_seccomp_forbidden_syscalls arch)
    → get name (filter_rules lib arch net channel) ≡ none
filter_rules_forbidden lib arch net channel name h = ground (
  arith,
  filter_rules-entry lib arch net channel name,
  All-Any (is_clear arch net) name (linux_seccomp_forbidden_syscalls arch)
      ((all_iff (is_clear arch net) (linux_seccomp_forbidden_syscalls arch)).0
        (forbidden_clear arch net))
      h,
)
