-- ===== src/Linux/Rules.antt =====
-- The rules of the seccomp filter (crates/clawcrate-sandbox/src/linux.rs): a map from the system calls
-- that are allowed to the rules one of which a call must meet, with no rules for "always". The
-- conditions and rules are seccompiler's.
pub mod Entries
pub mod Forbidden
use claw_crate.Base.{
  ℕ, Text, codes, Bool, true, false, if◌then◌else◌, Option, none, some, List, [], ◌∷◌, ◌++◌,
  text_order, get, map_insert,
}
use claw_crate.Profiles.Resolve.{NetLevel}
use claw_crate.Linux.Syscalls.{TargetArch, linux_seccomp_allowed_syscalls}

pub data CmpOp : Type 0 where
  eq ne : CmpOp

-- `SeccompCondition::new` for a comparison of 32 bits of an argument, and `SeccompRule::new`; `none`
-- is an error.
pub record Seccompiler : Type 1 where
  pub Condition : Type 0
  pub Rule : Type 0
  pub new_condition : ℕ → CmpOp → ℕ → Option Condition
  pub new_rule : List Condition → Option Rule

-- `PR_SET_SECCOMP`.
abbrev pub pr_set_seccomp : ℕ
pr_set_seccomp = 22

module _ {V : Type 0} where
  -- `BTreeMap::remove`.
  unfoldable pub map_remove : Text → List (Text × V) → List (Text × V)
  map_remove j [] = []
  map_remove j ((k, v) ∷ m) = if text_order.beq k j then m else (k, v) ∷ map_remove j m

  -- The loop that inserts every allowed system call.
  unfoldable pub insert_all : List Text → V → List (Text × V) → List (Text × V)
  unfolding map_insert
  insert_all [] v m = m
  insert_all (k ∷ ks) v m = insert_all ks v (map_insert k v m)

module _ (lib : Seccompiler) where
  open lib use {Condition, Rule, new_condition, new_rule}

  abbrev pub Rules : Type 0
  Rules = List (Text × List Rule)

  abbrev pub single : Option Condition → Option Rule
  single none = none
  single (some condition) = new_rule (condition ∷ [])

  abbrev pub narrow_prctl : Option Rule → Rules → Rules
  narrow_prctl (some rule) rules = map_insert (codes "prctl") (rule ∷ []) rules
  narrow_prctl none rules = map_remove (codes "prctl") rules

  unfoldable pub restrict_prctl_from_installing_filters : Rules → Rules
  unfolding map_remove
  restrict_prctl_from_installing_filters rules =
      narrow_prctl (single (new_condition 0 ne pr_set_seccomp)) rules

  unfoldable pub build_linux_seccomp_rules : TargetArch → NetLevel → Rules
  unfolding insert_all restrict_prctl_from_installing_filters
  build_linux_seccomp_rules arch net =
      restrict_prctl_from_installing_filters
        (insert_all (linux_seccomp_allowed_syscalls arch net) [] [])

  abbrev pub or_default : Option (List Rule) → List Rule
  or_default none = []
  or_default (some rules) = rules

  abbrev pub push_rule : Option Rule → Rules → Rules
  push_rule none rules = rules
  push_rule (some rule) rules =
      map_insert (codes "sendmsg") (or_default (get (codes "sendmsg") rules) ++ rule ∷ []) rules

  abbrev pub allows_always : Option (List Rule) → Bool
  allows_always (some []) = true
  allows_always (some (r ∷ rules)) = false
  allows_always none = false

  -- A descriptor is cast to 64 bits; it is never negative here.
  unfoldable pub allow_listener_handover_sendmsg : ℕ → Rules → Rules
  allow_listener_handover_sendmsg handover_fd rules =
      if allows_always (get (codes "sendmsg") rules)
      then rules
      else push_rule (single (new_condition 0 eq handover_fd)) rules

  -- The rules that `prepare_linux_seccomp_context` compiles, with the channel that it may have.
  unfoldable pub filter_rules : TargetArch → NetLevel → Option ℕ → Rules
  unfolding build_linux_seccomp_rules allow_listener_handover_sendmsg
  filter_rules arch net none = build_linux_seccomp_rules arch net
  filter_rules arch net (some handover_fd) =
      allow_listener_handover_sendmsg handover_fd (build_linux_seccomp_rules arch net)
