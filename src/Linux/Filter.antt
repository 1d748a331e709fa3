-- ===== src/Linux/Filter.antt =====
-- The compiled filter and its retargeting to user notifications
-- (crates/clawcrate-sandbox/src/linux.rs and linux_notify.rs).
pub mod Retargeted
pub mod Paired
use Prim.Native.Nat.{bit_and, bit_or}
use claw_crate.Base.{
  ℕ, zero, suc, ◌+◌, Bool, true, false, ◌&&◌, if◌then◌else◌, Option, none, some, List, [], ◌∷◌,
  ◌==◌,
}
use claw_crate.Profiles.Resolve.{NetLevel}
use claw_crate.Linux.Syscalls.{TargetArch}
use claw_crate.Linux.Rules.{Seccompiler, Rules, filter_rules}
use claw_crate.Linux.Supervisor.{eperm}

-- `SECCOMP_RET_USER_NOTIF`, `SECCOMP_RET_ERRNO` and `BPF_RET | BPF_K`.
abbrev pub seccomp_ret_user_notif : ℕ
seccomp_ret_user_notif = 0x7FC00000

abbrev pub seccomp_ret_errno : ℕ
seccomp_ret_errno = 0x50000

abbrev pub bpf_ret_k : ℕ
bpf_ret_k = 6

abbrev pub errno_action : ℕ → ℕ
errno_action errno = bit_or seccomp_ret_errno (bit_and errno 0xFFFF)

unfoldable pub user_notif_replacement : ℕ → ℕ → ℕ → Option ℕ
user_notif_replacement code k errno =
    if code == bpf_ret_k && k == errno_action errno then some seccomp_ret_user_notif else none

pub record SockFilter : Type 0 where
  pub code : ℕ
  pub jt : ℕ
  pub jf : ℕ
  pub k : ℕ

abbrev pub retarget : SockFilter → Option ℕ → SockFilter
retarget instruction none = instruction
retarget instruction (some replacement) = record instruction { k = replacement }

abbrev pub one_more : Option ℕ → ℕ → ℕ
one_more none rewritten = rewritten
one_more (some replacement) rewritten = suc rewritten

-- The program afterwards, and the number of instructions that were rewritten.
unfoldable pub rewrite_seccomp_mismatch_to_notify : List SockFilter → List SockFilter × ℕ
unfolding user_notif_replacement
rewrite_seccomp_mismatch_to_notify [] = ([], 0)
rewrite_seccomp_mismatch_to_notify (instruction ∷ program) =
    let (rest, rewritten) = rewrite_seccomp_mismatch_to_notify program in
    let replacement = user_notif_replacement instruction.code instruction.k eperm in
    (retarget instruction replacement ∷ rest, one_more replacement rewritten)

-- The two descriptors of the socket pair, if it could be made.
pub record ListenerChannel : Type 0 where
  pub parent : ℕ
  pub child : ℕ

pub record LinuxSeccompContext : Type 0 where
  pub program : List SockFilter
  pub listener_channel_child : Option ℕ
  pub notify_program : List SockFilter

pub data PrepareError : Type 0 where
  unsupported_arch build_filter compile_filter : PrepareError

pub data Result (A : Type 0) : Type 0 where
  ok : A → Result A
  error : PrepareError → Result A

-- The context, and what stands in `LISTENER_CHANNEL_PARENT` afterwards.
abbrev pub Prepared : Type 0
Prepared = Result LinuxSeccompContext × Option ℕ

abbrev pub plain : List SockFilter → LinuxSeccompContext
plain program = record { program = program; listener_channel_child = none; notify_program = [] }

abbrev pub with_channel : List SockFilter → ℕ → Option ListenerChannel → Option ℕ → Prepared
with_channel program rewritten none slot = (ok (plain program), slot)
with_channel program rewritten (some channel) slot =
    if rewritten == 0 then (ok (plain program), slot) else (
      ok (record {
        program = program;
        listener_channel_child = some channel.child;
        notify_program = program;
      }),
      some channel.parent,
    )

-- The closure runs only if there is a channel.
abbrev pub program_for : Option ListenerChannel → List SockFilter → List SockFilter
program_for none program = program
program_for (some channel) program = (rewrite_seccomp_mismatch_to_notify program).0

abbrev pub on_program : List SockFilter → Option ListenerChannel → Option ℕ → Prepared
on_program program channel slot =
    with_channel (program_for channel program) (rewrite_seccomp_mismatch_to_notify program).1
      channel slot

abbrev pub child_fd : Option ListenerChannel → Option ℕ
child_fd none = none
child_fd (some channel) = some channel.child

module _ (lib : Seccompiler) (compile : TargetArch → Rules lib → Result (List SockFilter)) where
  abbrev pub compiled : Result (List SockFilter) → Option ListenerChannel → Option ℕ → Prepared
  compiled (ok program) channel slot = on_program program channel slot
  compiled (error e) channel slot = (error e, slot)

  -- `compile` is `SeccompFilter::new` and the translation to a program, with `EPERM` for what is
  -- not in the rules.
  unfoldable pub prepare_linux_seccomp_context :
      Option TargetArch → Option ListenerChannel → NetLevel → Option ℕ → Prepared
  unfolding rewrite_seccomp_mismatch_to_notify filter_rules
  prepare_linux_seccomp_context none channel net slot = (error unsupported_arch, slot)
  prepare_linux_seccomp_context (some arch) channel net slot =
      compiled (compile arch (filter_rules lib arch net (child_fd channel))) channel slot

  abbrev pub configured : Prepared → Result (LinuxSeccompContext × Option ℕ) × Option ℕ
  configured (ok context, slot) = (ok (context, slot), none)
  configured (error e, slot) = (error e, slot)

  -- `KernelEnforcer::apply_seccomp`: the context that the child gets, the supervisor's end of the
  -- channel, and the slot, which `configure_linux_seccomp_pre_exec` empties.
  unfoldable pub apply_seccomp :
      Option TargetArch
      → Option ListenerChannel
      → NetLevel
      → Option ℕ
      → Result (LinuxSeccompContext × Option ℕ) × Option ℕ
  unfolding prepare_linux_seccomp_context
  apply_seccomp arch channel net slot =
      configured (prepare_linux_seccomp_context arch channel net slot)
