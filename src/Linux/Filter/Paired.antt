-- ===== src/Linux/Filter/Paired.antt =====
-- A filter that notifies and the supervisor's end of its channel come together, or not at all.
use claw_crate.Base.{
  ℕ, ◌<◌, ◌≡◌, refl, Option, none, some, List, [], ◌∷◌, ◌==◌, arith, Bool-cases, inl, inr, ◌⊎◌,
}
use claw_crate.Profiles.Resolve.{NetLevel}
use claw_crate.Linux.Syscalls.{TargetArch}
use claw_crate.Linux.Rules.{Seccompiler, Rules, filter_rules}
use claw_crate.Linux.Filter.{
  SockFilter, seccomp_ret_user_notif, rewrite_seccomp_mismatch_to_notify, user_notif_replacement,
  ListenerChannel, LinuxSeccompContext, Result, ok, error, child_fd, prepare_linux_seccomp_context,
  apply_seccomp, plain, configured, compiled, on_program, PrepareError, bpf_ret_k,
}

-- The program returns a notification somewhere.
abbrev pub Notifies : List SockFilter → Type 0
Notifies [] = ⊥
Notifies (instruction ∷ program) =
    ((instruction.code ≡ bpf_ret_k) × (instruction.k ≡ seccomp_ret_user_notif)) ⊎ Notifies program

rewritten-Notifies :
    (program : List SockFilter)
    → 0 < (rewrite_seccomp_mismatch_to_notify program).1
    → Notifies (rewrite_seccomp_mismatch_to_notify program).0
unfolding rewrite_seccomp_mismatch_to_notify user_notif_replacement
rewritten-Notifies [] h = omega arith
rewritten-Notifies (instruction ∷ program) h = ground (arith, rewritten-Notifies program)

not_rewritten :
    (program : List SockFilter)
    → (rewrite_seccomp_mismatch_to_notify program).1 ≡ 0
    → (rewrite_seccomp_mismatch_to_notify program).0 ≡ program
unfolding rewrite_seccomp_mismatch_to_notify user_notif_replacement
not_rewritten [] h = refl
not_rewritten (instruction ∷ program) h = ground (arith, not_rewritten program)

-- What a child is given, and the supervisor: the compiled program as it is and nothing, or the
-- rewritten one, which notifies, with an end of the channel each.
pub data Pairing (program : List SockFilter) (channel : Option ListenerChannel)
    : LinuxSeccompContext → Option ℕ → Type 0 where
  alone : Pairing program channel (plain program) none
  paired :
      (c : ListenerChannel)
      → channel ≡ some c
      → Notifies (rewrite_seccomp_mismatch_to_notify program).0
      → Pairing program channel
          (record {
            program = (rewrite_seccomp_mismatch_to_notify program).0;
            listener_channel_child = some c.child;
            notify_program = (rewrite_seccomp_mismatch_to_notify program).0;
          })
          (some c.parent)

module _ (lib : Seccompiler) (compile : TargetArch → Rules lib → Result (List SockFilter)) where
  -- The slot is empty afterwards, and a success is such a pairing for the compiled program.
  pub data Applied (arch : Option TargetArch) (channel : Option ListenerChannel) (net : NetLevel)
      : Result (LinuxSeccompContext × Option ℕ) × Option ℕ → Type 0 where
    failed : {e : PrepareError} → Applied arch channel net (error e, none)
    filtering :
        (a : TargetArch) (program : List SockFilter) {context : LinuxSeccompContext}
        {parent : Option ℕ}
        → arch ≡ some a
        → compile a (filter_rules lib a net (child_fd channel)) ≡ ok program
        → Pairing program channel context parent
        → Applied arch channel net (ok (context, parent), none)

  on_program-Applied :
      (a : TargetArch) (channel : Option ListenerChannel) (net : NetLevel)
      (program : List SockFilter)
      → compile a (filter_rules lib a net (child_fd channel)) ≡ ok program
      → Applied (some a) channel net (configured lib compile (on_program program channel none))
  on_program-Applied a none net program e = filtering a program refl e alone
  on_program-Applied a (some c) net program e =
      elim (Bool-cases ((rewrite_seccomp_mismatch_to_notify program).1 == 0)) [
        | inl zero_rewritten ↦
            rw (zero_rewritten, not_rewritten program (ground arith))
              (filtering a program refl e alone)
        | inr some_rewritten ↦
            rw some_rewritten (
              filtering a program refl e
                (paired c refl (rewritten-Notifies program (ground arith))))
      ]

  compiled-Applied :
      (a : TargetArch) (channel : Option ListenerChannel) (net : NetLevel)
      (res : Result (List SockFilter))
      → compile a (filter_rules lib a net (child_fd channel)) ≡ res
      → Applied
          (some a)
          channel
          net
          (configured lib compile (compiled lib compile res channel none))
  compiled-Applied a channel net (ok program) e = on_program-Applied a channel net program e
  compiled-Applied a channel net (error x) e = failed

  -- From an empty slot, whichever channel there is: applying the filter fails, or the child gets
  -- the program compiled from the rules as it is and the supervisor nothing, or the child gets the
  -- rewritten program, which returns a notification, with its end of the channel, and the
  -- supervisor the other end. The slot is empty again.
  pub apply_seccomp-Applied :
      (arch : Option TargetArch) (channel : Option ListenerChannel) (net : NetLevel)
      → Applied arch channel net (apply_seccomp lib compile arch channel net none)
  unfolding apply_seccomp prepare_linux_seccomp_context
  apply_seccomp-Applied none channel net = failed
  apply_seccomp-Applied (some a) channel net =
      compiled-Applied a channel net (compile a (filter_rules lib a net (child_fd channel))) refl
