-- ===== src/Linux/Filter/Retargeted.antt =====
-- The rewritten filter refuses what the plain one refuses, and with the same error.
use claw_crate.Base.{
  ℕ, ◌≡◌, ◌≢◌, refl, sym, if◌then◌else◌, List, [], ◌∷◌, map, ◌==◌, ==_iff, arith, Bool-cases, inl,
  inr,
}
use claw_crate.Linux.Supervisor.{eperm}
use claw_crate.Linux.Filter.{
  SockFilter, seccomp_ret_user_notif, bpf_ret_k, errno_action, rewrite_seccomp_mismatch_to_notify,
  user_notif_replacement,
}

-- A program with a function put behind the constants that it returns.
abbrev pub returning : (ℕ → ℕ) → SockFilter → SockFilter
returning f instruction =
    if instruction.code == bpf_ret_k
    then record instruction { k = f instruction.k }
    else instruction

abbrev pub to_notify : ℕ → ℕ
to_notify k = if k == errno_action eperm then seccomp_ret_user_notif else k

-- What a process sees of a system call.
pub data Outcome : Type 0 where
  runs killed : Outcome
  fails : ℕ → Outcome

-- A notification is seen as the supervisor's answer to it.
abbrev pub seen : (ℕ → Outcome) → ℕ → ℕ → Outcome
seen kernel answer action = if action == seccomp_ret_user_notif then fails answer else kernel action

rewrite-returning :
    (program : List SockFilter)
    → (rewrite_seccomp_mismatch_to_notify program).0 ≡ map (returning to_notify) program
unfolding rewrite_seccomp_mismatch_to_notify user_notif_replacement
rewrite-returning [] = refl
rewrite-returning (instruction ∷ program) = ground (arith, rewrite-returning program)

seen-to_notify :
    (kernel : ℕ → Outcome) (v : ℕ)
    → v ≢ seccomp_ret_user_notif
    → kernel (errno_action eperm) ≡ fails eperm
    → seen kernel eperm (to_notify v) ≡ seen kernel eperm v
seen-to_notify kernel v other refuses = elim (Bool-cases (v == errno_action eperm)) [
  | inl same ↦ rw ((==_iff v (errno_action eperm)).0 same) (sym refuses)
  | inr different ↦ rw different
]

-- Whatever data a system call comes with: when the verdict of a program moves with the constants
-- that it returns and is not itself a notification, and the kernel turns the action for `EPERM`
-- into that error, then the rewritten program, with every notification answered by `EPERM`, shows
-- the process the same as the program before.
pub rewrite-seen :
    {Data : Type 0} (verdict : List SockFilter → Data → ℕ) (kernel : ℕ → Outcome)
    (program : List SockFilter) (call : Data)
    → ((f : ℕ → ℕ) → verdict (map (returning f) program) call ≡ f (verdict program call))
    → verdict program call ≢ seccomp_ret_user_notif
    → kernel (errno_action eperm) ≡ fails eperm
    → seen kernel eperm (verdict (rewrite_seccomp_mismatch_to_notify program).0 call)
      ≡ seen kernel eperm (verdict program call)
rewrite-seen verdict kernel program call moves other refuses =
    rw (rewrite-returning program, moves to_notify)
      (seen-to_notify kernel (verdict program call) other refuses)
