-- ===== src/Linux/Tests.antt =====
-- Runs of the Linux backend's parts, and the theorems about them at concrete inputs.
use claw_crate.Base.{
  ℕ, zero, suc, ◌≡◌, refl, codes, true, false, if◌then◌else◌, none, some, List, [], ◌∷◌, ◌++◌, ◌==◌,
  text_order, get, inl, arith,
}
use claw_crate.Profiles.Resolve.{no_network, open_network}
use claw_crate.Linux.Syscalls.{
  x86_64, other_arch, linux_seccomp_allowed_syscalls, linux_seccomp_forbidden_syscalls,
}
use claw_crate.Linux.Rules.{Seccompiler, filter_rules}
use claw_crate.Linux.Rules.Entries.{entry, filter_rules-entry}
use claw_crate.Linux.Rules.Forbidden.{filter_rules_forbidden}
use claw_crate.Linux.Supervisor.{
  Round, ready, timed_out, received, receive_gone, sent, SeccompNotif, Effect, recorded, replied,
  eperm, denial_of, supervise, supervisor_thread, logged,
}
use claw_crate.Linux.Supervisor.Answers.{
  Ends, shut_down, poll_failed, hung_up, not_received, not_sent, supervise-answers,
}
use claw_crate.Linux.Filter.{
  SockFilter, bpf_ret_k, seccomp_ret_user_notif, rewrite_seccomp_mismatch_to_notify, apply_seccomp,
  ok, ListenerChannel,
}
use claw_crate.Linux.Filter.Retargeted.{Outcome, runs, killed, fails, seen, rewrite-seen}
use claw_crate.Linux.Filter.Paired.{Applied, apply_seccomp-Applied}

-- A library that makes every rule, and shows the value that it compares with.
abbrev lib : Seccompiler
lib = record {
  Condition = ℕ;
  Rule = List ℕ;
  new_condition = λ argument op value. some value;
  new_rule = λ conditions. some conditions;
}

sendmsg_on_channel :
    get (codes "sendmsg") (filter_rules lib x86_64 no_network (some 7)) ≡ some ((7 ∷ []) ∷ [])
unfolding filter_rules linux_seccomp_allowed_syscalls get
sendmsg_on_channel = refl

prctl_narrowed :
    get (codes "prctl") (filter_rules lib other_arch open_network none) ≡ some ((22 ∷ []) ∷ [])
unfolding filter_rules linux_seccomp_allowed_syscalls get
prctl_narrowed = refl

filter_rules-entry_example :
    get (codes "socket") (filter_rules lib x86_64 no_network (some 7))
    ≡ entry lib x86_64 no_network (some 7) (codes "socket")
filter_rules-entry_example = filter_rules-entry lib x86_64 no_network (some 7) (codes "socket")

filter_rules_forbidden_example :
    get (codes "ptrace") (filter_rules lib x86_64 no_network (some 7)) ≡ none
unfolding linux_seccomp_forbidden_syscalls
filter_rules_forbidden_example =
    filter_rules_forbidden lib x86_64 no_network (some 7) (codes "ptrace") (inl refl)

-- A round without a notification, and one with.
abbrev quiet : Round
quiet = record { shutdown = false; polled = timed_out; receive = receive_gone; answer = sent }

abbrev request : SeccompNotif
request = record { id = 11; pid = 40; nr = 101 }

abbrev busy : Round
busy = record {
  shutdown = false;
  polled = ready false true;
  receive = received request;
  answer = sent;
}

answered_twice :
    supervisor_thread true true (quiet ∷ busy ∷ busy ∷ [])
    ≡ recorded (denial_of request) ∷ replied 11 1 ∷ recorded (denial_of request) ∷ replied 11 1 ∷ []
unfolding supervisor_thread
answered_twice = refl

recorded_once :
    logged (supervise (busy ∷ busy ∷ [])) (record { denials = []; dropped = 0 })
    ≡ record { denials = denial_of request ∷ []; dropped = 0 }
unfolding logged supervise
recorded_once = refl

quiet_goes_on : ¬ Ends quiet
quiet_goes_on (shut_down e) = ground arith
quiet_goes_on (poll_failed e) = ground arith
quiet_goes_on (hung_up input e) = ground arith
quiet_goes_on (not_received p r) = ground arith
quiet_goes_on (not_sent n p r a) = ground arith

supervise-answers_example :
    (rest : List Effect) × (supervise ((quiet ∷ []) ++ busy ∷ [])
      ≡ supervise (quiet ∷ []) ++ recorded (denial_of request) ∷ replied 11 eperm ∷ rest)
supervise-answers_example =
    supervise-answers (quiet ∷ []) [] busy request (quiet_goes_on, tt)
      (record { running = refl; input = refl; taken = refl })

-- A machine that runs a program: a comparison of the system call's number skips one instruction.
abbrev jeq : ℕ → SockFilter
jeq number = record { code = 21; jt = 1; jf = 0; k = number }

abbrev ret : ℕ → SockFilter
ret action = record { code = 6; jt = 0; jf = 0; k = action }

abbrev program : List SockFilter
program = jeq 39 ∷ ret 0x50001 ∷ ret 0x7FFF0000 ∷ []

-- Jumps count the instructions to skip.
run_from : ℕ → List SockFilter → ℕ → ℕ
run_from skip [] number = 0
run_from (suc skip) (i ∷ is) number = run_from skip is number
run_from zero (i ∷ is) number =
    let next = run_from (if number == i.k then i.jt else i.jf) is number in
    if i.code == bpf_ret_k then i.k else next

abbrev kernel_outcome : ℕ → Outcome
kernel_outcome action =
    if action == 0x50001 then fails 1 else if action == 0x7FFF0000 then runs else killed

rewritten_program :
    rewrite_seccomp_mismatch_to_notify program
    ≡ (jeq 39 ∷ ret seccomp_ret_user_notif ∷ ret 0x7FFF0000 ∷ [], 1)
unfolding rewrite_seccomp_mismatch_to_notify
rewritten_program = refl

rewrite-seen_example :
    seen kernel_outcome eperm (run_from 0 (rewrite_seccomp_mismatch_to_notify program).0 101)
    ≡ seen kernel_outcome eperm (run_from 0 program 101)
unfolding run_from
rewrite-seen_example =
    rewrite-seen (run_from 0) kernel_outcome program 101 (λ f. refl) (λ h. ground arith) refl

abbrev channel : ListenerChannel
channel = record { parent = 8; child = 7 }

apply_seccomp-Applied_example :
    Applied lib
      (λ arch rules. ok program)
      (some x86_64)
      (some channel)
      no_network
      (apply_seccomp lib (λ arch rules. ok program) (some x86_64) (some channel) no_network none)
apply_seccomp-Applied_example =
    apply_seccomp-Applied lib (λ arch rules. ok program) (some x86_64) (some channel) no_network
