-- ===== src/Linux/Supervisor.antt =====
-- The thread that answers the notifications of refused system calls, and its bounded record
-- (crates/clawcrate-sandbox/src/linux_notify.rs). What the kernel answers in each round of the loop is an
-- argument.
pub mod Record
pub mod Answers
use claw_crate.Base.{
  ℕ, zero, suc, ◌+◌, Text, codes, Bool, true, false, ◌&&◌, ◌||◌, not, if◌then◌else◌, Option, none,
  some, List, [], ◌∷◌, ◌++◌, length, any, leb, ◌==◌, min,
}

pub record DeniedSyscall : Type 0 where
  pub nr : ℕ
  pub pid : ℕ

abbrev pub same_denial : DeniedSyscall → DeniedSyscall → Bool
same_denial a b = a.nr == b.nr && a.pid == b.pid

pub record DenialBuffer : Type 0 where
  pub denials : List DeniedSyscall
  pub dropped : ℕ

abbrev pub max_recorded_denials : ℕ
max_recorded_denials = 256

-- `usize::MAX` on the 64-bit targets.
abbrev pub usize_max : ℕ
usize_max = 0xFFFFFFFFFFFFFFFF

unfoldable pub record_denial : DeniedSyscall → DenialBuffer → DenialBuffer
record_denial denial buffer =
    if any (λ d. same_denial d denial) buffer.denials
    then buffer
    else if leb max_recorded_denials (length buffer.denials)
    then record buffer { dropped = min (buffer.dropped + 1) usize_max }
    else record buffer { denials = buffer.denials ++ denial ∷ [] }

-- What is returned, and the buffer afterwards.
unfoldable pub drain : DenialBuffer → (List DeniedSyscall × ℕ) × DenialBuffer
drain buffer = ((buffer.denials, buffer.dropped), record { denials = []; dropped = 0 })

pub record SeccompNotif : Type 0 where
  pub id : ℕ
  pub pid : ℕ
  pub nr : ℕ

-- What `poll`, the receiving `ioctl` and the sending one come to. `interrupted` is `EINTR`, `gone`
-- is `ENOENT`.
pub data Polled : Type 0 where
  poll_error : Bool → Polled
  timed_out : Polled
  ready : Bool → Bool → Polled

pub data Received : Type 0 where
  receive_gone receive_interrupted receive_error : Received
  received : SeccompNotif → Received

pub data Sent : Type 0 where
  sent send_gone send_error : Sent

-- `shutdown` is what the flag is when the round begins.
pub record Round : Type 0 where
  pub shutdown : Bool
  pub polled : Polled
  pub receive : Received
  pub answer : Sent

-- `replied id e` answers a notification with the error `-e`.
pub data Effect : Type 0 where
  recorded : DeniedSyscall → Effect
  replied : ℕ → ℕ → Effect

abbrev pub eperm : ℕ
eperm = 1

abbrev pub denial_of : SeccompNotif → DeniedSyscall
denial_of request = record { nr = request.nr; pid = request.pid }

-- The effects of a round, and whether the loop goes on.
abbrev pub after_send : Sent → Bool
after_send sent = true
after_send send_gone = true
after_send send_error = false

abbrev pub on_receive : Received → Sent → List Effect × Bool
on_receive receive_gone answer = ([], true)
on_receive receive_interrupted answer = ([], true)
on_receive receive_error answer = ([], false)
on_receive (received request) answer =
    (recorded (denial_of request) ∷ replied request.id eperm ∷ [], after_send answer)

-- `ready` has the bits for an error or a hang-up, and for input.
abbrev pub on_poll : Polled → Received → Sent → List Effect × Bool
on_poll (poll_error interrupted) receive answer = ([], interrupted)
on_poll timed_out receive answer = ([], true)
on_poll (ready hung_up input) receive answer =
    if hung_up then ([], false) else if not input then ([], true) else on_receive receive answer

unfoldable pub supervise_round : Round → List Effect × Bool
supervise_round round =
    if round.shutdown then ([], false) else on_poll round.polled round.receive round.answer

-- The effects of the loop over the rounds that it has time for.
unfoldable pub supervise : List Round → List Effect
unfolding supervise_round
supervise [] = []
supervise (round ∷ rounds) =
    let (effects, goes_on) = supervise_round round in
    if goes_on then effects ++ supervise rounds else effects

-- The record behind effects.
unfoldable pub logged : List Effect → DenialBuffer → DenialBuffer
unfolding record_denial
logged [] buffer = buffer
logged (recorded denial ∷ effects) buffer = logged effects (record_denial denial buffer)
logged (replied id error ∷ effects) buffer = logged effects buffer

-- The body of the thread: whether a listener arrives, and whether the acknowledgement is written.
unfoldable pub supervisor_thread : Bool → Bool → List Round → List Effect
unfolding supervise
supervisor_thread listener acknowledged rounds =
    if not listener then [] else if not acknowledged then [] else supervise rounds
