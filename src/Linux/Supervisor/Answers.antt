-- ===== src/Linux/Supervisor/Answers.antt =====
-- Every notification that the thread receives is recorded and answered.
use claw_crate.Base.{
  ◌≡◌, refl, ap, ◌∙◌, Bool, true, false, List, [], ◌∷◌, ◌++◌, append_assoc, append-nil, All,
  Bool-cases, inl, inr, arith,
}
use claw_crate.Linux.Supervisor.{
  Polled, poll_error, timed_out, ready, Received, receive_gone, receive_interrupted, receive_error,
  received, Sent, sent, send_gone, send_error, SeccompNotif, Round, Effect, recorded, replied,
  eperm, on_receive, on_poll, supervise_round, supervise,
}

-- What ends the loop: the request to shut down, a failed call, or that nothing is left to answer.
pub data Ends (round : Round) : Type 0 where
  shut_down : round.shutdown ≡ true → Ends round
  poll_failed : round.polled ≡ poll_error false → Ends round
  hung_up : (input : Bool) → round.polled ≡ ready true input → Ends round
  not_received : round.polled ≡ ready false true → round.receive ≡ receive_error → Ends round
  not_sent :
      (request : SeccompNotif)
      → round.polled ≡ ready false true
      → round.receive ≡ received request
      → round.answer ≡ send_error
      → Ends round

-- A round that comes to a notification.
pub record Brings (request : SeccompNotif) (round : Round) : Type 0 where
  pub running : round.shutdown ≡ false
  pub input : round.polled ≡ ready false true
  pub taken : round.receive ≡ received request

abbrev answered : SeccompNotif → List Effect
answered request =
    recorded (record { nr = request.nr; pid = request.pid }) ∷ replied request.id eperm ∷ []

on_receive-Ends :
    (round : Round) (receive : Received) (answer : Sent)
    → round.polled ≡ ready false true
    → round.receive ≡ receive
    → round.answer ≡ answer
    → (on_receive receive answer).1 ≡ false
    → Ends round
on_receive-Ends round receive_gone answer p r a h = ground arith
on_receive-Ends round receive_interrupted answer p r a h = ground arith
on_receive-Ends round receive_error answer p r a h = not_received p r
on_receive-Ends round (received request) sent p r a h = ground arith
on_receive-Ends round (received request) send_gone p r a h = ground arith
on_receive-Ends round (received request) send_error p r a h = not_sent request p r a

on_poll-Ends :
    (round : Round) (polled : Polled)
    → round.polled ≡ polled
    → (on_poll polled round.receive round.answer).1 ≡ false
    → Ends round
on_poll-Ends round (poll_error true) p h = ground arith
on_poll-Ends round (poll_error false) p h = poll_failed p
on_poll-Ends round timed_out p h = ground arith
on_poll-Ends round (ready true input) p h = hung_up input p
on_poll-Ends round (ready false false) p h = ground arith
on_poll-Ends round (ready false true) p h =
    on_receive-Ends round round.receive round.answer p refl refl h

-- A round behind which the loop does not go on has one of those reasons.
stops-Ends : (round : Round) → (supervise_round round).1 ≡ false → Ends round
unfolding supervise_round
stops-Ends round h = elim (Bool-cases round.shutdown) [
  | inl down ↦ shut_down down
  | inr up ↦ on_poll-Ends round round.polled refl (ground arith)
]

goes_on : (round : Round) → ¬ Ends round → (supervise_round round).1 ≡ true
goes_on round h = elim (Bool-cases (supervise_round round).1) [
  | inl on ↦ on
  | inr off ↦ absurd (h (stops-Ends round off))
]

brought :
    (request : SeccompNotif) (round : Round)
    → Brings request round
    → (supervise_round round).0 ≡ answered request
unfolding supervise_round
brought request round b = rw (b.running, b.input, b.taken)

supervise-append :
    (before after : List Round)
    → All (λ r. ¬ Ends r) before
    → supervise (before ++ after) ≡ supervise before ++ supervise after
unfolding supervise
supervise-append [] after h = refl
supervise-append (round ∷ before) after (h, hs) = ground (
  arith,
  goes_on round h,
  supervise-append before after hs,
  append_assoc (supervise_round round).0 (supervise before) (supervise after),
)

supervise-brought :
    (request : SeccompNotif) (round : Round) (after : List Round)
    → Brings request round
    → (rest : List Effect) × (supervise (round ∷ after) ≡ answered request ++ rest)
unfolding supervise
supervise-brought request round after b = elim (Bool-cases (supervise_round round).1) [
  | inl on ↦ (supervise after, ground (arith, brought request round b))
  | inr off ↦ ([], ground (arith, brought request round b, append-nil (answered request)))
]

-- In whatever rounds the thread has gone before, as long as none of them was told to shut down,
-- failed in a call for another reason than an interruption or a process that is gone, or found
-- nothing left to answer: a round that brings a notification has it recorded and then answered
-- with `EPERM` under its own id, the record with its system call and process, right behind the effects of the rounds before.
pub supervise-answers :
    (before after : List Round) (round : Round) (request : SeccompNotif)
    → All (λ r. ¬ Ends r) before
    → Brings request round
    → (rest : List Effect) × (supervise (before ++ round ∷ after)
        ≡ supervise before
          ++ recorded (record { nr = request.nr; pid = request.pid })
            ∷ replied request.id eperm
            ∷ rest)
supervise-answers before after round request h b =
    let (rest, e) = supervise-brought request round after b in
    (rest, supervise-append before (round ∷ after) h ∙ ap (λ t. supervise before ++ t) e)
