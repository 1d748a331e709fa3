-- ===== src/Run/Outcome.antt =====
-- What a watched child is reported as, and what it has been sent.
use claw_crate.Base.{
  ◌≡◌, refl, sym, ◌∙◌, subst, ℕ, ◌+◌, Bool, true, false, not, ◌&&◌, ◌||◌, Option, List, ◌++◌, ltb,
  arith,
}
use claw_crate.Capture.Streams.{CaptureSummary}
use claw_crate.Run.{
  Signal, RunTermination, exited, interrupted, timeout, Watch, ExitStatus, Round, Waited, running,
  failed, ended, wait_for_exit, timeout_limit,
}
use claw_crate.Run.Monitor.{
  Received, Drained, draining, drain_failed, drained, drain_capture, termination_of, monitored,
  with_capture, then_drain, unwatched, run_monitored_child_with_signal_poller,
}
use claw_crate.Run.Rounds.{has_kill, terms, terms-append, has_kill-append, one_if}
use claw_crate.Run.Settled.{overdue_in, interrupts_in, settles}
use claw_crate.Run.Drain.{drain_capture-terms}

-- The limit comes before the interrupts.
abbrev pub verdict : Bool → Bool → RunTermination
verdict true asked = timeout
verdict false true = interrupted
verdict false false = exited

verdict_of :
    (watch : Watch) (late asked : Bool)
    → watch.timed_out ≡ late
    → watch.interrupted ≡ asked
    → termination_of watch ≡ verdict late asked
verdict_of watch true asked t i = ground arith
verdict_of watch false true t i = ground arith
verdict_of watch false false t i = ground arith

called_for :
    (in_watch in_drain late : Bool) (interrupts : ℕ)
    → ((late || (ltb 0 interrupts && ltb 1 (0 + interrupts)) ≡ true) → in_watch ≡ true)
    → (in_watch || in_drain) || not (late || ltb 1 interrupts) ≡ true
called_for true in_drain late interrupts h = refl
called_for false in_drain late interrupts h = ground (arith)

module _ (group : Option ℕ) (limit : Option ℕ) (rounds : List Round) where
  abbrev asked : Bool
  asked = ltb 0 (interrupts_in rounds)

  abbrev late : Bool
  late = overdue_in limit rounds

  abbrev pub Outcome : List Signal → RunTermination → Type 0
  Outcome signals termination =
      (termination ≡ verdict late asked)
      × (terms signals ≡ one_if asked)
      × (has_kill signals || not (late || ltb 1 (interrupts_in rounds)) ≡ true)

  outcome_of :
      (watch : Watch) (s t signals : List Signal) (status st : ExitStatus)
      (summary sum : CaptureSummary) (termination : RunTermination)
      → wait_for_exit group limit rounds unwatched ≡ (s, ended status watch)
      → terms t ≡ 0
      → with_capture status watch s (t, drained summary) ≡ (signals, monitored st sum termination)
      → Outcome signals termination
  outcome_of watch s t signals status st summary sum termination w z e =
      let (a1, a2, a3, a4, a5) = settles group limit rounds unwatched watch s status w in
      let same : s ++ t ≡ signals = ground arith in
      let end : termination_of watch ≡ termination = ground arith in
      (
        sym end ∙ verdict_of watch late asked a1 a2,
        ground (arith, terms-append s t, a3, z, same),
        subst (λ x. has_kill x || not (late || ltb 1 (interrupts_in rounds)) ≡ true) same
            (rw (has_kill-append s t) (
              called_for (has_kill s) (has_kill t) late (interrupts_in rounds)
                (λ c. a4 refl refl c))),
      )

  drained_outcome :
      (watch : Watch) (s signals : List Signal) (status st : ExitStatus) (sum : CaptureSummary)
      (termination : RunTermination) (next : List Signal × Drained)
      → wait_for_exit group limit rounds unwatched ≡ (s, ended status watch)
      → terms next.0 ≡ 0
      → with_capture status watch s next ≡ (signals, monitored st sum termination)
      → Outcome signals termination
  drained_outcome watch s signals status st sum termination (t, draining) w z e = ground arith
  drained_outcome watch s signals status st sum termination (t, drain_failed) w z e = ground arith
  drained_outcome watch s signals status st sum termination (t, drained summary) w z e =
      outcome_of watch s t signals status st summary sum termination w z e

  waited_outcome :
      (signals : List Signal) (st : ExitStatus) (sum : CaptureSummary)
      (termination : RunTermination) (now : List Signal × Waited) (next : List Signal × Drained)
      → wait_for_exit group limit rounds unwatched ≡ now
      → terms next.0 ≡ 0
      → then_drain now next ≡ (signals, monitored st sum termination)
      → Outcome signals termination
  waited_outcome signals st sum termination (s, running) next w z e = ground arith
  waited_outcome signals st sum termination (s, failed) next w z e = ground arith
  waited_outcome signals st sum termination (s, ended status watch) next w z e =
      drained_outcome watch s signals status st sum termination next w z e

-- When a child has been watched to its end, whatever became of each signal on the way and whatever
-- the clock said: the run is reported as timed out exactly if the limit was reached at the check of
-- a round, the one that found the child's end included, and otherwise as interrupted exactly if an
-- interrupt was pending at one; SIGTERM was sent once if any interrupt was, and never otherwise; and
-- SIGKILL was sent if the limit was reached or a second interrupt came.
pub run_monitored_child-Outcome :
    (group : Option ℕ) (timeout_seconds : ℕ) (rounds : List Round) (received : List Received)
    (signals : List Signal) (status : ExitStatus) (summary : CaptureSummary)
    (termination : RunTermination)
    → run_monitored_child_with_signal_poller group timeout_seconds rounds received
      ≡ (signals, monitored status summary termination)
    → Outcome group (timeout_limit timeout_seconds) rounds signals termination
unfolding run_monitored_child_with_signal_poller
run_monitored_child-Outcome group timeout_seconds rounds received signals status summary termination
      e =
    waited_outcome group (timeout_limit timeout_seconds) rounds signals status summary termination
      (wait_for_exit group (timeout_limit timeout_seconds) rounds unwatched)
      (drain_capture group received false) refl (drain_capture-terms group received false) e
