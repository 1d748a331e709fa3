-- ===== src/Run/Tests.antt =====
-- Runs of the watch over a child, and the theorems at such runs.
use claw_crate.Base.{
  ◌≡◌, refl, ℕ, zero, suc, ◌*◌, true, false, Option, none, some, List, [], ◌∷◌, arith,
}
use claw_crate.Capture.Streams.{CaptureSummary}
use claw_crate.Run.{
  sigterm, sigkill, Sends, ExitStatus, Round, wait_for_exit, interrupted, timeout, timeout_limit,
}
use claw_crate.Run.Monitor.{
  Received, captured, nothing, drain_capture, monitored, run_monitored_child_with_signal_poller,
  execution_status, timeout_status,
}
use claw_crate.Run.Drain.{IsPaced, is_over, drain_capture-ends}
use claw_crate.Run.Outcome.{Outcome, run_monitored_child-Outcome}

abbrev reached_it : Sends
reached_it = record { pid_works = true; group_works = true }

abbrev round_at : ℕ → ℕ → Option (Option ExitStatus) → Round
round_at pending now answer = record {
  pending_interrupts = pending;
  sent_at = now;
  timeout_checked_at = now;
  grace_checked_at = now;
  first_sends = reached_it;
  repeated_sends = reached_it;
  timeout_sends = reached_it;
  grace_sends = reached_it;
  try_wait = answer;
}

abbrev done : ExitStatus
done = record { code = some 0; signal = none }

abbrev summary : CaptureSummary
summary = record {
  stdout = record { written_bytes = 3; dropped_bytes = 0 };
  stderr = record { written_bytes = 0; dropped_bytes = 0 };
  total_written_bytes = 3;
  total_dropped_bytes = 0;
  truncated = false;
}

-- One interrupt, the grace period, and the end.
abbrev graceful : List Round
graceful =
    round_at 0 25 (some none)
    ∷ round_at 1 50 (some none)
    ∷ round_at 0 2050 (some none)
    ∷ round_at 0 2075 (some (some done))
    ∷ []

watched :
    run_monitored_child_with_signal_poller
      (some 77)
      10
      graceful
      (nothing 300 300 reached_it ∷ captured summary ∷ [])
    ≡ (sigterm ∷ sigkill ∷ sigkill ∷ [], monitored done summary interrupted)
unfolding run_monitored_child_with_signal_poller wait_for_exit drain_capture
watched = refl

-- A child that ends by itself in the round at the limit is reported as timed out.
late :
    run_monitored_child_with_signal_poller none 1
      (round_at 0 1000 (some (some done)) ∷ [])
      (captured summary ∷ [])
    ≡ (sigkill ∷ [], monitored done summary timeout)
unfolding run_monitored_child_with_signal_poller wait_for_exit drain_capture
late = refl

reported : execution_status done timeout ≡ timeout_status
reported = refl

run_monitored_child-Outcome_example :
    Outcome (some 77) (timeout_limit 10) graceful (sigterm ∷ sigkill ∷ sigkill ∷ []) interrupted
run_monitored_child-Outcome_example =
    run_monitored_child-Outcome (some 77) 10 graceful
      (nothing 300 300 reached_it ∷ captured summary ∷ []) (sigterm ∷ sigkill ∷ sigkill ∷ []) done
      summary interrupted watched

-- A thread that sends nothing.
abbrev silent : ℕ → ℕ → List Received
silent zero n = []
silent (suc k) n = nothing (25 * suc n) (25 * suc n) reached_it ∷ silent k (suc n)

silent-IsPaced : (k n : ℕ) → IsPaced n (silent k n)
unfolding IsPaced
silent-IsPaced zero n = tt
silent-IsPaced (suc k) n = (omega arith, silent-IsPaced k (suc n))

drain_capture-ends_example : is_over (drain_capture none (silent 80 0) false).1 ≡ true
drain_capture-ends_example =
    drain_capture-ends none (silent 80 0) (silent-IsPaced 80 0) (omega arith)
