-- ===== src/Run.antt =====
-- crates/clawcrate-cli/src/run.rs: the watch over a child until it exits, with the signals that it is
-- sent. Each round of the loop is an argument: the interrupts, the clock, and what the system answers.
-- Times are whole milliseconds, where the source compares finer instants.
pub mod Monitor
pub mod Rounds
pub mod Settled
pub mod Drain
pub mod Outcome
mod Tests
use claw_crate.Base.{
  ℕ, Text, ◌+◌, ◌*◌, ◌-◌, Bool, true, false, not, ◌&&◌, ◌||◌, if◌then◌else◌, Option, none, some,
  List, [], ◌∷◌, ◌++◌, ltb, leb, ◌==◌,
}
use claw_crate.Capture.Streams.{StreamCaptureStats, CaptureSummary}

pub data Signal : Type 0 where
  sigterm sigkill : Signal

-- Whether the signal reaches a process and a group; one that is gone counts as reached.
pub record Sends : Type 0 where
  pub pid_works : Bool
  pub group_works : Bool

abbrev pub eligible_process_group_id : Option ℕ → Option ℕ
eligible_process_group_id none = none
eligible_process_group_id (some group_id) = if ltb 1 group_id then some group_id else none

abbrev pub both_results : Bool → Option Bool → Bool
both_results true none = true
both_results true (some true) = true
both_results true (some false) = false
both_results false (some true) = true
both_results false (some false) = false
both_results false none = false

abbrev pub group_result : Option ℕ → Bool → Option Bool
group_result none works = none
group_result (some group_id) works = some works

abbrev pub send_unix_signal_with_group_fallback_impl : Option ℕ → Sends → Bool
send_unix_signal_with_group_fallback_impl process_group_id sends =
    both_results sends.pid_works
      (group_result (eligible_process_group_id process_group_id) sends.group_works)

pub data RunTermination : Type 0 where
  exited interrupted timeout : RunTermination

pub record Watch : Type 0 where
  pub interrupted : Bool
  pub timed_out : Bool
  pub interrupt_sent_at : Option ℕ
  pub interrupt_forced_kill : Bool

-- The code and the signal that a process ended with.
pub record ExitStatus : Type 0 where
  pub code : Option ℕ
  pub signal : Option ℕ

-- One round: the pending interrupts; the time since the start, when the first interrupt is passed on, and
-- at the two checks; what becomes of each signal; and the wait's answer, an error, no status yet, or one.
pub record Round : Type 0 where
  pub pending_interrupts : ℕ
  pub sent_at : ℕ
  pub timeout_checked_at : ℕ
  pub grace_checked_at : ℕ
  pub first_sends : Sends
  pub repeated_sends : Sends
  pub timeout_sends : Sends
  pub grace_sends : Sends
  pub try_wait : Option (Option ExitStatus)

abbrev pub interrupt_grace_period : ℕ
interrupt_grace_period = 2000

-- The signals sent, and the watch behind them, unless one failed.
abbrev pub Watched : Type 0
Watched = List Signal × Option Watch

abbrev pub and_then : Watched → (Watch → Watched) → Watched
and_then (signals, none) next = (signals, none)
and_then (signals, some watch) next = (signals ++ (next watch).0, (next watch).1)

abbrev pub if_sent : Signal → Bool → Watch → Watched
if_sent signal true watch = (signal ∷ [], some watch)
if_sent signal false watch = (signal ∷ [], none)

-- `none` for a limit that is not set.
abbrev pub timeout_limit : ℕ → Option ℕ
timeout_limit seconds = if ltb 0 seconds then some (1000 * seconds) else none

abbrev pub reached : Option ℕ → ℕ → Bool
reached none elapsed = false
reached (some limit) elapsed = leb limit elapsed

abbrev pub grace_over : Option ℕ → ℕ → Bool
grace_over none now = false
grace_over (some interrupt_at) now = leb interrupt_grace_period (now - interrupt_at)

module _ (process_group_id : Option ℕ) (limit : Option ℕ) (round : Round) where
  abbrev pub first_interrupt : Watch → Watched
  first_interrupt watch =
      if watch.interrupted
      then ([], some watch)
      else if_sent sigterm
          (send_unix_signal_with_group_fallback_impl process_group_id round.first_sends)
          (record watch { interrupted = true; interrupt_sent_at = some round.sent_at })

  abbrev pub repeated_interrupt : Bool → Watch → Watched
  repeated_interrupt was_interrupted watch =
      if (ltb 1 round.pending_interrupts || was_interrupted)
        && (not watch.timed_out && not watch.interrupt_forced_kill)
      then if_sent sigkill
          (send_unix_signal_with_group_fallback_impl process_group_id round.repeated_sends)
          (record watch { interrupt_forced_kill = true })
      else ([], some watch)

  abbrev pub on_interrupts : Watch → Watched
  on_interrupts watch =
      if ltb 0 round.pending_interrupts
      then and_then (first_interrupt watch) (repeated_interrupt watch.interrupted)
      else ([], some watch)

  abbrev pub on_timeout : Watch → Watched
  on_timeout watch =
      if not watch.timed_out && reached limit round.timeout_checked_at
      then if_sent sigkill
          (send_unix_signal_with_group_fallback_impl process_group_id round.timeout_sends)
          (record watch { timed_out = true })
      else ([], some watch)

  abbrev pub on_grace : Watch → Watched
  on_grace watch =
      if watch.interrupted
        && (not watch.timed_out
            && (not watch.interrupt_forced_kill
                && grace_over watch.interrupt_sent_at round.grace_checked_at))
      then if_sent sigkill
          (send_unix_signal_with_group_fallback_impl process_group_id round.grace_sends)
          (record watch { interrupt_forced_kill = true })
      else ([], some watch)

  abbrev pub watch_round : Watch → Watched
  watch_round watch = and_then (on_interrupts watch) (λ w. and_then (on_timeout w) on_grace)

pub data Waited : Type 0 where
  -- Not over with the rounds given.
  running failed : Waited
  ended : ExitStatus → Watch → Waited

abbrev pub on_wait :
    Watched → Option (Option ExitStatus) → (Watch → List Signal × Waited) → List Signal × Waited
on_wait (signals, none) answer next = (signals, failed)
on_wait (signals, some watch) none next = (signals, failed)
on_wait (signals, some watch) (some (some status)) next = (signals, ended status watch)
on_wait (signals, some watch) (some none) next = (signals ++ (next watch).0, (next watch).1)

unfoldable pub wait_for_exit : Option ℕ → Option ℕ → List Round → Watch → List Signal × Waited
wait_for_exit process_group_id limit [] watch = ([], running)
wait_for_exit process_group_id limit (round ∷ rounds) watch =
    on_wait (watch_round process_group_id limit round watch) round.try_wait
      (λ w. wait_for_exit process_group_id limit rounds w)
