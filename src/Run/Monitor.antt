-- ===== src/Run/Monitor.antt =====
-- crates/clawcrate-cli/src/run.rs: the wait for the captured output of a child that has exited, the whole
-- watch over it, and the status of the run. What the capturing thread sends is an argument.
use claw_crate.Base.{
  ℕ, Text, Bool, true, false, if◌then◌else◌, Option, none, some, List, [], ◌∷◌, ◌++◌, leb, ◌==◌,
}
use claw_crate.Capture.Streams.{CaptureSummary}
use claw_crate.Run.{
  Signal, sigkill, Sends, send_unix_signal_with_group_fallback_impl, RunTermination, exited,
  interrupted, timeout, Watch, ExitStatus, Round, timeout_limit, Waited, running, failed, ended,
  wait_for_exit,
}

-- What the capturing thread sends, or that it sends nothing in time: the time since the wait started, at
-- the check of the grace period and of the longest wait, and what becomes of the signal.
pub data Received : Type 0 where
  captured : CaptureSummary → Received
  capture_failed disconnected : Received
  nothing : ℕ → ℕ → Sends → Received

pub data Drained : Type 0 where
  draining drain_failed : Drained
  drained : CaptureSummary → Drained

abbrev pub capture_drain_grace_period : ℕ
capture_drain_grace_period = 250

abbrev pub capture_drain_max_wait : ℕ
capture_drain_max_wait = 2000

abbrev pub past_max_wait : ℕ → List Signal → List Signal × Drained → List Signal × Drained
past_max_wait elapsed signals next =
    if leb capture_drain_max_wait elapsed
    then (signals, drain_failed)
    else (signals ++ next.0, next.1)

-- For what is tried next with the signal sent, and with it sent before or not yet.
abbrev pub on_nothing :
    Bool → Bool → Bool → ℕ → (Bool → List Signal × Drained) → List Signal × Drained
on_nothing false true true elapsed next = past_max_wait elapsed (sigkill ∷ []) (next true)
on_nothing false true false elapsed next = (sigkill ∷ [], drain_failed)
on_nothing false false works elapsed next = past_max_wait elapsed [] (next false)
on_nothing true due works elapsed next = past_max_wait elapsed [] (next true)

unfoldable pub drain_capture : Option ℕ → List Received → Bool → List Signal × Drained
drain_capture process_group_id [] force_kill_sent = ([], draining)
drain_capture process_group_id (captured summary ∷ rest) force_kill_sent = ([], drained summary)
drain_capture process_group_id (capture_failed ∷ rest) force_kill_sent = ([], drain_failed)
drain_capture process_group_id (disconnected ∷ rest) force_kill_sent = ([], drain_failed)
drain_capture process_group_id (nothing at_grace at_max sends ∷ rest) force_kill_sent =
    on_nothing force_kill_sent (leb capture_drain_grace_period at_grace)
      (send_unix_signal_with_group_fallback_impl process_group_id sends) at_max
      (λ sent. drain_capture process_group_id rest sent)

abbrev pub termination_of : Watch → RunTermination
termination_of watch =
    if watch.timed_out then timeout else if watch.interrupted then interrupted else exited

pub data Monitored : Type 0 where
  waiting monitor_failed : Monitored
  monitored : ExitStatus → CaptureSummary → RunTermination → Monitored

abbrev pub with_capture :
    ExitStatus → Watch → List Signal → List Signal × Drained → List Signal × Monitored
with_capture status watch signals (more, draining) = (signals ++ more, waiting)
with_capture status watch signals (more, drain_failed) = (signals ++ more, monitor_failed)
with_capture status watch signals (more, drained summary) =
    (signals ++ more, monitored status summary (termination_of watch))

abbrev pub then_drain : List Signal × Waited → List Signal × Drained → List Signal × Monitored
then_drain (signals, running) next = (signals, waiting)
then_drain (signals, failed) next = (signals, monitor_failed)
then_drain (signals, ended status watch) next = with_capture status watch signals next

abbrev pub unwatched : Watch
unwatched = record {
  interrupted = false;
  timed_out = false;
  interrupt_sent_at = none;
  interrupt_forced_kill = false;
}

unfoldable pub run_monitored_child_with_signal_poller :
    Option ℕ → ℕ → List Round → List Received → List Signal × Monitored
unfolding wait_for_exit drain_capture
run_monitored_child_with_signal_poller process_group_id timeout_seconds rounds received =
    then_drain (wait_for_exit process_group_id (timeout_limit timeout_seconds) rounds unwatched)
      (drain_capture process_group_id received false)

pub data Status : Type 0 where
  success failed_status timeout_status killed : Status
  sandbox_error : Text → Status

abbrev pub terminated_by_signal : Option ℕ → Bool
terminated_by_signal none = false
terminated_by_signal (some number) = true

abbrev pub exit_success : Option ℕ → Bool
exit_success none = false
exit_success (some code) = code == 0

abbrev pub execution_status_from_exit_status : ExitStatus → Status
execution_status_from_exit_status status =
    if exit_success status.code
    then success
    else if terminated_by_signal status.signal
    then killed
    else failed_status

abbrev pub execution_status : ExitStatus → RunTermination → Status
execution_status status timeout = timeout_status
execution_status status interrupted = killed
execution_status status exited = execution_status_from_exit_status status
