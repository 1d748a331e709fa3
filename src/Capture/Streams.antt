-- ===== src/Capture/Streams.antt =====
-- `capture_streams` and its two reader threads (crates/clawcrate-capture/src/lib.rs). A thread
-- alternates a read, with the grant that it takes from the shared budget under the lock, and a
-- write of what was granted; the order in which the two threads do so is a list of events.
-- Counters are `u64` and wrap as in a release build. The proofs are in the modules below.
pub mod Budget
pub mod Summary
mod Tests
use claw_crate.Base.{
  ℕ, zero, suc, ◌+◌, ◌-◌, ◌%◌, ◌^◌, ◌≤◌, ◌<◌, min, Text, Bool, true, false, ◌||◌, List, [], ◌∷◌,
  ◌++◌, length, take, ltb, ◌==◌, if◌then◌else◌,
}

abbrev pub u64_mod : ℕ
u64_mod = 2 ^ 64

pub data StreamKind : Type 0 where
  stdout stderr : StreamKind

pub record StreamCaptureStats : Type 0 where
  pub written_bytes : ℕ
  pub dropped_bytes : ℕ

unfoldable pub truncated : StreamCaptureStats → Bool
truncated s = ltb 0 s.dropped_bytes

pub record CaptureSummary : Type 0 where
  pub stdout : StreamCaptureStats
  pub stderr : StreamCaptureStats
  pub total_written_bytes : ℕ
  pub total_dropped_bytes : ℕ
  pub truncated : Bool

pub data CaptureError : Type 0 where
  stream_io : StreamKind → CaptureError
  thread_panic : CaptureError

-- Where a reader thread stands: before its next read, between the grant for a chunk and the write
-- of it, or joined with a result.
pub data Phase : Type 0 where
  reading : Phase
  writing : List ℕ → ℕ → Phase
  returned : Phase
  failed : CaptureError → Phase

pub record ReaderThread : Type 0 where
  pub kind : StreamKind
  pub phase : Phase
  pub stats : StreamCaptureStats
  -- the bytes in the log file
  pub log : List ℕ

pub record SharedBudget : Type 0 where
  pub remaining : ℕ

-- The block under the lock: how much of a chunk may be written, and what is left for both threads.
unfoldable pub take_grant : ℕ → SharedBudget → ℕ × SharedBudget
take_grant read budget =
    let allowed = min read budget.remaining in
    (allowed, record budget { remaining = budget.remaining - allowed })

-- A read of `chunk`; an empty one is the end of the stream.
unfoldable pub on_read : List ℕ → SharedBudget → ReaderThread → SharedBudget × ReaderThread
unfolding take_grant
on_read [] budget t = (budget, record t { phase = returned })
on_read (b ∷ chunk) budget t =
    let (allowed, left) = take_grant (length (b ∷ chunk)) budget in
    (left, record t { phase = writing (b ∷ chunk) allowed })

-- The two tests behind the grant.
unfoldable pub on_write : List ℕ → ℕ → ReaderThread → ReaderThread
on_write chunk write_len t =
    let read = length chunk in
    let written =
      if ltb 0 write_len
      then record t {
        log = t.log ++ take write_len chunk;
        stats = record t.stats { written_bytes = (t.stats.written_bytes + write_len) % u64_mod };
      }
      else t in
    record written {
      phase = reading;
      stats =
          if ltb write_len read
          then record written.stats {
            dropped_bytes = (t.stats.dropped_bytes + (read - write_len)) % u64_mod;
          }
          else written.stats;
    }

-- What happens to one thread next: a read returns, a write is done, or either fails.
pub data Event : Type 0 where
  read : List ℕ → Event
  write : Event
  io_error : Event

-- An event that the thread does not wait for changes nothing.
unfoldable pub thread_step :
    Phase → Event → SharedBudget → ReaderThread → SharedBudget × ReaderThread
unfolding on_read on_write
thread_step reading (read chunk) budget t = on_read chunk budget t
thread_step reading io_error budget t = (budget, record t { phase = failed (stream_io t.kind) })
thread_step (writing chunk allowed) write budget t = (budget, on_write chunk allowed t)
thread_step (writing chunk allowed) io_error budget t =
    (budget, record t { phase = failed (stream_io t.kind) })
thread_step _ _ budget t = (budget, t)

pub record Capture : Type 0 where
  pub budget : SharedBudget
  pub out : ReaderThread
  pub err : ReaderThread

unfoldable pub step : StreamKind → Event → Capture → Capture
unfolding thread_step
step stdout e s =
    let (left, t) = thread_step s.out.phase e s.budget s.out in record s { budget = left; out = t }
step stderr e s =
    let (left, t) = thread_step s.err.phase e s.budget s.err in record s { budget = left; err = t }

-- Two threads over one budget, at any interleaving.
unfoldable pub run : Capture → List (StreamKind × Event) → Capture
unfolding step
run s [] = s
run s ((k, e) ∷ events) = run (step k e s) events

abbrev pub spawned : StreamKind → ReaderThread
spawned k = record {
  kind = k;
  phase = reading;
  stats = record { written_bytes = 0; dropped_bytes = 0 };
  log = [];
}

abbrev pub start : ℕ → Capture
start max_output_bytes = record {
  budget = record { remaining = max_output_bytes };
  out = spawned stdout;
  err = spawned stderr;
}

pub data Joined (A : Type 0) : Type 0 where
  running : Joined A
  ok : A → Joined A
  error : CaptureError → Joined A

-- `join_capture_thread`; `running` is a join that still waits.
unfoldable pub join_capture_thread : ReaderThread → Joined StreamCaptureStats
join_capture_thread t = elim t.phase [
  | returned ↦ ok t.stats
  | failed e ↦ error e
  | reading ↦ running
  | writing _ _ ↦ running
]

-- The `match` on the two results and the summary, behind both joins.
unfoldable pub summarize :
    Joined StreamCaptureStats → Joined StreamCaptureStats → Joined CaptureSummary
unfolding truncated
summarize running _ = running
summarize (ok a) running = running
summarize (error e) running = running
summarize (error e) (ok b) = error e
summarize (ok a) (error e) = error e
summarize (error e) (error f) = error e
summarize (ok a) (ok b) = ok (record {
  stdout = a;
  stderr = b;
  total_written_bytes = (a.written_bytes + b.written_bytes) % u64_mod;
  total_dropped_bytes = (a.dropped_bytes + b.dropped_bytes) % u64_mod;
  truncated = truncated a || truncated b;
})

-- `capture_streams` over a schedule of the two threads.
unfoldable pub capture_streams : ℕ → List (StreamKind × Event) → Joined CaptureSummary
unfolding run join_capture_thread summarize
capture_streams max_output_bytes events =
    let s = run (start max_output_bytes) events in
    summarize (join_capture_thread s.out) (join_capture_thread s.err)
