-- ===== src/Capture/Streams/Tests.antt =====
-- Runs of the two reader threads, and the theorems at such runs.
use claw_crate.Base.{◌+◌, ◌≤◌, ◌≡◌, refl, true, List, [], ◌∷◌, length, arith}
use claw_crate.Capture.Streams.{
  StreamKind, stdout, stderr, CaptureSummary, Event, read, write, io_error, start, run, ok, error,
  stream_io, capture_streams,
}
use claw_crate.Capture.Streams.Summary.{
  bytes_read, Reports, capture_streams-Reports, logs_within_budget,
}

-- The budget of 6 bytes is shared: the second reader finds two of its four bytes granted.
abbrev shared : List (StreamKind × Event)
shared =
    (stdout, read (65 ∷ 65 ∷ 65 ∷ 65 ∷ []))
    ∷ (stderr, read (66 ∷ 66 ∷ 66 ∷ 66 ∷ []))
    ∷ (stderr, write)
    ∷ (stdout, write)
    ∷ (stdout, read [])
    ∷ (stderr, read [])
    ∷ []

abbrev cut_short : CaptureSummary
cut_short = record {
  stdout = record { written_bytes = 4; dropped_bytes = 0 };
  stderr = record { written_bytes = 2; dropped_bytes = 2 };
  total_written_bytes = 6;
  total_dropped_bytes = 2;
  truncated = true;
}

shared_run : capture_streams 6 shared ≡ ok cut_short
unfolding capture_streams
shared_run = refl

failed_run :
    capture_streams 6 ((stdout, io_error) ∷ (stderr, read []) ∷ []) ≡ error (stream_io stdout)
unfolding capture_streams
failed_run = refl

capture_streams-Reports_example :
    Reports 6 (bytes_read stdout (start 6) shared) (bytes_read stderr (start 6) shared) cut_short
unfolding bytes_read run
capture_streams-Reports_example =
    capture_streams-Reports 6 shared cut_short (omega arith) (omega arith) shared_run

logs_within_budget_example :
    length (run (start 6) shared).out.log + length (run (start 6) shared).err.log ≤ 6
logs_within_budget_example = logs_within_budget 6 shared
