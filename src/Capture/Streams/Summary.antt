-- ===== src/Capture/Streams/Summary.antt =====
-- What the summary of `capture_streams` says of the two streams, at any interleaving.
use claw_crate.Base.{
  ℕ, ◌+◌, ◌-◌, ◌≤◌, ◌<◌, min, ◌≡◌, refl, ap, ◌∙◌, subst, ◌⊎◌, ◌↔◌, inl, inr, true, List, [], ◌∷◌,
  ◌++◌, length, length-append, append_assoc, append-nil, arith,
}
use claw_crate.Capture.Streams.{
  u64_mod, StreamKind, stdout, stderr, StreamCaptureStats, CaptureSummary, Phase, reading, writing,
  returned, failed, ReaderThread, SharedBudget, Event, thread_step, Capture, step, run, start,
  Joined, running, ok, error, join_capture_thread, summarize, capture_streams,
}
use claw_crate.Capture.Streams.Budget.{
  Accounts, held, granted, IsFailed, chunk_of, thread_step-Settles,
}

abbrev thread : StreamKind → Capture → ReaderThread
thread stdout s = s.out
thread stderr s = s.err

abbrev chunk_for : StreamKind → StreamKind → Phase → Event → List ℕ
chunk_for stdout stdout ph e = chunk_of ph e
chunk_for stderr stderr ph e = chunk_of ph e
chunk_for _ _ ph e = []

-- All bytes that a stream's thread has read during the events.
unfoldable pub bytes_read : StreamKind → Capture → List (StreamKind × Event) → List ℕ
bytes_read k s [] = []
bytes_read k s ((j, e) ∷ events) =
    chunk_for k j (thread j s).phase e ++ bytes_read k (step j e s) events

-- The invariant of the two threads over one budget.
record IsBalanced (most : ℕ) (out_seen err_seen : List ℕ) (s : Capture) : Type 0 where
  out : Accounts out_seen s.budget.remaining s.out.log s.out.stats s.out.phase
  err : Accounts err_seen s.budget.remaining s.err.log s.err.stats s.err.phase
  within : s.budget.remaining + held s.out + held s.err ≤ most
  exact :
      (IsFailed s.out.phase ⊎ IsFailed s.err.phase)
      ⊎ (s.budget.remaining + held s.out + held s.err ≡ most)

-- A thread's accounts stand as the other thread takes from the budget.
Accounts-mono :
    (seen : List ℕ) (left left' : ℕ) (log : List ℕ) (stats : StreamCaptureStats) (ph : Phase)
    → left' ≤ left
    → Accounts seen left log stats ph
    → Accounts seen left' log stats ph
Accounts-mono seen left left' log stats (writing chunk allowed) le
      (lost, same, counted, fits, before, after) =
    (lost, same, counted, fits, ground arith, ground arith)
Accounts-mono seen left left' log stats (failed e) le h = tt
Accounts-mono seen left left' log stats reading le (lost, same, counted, h) =
    (lost, same, counted, ground arith)
Accounts-mono seen left left' log stats returned le (lost, same, counted, h) =
    (lost, same, counted, ground arith)

thread_step-IsFailed :
    (ph : Phase) (e : Event) (b : SharedBudget) (t : ReaderThread)
    → t.phase ≡ ph
    → IsFailed ph
    → IsFailed (thread_step ph e b t).1.phase
unfolding thread_step
thread_step-IsFailed reading e b t same h = absurd h
thread_step-IsFailed (writing c a) e b t same h = absurd h
thread_step-IsFailed returned e b t same h = absurd h
thread_step-IsFailed (failed f) e b t same h = rw same tt

step-IsBalanced :
    (most : ℕ) (os es : List ℕ) (k : StreamKind) (e : Event) (s : Capture)
    → IsBalanced most os es s
    → IsBalanced most
        (os ++ chunk_for stdout k (thread k s).phase e)
        (es ++ chunk_for stderr k (thread k s).phase e)
        (step k e s)
unfolding step
step-IsBalanced most os es stdout e s h =
    let (mine, le, exact, within) =
      thread_step-Settles os s.budget s.out s.out.phase e refl h.out in
    record {
      out = mine;
      err = rw append-nil (Accounts-mono es _ _ s.err.log s.err.stats s.err.phase le h.err);
      within = omega (arith, h.within);
      exact = elim exact [
        | inl f ↦ inl (inl f)
        | inr e' ↦ elim h.exact [
          | inl (inl f) ↦ inl (inl (thread_step-IsFailed s.out.phase e s.budget s.out refl f))
          | inl (inr f) ↦ inl (inr f)
          | inr e'' ↦ inr (omega arith)
        ]
      ];
    }
step-IsBalanced most os es stderr e s h =
    let (mine, le, exact, within) =
      thread_step-Settles es s.budget s.err s.err.phase e refl h.err in
    record {
      out = rw append-nil (Accounts-mono os _ _ s.out.log s.out.stats s.out.phase le h.out);
      err = mine;
      within = omega (arith, h.within);
      exact = elim exact [
        | inl f ↦ inl (inr f)
        | inr e' ↦ elim h.exact [
          | inl (inl f) ↦ inl (inl f)
          | inl (inr f) ↦ inl (inr (thread_step-IsFailed s.err.phase e s.budget s.err refl f))
          | inr e'' ↦ inr (omega arith)
        ]
      ];
    }

run-IsBalanced :
    (most : ℕ) (os es : List ℕ) (s : Capture) (events : List (StreamKind × Event))
    → IsBalanced most os es s
    → IsBalanced most
        (os ++ bytes_read stdout s events)
        (es ++ bytes_read stderr s events)
        (run s events)
unfolding run bytes_read
run-IsBalanced most os es s [] h = rw append-nil (rw append-nil h)
run-IsBalanced most os es s ((k, e) ∷ events) h = rw (← append_assoc os _ _) (
    rw (← append_assoc es _ _)
      (run-IsBalanced most _ _ (step k e s) events (step-IsBalanced most os es k e s h)))

start-IsBalanced : (most : ℕ) → IsBalanced most [] [] (start most)
start-IsBalanced most = record {
  out = ([], refl, (refl, refl), inl refl);
  err = ([], refl, (refl, refl), inl refl);
  within = omega arith;
  exact = inr (omega arith);
}

balanced :
    (most : ℕ) (events : List (StreamKind × Event))
    → IsBalanced most
        (bytes_read stdout (start most) events)
        (bytes_read stderr (start most) events)
        (run (start most) events)
balanced most events = run-IsBalanced most [] [] (start most) events (start-IsBalanced most)

-- At every moment of every interleaving, failed reads and writes included, the two log files
-- together hold at most `max_output_bytes` bytes.
pub logs_within_budget :
    (most : ℕ) (events : List (StreamKind × Event))
    → length (run (start most) events).out.log + length (run (start most) events).err.log ≤ most
logs_within_budget most events = omega (arith, (balanced most events).within)

join-returned :
    (t : ReaderThread) (a : StreamCaptureStats)
    → join_capture_thread t ≡ ok a
    → (t.phase ≡ returned) × (t.stats ≡ a)
unfolding join_capture_thread
join-returned t a h = ground arith

summarize-ok :
    (a b : Joined StreamCaptureStats) (c : CaptureSummary)
    → summarize a b ≡ ok c
    → (x : StreamCaptureStats) × (y : StreamCaptureStats) × (a ≡ ok x) × (b ≡ ok y)
unfolding summarize
summarize-ok (ok x) (ok y) c h = (x, y, refl, refl)
summarize-ok running b c h = ground arith
summarize-ok (ok x) running c h = ground arith
summarize-ok (ok x) (error e) c h = ground arith
summarize-ok (error e) running c h = ground arith
summarize-ok (error e) (ok y) c h = ground arith
summarize-ok (error e) (error f) c h = ground arith

-- What the summary promises about the bytes that the two streams have delivered.
pub record Reports (most : ℕ) (out err : List ℕ) (c : CaptureSummary) : Type 0 where
  pub stdout_all : c.stdout.written_bytes + c.stdout.dropped_bytes ≡ length out
  pub stderr_all : c.stderr.written_bytes + c.stderr.dropped_bytes ≡ length err
  pub written : c.total_written_bytes ≡ min most (length out + length err)
  pub dropped : c.total_dropped_bytes ≡ (length out + length err) - most
  pub cut : (c.truncated ≡ true) ↔ (most < length out + length err)

-- The two accounts at the join, as numbers.
record IsJoined (most out err : ℕ) (x y : StreamCaptureStats) : Type 0 where
  left : ℕ
  sum : left + x.written_bytes + y.written_bytes ≡ most
  out_all : x.written_bytes + x.dropped_bytes ≡ out
  err_all : y.written_bytes + y.dropped_bytes ≡ err
  out_cut : (x.dropped_bytes ≡ 0) ⊎ (left ≡ 0)
  err_cut : (y.dropped_bytes ≡ 0) ⊎ (left ≡ 0)

ok-injective : {a b : CaptureSummary} → ok a ≡ ok b → a ≡ b
ok-injective e = cc

summarize-Reports :
    (most : ℕ) (out err : List ℕ) (x y : StreamCaptureStats) (c : CaptureSummary)
    → most < u64_mod
    → length out + length err < u64_mod
    → IsJoined most (length out) (length err) x y
    → summarize (ok x) (ok y) ≡ ok c
    → Reports most out err c
unfolding summarize
summarize-Reports most out err x y c small fits j h =
    let same = ok-injective h in
    subst (Reports most out err) same (record {
      stdout_all = j.out_all;
      stderr_all = j.err_all;
      written = omega (arith, j.sum, j.out_all, j.err_all, j.out_cut, j.err_cut);
      dropped = omega (arith, j.sum, j.out_all, j.err_all, j.out_cut, j.err_cut);
      cut = ground (arith, j.sum, j.out_all, j.err_all, j.out_cut, j.err_cut);
    })

joined :
    (most : ℕ) (out err : List ℕ) (s : Capture)
    → length out + length err < u64_mod
    → IsBalanced most out err s
    → s.out.phase ≡ returned
    → s.err.phase ≡ returned
    → IsJoined most (length out) (length err) s.out.stats s.err.stats
joined most out err s fits h eo ee =
    let (lost, same, counted, cut) =
      subst (Accounts out s.budget.remaining s.out.log s.out.stats) eo h.out in
    let (lost', same', counted', cut') =
      subst (Accounts err s.budget.remaining s.err.log s.err.stats) ee h.err in
    let all_out : length out ≡ length s.out.log + length lost =
      ap length same ∙ length-append s.out.log lost in
    let all_err : length err ≡ length s.err.log + length lost' =
      ap length same' ∙ length-append s.err.log lost' in
    record {
      left = s.budget.remaining;
      sum = elim h.exact [
        | inl (inl f) ↦ absurd (subst IsFailed eo f)
        | inl (inr f) ↦ absurd (subst IsFailed ee f)
        | inr e ↦ omega (arith, ap granted eo, ap granted ee)
      ];
      out_all = omega arith;
      err_all = omega arith;
      out_cut = omega arith;
      err_cut = omega arith;
    }

-- When both reader threads have ended and `capture_streams` returns a summary, whatever the
-- interleaving of the two threads was, and with the budget and the number of bytes read below
-- 2^64: each stream's written and dropped bytes add up to what was read of it; in total as many
-- bytes are written as were read, up to the budget, and the rest is dropped; and the summary says
-- truncated exactly when more was read than the budget.
pub capture_streams-Reports :
    (most : ℕ) (events : List (StreamKind × Event)) (c : CaptureSummary)
    → most < u64_mod
    → length (bytes_read stdout (start most) events)
        + length (bytes_read stderr (start most) events)
      < u64_mod
    → capture_streams most events ≡ ok c
    → Reports most (bytes_read stdout (start most) events) (bytes_read stderr (start most) events) c
unfolding capture_streams
capture_streams-Reports most events c small fits h =
    let s = run (start most) events in
    let (x, y, ex, ey) = summarize-ok (join_capture_thread s.out) (join_capture_thread s.err) c h in
    let (px, sx) = join-returned s.out x ex in
    let (py, sy) = join-returned s.err y ey in
    summarize-Reports most _ _ x y c small fits
      (rw sx at (rw sy at (joined most _ _ s fits (balanced most events) px py)))
      (rw ex at (rw ey at h))
