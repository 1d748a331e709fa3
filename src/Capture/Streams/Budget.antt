-- ===== src/Capture/Streams/Budget.antt =====
-- What one reader thread owes to the budget, step by step.
use claw_crate.Base.{
  ℕ, zero, suc, ◌+◌, ◌-◌, ◌%◌, ◌≤◌, ◌≡◌, refl, sym, ap, ◌∙◌, subst, ◌⊎◌, inl, inr, List, [], ◌∷◌,
  ◌++◌, length, length-append, take, drop, take-append-drop, length-take, length-drop, append_assoc,
  append-nil, arith, ltb, Bool-cases,
}
use claw_crate.Capture.Streams.{
  u64_mod, StreamCaptureStats, Phase, reading, writing, returned, failed, ReaderThread,
  SharedBudget, on_read, on_write, Event, read, write, io_error, thread_step, stream_io,
}

-- Both counters, modulo `u64`.
abbrev pub Counted : List ℕ → List ℕ → StreamCaptureStats → Type 0
Counted log lost stats =
    (stats.written_bytes ≡ length log % u64_mod) × (stats.dropped_bytes ≡ length lost % u64_mod)

-- The bytes read are the log, then the lost ones, then the chunk that is being written. A byte is
-- lost only once the budget is used up.
abbrev pub Accounts : List ℕ → ℕ → List ℕ → StreamCaptureStats → Phase → Type 0
Accounts seen left log stats (writing chunk allowed) =
    (lost : List ℕ) × (seen ≡ log ++ (lost ++ chunk))
    × Counted log lost stats
    × (allowed ≤ length chunk)
    × ((length lost ≡ 0) ⊎ ((left ≡ 0) × (allowed ≡ 0)))
    × ((allowed ≡ length chunk) ⊎ (left ≡ 0))
Accounts seen left log stats (failed e) = Unit
Accounts seen left log stats reading =
    (lost : List ℕ) × (seen ≡ log ++ lost)
    × Counted log lost stats
    × ((length lost ≡ 0) ⊎ (left ≡ 0))
Accounts seen left log stats returned =
    (lost : List ℕ) × (seen ≡ log ++ lost)
    × Counted log lost stats
    × ((length lost ≡ 0) ⊎ (left ≡ 0))

-- What a thread holds of the budget: the log and an open grant.
abbrev pub granted : Phase → ℕ
granted (writing chunk allowed) = allowed
granted _ = 0

abbrev pub held : ReaderThread → ℕ
held t = length t.log + granted t.phase

abbrev pub IsFailed : Phase → Type 0
IsFailed (failed e) = Unit
IsFailed _ = ⊥

-- The bytes that an event hands to a thread.
abbrev pub chunk_of : Phase → Event → List ℕ
chunk_of reading (read chunk) = chunk
chunk_of _ _ = []

abbrev pub Settles :
    List ℕ → Phase → Event → SharedBudget → ReaderThread → SharedBudget → ReaderThread → Type 0
Settles seen ph e b t b' t' =
    Accounts (seen ++ chunk_of ph e) b'.remaining t'.log t'.stats t'.phase
    × (b'.remaining ≤ b.remaining)
    × (IsFailed t'.phase ⊎ (b'.remaining + held t' ≡ b.remaining + (length t.log + granted ph)))
    × (b'.remaining + held t' ≤ b.remaining + (length t.log + granted ph))

-- A chunk is split by its grant, where nothing was lost before it or nothing is granted.
split_chunk :
    (allowed : ℕ) (log lost chunk : List ℕ)
    → (length lost ≡ 0) ⊎ (allowed ≡ 0)
    → log ++ (lost ++ chunk) ≡ (log ++ take allowed chunk) ++ (lost ++ drop allowed chunk)
split_chunk allowed log [] chunk h =
    ap (λ c. log ++ c) (sym (take-append-drop allowed chunk)) ∙ sym (append_assoc log _ _)
split_chunk zero log (x ∷ lost) chunk h = rw append-nil
split_chunk (suc a) log (x ∷ lost) chunk h = absurd (omega arith)

module _ (chunk : List ℕ) (allowed : ℕ) (t : ReaderThread) where
  on_write-log : (on_write chunk allowed t).log ≡ t.log ++ take allowed chunk
  unfolding on_write
  on_write-log = elim (Bool-cases (ltb 0 allowed)) [
    | inl some_bytes ↦ rw some_bytes
    | inr no_bytes ↦ let e : allowed ≡ 0 = ground arith in rw (e) (sym (append-nil t.log))
  ]

  on_write-phase : (on_write chunk allowed t).phase ≡ reading
  unfolding on_write
  on_write-phase = refl

  on_write-written :
      (n : ℕ)
      → t.stats.written_bytes ≡ n % u64_mod
      → (on_write chunk allowed t).stats.written_bytes ≡ (n + allowed) % u64_mod
  unfolding on_write
  on_write-written n h = ground arith

  on_write-dropped :
      (n : ℕ)
      → allowed ≤ length chunk
      → t.stats.dropped_bytes ≡ n % u64_mod
      → (on_write chunk allowed t).stats.dropped_bytes ≡ (n + (length chunk - allowed)) % u64_mod
  unfolding on_write
  on_write-dropped n le h = ground arith

module _ (seen : List ℕ) (b : SharedBudget) (t : ReaderThread) where
  unchanged :
      (ph : Phase)
      → t.phase ≡ ph
      → Accounts seen b.remaining t.log t.stats ph
      → Accounts (seen ++ []) b.remaining t.log t.stats t.phase
  unchanged ph e h = rw append-nil (subst (Accounts seen b.remaining t.log t.stats) (sym e) h)

  on_read-Settles :
      (chunk : List ℕ)
      → Accounts seen b.remaining t.log t.stats reading
      → Settles seen reading (read chunk) b t (on_read chunk b t).0 (on_read chunk b t).1
  unfolding on_read
  on_read-Settles [] (lost, same, counted, none_left) =
      ((lost, rw append-nil same, counted, none_left), omega arith, inr (omega arith), omega arith)
  on_read-Settles (x ∷ chunk) (lost, same, counted, none_left) = (
    (
      lost,
      rw same (append_assoc t.log lost (x ∷ chunk)),
      counted,
      omega arith,
      ground arith,
      ground arith,
    ),
    omega arith,
    inr (omega arith),
    omega arith,
  )

  on_write-Settles :
      (chunk : List ℕ) (allowed : ℕ)
      → Accounts seen b.remaining t.log t.stats (writing chunk allowed)
      → Settles seen (writing chunk allowed) write b t b (on_write chunk allowed t)
  unfolding on_write
  on_write-Settles chunk allowed (lost, same, counted, fits, before, after) =
      let seen_next : seen ++ [] ≡ (on_write chunk allowed t).log ++ (lost ++ drop allowed chunk) =
        append-nil seen
        ∙ same
        ∙ split_chunk allowed t.log lost chunk (ground arith)
        ∙ ap (λ l. l ++ (lost ++ drop allowed chunk)) (sym (on_write-log chunk allowed t)) in
      let log_next : length (on_write chunk allowed t).log ≡ length t.log + allowed =
        ap length (on_write-log chunk allowed t)
        ∙ length-append t.log _
        ∙ omega (arith, length-take allowed chunk) in
      let lost_next : length (lost ++ drop allowed chunk) ≡ length lost + (length chunk - allowed) =
        omega (arith, length-append lost (drop allowed chunk), length-drop allowed chunk) in
      (
        (
          lost ++ drop allowed chunk,
          seen_next,
          (
            rw log_next (on_write-written chunk allowed t (length t.log) counted.0),
            rw lost_next (on_write-dropped chunk allowed t (length lost) fits counted.1),
          ),
          omega arith,
        ),
        omega arith,
        inr (omega arith),
        omega arith,
      )

  fail-Settles :
      (ph : Phase) (e : Event)
      → t.phase ≡ ph
      → Settles seen ph e b t b (record t { phase = failed (stream_io t.kind) })
  fail-Settles ph e same = (tt, omega arith, inl tt, omega arith)

  idle-Settles :
      (ph : Phase) (e : Event)
      → chunk_of ph e ≡ []
      → t.phase ≡ ph
      → Accounts seen b.remaining t.log t.stats ph
      → Settles seen ph e b t b t
  idle-Settles ph e nothing same h = (
    rw nothing (unchanged ph same h),
    omega arith,
    inr (ap (λ p. b.remaining + (length t.log + granted p)) same),
    omega (arith, ap granted same),
  )

  -- Every event keeps the accounts of its thread and what the two hold of the budget.
  pub thread_step-Settles :
      (ph : Phase) (e : Event)
      → t.phase ≡ ph
      → Accounts seen b.remaining t.log t.stats ph
      → Settles seen ph e b t (thread_step ph e b t).0 (thread_step ph e b t).1
  unfolding thread_step
  thread_step-Settles reading (read chunk) same h = on_read-Settles chunk h
  thread_step-Settles reading io_error same h = fail-Settles reading io_error same
  thread_step-Settles reading write same h = idle-Settles reading write refl same h
  thread_step-Settles (writing chunk allowed) write same h = on_write-Settles chunk allowed h
  thread_step-Settles (writing chunk allowed) io_error same h =
      fail-Settles (writing chunk allowed) io_error same
  thread_step-Settles (writing chunk allowed) (read more) same h =
      idle-Settles (writing chunk allowed) (read more) refl same h
  thread_step-Settles returned e same h = idle-Settles returned e refl same h
  thread_step-Settles (failed f) e same h = idle-Settles (failed f) e refl same h
