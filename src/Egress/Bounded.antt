-- ===== src/Egress/Bounded.antt =====
-- The bounds on the record of denials and on the handlers.
use claw_crate.Base.{
  ℕ, zero, suc, ◌+◌, ◌-◌, ◌≤◌, ◌<◌, ◌≡◌, refl, ap, ap₂, ◌∙◌, some, List, [], ◌∷◌, ◌++◌, length,
  length-append, take, append_assoc, append-nil, min, arith,
}
use claw_crate.Egress.Denials.{
  EgressDenial, DenialBuffer, max_recorded_denials, usize_max, record_denial, drain,
  try_acquire_handler_slot, release_handler_slot,
}

-- The handlers record one denial after the other.
abbrev pub record_all : List EgressDenial → DenialBuffer → DenialBuffer
record_all [] buffer = buffer
record_all (d ∷ ds) buffer = record_all ds (record_denial d buffer)

abbrev IsFilled : ℕ → List EgressDenial → DenialBuffer → DenialBuffer → Type 0
IsFilled room ds before after =
    (after.denials ≡ before.denials ++ take room ds)
    × (after.dropped ≡ min (before.dropped + (length ds - room)) usize_max)

record_denial-full :
    (d : EgressDenial) (buffer : DenialBuffer)
    → length buffer.denials ≡ max_recorded_denials
    → record_denial d buffer ≡ record buffer { dropped = min (buffer.dropped + 1) usize_max }
unfolding record_denial
record_denial-full d buffer h = ground arith

record_denial-room :
    (d : EgressDenial) (buffer : DenialBuffer)
    → length buffer.denials < max_recorded_denials
    → record_denial d buffer ≡ record buffer { denials = buffer.denials ++ d ∷ [] }
unfolding record_denial
record_denial-room d buffer h = ground arith

record_all-IsFilled :
    (room : ℕ) (ds : List EgressDenial) (buffer : DenialBuffer)
    → length buffer.denials + room ≡ max_recorded_denials
    → buffer.dropped ≤ usize_max
    → IsFilled room ds buffer (record_all ds buffer)
record_all-IsFilled zero [] buffer h b = (rw append-nil, omega arith)
record_all-IsFilled (suc room) [] buffer h b = (rw append-nil, omega arith)
record_all-IsFilled zero (d ∷ ds) buffer h b =
    rw (record_denial-full d buffer (omega arith), record_all)
      (let (x, y) =
          record_all-IsFilled zero ds
            (record buffer { dropped = min (buffer.dropped + 1) usize_max }) h (omega arith) in
        (x, omega arith))
record_all-IsFilled (suc room) (d ∷ ds) buffer h b =
    rw (record_denial-room d buffer (omega arith), record_all)
      (let (x, y) =
          record_all-IsFilled room ds (record buffer { denials = buffer.denials ++ d ∷ [] })
            (omega (arith, length-append buffer.denials (d ∷ []))) b in
        (x ∙ append_assoc buffer.denials (d ∷ []) (take room ds), omega arith))

-- From a drained record on, whatever denials the handlers record: draining returns the first 256
-- of them in order and the number of the others, up to the largest `usize`, and leaves the
-- record as it was before.
pub drain-record_all :
    (ds : List EgressDenial)
    → drain (record_all ds (record { denials = []; dropped = 0 })) ≡ (
      (take max_recorded_denials ds, min (length ds - max_recorded_denials) usize_max),
      record { denials = []; dropped = 0 },
    )
unfolding drain
drain-record_all ds =
    let (x, y) =
      record_all-IsFilled max_recorded_denials ds (record { denials = []; dropped = 0 })
        (omega arith) (omega arith) in
    ap (λ p. (p, record { denials = []; dropped = 0 })) (ap₂ (λ a b. (a, b)) x (y ∙ omega arith))

-- The counter of the handlers and the number of threads that hold a slot: a connection that gets
-- a slot starts a thread, one that gets none is refused, and a thread that ends gives it back.
pub data Slots (max_active : ℕ) : ℕ → ℕ → Type 0 where
  start : Slots max_active 0 0
  acquired :
      {active threads active' : ℕ}
      → Slots max_active active threads
      → try_acquire_handler_slot active max_active ≡ some active'
      → Slots max_active active' (threads + 1)
  released :
      {active threads : ℕ}
      → Slots max_active active (suc threads)
      → Slots max_active (release_handler_slot active) threads

-- However connections come and handlers end, the counter is the number of the threads that hold a
-- slot and never above the bound.
pub active_handlers-bound :
    (max_active active threads : ℕ)
    → Slots max_active active threads
    → (active ≡ threads) × (active ≤ max_active)
unfolding try_acquire_handler_slot release_handler_slot
active_handlers-bound max_active active threads start = (refl, omega arith)
active_handlers-bound max_active active threads (acquired {active = a} s e) =
    let (same, below) = active_handlers-bound max_active a _ s in ground arith
active_handlers-bound max_active active threads (released {active = zero} s) =
    let (same, below) = active_handlers-bound max_active zero (suc threads) s in
    absurd (omega arith)
active_handlers-bound max_active active threads (released {active = suc a} s) =
    let (same, below) = active_handlers-bound max_active (suc a) (suc threads) s in ground arith
