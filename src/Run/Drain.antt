-- ===== src/Run/Drain.antt =====
-- The wait for the captured output of a child that has exited: it ends, and it only kills.
use claw_crate.Base.{
  ◌≡◌, ◌≤◌, ◌<◌, refl, ℕ, suc, ◌+◌, ◌*◌, Bool, true, false, Option, List, [], ◌∷◌, length, leb,
  Bool-cases, inl, inr, arith,
}
use claw_crate.Run.{Signal, sigkill}
use claw_crate.Run.Monitor.{
  Received, captured, capture_failed, disconnected, nothing, Drained, draining, drain_failed,
  drained, past_max_wait, on_nothing, drain_capture,
}
use claw_crate.Run.Rounds.{terms}

on_nothing-terms :
    (sent due works : Bool) (elapsed : ℕ) (next : Bool → List Signal × Drained)
    → ((b : Bool) → terms (next b).0 ≡ 0)
    → terms (on_nothing sent due works elapsed next).0 ≡ 0
on_nothing-terms false true true elapsed next h = ground (arith, h true)
on_nothing-terms false true false elapsed next h = refl
on_nothing-terms false false works elapsed next h = ground (arith, h false)
on_nothing-terms true due works elapsed next h = ground (arith, h true)

pub drain_capture-terms :
    (group : Option ℕ) (received : List Received) (sent : Bool)
    → terms (drain_capture group received sent).0 ≡ 0
unfolding drain_capture
drain_capture-terms group [] sent = refl
drain_capture-terms group (captured summary ∷ rest) sent = refl
drain_capture-terms group (capture_failed ∷ rest) sent = refl
drain_capture-terms group (disconnected ∷ rest) sent = refl
drain_capture-terms group (nothing at_grace at_max sends ∷ rest) sent =
    on_nothing-terms sent _ _ at_max (λ b. drain_capture group rest b)
      (λ b. drain_capture-terms group rest b)

-- The wait of each round that brings nothing is 25 milliseconds at least, after `rounds` before it.
unfoldable pub IsPaced : ℕ → List Received → Type 0
IsPaced rounds [] = Unit {0}
IsPaced rounds (nothing at_grace at_max sends ∷ rest) =
    (25 * suc rounds ≤ at_max) × IsPaced (suc rounds) rest
IsPaced rounds (captured summary ∷ rest) = IsPaced (suc rounds) rest
IsPaced rounds (capture_failed ∷ rest) = IsPaced (suc rounds) rest
IsPaced rounds (disconnected ∷ rest) = IsPaced (suc rounds) rest

abbrev pub is_over : Drained → Bool
is_over draining = false
is_over drain_failed = true
is_over (drained summary) = true

past_max_wait_over :
    (elapsed rounds : ℕ) (signals : List Signal) (next : List Signal × Drained)
    → 25 * suc rounds ≤ elapsed
    → (suc rounds < 80 → is_over next.1 ≡ true)
    → is_over (past_max_wait elapsed signals next).1 ≡ true
past_max_wait_over elapsed rounds signals next p h = elim (Bool-cases (leb 2000 elapsed)) [
  | inl late ↦ ground arith
  | inr early ↦ let soon : suc rounds < 80 = grind arith in ground (arith, h soon)
]

on_nothing_over :
    (sent due works : Bool) (elapsed rounds : ℕ) (next : Bool → List Signal × Drained)
    → 25 * suc rounds ≤ elapsed
    → ((b : Bool) → suc rounds < 80 → is_over (next b).1 ≡ true)
    → is_over (on_nothing sent due works elapsed next).1 ≡ true
on_nothing_over false true true elapsed rounds next p h =
    past_max_wait_over elapsed rounds (sigkill ∷ []) (next true) p (h true)
on_nothing_over false true false elapsed rounds next p h = refl
on_nothing_over false false works elapsed rounds next p h =
    past_max_wait_over elapsed rounds [] (next false) p (h false)
on_nothing_over true due works elapsed rounds next p h =
    past_max_wait_over elapsed rounds [] (next true) p (h true)

drain_over :
    (rounds : ℕ) (group : Option ℕ) (received : List Received) (sent : Bool)
    → IsPaced rounds received
    → rounds < 80
    → 80 ≤ rounds + length received
    → is_over (drain_capture group received sent).1 ≡ true
unfolding drain_capture IsPaced
drain_over rounds group [] sent p r l = ground arith
drain_over rounds group (captured summary ∷ rest) sent p r l = refl
drain_over rounds group (capture_failed ∷ rest) sent p r l = refl
drain_over rounds group (disconnected ∷ rest) sent p r l = refl
drain_over rounds group (nothing at_grace at_max sends ∷ rest) sent (p, ps) r l =
    on_nothing_over sent _ _ at_max rounds (λ b. drain_capture group rest b) p
      (λ b h. drain_over (suc rounds) group rest b ps h (omega arith))

-- Whatever comes and whichever signals fail: where every round in which nothing comes takes its 25
-- milliseconds, the wait for the captured output is over, with the summary or an error, within 80
-- rounds.
pub drain_capture-ends :
    (group : Option ℕ) (received : List Received)
    → IsPaced 0 received
    → 80 ≤ length received
    → is_over (drain_capture group received false).1 ≡ true
drain_capture-ends group received p l =
    drain_over 0 group received false p (omega arith) (omega (arith, l))
