-- ===== src/Run/Settled.antt =====
-- What the watch over a child has sent and found when the child has ended.
use claw_crate.Base.{
  ◌≡◌, refl, subst, ap, ◌∙◌, ℕ, ◌+◌, Bool, true, false, not, ◌&&◌, ◌||◌, if◌then◌else◌, Option,
  none, some, List, [], ◌∷◌, ◌++◌, ltb, arith,
}
use claw_crate.Run.{
  Signal, Watch, ExitStatus, Round, Watched, reached, watch_round, Waited, running, failed, ended,
  on_wait, wait_for_exit,
}
use claw_crate.Run.Rounds.{has_kill, terms, one_if, has_kill-append, terms-append, Rounds, rounds}

abbrev pub has_exited : Option (Option ExitStatus) → Bool
has_exited (some (some status)) = true
has_exited _ = false

-- Over the rounds until the child has exited: whether the limit was reached at one, and the interrupts.
abbrev pub overdue_in : Option ℕ → List Round → Bool
overdue_in limit [] = false
overdue_in limit (r ∷ rs) =
    let rest = overdue_in limit rs in
    reached limit r.timeout_checked_at || (not (has_exited r.try_wait) && rest)

abbrev pub interrupts_in : List Round → ℕ
interrupts_in [] = 0
interrupts_in (r ∷ rs) =
    let rest = interrupts_in rs in
    r.pending_interrupts + (if has_exited r.try_wait then 0 else rest)

module _ (group limit : Option ℕ) where
  abbrev Settles : List Round → Watch → List Signal → Watch → Type 0
  Settles rs w signals v =
      (v.timed_out ≡ w.timed_out || overdue_in limit rs)
      × (v.interrupted ≡ w.interrupted || ltb 0 (interrupts_in rs))
      × (terms signals ≡ one_if (ltb 0 (interrupts_in rs) && not w.interrupted))
      × ((w.timed_out ≡ false)
          → (w.interrupt_forced_kill ≡ false)
          → (overdue_in limit rs
                || (ltb 0 (interrupts_in rs) && ltb 1 (one_if w.interrupted + interrupts_in rs))
              ≡ true)
          → has_kill signals ≡ true)
      × ((has_kill signals ≡ true) → v.timed_out || v.interrupted ≡ true)

  last_settles :
      (r : Round) (rs : List Round) (w v : Watch) (signals : List Signal)
      → has_exited r.try_wait ≡ true
      → Rounds group limit r w signals v
      → Settles (r ∷ rs) w signals v
  last_settles r rs w v signals x (a1, a2, a3, a4, a5, a6) =
      (grind arith, grind arith, grind arith, λ e f g. grind arith, a6)

  more_settles :
      (r : Round) (rs : List Round) (w w1 v : Watch) (s t : List Signal)
      → has_exited r.try_wait ≡ false
      → Rounds group limit r w s w1
      → Settles rs w1 t v
      → (has_kill (s ++ t) ≡ has_kill s || has_kill t)
      → (terms (s ++ t) ≡ terms s + terms t)
      → Settles (r ∷ rs) w (s ++ t) v
  more_settles r rs w w1 v s t x (a1, a2, a3, a4, a5, a6) (b1, b2, b3, b4, b5) k n =
      (grind arith, grind arith, grind arith, λ e f g. grind arith, λ e. grind arith)

  more :
      (r : Round) (rs : List Round) (w w1 v : Watch) (signals s : List Signal) (status : ExitStatus)
      (next : List Signal × Waited)
      → wait_for_exit group limit rs w1 ≡ next
      → watch_round group limit r w ≡ (s, some w1)
      → has_exited r.try_wait ≡ false
      → ((t : List Signal)
          → wait_for_exit group limit rs w1 ≡ (t, ended status v)
          → Settles rs w1 t v)
      → on_wait (s, some w1) (some none) (λ x. next) ≡ (signals, ended status v)
      → Settles (r ∷ rs) w signals v
  more r rs w w1 v signals s status (t, running) n g x ih e = ground arith
  more r rs w w1 v signals s status (t, failed) n g x ih e = ground arith
  more r rs w w1 v signals s status (t, ended st v1) n g x ih e =
      let same : s ++ t ≡ signals = ground arith in
      let one : st ≡ status = ground arith in
      let end : v1 ≡ v = ground arith in
      subst (λ y. Settles (r ∷ rs) w y v) same
        (more_settles r rs w w1 v s t x (rounds group limit r w w1 s g)
          (ih t (n ∙ ap (λ y. (t, y)) (cc))) (has_kill-append s t) (terms-append s t))

  waited :
      (r : Round) (rs : List Round) (w v : Watch) (signals : List Signal) (status : ExitStatus)
      (now : Watched) (answer : Option (Option ExitStatus))
      → watch_round group limit r w ≡ now
      → r.try_wait ≡ answer
      → ((w1 : Watch) (t : List Signal)
          → wait_for_exit group limit rs w1 ≡ (t, ended status v)
          → Settles rs w1 t v)
      → on_wait now answer (λ x. wait_for_exit group limit rs x) ≡ (signals, ended status v)
      → Settles (r ∷ rs) w signals v
  waited r rs w v signals status (s, none) answer g x ih e = ground arith
  waited r rs w v signals status (s, some w1) none g x ih e = ground arith
  waited r rs w v signals status (s, some w1) (some (some st)) g x ih e =
      let same : s ≡ signals = ground arith in
      let end : w1 ≡ v = ground arith in
      subst (λ y. Settles (r ∷ rs) w y v) same
        (subst (λ y. Settles (r ∷ rs) w s y) end
          (last_settles r rs w w1 s (ap has_exited x) (rounds group limit r w w1 s g)))
  waited r rs w v signals status (s, some w1) (some none) g x ih e =
      more r rs w w1 v signals s status (wait_for_exit group limit rs w1) refl g (ap has_exited x)
        (ih w1) e

  pub settles :
      (rs : List Round) (w v : Watch) (signals : List Signal) (status : ExitStatus)
      → wait_for_exit group limit rs w ≡ (signals, ended status v)
      → Settles rs w signals v
  unfolding wait_for_exit
  settles [] w v signals status e = ground arith
  settles (r ∷ rs) w v signals status e =
      waited r rs w v signals status (watch_round group limit r w) r.try_wait refl refl
        (λ w1 t e. settles rs w1 v t status e) e
