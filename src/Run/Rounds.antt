-- ===== src/Run/Rounds.antt =====
-- What one round of the watch over a child sends, and how the watch stands behind it.
use claw_crate.Base.{
  ◌≡◌, refl, subst, ℕ, suc, ◌+◌, Bool, true, false, not, ◌&&◌, ◌||◌, Option, none, some, List, [],
  ◌∷◌, ◌++◌, ltb, arith,
}
use claw_crate.Run.{
  Signal, sigterm, sigkill, Watch, Round, Watched, and_then, reached, on_interrupts, on_timeout,
  on_grace, watch_round,
}

abbrev pub has_kill : List Signal → Bool
has_kill [] = false
has_kill (sigterm ∷ signals) = has_kill signals
has_kill (sigkill ∷ signals) = true

abbrev pub terms : List Signal → ℕ
terms [] = 0
terms (sigterm ∷ signals) = suc (terms signals)
terms (sigkill ∷ signals) = terms signals

abbrev pub one_if : Bool → ℕ
one_if true = 1
one_if false = 0

pub has_kill-append : (s t : List Signal) → has_kill (s ++ t) ≡ has_kill s || has_kill t
has_kill-append [] t = refl
has_kill-append (sigterm ∷ s) t = has_kill-append s t
has_kill-append (sigkill ∷ s) t = refl

pub terms-append : (s t : List Signal) → terms (s ++ t) ≡ terms s + terms t
terms-append [] t = omega arith
terms-append (sigterm ∷ s) t = omega (arith, terms-append s t)
terms-append (sigkill ∷ s) t = terms-append s t

module _ (group limit : Option ℕ) (r : Round) where
  abbrev pub asked : Bool
  asked = ltb 0 r.pending_interrupts

  abbrev pub late : Bool
  late = reached limit r.timeout_checked_at

  -- From a watch to the next one with these signals.
  abbrev Asks : Watch → List Signal → Watch → Type 0
  Asks w signals v =
      (v.timed_out ≡ w.timed_out)
      × (v.interrupted ≡ w.interrupted || asked)
      × (terms signals ≡ one_if (asked && not w.interrupted))
      × (v.interrupt_forced_kill ≡ w.interrupt_forced_kill || has_kill signals)
      × ((w.timed_out ≡ false)
          → (w.interrupt_forced_kill ≡ false)
          → (asked ≡ true)
          → (ltb 1 (one_if w.interrupted + r.pending_interrupts) ≡ true)
          → has_kill signals ≡ true)
      × ((has_kill signals ≡ true) → v.interrupted ≡ true)

  asks :
      (w v : Watch) (signals : List Signal)
      → on_interrupts group limit r w ≡ (signals, some v)
      → Asks w signals v
  asks w v signals e = ground arith

  abbrev Times : Watch → List Signal → Watch → Type 0
  Times w signals v =
      (v.timed_out ≡ w.timed_out || late)
      × (v.interrupted ≡ w.interrupted)
      × (terms signals ≡ 0)
      × (v.interrupt_forced_kill ≡ w.interrupt_forced_kill)
      × (has_kill signals ≡ not w.timed_out && late)

  times :
      (w v : Watch) (signals : List Signal)
      → on_timeout group limit r w ≡ (signals, some v)
      → Times w signals v
  times w v signals e = ground arith

  abbrev Overstays : Watch → List Signal → Watch → Type 0
  Overstays w signals v =
      (v.timed_out ≡ w.timed_out)
      × (v.interrupted ≡ w.interrupted)
      × (terms signals ≡ 0)
      × (v.interrupt_forced_kill ≡ w.interrupt_forced_kill || has_kill signals)
      × ((has_kill signals ≡ true) → v.interrupted ≡ true)

  overstays :
      (w v : Watch) (signals : List Signal)
      → on_grace group limit r w ≡ (signals, some v)
      → Overstays w signals v
  overstays w v signals e = ground arith

  abbrev pub Rounds : Watch → List Signal → Watch → Type 0
  Rounds w signals v =
      (v.timed_out ≡ w.timed_out || late)
      × (v.interrupted ≡ w.interrupted || asked)
      × (terms signals ≡ one_if (asked && not w.interrupted))
      × ((has_kill signals ≡ false)
          → (v.timed_out ≡ w.timed_out) × (v.interrupt_forced_kill ≡ w.interrupt_forced_kill))
      × ((w.timed_out ≡ false)
          → (w.interrupt_forced_kill ≡ false)
          → (late || (asked && ltb 1 (one_if w.interrupted + r.pending_interrupts)) ≡ true)
          → has_kill signals ≡ true)
      × ((has_kill signals ≡ true) → v.timed_out || v.interrupted ≡ true)

  stages :
      (w w1 w2 v : Watch) (s t u : List Signal)
      → Asks w s w1
      → Times w1 t w2
      → Overstays w2 u v
      → (has_kill (s ++ (t ++ u)) ≡ has_kill s || (has_kill t || has_kill u))
      → (terms (s ++ (t ++ u)) ≡ terms s + (terms t + terms u))
      → Rounds w (s ++ (t ++ u)) v
  stages w w1 w2 v s t u (a1, a2, a3, a4, a5, a6) (b1, b2, b3, b4, b5) (c1, c2, c3, c4, c5) k n = (
    grind arith,
    grind arith,
    grind arith,
    λ e. grind arith,
    λ e f g. grind arith,
    λ e. grind arith,
  )

  abbrev put_before : List Signal → Watched → Watched
  put_before s next = (s ++ next.0, next.1)

  third_stage :
      (w w1 w2 v : Watch) (s t all : List Signal) (third : Watched)
      → on_grace group limit r w2 ≡ third
      → Asks w s w1
      → Times w1 t w2
      → put_before s (put_before t third) ≡ (all, some v)
      → Rounds w all v
  third_stage w w1 w2 v s t all (u, none) g a b e = ground arith
  third_stage w w1 w2 v s t all (u, some w3) g a b e =
      let same : s ++ (t ++ u) ≡ all = ground arith in
      let end : w3 ≡ v = ground arith in
      subst (λ x. Rounds w x v) same
        (subst (λ x. Rounds w (s ++ (t ++ u)) x) end
          (stages w w1 w2 w3 s t u a b (overstays w2 w3 u g)
            (rw (has_kill-append s (t ++ u), has_kill-append t u) refl)
            (rw (terms-append s (t ++ u), terms-append t u) refl)))

  second_stage :
      (w w1 v : Watch) (s all : List Signal) (second : Watched)
      → on_timeout group limit r w1 ≡ second
      → Asks w s w1
      → put_before s (and_then second (on_grace group limit r)) ≡ (all, some v)
      → Rounds w all v
  second_stage w w1 v s all (t, none) g a e = ground arith
  second_stage w w1 v s all (t, some w2) g a e =
      third_stage w w1 w2 v s t all (on_grace group limit r w2) refl a (times w1 w2 t g) e

  first_stage :
      (w v : Watch) (all : List Signal) (first : Watched)
      → on_interrupts group limit r w ≡ first
      → and_then first (λ w1. and_then (on_timeout group limit r w1) (on_grace group limit r))
        ≡ (all, some v)
      → Rounds w all v
  first_stage w v all (s, none) g e = ground arith
  first_stage w v all (s, some w1) g e =
      second_stage w w1 v s all (on_timeout group limit r w1) refl (asks w w1 s g) e

  pub rounds :
      (w v : Watch) (signals : List Signal)
      → watch_round group limit r w ≡ (signals, some v)
      → Rounds w signals v
  rounds w v signals e = first_stage w v signals (on_interrupts group limit r w) refl e
