-- ===== src/Env/Wildcard/Complete.antt =====
-- A match of a candidate that holds no star byte is found by `wildcard_matches`.
use claw_crate.Base.{
  ℕ, zero, suc, ◌+◌, ◌≤◌, ◌<◌, ◌-◌, Text, ◌≡◌, refl, ◌≢◌, Bool, true, Option, none, some, [], ◌∷◌,
  get_elem?, drop, arith, ◌==◌, ==_iff, Bool-cases, Option-cases, inl, inr, ◌⊎◌, drop_of_some,
  drop_of_none, drop-drop, drop-suc, drop_all, le_of_none, subst, All, ◌↔◌,
}
use claw_crate.Env.Wildcard.{star, Scan, round, scan, start, enough, wildcard_matches}
use claw_crate.Env.Wildcard.Pattern.{Matches, done, literal_head, star_suffix, only_stars_complete}
use claw_crate.Env.Wildcard.Rounds.{IsStuck, Rounded, round-Rounded, OnSome}
use claw_crate.Env.Wildcard.Total.{scan_returns}
use claw_crate.Env.Wildcard.Sound.{wildcard_matches_sound}

abbrev pub HasNoStar : Text → Type 0
HasNoStar = All (λ x. x ≢ star)

at_HasNoStar : (c : Text) (i b : ℕ) → HasNoStar c → get_elem? c i ≡ some b → b ≢ star
at_HasNoStar [] i b h e = absurd (ground arith)
at_HasNoStar (x ∷ c) zero b h e = ground (arith, h.0)
at_HasNoStar (x ∷ c) (suc i) b h e = at_HasNoStar c i b h.1 e

nil_head : {c : Text} → Matches [] c → c ≡ []
nil_head done = refl

module _ (pattern candidate : Text) where
  -- A later byte of the candidate from which the pattern behind the star still matches.
  record IsLater (s : Scan) : Type 0 where
    idx : ℕ
    from : ℕ
    at : s.star_idx ≡ some idx
    later : s.match_after_star < from
    rest : Matches (drop (suc idx) pattern) (drop from candidate)

  record IsOpen (s : Scan) : Type 0 where
    behind : s.match_after_star ≤ s.c
    way : Matches (drop s.p pattern) (drop s.c candidate) ⊎ IsLater s
    -- what stands between the star and the pattern's index is literal
    segment :
        (l k : ℕ)
        → s.star_idx ≡ some l
        → Matches (drop (suc l) pattern) (drop k candidate)
        → Matches (drop s.p pattern) (drop (k + (s.c - s.match_after_star)) candidate)

  literal_next :
      (i b j : ℕ)
      → get_elem? pattern i ≡ some b
      → b ≢ star
      → Matches (drop i pattern) (drop j candidate)
      → Matches (drop (suc i) pattern) (drop (suc j) candidate)
  literal_next i b j e n m =
      let (r, same, m') = literal_head n (rw (drop_of_some pattern i b e) at m) in
      rw (drop-suc j candidate) (rw same m')

  star_next :
      (i j : ℕ)
      → get_elem? pattern i ≡ some star
      → Matches (drop i pattern) (drop j candidate)
      → (k : ℕ) × (j ≤ k) × Matches (drop (suc i) pattern) (drop k candidate)
  star_next i j e m =
      let (k, _, r) = star_suffix refl (rw (drop_of_some pattern i star e) at m) in
      (j + k, omega arith, rw drop-drop at r)

  stuck_dead :
      (i b : ℕ) {c : Text}
      → ((x : ℕ) → get_elem? pattern i ≡ some x → (x ≢ b) × (x ≢ star))
      → Matches (drop i pattern) (b ∷ c)
      → ⊥
  stuck_dead i b h m = elim (Option-cases (get_elem? pattern i)) [
    | inl none_left ↦ ground (arith, nil_head (rw (drop_of_none pattern i none_left) at m))
    | inr (x, e) ↦
        let (r, same, _) = literal_head (h x e).1 (rw (drop_of_some pattern i x e) at m) in
        (h x e).0 (ground arith)
  ]

  -- A match of the pattern behind index `l` from byte `k` on, seen from byte `c`.
  way_from :
      (l c k : ℕ) (o : Option ℕ)
      → o ≡ some l
      → c ≤ k
      → Matches (drop (suc l) pattern) (drop k candidate)
      → Matches (drop (suc l) pattern) (drop c candidate)
        ⊎ IsLater (record { p = suc l; c = c; star_idx = o; match_after_star = c })
  way_from l c k o e le m = elim (Bool-cases (k == c)) [
    | inl now ↦
        inl (subst (λ j. Matches (drop (suc l) pattern) (drop j candidate)) ((==_iff k c).0 now) m)
    | inr other ↦ inr (record { idx = l; from = k; at = e; later = ground arith; rest = m })
  ]

  -- Where the pattern behind the star still matches, so it does behind the literal segment.
  at_segment :
      (s : Scan)
      → IsOpen s
      → IsLater s
      → (k : ℕ) × (s.c < k) × Matches (drop s.p pattern) (drop k candidate)
  at_segment s w later = (
    later.from + (s.c - s.match_after_star),
    omega (arith, w.behind, later.later),
    w.segment later.idx later.from later.at later.rest,
  )

  way_opened :
      (s : Scan)
      → IsOpen s
      → get_elem? pattern s.p ≡ some star
      → (k : ℕ) × (s.c ≤ k) × Matches (drop (suc s.p) pattern) (drop k candidate)
  way_opened s w at = elim w.way [
    | inl m ↦ star_next s.p s.c at m
    | inr later ↦
        let (k, lt, m) = at_segment s w later in
        let (j, le, r) = star_next s.p k at m in (j, omega arith, r)
  ]

  way_stuck :
      (b : ℕ) (s : Scan)
      → IsOpen s
      → get_elem? candidate s.c ≡ some b
      → IsStuck pattern b s
      → IsLater s
  way_stuck b s w e h = elim w.way [
    | inl m ↦ absurd (stuck_dead s.p b h (rw (drop_of_some candidate s.c b e) at m))
    | inr later ↦ later
  ]

  round-IsOpen :
      (b : ℕ) (s : Scan)
      → IsOpen s
      → b ≢ star
      → get_elem? candidate s.c ≡ some b
      → (r : Option Scan) → Rounded pattern b s r
      → OnSome IsOpen r
  round-IsOpen b s w n e _ (Rounded.literal at) = record {
    behind = omega (arith, w.behind);
    way = elim w.way [
      | inl m ↦ inl (literal_next s.p b s.c at n m)
      | inr later ↦ inr (record {
        idx = later.idx;
        from = later.from;
        at = later.at;
        later = later.later;
        rest = later.rest;
      })
    ];
    segment = λ l k same m.
        let more : suc (k + (s.c - s.match_after_star)) ≡ k + (suc s.c - s.match_after_star) =
          omega (arith, w.behind) in
        rw (← more) (literal_next s.p b _ at n (w.segment l k same m));
  }
  round-IsOpen b s w n e _ (Rounded.opened at _) = record {
    behind = omega arith;
    way = let (k, le, m) = way_opened s w at in way_from s.p s.c k (some s.p) refl le m;
    segment = λ l k same m.
        let none_yet : k + (s.c - s.c) ≡ k = omega arith in
        rw none_yet
          (subst (λ j. Matches (drop (suc j) pattern) (drop k candidate)) (ground arith) m);
  }
  round-IsOpen b s w n e _ (Rounded.retried l h at) = record {
    behind = omega arith;
    way =
        let later = way_stuck b s w e h in
        way_from l (suc s.match_after_star) later.from s.star_idx at (omega (arith, later.later)) (
          subst (λ i. Matches (drop (suc i) pattern) (drop later.from candidate))
            (ground (arith, later.at)) later.rest);
    segment = λ j k same m.
        let none_yet : k + (suc s.match_after_star - suc s.match_after_star) ≡ k = omega arith in
        rw none_yet
          (subst (λ i. Matches (drop (suc i) pattern) (drop k candidate)) (ground arith) m);
  }
  round-IsOpen b s w n e _ (Rounded.failed _ _) = tt

  end_IsOpen :
      (s : Scan) → IsOpen s → get_elem? candidate s.c ≡ none → Matches (drop s.p pattern) []
  end_IsOpen s w e = elim w.way [
    | inl m ↦ rw (drop_of_none candidate s.c e) at m
    | inr later ↦
        let (k, lt, m) = at_segment s w later in
        rw (drop_all k candidate (omega (arith, le_of_none candidate s.c e))) at m
  ]

  fail_IsOpen :
      (b : ℕ) (s : Scan)
      → IsOpen s
      → get_elem? candidate s.c ≡ some b
      → Rounded pattern b s none
      → ⊥
  fail_IsOpen b s w e (Rounded.failed h gone) =
      let later = way_stuck b s w e h in ground (arith, later.at)

  scan_complete :
      (fuel : ℕ) (s : Scan) (v : Bool)
      → IsOpen s
      → HasNoStar candidate
      → scan fuel pattern candidate s ≡ some v
      → v ≡ true
  unfolding scan
  scan_complete zero s v w n h = ground arith
  scan_complete (suc fuel) s v w n h = elim (Option-cases (get_elem? candidate s.c)) [
    | inl end ↦ ground (arith, only_stars_complete _ (end_IsOpen s w end))
    | inr (b, e) ↦ elim (Option-cases (round pattern b s)) [
      | inl failed ↦ absurd (fail_IsOpen b s w e (rw failed at (round-Rounded pattern b s)))
      | inr (t, e') ↦
          let w' : IsOpen t = rw e' at (
            round-IsOpen b s w (at_HasNoStar candidate s.c b n e) e _
              (round-Rounded pattern b s)) in
          scan_complete fuel t v w' n (ground arith)
    ]
  ]

IsOpen-start :
    (pattern candidate : Text) → Matches pattern candidate → IsOpen pattern candidate start
IsOpen-start pattern candidate m = record {
  behind = omega arith;
  way = inl m;
  segment = λ l k e _. absurd (ground arith);
}

wildcard_matches_complete :
    (pattern candidate : Text)
    → HasNoStar candidate
    → Matches pattern candidate
    → wildcard_matches pattern candidate ≡ true
unfolding wildcard_matches
wildcard_matches_complete pattern candidate n m =
    let (v, r) = scan_returns pattern candidate in
    let yes_it_is =
      scan_complete pattern candidate (enough pattern candidate) start v
        (IsOpen-start pattern candidate m) n r in
    ground (arith)

-- For a candidate without a star byte, the code answers `true` exactly when the pattern, whose
-- stars stand for any run of bytes, matches it.
pub wildcard_matches_iff :
    (pattern candidate : Text)
    → HasNoStar candidate
    → (wildcard_matches pattern candidate ≡ true) ↔ Matches pattern candidate
wildcard_matches_iff pattern candidate n =
    (wildcard_matches_sound pattern candidate, wildcard_matches_complete pattern candidate n)
