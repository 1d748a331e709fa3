-- ===== src/Env/Kept.antt =====
-- What `scrub_environment` keeps and removes, said by the meaning of the patterns.
use claw_crate.Base.{
  ap, ◌∙◌, Text, codes, ◌≡◌, sym, ◌≢◌, ◌↔◌, ◌⊎◌, inl, inr, Bool, true, false, List, [], ◌∷◌, ◌++◌,
  ◌&&◌, not, starts_with_iff, text_order, Filtered, set_insert, set_insert-mem, IsAscending,
  set_insert-IsAscending, All, Any, arith, Bool-cases, append_assoc, append-nil,
}
use claw_crate.Env.{
  ScrubbedEnvironment, is_internal_child_env, matches_any_pattern, scrub_from, scrub_environment,
}
use claw_crate.Env.Wildcard.Pattern.{Matches}
use claw_crate.Env.Wildcard.Complete.{HasNoStar, wildcard_matches_iff}

-- Some pattern of the list that is not empty matches the name.
abbrev pub Listed : List Text → Text → Type 0
Listed patterns name = Any (λ pattern. (pattern ≢ []) × Matches pattern name) patterns

abbrev pub IsInternal : Text → Type 0
IsInternal name = (rest : Text) × (name ≡ codes "CLAWCRATE_AUDIT_" ++ rest)

-- The rule: not the audit configuration, and passed through if it is to be scrubbed.
abbrev pub IsKept : List Text → List Text → Text → Type 0
IsKept scrub pass name = ¬ (IsInternal name) × (Listed scrub name → Listed pass name)

is_internal_child_env_iff : (name : Text) → (is_internal_child_env name ≡ true) ↔ IsInternal name
unfolding is_internal_child_env
is_internal_child_env_iff name = ground (arith, starts_with_iff name (codes "CLAWCRATE_AUDIT_"))

matches_any_iff :
    (name : Text) (patterns : List Text)
    → HasNoStar name
    → (matches_any_pattern name patterns ≡ true) ↔ Listed patterns name
unfolding matches_any_pattern
matches_any_iff name [] h = ground arith
matches_any_iff name (p ∷ ps) h =
    ground (arith, matches_any_iff name ps h, wildcard_matches_iff p name h)

-- The test of one variable in the loop.
abbrev keeps : List Text → List Text → Text → Bool
keeps scrub pass name =
    not (is_internal_child_env name)
    && not (matches_any_pattern name scrub && not (matches_any_pattern name pass))

keeps_iff :
    (scrub pass : List Text) (name : Text)
    → HasNoStar name
    → (keeps scrub pass name ≡ true) ↔ IsKept scrub pass name
keeps_iff scrub pass name h = ground (
  arith,
  is_internal_child_env_iff name,
  matches_any_iff name scrub h,
  matches_any_iff name pass h,
)

module _ (scrub pass : List Text) where
  abbrev push : ScrubbedEnvironment → Text × Text → ScrubbedEnvironment
  push done v = record done { kept = done.kept ++ v ∷ [] }

  abbrev drop_name : ScrubbedEnvironment → Text → ScrubbedEnvironment
  drop_name done name = record done { removed = set_insert name done.removed }

  -- One round of the loop, by the test.
  scrub_from-push :
      (done : ScrubbedEnvironment) (v : Text × Text) (vars : List (Text × Text))
      → keeps scrub pass v.0 ≡ true
      → scrub_from done scrub pass (v ∷ vars) ≡ scrub_from (push done v) scrub pass vars
  unfolding scrub_from
  scrub_from-push done (name, value) vars h = ap (λ d. scrub_from d scrub pass vars) (ground arith)

  scrub_from-drop :
      (done : ScrubbedEnvironment) (v : Text × Text) (vars : List (Text × Text))
      → keeps scrub pass v.0 ≡ false
      → scrub_from done scrub pass (v ∷ vars) ≡ scrub_from (drop_name done v.0) scrub pass vars
  unfolding scrub_from
  scrub_from-drop done (name, value) vars h = ap (λ d. scrub_from d scrub pass vars) (ground arith)

  abbrev Rest : List (Text × Text) → List (Text × Text) → List (Text × Text) → Type 0
  Rest before vars after =
      (more : List (Text × Text)) × (after ≡ before ++ more)
      × Filtered (λ (v : Text × Text). IsKept scrub pass v.0) vars more

  scrub_from-kept :
      (done : ScrubbedEnvironment) (vars : List (Text × Text))
      → All (λ v. HasNoStar v.0) vars
      → Rest done.kept vars (scrub_from done scrub pass vars).kept
  scrub_from-kept done [] h = ([], unfold scrub_from in sym (append-nil _), Filtered.empty)
  scrub_from-kept done (v ∷ vars) (h, hs) = elim (Bool-cases (keeps scrub pass v.0)) [
    | inl yes_it ↦
        let (more, same, rest) = scrub_from-kept (push done v) vars hs in
        (
          v ∷ more,
          ap (λ d. d.kept) (scrub_from-push done v vars yes_it)
              ∙ same
              ∙ append_assoc done.kept (v ∷ []) more,
          Filtered.keep ((keeps_iff scrub pass v.0 h).0 yes_it) rest,
        )
    | inr not_it ↦
        let (more, same, rest) = scrub_from-kept (drop_name done v.0) vars hs in
        (
          more,
          ap (λ d. d.kept) (scrub_from-drop done v vars not_it) ∙ same,
          Filtered.leave (λ k. ground (arith, (keeps_iff scrub pass v.0 h).1 k)) rest,
        )
  ]

  -- A name is removed when some variable of that name was not kept.
  abbrev Dropped : Text → Text × Text → Type 0
  Dropped name v = (v.0 ≡ name) × ¬ IsKept scrub pass name

  abbrev IsRemoved : List Text → List (Text × Text) → List Text → Type 0
  IsRemoved before vars after =
      (name : Text)
      → Any (λ n. n ≡ name) after ↔ (Any (λ n. n ≡ name) before ⊎ Any (Dropped name) vars)

  scrub_from-removed :
      (done : ScrubbedEnvironment) (vars : List (Text × Text))
      → All (λ v. HasNoStar v.0) vars
      → IsRemoved done.removed vars (scrub_from done scrub pass vars).removed
  scrub_from-removed done [] h name =
      unfold scrub_from in (inl, λ e. elim e [ inl a ↦ a | inr b ↦ absurd b ])
  scrub_from-removed done (v ∷ vars) (h, hs) name = elim (Bool-cases (keeps scrub pass v.0)) [
    | inl yes_it ↦ rw (scrub_from-push done v vars yes_it) (
        ground (
          arith,
          scrub_from-removed (push done v) vars hs name,
          (keeps_iff scrub pass v.0 h).0 yes_it,
        ))
    | inr not_it ↦ rw (scrub_from-drop done v vars not_it) (
        ground (
          arith,
          scrub_from-removed (drop_name done v.0) vars hs name,
          set_insert-mem v.0 name done.removed,
          (keeps_iff scrub pass v.0 h).1,
        ))
  ]

  scrub_from-IsAscending :
      (done : ScrubbedEnvironment) (vars : List (Text × Text))
      → IsAscending done.removed
      → IsAscending (scrub_from done scrub pass vars).removed
  scrub_from-IsAscending done [] h = unfold scrub_from in h
  scrub_from-IsAscending done (v ∷ vars) h = elim (Bool-cases (keeps scrub pass v.0)) [
    | inl yes_it ↦
        rw (scrub_from-push done v vars yes_it) (scrub_from-IsAscending (push done v) vars h)
    | inr not_it ↦ rw (scrub_from-drop done v vars not_it) (
        scrub_from-IsAscending (drop_name done v.0) vars
          (set_insert-IsAscending v.0 done.removed h))
  ]

-- Where no variable's name holds a star byte, the child gets exactly the variables that the rule
-- keeps, each as often as given and in the given order: a name of the audit configuration never,
-- and a name that a scrub pattern matches only if a passthrough pattern matches it too.
pub scrub_environment-kept :
    (vars : List (Text × Text)) (scrub pass : List Text)
    → All (λ v. HasNoStar v.0) vars
    → Filtered
        (λ (v : Text × Text). IsKept scrub pass v.0)
        vars
        (scrub_environment vars scrub pass).kept
unfolding scrub_environment
scrub_environment-kept vars scrub pass h =
    let (more, same, rest) =
      scrub_from-kept scrub pass (record { kept = []; removed = [] }) vars h in
    rw same rest

-- Where no variable's name holds a star byte, the removed names, which the audit log reports, are
-- in strictly ascending order and are exactly the names of the variables that were not kept.
pub scrub_environment-removed :
    (vars : List (Text × Text)) (scrub pass : List Text)
    → All (λ v. HasNoStar v.0) vars
    → IsAscending (scrub_environment vars scrub pass).removed
      × ((name : Text)
          → Any (λ n. n ≡ name) (scrub_environment vars scrub pass).removed
            ↔ Any (λ v. (v.0 ≡ name) × ¬ IsKept scrub pass name) vars)
unfolding scrub_environment
scrub_environment-removed vars scrub pass h = (
  scrub_from-IsAscending scrub pass (record { kept = []; removed = [] }) vars tt,
  λ name.
      let (to, from) =
        scrub_from-removed scrub pass (record { kept = []; removed = [] }) vars h name in
      (λ a. elim (to a) [ inl b ↦ absurd b | inr c ↦ c ], λ c. from (inr c)),
)
