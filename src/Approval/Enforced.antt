-- ===== src/Approval/Enforced.antt =====
-- When a command may go on, and what no request means.
use claw_crate.Base.{
  ◌≡◌, refl, sym, ap, ◌∙◌, ◌≢◌, ◌⊎◌, inl, inr, Text, Bool, true, false, ◌||◌, not, Option, none,
  some, List, [], ◌∷◌, ◌++◌, Bool-cases, arith, if◌then◌else◌,
}
use claw_crate.Profiles.Resolve.{NetLevel}
use claw_crate.Audit.Log.{AuditEventKind, approval_decision}
use claw_crate.Replica.{accepts}
use claw_crate.Approval.{
  Request, detect_out_of_profile_requests, Session, ApprovalEffect, prompted, appended, Ended, ok,
  error, shown_all, ask, prompt, enforce_requests, enforce_out_of_profile_approval,
}

-- The flag was given, or the user was asked on a terminal and agreed.
abbrev pub IsApproved : Session → Bool → Type 0
IsApproved session true = session.approve_out_of_profile ≡ true
IsApproved session false =
    (session.approve_out_of_profile ≡ false)
    × (session.json ≡ false)
    × (session.stdin_is_terminal ≡ true)
    × ((answer : Text) × (session.answer ≡ some answer) × (accepts answer ≡ true))

abbrev pub LastAppended : List ApprovalEffect → AuditEventKind → Type 0
LastAppended effects event =
    (before : List ApprovalEffect) × (effects ≡ before ++ appended event ∷ [])

-- Nothing was requested and nothing is done, or it is approved, and the last effect is the event
-- that says so.
abbrev pub IsCleared : Session → List Request → List ApprovalEffect → Type 0
IsCleared session requested effects =
    ((requested ≡ []) × (effects ≡ []))
    ⊎ ((automated : Bool) × IsApproved session automated
        × LastAppended effects (approval_decision (shown_all requested) true automated))

module _ (session : Session) (requested : List Request) where
  abbrev Clears : List ApprovalEffect × Ended → Type 0
  Clears r = r.1 ≡ ok → IsCleared session requested r.0

  if-Clears :
      (c : Bool) (a b : List ApprovalEffect × Ended)
      → (c ≡ true → Clears a)
      → (c ≡ false → Clears b)
      → Clears (if c then a else b)
  if-Clears true a b h g = h refl
  if-Clears false a b h g = g refl

  never_ok : (c : Bool) → (if c then error else error) ≢ ok
  never_ok true h = ground arith
  never_ok false h = ground arith

  prompt-Clears :
      (answer : Option Text)
      → session.approve_out_of_profile ≡ false
      → session.json ≡ false
      → session.stdin_is_terminal ≡ true
      → session.answer ≡ answer
      → Clears (prompt session requested answer)
  prompt-Clears none f j i e h = ground arith
  prompt-Clears (some answer) f j i e h = elim (Bool-cases (accepts answer)) [
    | inl agreed ↦ inr (
      false,
      (f, j, i, (answer, e, agreed)),
      (
        prompted ∷ [],
        ap (λ c. prompted ∷ appended (approval_decision (shown_all requested) c false) ∷ []) agreed,
      ),
    )
    | inr declined ↦ absurd (
        never_ok session.append_works (
          sym (ap (λ c. if session.append_works then (if c then ok else error) else error) declined)
          ∙ h))
  ]

  ask-Clears : Clears (ask session requested)
  ask-Clears =
      if-Clears session.approve_out_of_profile _ _ (λ f h. inr (true, f, ([], refl)))
        (λ f.
          if-Clears (session.json || not session.stdin_is_terminal) _ _
            (λ _ h. absurd (never_ok session.append_works h))
            (λ both. prompt-Clears session.answer f (ground arith) (ground arith) refl))

enforce_requests-IsCleared :
    (session : Session) (requested : List Request)
    → (enforce_requests session requested).1 ≡ ok
    → IsCleared session requested (enforce_requests session requested).0
enforce_requests-IsCleared session [] h = inl (refl, refl)
enforce_requests-IsCleared session (r ∷ requested) h = ask-Clears session (r ∷ requested) h

-- A command goes on only if it requests nothing beyond its profile, and then nothing is done; or if
-- the flag for it was given, or else the user agreed on a terminal and without `--json`, and then
-- the last thing done is to append the event that says so, with all requests.
pub enforce_out_of_profile_approval-IsCleared :
    (session : Session) (parse_ip : Text → Option Text) (command : List Text) (net : NetLevel)
    → (enforce_out_of_profile_approval session parse_ip command net).1 ≡ ok
    → IsCleared session
        (detect_out_of_profile_requests parse_ip command net)
        (enforce_out_of_profile_approval session parse_ip command net).0
unfolding enforce_out_of_profile_approval
enforce_out_of_profile_approval-IsCleared session parse_ip command net h =
    enforce_requests-IsCleared session (detect_out_of_profile_requests parse_ip command net) h
