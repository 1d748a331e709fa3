-- ===== src/Replica/Decision.antt =====
-- When the changes of a replica are synced back, and what the audit log is told.
use claw_crate.Base.{
  ◌≡◌, refl, sym, ◌≢◌, ◌⊎◌, inl, inr, Text, Bool, true, false, not, Option, none, some, List, [],
  ◌∷◌, ◌++◌, length, FilePath, arith, if◌then◌else◌,
}
use claw_crate.Capture.Snapshots.{FsChange}
use claw_crate.Audit.Log.{AuditEventKind, replica_sync_back}
use claw_crate.Replica.{
  Matcher, ReplicaSyncChange, collect_syncable_replica_changes, accepts, Session, SyncEffect,
  prompted, applied, appended, Ended, ok, at_prompt, sync_back_changes, maybe_sync_back_replica,
  is_replica_sync_back_interactive,
}

-- The user was asked, on a terminal and without `--json`, and said yes.
abbrev pub IsApproved : Session → Type 0
IsApproved session =
    (session.json ≡ false)
    × (session.stdin_is_terminal ≡ true)
    × (session.stdout_is_terminal ≡ true)
    × ((answer : Text) × (session.answer ≡ some answer) × (accepts answer ≡ true))

abbrev Applied : List SyncEffect → List ReplicaSyncChange → Type 0
Applied [] changes = ⊥
Applied (applied found ∷ effects) changes = (found ≡ changes) ⊎ Applied effects changes
Applied (prompted ∷ effects) changes = Applied effects changes
Applied (appended event ∷ effects) changes = Applied effects changes

abbrev pub LastAppended : List SyncEffect → AuditEventKind → Type 0
LastAppended effects event = (before : List SyncEffect) × (effects ≡ before ++ appended event ∷ [])

-- What is done with changes: they are applied only if the user approved and there are any; and an
-- end without error has told the audit log, last, whether they were, and how many they are.
abbrev pub IsFaithful : Session → List ReplicaSyncChange → List SyncEffect × Ended → Type 0
IsFaithful session changes r =
    ((found : List ReplicaSyncChange)
      → Applied r.0 found
      → IsApproved session × (changes ≢ []) × (found ≡ changes))
    × (r.1 ≡ ok
        → (LastAppended r.0 (replica_sync_back true (length changes)) × Applied r.0 changes)
          ⊎ (LastAppended r.0 (replica_sync_back false (length changes))
              × ((found : List ReplicaSyncChange) → ¬ Applied r.0 found)))

module _ (session : Session) where
  skipped-IsFaithful :
      (changes : List ReplicaSyncChange) (ended : Ended)
      → IsFaithful session changes (appended (replica_sync_back false (length changes)) ∷ [], ended)
  skipped-IsFaithful changes ended = ((λ found a. absurd a), λ e. inr (([], refl), λ found a. a))

  if-IsFaithful :
      (changes : List ReplicaSyncChange) (c : Bool) (a b : List SyncEffect × Ended)
      → (c ≡ true → IsFaithful session changes a)
      → (c ≡ false → IsFaithful session changes b)
      → IsFaithful session changes (if c then a else b)
  if-IsFaithful changes true a b h g = h refl
  if-IsFaithful changes false a b h g = g refl

  answered-IsFaithful :
      (change : ReplicaSyncChange) (changes : List ReplicaSyncChange) (answer : Option Text)
      → session.json ≡ false
      → session.stdin_is_terminal ≡ true
      → session.stdout_is_terminal ≡ true
      → session.answer ≡ answer
      → IsFaithful session (change ∷ changes) (at_prompt session (change ∷ changes) answer)
  answered-IsFaithful change changes none j i o e = ((λ found a. absurd a), λ ended. ground arith)
  answered-IsFaithful change changes (some answer) j i o e =
      if-IsFaithful (change ∷ changes) (accepts answer) _ _
        (λ agreed.
          if-IsFaithful (change ∷ changes) session.apply_works _ _
            (λ works. (
              first answer agreed e,
              λ ended. inl ((prompted ∷ applied (change ∷ changes) ∷ [], refl), inl refl),
            ))
            (λ fails. (first answer agreed e, λ ended. ground arith)))
        (λ declined. ((λ found a. absurd a), λ ended. inr ((prompted ∷ [], refl), λ found a. a)))
    where
      first :
          (given : Text)
          → accepts given ≡ true
          → session.answer ≡ some given
          → (found : List ReplicaSyncChange) → ((change ∷ changes) ≡ found) ⊎ ⊥
          → IsApproved session × ((change ∷ changes) ≢ []) × (found ≡ change ∷ changes)
      first given agreed e found (inl same) =
          ((j, i, o, (given, e, agreed)), (λ h. ground arith), sym same)
      first given agreed e found (inr a) = absurd a

  pub sync_back_changes-IsFaithful :
      (changes : List ReplicaSyncChange)
      → IsFaithful session changes (sync_back_changes session changes)
  unfolding sync_back_changes is_replica_sync_back_interactive
  sync_back_changes-IsFaithful [] = skipped-IsFaithful [] _
  sync_back_changes-IsFaithful (change ∷ changes) =
      if-IsFaithful (change ∷ changes) session.json _ _
        (λ _. skipped-IsFaithful (change ∷ changes) _)
        (λ j.
          if-IsFaithful (change ∷ changes)
            (not (
              is_replica_sync_back_interactive session.stdin_is_terminal
                session.stdout_is_terminal))
            _ _ (λ _. skipped-IsFaithful (change ∷ changes) _)
            (λ both.
              answered-IsFaithful change changes session.answer j (ground arith) (ground arith)
                refl))

-- For a run in replica mode whose ignore file loads, with the changes collected from what the run
-- changed: they are applied only if there are any and the user said yes on a terminal, without
-- `--json`; and an end without error has last appended the event that says how many there are and
-- that they were synced back, where they were applied, or else that they were not.
pub maybe_sync_back_replica-IsFaithful :
    (session : Session) (source copy : FilePath) (ignored : Matcher) (fs_diff : List FsChange)
    → IsFaithful session
        (collect_syncable_replica_changes copy source fs_diff ignored)
        (maybe_sync_back_replica session (some (source, copy)) (some ignored) fs_diff)
unfolding maybe_sync_back_replica
maybe_sync_back_replica-IsFaithful session source copy ignored fs_diff =
    sync_back_changes-IsFaithful session
      (collect_syncable_replica_changes copy source fs_diff ignored)
