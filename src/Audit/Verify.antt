-- ===== src/Audit/Verify.antt =====
-- `verify_audit_chain_with_pubkey` (crates/clawcrate-audit/src/lib.rs) over the lines of a log.
-- The public key is there or not; a signature's check under it is among the primitives.
use claw_crate.Base.{
  ℕ, ◌+◌, Text, Bool, true, false, ◌||◌, Option, none, some, List, [], ◌∷◌, ◌++◌, length, ltb, leb,
  if◌then◌else◌, text_eq, not,
}
use claw_crate.Audit.Log.{
  Line, blank, malformed, block_signature, chained, AuditEvent, BlockSignature, Primitives,
  genesis_hash, or_genesis, compute_event_hash, compute_block_hash, slice,
}

-- The text of `ChainVerifyResult::error`, as data.
pub data Fault : Type 0 where
  invalid_range : ℕ → ℕ → ℕ → Fault
  block_hash_mismatch : ℕ → Text → Text → Fault
  previous_hash_mismatch : ℕ → Text → Text → Fault
  hash_mismatch : ℕ → Text → Text → Fault

pub record ChainVerifyResult : Type 0 where
  pub valid : Bool
  pub events_checked : ℕ
  pub signatures_checked : ℕ
  pub tampered_at : Option ℕ
  pub first_event_ts : Option Text
  pub last_event_ts : Option Text
  pub error : Option Fault

pub data VerifyChainError : Type 0 where
  not_found : VerifyChainError
  no_hash_chain : VerifyChainError
  invalid_data : ℕ → VerifyChainError
  public_key : VerifyChainError

pub data Outcome : Type 0 where
  ok : ChainVerifyResult → Outcome
  err : VerifyChainError → Outcome

-- The local variables of the loop.
pub record Walk : Type 0 where
  pub events_checked : ℕ
  pub signatures_checked : ℕ
  pub previous_hash : Text
  pub first_ts : Option Text
  pub last_ts : Option Text
  pub has_chain_fields : Bool
  pub event_hashes : List Text

abbrev pub walk_start : Walk
walk_start = record {
  events_checked = 0;
  signatures_checked = 0;
  previous_hash = genesis_hash;
  first_ts = none;
  last_ts = none;
  has_chain_fields = false;
  event_hashes = [];
}

abbrev pub stop : Walk → Option ℕ → Fault → Outcome
stop w at fault = ok (record {
  valid = false;
  events_checked = w.events_checked;
  signatures_checked = w.signatures_checked;
  tampered_at = at;
  first_event_ts = w.first_ts;
  last_event_ts = w.last_ts;
  error = some fault;
})

-- A round of the loop goes on with new variables or returns.
pub data Step : Type 0 where
  next : Walk → Step
  return : Outcome → Step

abbrev pub is_some : Option Text → Bool
is_some none = false
is_some (some h) = true

abbrev pub or_first : Option Text → Text → Option Text
or_first none ts = some ts
or_first (some t) ts = some t

module _ (prim : Primitives) where
  -- A signature line when a public key was given; `line` is its number from 1.
  unfoldable pub check_signature : ℕ → BlockSignature → Walk → Step
  unfolding compute_block_hash text_eq
  check_signature line s w0 =
      let w = record w0 { signatures_checked = w0.signatures_checked + 1 } in
      let expected = compute_block_hash prim (slice s.block_start s.block_end w.event_hashes) in
      if ltb s.block_end s.block_start || leb (length w.event_hashes) s.block_end
      then return (stop w none (invalid_range s.block_start s.block_end line))
      else if not (text_eq expected s.block_hash)
      then return (stop w none (block_hash_mismatch line expected s.block_hash))
      else if prim.signature_holds s.block_hash s.signature
      then next w
      else return (err (invalid_data line))

  -- An event line behind the count of it: the two hashes against the chain.
  unfoldable pub check_hashes : ℕ → AuditEvent → Text → Text → Walk → Step
  unfolding compute_event_hash text_eq
  check_hashes event_no event stored_previous stored_current w =
      let expected = compute_event_hash prim event stored_previous in
      if not (text_eq stored_previous w.previous_hash)
      then return
          (stop w (some event_no) (previous_hash_mismatch event_no w.previous_hash stored_previous))
      else if not (text_eq expected stored_current)
      then return (stop w (some event_no) (hash_mismatch event_no expected stored_current))
      else next (record w {
        previous_hash = stored_current;
        event_hashes = w.event_hashes ++ stored_current ∷ [];
      })

  abbrev pub count_event : AuditEvent → Option Text → Walk → Walk
  count_event event current w = record w {
    has_chain_fields = w.has_chain_fields || is_some current;
    first_ts = or_first w.first_ts (prim.to_rfc3339 event.timestamp);
    last_ts = some (prim.to_rfc3339 event.timestamp);
    events_checked = w.events_checked + 1;
  }

  -- One round, for the line with the number `line` from 1.
  unfoldable pub verify_line : Bool → ℕ → Line → Walk → Step
  unfolding check_signature check_hashes
  verify_line has_key line blank w = next w
  verify_line has_key line (malformed current) w = return (err (invalid_data line))
  verify_line false line (block_signature s) w = next w
  verify_line true line (block_signature s) w = check_signature line s w
  verify_line has_key line (chained event previous none) w = next (count_event event none w)
  verify_line has_key line (chained event previous (some current)) w =
      check_hashes line event (or_genesis previous) current (count_event event (some current) w)

  -- What follows the loop.
  abbrev pub finish : Walk → Outcome
  finish w =
      if w.has_chain_fields
      then ok (record {
        valid = true;
        events_checked = w.events_checked;
        signatures_checked = w.signatures_checked;
        tampered_at = none;
        first_event_ts = w.first_ts;
        last_event_ts = w.last_ts;
        error = none;
      })
      else err no_hash_chain

  unfoldable pub verify_from : Bool → ℕ → List Line → Walk → Outcome
  verify_from has_key index [] w = finish w
  verify_from has_key index (line ∷ lines) w = elim (verify_line has_key (index + 1) line w) [
    | return o ↦ o
    | next w' ↦ verify_from has_key (index + 1) lines w'
  ]

-- The public key: not asked for, or loaded or not.
pub data PublicKey : Type 0 where
  not_given unusable usable : PublicKey

unfoldable pub verify_audit_chain_with_pubkey :
    Primitives → PublicKey → Option (List Line) → Outcome
verify_audit_chain_with_pubkey prim key none = err not_found
verify_audit_chain_with_pubkey prim unusable (some lines) = err public_key
verify_audit_chain_with_pubkey prim not_given (some lines) =
    verify_from prim false 0 lines walk_start
verify_audit_chain_with_pubkey prim usable (some lines) = verify_from prim true 0 lines walk_start

unfoldable pub verify_audit_chain : Primitives → Option (List Line) → Outcome
verify_audit_chain prim file = verify_audit_chain_with_pubkey prim not_given file
