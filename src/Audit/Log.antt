-- ===== src/Audit/Log.antt =====
-- The lines of `audit.ndjson` and the writer `append_audit_event`. A line is what the JSON parser
-- makes of it. Hashing, signing, canonical JSON and the rendering of times are an argument.
use claw_crate.Base.{
  ℕ, ◌+◌, ◌-◌, Text, codes, Bool, true, false, ◌||◌, Option, none, some, List, [], ◌∷◌, ◌++◌,
  reverse, length, take, drop, leb, if◌then◌else◌, FilePath, max, ℤ,
}

-- crates/clawcrate-types/src/lib.rs.
pub data AuditEventKind : Type 0 where
  sandbox_applied : Text → List Text → AuditEventKind
  env_scrubbed : List Text → AuditEventKind
  process_started : ℕ → List Text → AuditEventKind
  process_exited : ℤ → ℕ → AuditEventKind
  permission_blocked : Text → Text → AuditEventKind
  replica_created : FilePath → FilePath → List Text → AuditEventKind
  replica_sync_back : Bool → ℕ → AuditEventKind
  approval_decision : List Text → Bool → Bool → AuditEventKind

pub record AuditEvent : Type 0 where
  pub timestamp : ℕ
  pub event : AuditEventKind

pub record BlockSignature : Type 0 where
  pub block_start : ℕ
  pub block_end : ℕ
  pub block_hash : Text
  pub signature : Text
  pub public_key_fingerprint : Text

-- A line of the log: empty once trimmed; of neither kind, with the `current_hash` that it may hold
-- as JSON all the same; a block signature, which has no `current_hash` where the writer wrote it;
-- or an event with the two hashes if they are there
-- (`ChainedLineRead`).
pub data Line : Type 0 where
  blank : Line
  malformed : Option Text → Line
  block_signature : BlockSignature → Line
  chained : AuditEvent → Option Text → Option Text → Line

-- `serde_json`, `sha2` (with the prefix `sha256:` and in hexadecimal), `chrono`, `ed25519_dalek`.
pub record Primitives : Type 0 where
  pub canonical_json : AuditEvent → Text
  pub sha256 : Text → Text
  pub to_rfc3339 : ℕ → Text
  pub signature_holds : Text → Text → Bool

abbrev pub genesis_hash : Text
genesis_hash = codes "sha256:0000000000000000000000000000000000000000000000000000000000000000"

module _ (prim : Primitives) where
  unfoldable pub compute_event_hash : AuditEvent → Text → Text
  compute_event_hash event previous_hash = prim.sha256 (prim.canonical_json event ++ previous_hash)

  abbrev pub concat : List Text → Text
  concat [] = []
  concat (h ∷ hs) = h ++ concat hs

  unfoldable pub compute_block_hash : List Text → Text
  compute_block_hash event_hashes = prim.sha256 (concat event_hashes)

abbrev pub or_genesis : Option Text → Text
or_genesis none = genesis_hash
or_genesis (some h) = h

-- The last line that is not empty, given the lines from the last on.
abbrev pub hash_from_last : List Line → Text
hash_from_last [] = genesis_hash
hash_from_last (blank ∷ lines) = hash_from_last lines
hash_from_last (malformed current ∷ lines) = or_genesis current
hash_from_last (block_signature s ∷ lines) = genesis_hash
hash_from_last (chained event previous current ∷ lines) = or_genesis current

unfoldable pub read_previous_hash : List Line → Text
read_previous_hash lines = hash_from_last (reverse lines)

pub data ArtifactWriterError : Type 0 where
  read_signature_state_error : ℕ → ArtifactWriterError
  signing_key : ArtifactWriterError

pub data Result {ℓ} (E A : Type ℓ) : Type ℓ where
  ok : A → Result E A
  error : E → Result E A

pub record AuditSignatureState : Type 0 where
  pub events : List Text
  pub signatures : List BlockSignature

-- The loop of `read_signature_state` from line `index` on.
unfoldable pub signature_state_from :
    ℕ → AuditSignatureState → List Line → Result ArtifactWriterError AuditSignatureState
signature_state_from index state [] = ok state
signature_state_from index state (blank ∷ lines) = signature_state_from (index + 1) state lines
signature_state_from index state (malformed current ∷ lines) =
    error (read_signature_state_error (index + 1))
signature_state_from index state (block_signature s ∷ lines) =
    signature_state_from (index + 1) (record state { signatures = state.signatures ++ s ∷ [] })
      lines
signature_state_from index state (chained event previous none ∷ lines) =
    signature_state_from (index + 1) state lines
signature_state_from index state (chained event previous (some current) ∷ lines) =
    signature_state_from (index + 1) (record state { events = state.events ++ current ∷ [] }) lines

unfoldable pub read_signature_state : List Line → Result ArtifactWriterError AuditSignatureState
unfolding signature_state_from
read_signature_state lines = signature_state_from 0 (record { events = []; signatures = [] }) lines

unfoldable pub is_terminal_event : AuditEvent → Bool
is_terminal_event event = elim event.event [
  | process_exited _ _ ↦ true
  | permission_blocked _ _ ↦ true
  | _ ↦ false
]

-- What the environment variables of the writer select; a key file may fail to load.
pub data SigningKey : Type 0 where
  unusable : SigningKey
  loaded : (Text → Text) → Text → SigningKey

pub record WriterConfig : Type 0 where
  pub hash_chain : Bool
  pub signing : Option SigningKey
  pub block_size : ℕ

-- The first index behind all signed blocks.
abbrev pub next_start : List BlockSignature → ℕ
next_start [] = 0
next_start (s ∷ ss) = max (s.block_end + 1) (next_start ss)

-- `events[start..=last]`.
abbrev pub slice : ℕ → ℕ → List Text → List Text
slice start last events = take (last + 1 - start) (drop start events)

unfoldable pub build_block :
    Primitives → SigningKey → ℕ → List Text → Result ArtifactWriterError (Option BlockSignature)
unfolding compute_block_hash
build_block prim unusable start events = error signing_key
build_block prim (loaded sign fingerprint) start events =
    let block_end = length events - 1 in
    let block_hash = compute_block_hash prim (slice start block_end events) in
    ok (
      some (record {
        block_start = start;
        block_end = block_end;
        block_hash = block_hash;
        signature = sign block_hash;
        public_key_fingerprint = fingerprint;
      }))

-- `maybe_build_signature` behind the read of the state.
unfoldable pub maybe_close_block :
    Primitives
    → SigningKey
    → AuditEvent
    → ℕ
    → AuditSignatureState
    → Result ArtifactWriterError (Option BlockSignature)
unfolding build_block is_terminal_event
maybe_close_block prim key event block_size state =
    let start = next_start state.signatures in
    if leb (length state.events) start
    then ok none
    else if leb block_size (length state.events - start) || is_terminal_event event
    then build_block prim key start state.events
    else ok none

unfoldable pub maybe_build_signature :
    Primitives
    → WriterConfig
    → List Line
    → AuditEvent
    → Result ArtifactWriterError (Option BlockSignature)
unfolding maybe_close_block read_signature_state
maybe_build_signature prim config lines event = elim config.signing [
  | none ↦ ok none
  | some key ↦ elim (read_signature_state lines) [
    | error e ↦ error e
    | ok state ↦ maybe_close_block prim key event config.block_size state
  ]
]

abbrev pub is_some : Option SigningKey → Bool
is_some none = false
is_some (some key) = true

-- The line that is written for an event when the chain is on.
unfoldable pub chained_line : Primitives → List Line → AuditEvent → Line
unfolding compute_event_hash read_previous_hash
chained_line prim lines event =
    let previous = read_previous_hash lines in
    chained event (some previous) (some (compute_event_hash prim event previous))

-- What follows the write of the event's line.
abbrev pub write_signature :
    List Line
    → Result ArtifactWriterError (Option BlockSignature)
    → List Line × Option ArtifactWriterError
write_signature written (error e) = (written, some e)
write_signature written (ok none) = (written, none)
write_signature written (ok (some signature)) = (written ++ block_signature signature ∷ [], none)

-- The log afterwards, and the error if there was one: the event's line stays when the signature
-- behind it fails.
unfoldable pub append_audit_event :
    Primitives → WriterConfig → List Line → AuditEvent → List Line × Option ArtifactWriterError
unfolding chained_line maybe_build_signature
append_audit_event prim config lines event =
    if config.hash_chain || is_some config.signing
    then (let written = lines ++ chained_line prim lines event ∷ [] in
        write_signature written (maybe_build_signature prim config written event))
    else (lines ++ chained event none none ∷ [], none)

-- All events of a run, one after the other; the caller stops at the first error.
unfoldable pub append_all :
    Primitives → WriterConfig → List Line → List AuditEvent → List Line × Option ArtifactWriterError
append_all prim config lines [] = (lines, none)
append_all prim config lines (event ∷ events) =
    let (written, failed) = append_audit_event prim config lines event in
    elim failed [ none ↦ append_all prim config written events | some e ↦ (written, some e) ]
