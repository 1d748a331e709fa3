-- ===== src/Audit/Tests.antt =====
-- Runs of the writer and the verifier with a small hash, and the theorems at such runs.
use claw_crate.Base.{
  ℕ, ◌+◌, ◌*◌, Text, codes, ◌≡◌, refl, ◌⊎◌, true, none, some, List, [], ◌∷◌, drop, arith, text_eq,
  map, pos,
}
use claw_crate.Audit.Log.{
  Line, BlockSignature, blank, block_signature, chained, AuditEvent, process_started,
  process_exited, Primitives, genesis_hash, WriterConfig, loaded, append_audit_event, append_all,
  compute_block_hash,
}
use claw_crate.Audit.Verify.{
  verify_from, verify_line, usable, not_given, verify_audit_chain_with_pubkey,
}
use claw_crate.Audit.Evidence.{IsValid, checked}
use claw_crate.Audit.Collision.{Collision, accepted_logs_agree}
use claw_crate.Audit.Honest.{IsClean, chain_only, verify-append_all}
use claw_crate.Audit.Unseen.{unhashed_line_unseen}
use claw_crate.Audit.Behind.{IsTamperedAt, event_behind_signature_rejected}

abbrev checksum : Text → ℕ
checksum [] = 7
checksum (c ∷ t) = c + 31 * checksum t

abbrev small : Primitives
small = record {
  canonical_json = λ e. e.timestamp ∷ [];
  sha256 = λ t. checksum t ∷ drop 1 genesis_hash;
  to_rfc3339 = λ n. n ∷ [];
  signature_holds = λ hash signature. text_eq hash signature;
}

abbrev started : AuditEvent
started = record { timestamp = 1; event = process_started 42 (codes "ls" ∷ []) }

abbrev exited : AuditEvent
exited = record { timestamp = 2; event = process_exited (pos 0) 15 }

-- Every event closes a block that is signed.
abbrev signing_each : WriterConfig
signing_each = record {
  hash_chain = true;
  signing = some (loaded (λ hash. hash) (codes "fp"));
  block_size = 1;
}

abbrev started_line : Line
started_line =
    chained started (some genesis_hash) (some (checksum (1 ∷ genesis_hash) ∷ drop 1 genesis_hash))

abbrev signed_log : List Line
signed_log = (append_audit_event small signing_each [] started).0

signed_log-accepted : IsValid (verify_audit_chain_with_pubkey small usable (some signed_log))
unfolding verify_audit_chain_with_pubkey verify_from verify_line append_audit_event
signed_log-accepted = refl

plain_log-accepted :
    IsValid (verify_audit_chain_with_pubkey small not_given (some (started_line ∷ blank ∷ [])))
unfolding verify_audit_chain_with_pubkey verify_from verify_line
plain_log-accepted = refl

accepted_logs_agree_example :
    (map small.canonical_json (checked signed_log)
      ≡ map small.canonical_json (checked (started_line ∷ blank ∷ [])))
    ⊎ Collision small
unfolding append_audit_event
accepted_logs_agree_example =
    accepted_logs_agree small usable not_given signed_log (started_line ∷ blank ∷ []) (λ t. refl)
      signed_log-accepted plain_log-accepted refl refl

verify-append_all_example :
    ((append_all small chain_only [] (started ∷ exited ∷ [])).1 ≡ none)
    × IsClean small 2 (
        verify_audit_chain_with_pubkey small usable
          (some (append_all small chain_only [] (started ∷ exited ∷ [])).0))
verify-append_all_example = verify-append_all small usable started (exited ∷ []) (λ h. ground arith)

unhashed_line_unseen_example : IsValid (
    verify_audit_chain_with_pubkey small usable
      (some (started_line ∷ chained exited none none ∷ [])))
unfolding verify_audit_chain_with_pubkey verify_from verify_line
unhashed_line_unseen_example =
    unhashed_line_unseen small usable (started_line ∷ []) [] exited none refl

abbrev signed_block : BlockSignature
signed_block = record {
  block_start = 0;
  block_end = 0;
  block_hash = compute_block_hash small ((checksum (1 ∷ genesis_hash) ∷ drop 1 genesis_hash) ∷ []);
  signature = compute_block_hash small ((checksum (1 ∷ genesis_hash) ∷ drop 1 genesis_hash) ∷ []);
  public_key_fingerprint = codes "fp";
}

-- The log of one event signed is what the example below goes on from.
signed_log-shape : signed_log ≡ started_line ∷ block_signature signed_block ∷ []
unfolding append_audit_event
signed_log-shape = refl

event_behind_signature_rejected_example : IsTamperedAt small 3 (
    verify_audit_chain_with_pubkey small usable (
      some
        (append_audit_event small signing_each
          (started_line ∷ block_signature signed_block ∷ [])
          exited).0))
unfolding verify_audit_chain_with_pubkey verify_from verify_line append_audit_event
event_behind_signature_rejected_example =
    event_behind_signature_rejected small usable signing_each (started_line ∷ []) signed_block
      exited refl refl (λ h. ground arith)
