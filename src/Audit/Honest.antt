-- ===== src/Audit/Honest.antt =====
-- The verifier accepts what the writer has written with the chain on and no signing key.
use claw_crate.Base.{
  ℕ, ◌+◌, Text, ◌≡◌, refl, sym, ap, ◌∙◌, subst, ◌≢◌, Bool, true, false, Option, none, some, List,
  [], ◌∷◌, ◌++◌, append_assoc, append-nil, length, text_eq_iff, arith,
}
use mathlib.Core.List.{reverse-append}
use claw_crate.Audit.Log.{
  Line, chained, AuditEvent, Primitives, genesis_hash, compute_event_hash, WriterConfig,
  ArtifactWriterError, append_audit_event, append_all, chained_line, read_previous_hash,
  maybe_build_signature,
}
use claw_crate.Audit.Evidence.{verify_from-cons, after}
use claw_crate.Audit.Verify.{
  Outcome, err, ok, Walk, walk_start, next, check_hashes, count_event, verify_line, verify_from,
  finish, PublicKey, not_given, unusable, usable, verify_audit_chain_with_pubkey,
}

abbrev pub chain_only : WriterConfig
chain_only = record { hash_chain = true; signing = none; block_size = 100 }

read_previous_hash-append :
    (lines : List Line) (event : AuditEvent) (previous : Option Text) (current : Text)
    → read_previous_hash (lines ++ chained event previous (some current) ∷ []) ≡ current
unfolding read_previous_hash
read_previous_hash-append lines event previous current = rw reverse-append

module _ (prim : Primitives) where
  -- The lines of an unbroken chain behind a hash.
  pub chain : Text → List AuditEvent → List Line
  chain h [] = []
  chain h (e ∷ es) =
      chained e (some h) (some (compute_event_hash prim e h))
      ∷ chain (compute_event_hash prim e h) es

  append_one :
      (lines : List Line) (h : Text) (e : AuditEvent)
      → read_previous_hash lines ≡ h
      → append_audit_event prim chain_only lines e
        ≡ (lines ++ chained e (some h) (some (compute_event_hash prim e h)) ∷ [], none)
  unfolding append_audit_event maybe_build_signature chained_line
  append_one lines h e same = rw same

  -- What follows the append of one event.
  abbrev pub proceed :
      WriterConfig
      → List AuditEvent
      → List Line × Option ArtifactWriterError
      → List Line × Option ArtifactWriterError
  proceed config es (written, none) = append_all prim config written es
  proceed config es (written, some e) = (written, some e)

  pub append_all-cons :
      (config : WriterConfig) (lines : List Line) (e : AuditEvent) (es : List AuditEvent)
      → append_all prim config lines (e ∷ es)
        ≡ proceed config es (append_audit_event prim config lines e)
  unfolding append_all
  append_all-cons config lines e es = ground arith

  append_all-chain :
      (lines : List Line) (h : Text) (es : List AuditEvent)
      → read_previous_hash lines ≡ h
      → append_all prim chain_only lines es ≡ (lines ++ chain h es, none)
  unfolding append_all chain
  append_all-chain lines h [] same = rw append-nil
  append_all-chain lines h (e ∷ es) same =
      append_all-cons chain_only lines e es
      ∙ ap (proceed chain_only es) (append_one lines h e same)
      ∙ (append_all-chain (lines ++ chained e (some h) (some (compute_event_hash prim e h)) ∷ [])
            (compute_event_hash prim e h) es (read_previous_hash-append lines e (some h) _)
          ∙ ap (λ l. (l, none)) (append_assoc lines _ _))

  check_own :
      (n : ℕ) (e : AuditEvent) (w : Walk)
      → check_hashes prim n e w.previous_hash (compute_event_hash prim e w.previous_hash) w
        ≡ next (record w {
          previous_hash = compute_event_hash prim e w.previous_hash;
          event_hashes = w.event_hashes ++ compute_event_hash prim e w.previous_hash ∷ [];
        })
  unfolding check_hashes
  check_own n e w = ground (
    arith,
    text_eq_iff w.previous_hash w.previous_hash,
    text_eq_iff (compute_event_hash prim e w.previous_hash)
        (compute_event_hash prim e w.previous_hash),
  )

  abbrev counted_one : Walk → AuditEvent → Walk
  counted_one w e =
      let h = compute_event_hash prim e w.previous_hash in
      record (count_event prim e (some h) w) {
        previous_hash = h;
        event_hashes = w.event_hashes ++ h ∷ [];
      }

  -- The variables of the verifier behind a chain.
  abbrev counted : Walk → List AuditEvent → Walk
  counted w [] = w
  counted w (e ∷ es) = counted (counted_one w e) es

  verify_own_line :
      (has_key : Bool) (n : ℕ) (e : AuditEvent) (w : Walk)
      → verify_line prim has_key n
          (chained e (some w.previous_hash) (some (compute_event_hash prim e w.previous_hash)))
          w
        ≡ next (counted_one w e)
  unfolding verify_line
  verify_own_line has_key n e w =
      check_own n e (count_event prim e (some (compute_event_hash prim e w.previous_hash)) w)

  verify_from-chain :
      (has_key : Bool) (index : ℕ) (es : List AuditEvent) (w : Walk)
      → verify_from prim has_key index (chain w.previous_hash es) w ≡ finish prim (counted w es)
  unfolding chain
  verify_from-chain has_key index [] w = unfold verify_from in refl
  verify_from-chain has_key index (e ∷ es) w =
      let h = compute_event_hash prim e w.previous_hash in
      verify_from-cons prim has_key index (chained e (some w.previous_hash) (some h)) (chain h es) w
      ∙ ap (after prim has_key (index + 1) (chain h es)) (verify_own_line has_key (index + 1) e w)
      ∙ verify_from-chain has_key (index + 1) es (counted_one w e)

  counted-fields :
      (w : Walk) (e : AuditEvent) (es : List AuditEvent)
      → ((counted w (e ∷ es)).has_chain_fields ≡ true)
        × ((counted w (e ∷ es)).events_checked ≡ w.events_checked + length (e ∷ es))
        × ((counted w (e ∷ es)).signatures_checked ≡ w.signatures_checked)
  counted-fields w e [] = ground arith
  counted-fields w e (f ∷ es) =
      let (a, b, c) = counted-fields (counted_one w e) f es in (a, omega arith, c)

  abbrev pub IsClean : ℕ → Outcome → Type 0
  IsClean n (ok r) =
      (r.valid ≡ true)
      × (r.events_checked ≡ n)
      × (r.signatures_checked ≡ 0)
      × (r.tampered_at ≡ none)
  IsClean n (err e) = ⊥

  finish-IsClean :
      (n : ℕ) (w : Walk)
      → w.has_chain_fields ≡ true
      → w.events_checked ≡ n
      → w.signatures_checked ≡ 0
      → IsClean n (finish prim w)
  finish-IsClean n w h e s = rw h (refl, e, s, refl)

  honest_from :
      (has_key : Bool) (e : AuditEvent) (es : List AuditEvent)
      → IsClean
          (length (e ∷ es))
          (verify_from prim has_key 0 (chain genesis_hash (e ∷ es)) walk_start)
  honest_from has_key e es =
      let (a, b, c) = counted-fields walk_start e es in
      subst (IsClean (length (e ∷ es))) (sym (verify_from-chain has_key 0 (e ∷ es) walk_start))
        (finish-IsClean (length (e ∷ es)) (counted walk_start (e ∷ es)) a (omega arith) c)

-- Writing any events, at least one, to an empty log with the hash chain on and no signing key
-- never fails, and the verifier then accepts the log, with no key or with a usable one: it reports
-- a valid log, all the events checked, no signature, and no tampered event.
pub verify-append_all :
    (prim : Primitives) (key : PublicKey) (event : AuditEvent) (events : List AuditEvent)
    → key ≢ unusable
    → ((append_all prim chain_only [] (event ∷ events)).1 ≡ none)
      × IsClean prim (length (event ∷ events)) (
          verify_audit_chain_with_pubkey prim key
            (some (append_all prim chain_only [] (event ∷ events)).0))
unfolding verify_audit_chain_with_pubkey
verify-append_all prim key event events usable_key =
    let same =
      append_all-chain prim [] genesis_hash (event ∷ events) (unfold read_previous_hash in refl) in
    (ap (λ r. r.1) same, rw same (accepts key usable_key))
  where
    accepts :
        (k : PublicKey)
        → k ≢ unusable
        → IsClean prim (length (event ∷ events)) (
            verify_audit_chain_with_pubkey prim k (some (chain prim genesis_hash (event ∷ events))))
    accepts not_given h = honest_from prim false event events
    accepts usable h = honest_from prim true event events
    accepts unusable h = absurd (h refl)
