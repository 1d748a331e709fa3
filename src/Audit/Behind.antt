-- ===== src/Audit/Behind.antt =====
-- Events that the writer appends behind a block signature.
use claw_crate.Base.{
  ℕ, ◌+◌, Text, ◌≡◌, refl, sym, ap, ◌∙◌, subst, ◌≢◌, inl, inr, Bool, true, false, Option, none,
  some, List, [], ◌∷◌, ◌++◌, append_assoc, length, length-append, text_eq, text_eq_iff, arith,
  Bool-cases,
}
use mathlib.Core.List.{reverse-append}
use claw_crate.Audit.Log.{
  Line, blank, malformed, block_signature, chained, AuditEvent, BlockSignature, Primitives,
  genesis_hash, compute_event_hash, WriterConfig, append_audit_event, chained_line,
  read_previous_hash, Result, ok, error, ArtifactWriterError, write_signature,
  maybe_build_signature,
}
use claw_crate.Audit.Verify.{
  Outcome, ok, err, Walk, walk_start, next, check_hashes, count_event, verify_line, verify_from,
  PublicKey, not_given, unusable, usable, verify_audit_chain_with_pubkey,
}
use claw_crate.Audit.Evidence.{
  IsValid, verify_line-next, last_current, last_current-cons, verify_from-cons, after, Step-cases,
  return_not-IsValid,
}

module _ (prim : Primitives) where
  -- The walk from a line on comes to the end of the lines with these variables.
  Reaches : Bool → ℕ → List Line → Walk → Walk → Type 0
  Reaches has_key i [] w v = w ≡ v
  Reaches has_key i (line ∷ lines) w v =
      (w' : Walk) × (verify_line prim has_key (i + 1) line w ≡ next w')
      × Reaches has_key (i + 1) lines w' v

  Reaches-of_valid :
      (has_key : Bool) (i : ℕ) (lines : List Line) (w : Walk)
      → IsValid (verify_from prim has_key i lines w)
      → (v : Walk) × Reaches has_key i lines w v
  unfolding Reaches
  Reaches-of_valid has_key i [] w h = (w, refl)
  Reaches-of_valid has_key i (line ∷ lines) w h =
      let h' = subst IsValid (verify_from-cons prim has_key i line lines w) h in
      elim (Step-cases prim (verify_line prim has_key (i + 1) line w)) [
        | inr (o, e) ↦ absurd (return_not-IsValid prim has_key (i + 1) line w o e (rw e at h'))
        | inl (w', e) ↦
            let (v, r) = Reaches-of_valid has_key (i + 1) lines w' (rw e at h') in (v, (w', e, r))
      ]

  verify_from-Reaches :
      (has_key : Bool) (i : ℕ) (lines rest : List Line) (w v : Walk)
      → Reaches has_key i lines w v
      → verify_from prim has_key i (lines ++ rest) w
        ≡ verify_from prim has_key (i + length lines) rest v
  unfolding Reaches
  verify_from-Reaches has_key i [] rest w v r =
      rw r (ap (λ n. verify_from prim has_key n rest v) (omega arith))
  verify_from-Reaches has_key i (line ∷ lines) rest w v (w', e, r) =
      verify_from-cons prim has_key i line (lines ++ rest) w
      ∙ ap (after prim has_key (i + 1) (lines ++ rest)) e
      ∙ verify_from-Reaches has_key (i + 1) lines rest w' v r
      ∙ ap (λ n. verify_from prim has_key n rest v) (omega arith)

  Reaches-last_current :
      (has_key : Bool) (i : ℕ) (lines : List Line) (w v : Walk)
      → Reaches has_key i lines w v
      → v.previous_hash ≡ last_current w.previous_hash lines
  unfolding Reaches
  Reaches-last_current has_key i [] w v r = rw r refl
  Reaches-last_current has_key i (line ∷ lines) w v (w', e, r) =
      Reaches-last_current has_key (i + 1) lines w' v r
      ∙ ap (λ h. last_current h lines) ((verify_line-next prim has_key (i + 1) line w w' e).1)
      ∙ sym (last_current-cons prim w.previous_hash line lines)

  abbrev pub IsTamperedAt : ℕ → Outcome → Type 0
  IsTamperedAt n (ok r) = (r.valid ≡ false) × (r.tampered_at ≡ some n)
  IsTamperedAt n (err e) = ⊥

  mismatch :
      (has_key : Bool) (n : ℕ) (e : AuditEvent) (g c : Text) (lines : List Line) (w : Walk)
      → w.previous_hash ≢ g
      → IsTamperedAt n (after prim has_key n lines (check_hashes prim n e g c w))
  unfolding check_hashes
  mismatch has_key n e g c lines w differ = elim (Bool-cases (text_eq g w.previous_hash)) [
    | inl same ↦ absurd (differ (sym ((text_eq_iff g w.previous_hash).0 same)))
    | inr other ↦ rw other (refl, refl)
  ]

  wrong_previous :
      (has_key : Bool) (i : ℕ) (e : AuditEvent) (g c : Text) (rest : List Line) (w : Walk)
      → w.previous_hash ≢ g
      → IsTamperedAt (i + 1) (verify_from prim has_key i (chained e (some g) (some c) ∷ rest) w)
  unfolding verify_line
  wrong_previous has_key i e g c rest w differ =
      subst (IsTamperedAt (i + 1))
        (sym (verify_from-cons prim has_key i (chained e (some g) (some c)) rest w))
        (mismatch has_key (i + 1) e g c rest (count_event prim e (some c) w) differ)

  write_signature-shape :
      (lines : List Line) (line : Line) (r : Result ArtifactWriterError (Option BlockSignature))
      → (rest : List Line) × ((write_signature (lines ++ line ∷ []) r).0 ≡ lines ++ line ∷ rest)
  write_signature-shape lines line (error e) = ([], refl)
  write_signature-shape lines line (ok none) = ([], refl)
  write_signature-shape lines line (ok (some s)) =
      (block_signature s ∷ [], append_assoc lines (line ∷ []) (block_signature s ∷ []))

  written_shape :
      (config : WriterConfig) (lines : List Line) (e : AuditEvent)
      → config.hash_chain ≡ true
      → (rest : List Line) × ((append_audit_event prim config lines e).0
          ≡ lines ++ chained_line prim lines e ∷ rest)
  unfolding append_audit_event
  written_shape config lines e on = rw on (
      write_signature-shape lines (chained_line prim lines e)
        (maybe_build_signature prim config (lines ++ chained_line prim lines e ∷ []) e))

  read_previous_hash-signature :
      (lines : List Line) (s : BlockSignature)
      → read_previous_hash (lines ++ block_signature s ∷ []) ≡ genesis_hash
  unfolding read_previous_hash
  read_previous_hash-signature lines s = rw reverse-append

  last_current-signature :
      (h : Text) (lines : List Line) (s : BlockSignature)
      → last_current h (lines ++ block_signature s ∷ []) ≡ last_current h lines
  last_current-signature h [] s = refl
  last_current-signature h (blank ∷ lines) s = last_current-signature h lines s
  last_current-signature h (malformed c ∷ lines) s = last_current-signature h lines s
  last_current-signature h (block_signature t ∷ lines) s = last_current-signature h lines s
  last_current-signature h (chained e p none ∷ lines) s = last_current-signature h lines s
  last_current-signature h (chained e p (some c) ∷ lines) s = last_current-signature c lines s

  chained_line-signature :
      (lines : List Line) (s : BlockSignature) (e : AuditEvent)
      → chained_line prim (lines ++ block_signature s ∷ []) e
        ≡ chained e (some genesis_hash) (some (compute_event_hash prim e genesis_hash))
  unfolding chained_line
  chained_line-signature lines s e =
      ap (λ g. chained e (some g) (some (compute_event_hash prim e g)))
        (read_previous_hash-signature lines s)

  behind_signature :
      (has_key : Bool) (config : WriterConfig) (lines : List Line) (s : BlockSignature)
      (e : AuditEvent)
      → config.hash_chain ≡ true
      → IsValid (verify_from prim has_key 0 (lines ++ block_signature s ∷ []) walk_start)
      → last_current genesis_hash lines ≢ genesis_hash
      → IsTamperedAt (length lines + 2) (
          verify_from prim has_key 0
            (append_audit_event prim config (lines ++ block_signature s ∷ []) e).0
            walk_start)
  behind_signature has_key config lines s e on h differ =
      let signed = lines ++ block_signature s ∷ [] in
      let (v, r) = Reaches-of_valid has_key 0 signed walk_start h in
      let (rest, shape) = written_shape config signed e on in
      let last =
        Reaches-last_current has_key 0 signed walk_start v r
        ∙ last_current-signature genesis_hash lines s in
      let found =
        ap (λ l. verify_from prim has_key 0 l walk_start)
          (shape ∙ ap (λ l. signed ++ l ∷ rest) (chained_line-signature lines s e))
        ∙ verify_from-Reaches has_key 0 signed _ walk_start v r in
      let n : 0 + length signed + 1 ≡ length lines + 2 =
        omega (arith, length-append lines (block_signature s ∷ [])) in
      subst
        (λ k.
          IsTamperedAt k
            (verify_from prim has_key 0 (append_audit_event prim config signed e).0 walk_start))
        n
        (subst (IsTamperedAt (0 + length signed + 1)) (sym found) (
          wrong_previous has_key (0 + length signed) e genesis_hash _ rest v
            (λ same. differ (sym last ∙ same))))

-- Where the chain is on: an event that the writer appends to an accepted log which ends in a block
-- signature, and whose last stored hash is not the first previous hash, makes the verifier report
-- the log as tampered with at that event's line, with every key and whatever the writer adds
-- behind it.
pub event_behind_signature_rejected :
    (prim : Primitives) (key : PublicKey) (config : WriterConfig) (lines : List Line)
    (s : BlockSignature) (e : AuditEvent)
    → config.hash_chain ≡ true
    → IsValid (verify_audit_chain_with_pubkey prim key (some (lines ++ block_signature s ∷ [])))
    → last_current genesis_hash lines ≢ genesis_hash
    → IsTamperedAt prim (length lines + 2) (
        verify_audit_chain_with_pubkey prim key
          (some (append_audit_event prim config (lines ++ block_signature s ∷ []) e).0))
unfolding verify_audit_chain_with_pubkey
event_behind_signature_rejected prim not_given config lines s e on h differ =
    behind_signature prim false config lines s e on h differ
event_behind_signature_rejected prim usable config lines s e on h differ =
    behind_signature prim true config lines s e on h differ
event_behind_signature_rejected prim unusable config lines s e on h differ = absurd h
