-- ===== src/Audit/Unseen.antt =====
-- Lines of events without a hash: no check of the chain sees them.
use claw_crate.Base.{
  ℕ, ◌+◌, Text, ◌≡◌, refl, sym, subst, inl, inr, Bool, true, false, Option, none, some, List, [],
  ◌∷◌, ◌++◌, arith,
}
use claw_crate.Audit.Log.{
  Line, blank, malformed, block_signature, chained, AuditEvent, BlockSignature, Primitives,
  or_genesis,
}
use claw_crate.Audit.Verify.{
  Walk, walk_start, Step, next, return, check_hashes, check_signature, count_event, verify_line,
  verify_from, finish, PublicKey, not_given, unusable, usable, verify_audit_chain_with_pubkey,
}
use claw_crate.Audit.Evidence.{IsValid, verify_from-cons, Step-cases, return_not-IsValid}

module _ (prim : Primitives) where
  -- Two states of the walk that later lines are checked against alike.
  record Agree (w v : Walk) : Type 0 where
    previous : w.previous_hash ≡ v.previous_hash
    hashes : w.event_hashes ≡ v.event_hashes
    fields : (w.has_chain_fields ≡ true) → (v.has_chain_fields ≡ true)

  AgreeStep : Step → Step → Type 0
  AgreeStep (next w) (next v) = Agree w v
  AgreeStep (next w) (return o) = ⊥
  AgreeStep (return o) s = Unit

  check_signature-Agree :
      (n m : ℕ) (s : BlockSignature) (w v : Walk)
      → Agree w v
      → AgreeStep (check_signature prim n s w) (check_signature prim m s v)
  unfolding check_signature AgreeStep
  check_signature-Agree n m s w v a = ground arith

  check_hashes-Agree :
      (n m : ℕ) (e : AuditEvent) (p c : Text) (w v : Walk)
      → Agree w v
      → AgreeStep (check_hashes prim n e p c w) (check_hashes prim m e p c v)
  unfolding check_hashes AgreeStep
  check_hashes-Agree n m e p c w v a = ground arith

  verify_line-Agree :
      (has_key : Bool) (n m : ℕ) (line : Line) (w v : Walk)
      → Agree w v
      → AgreeStep (verify_line prim has_key n line w) (verify_line prim has_key m line v)
  unfolding verify_line AgreeStep
  verify_line-Agree has_key n m blank w v a = a
  verify_line-Agree has_key n m (malformed c) w v a = ground arith
  verify_line-Agree false n m (block_signature s) w v a = a
  verify_line-Agree true n m (block_signature s) w v a = check_signature-Agree n m s w v a
  verify_line-Agree has_key n m (chained e p none) w v a = ground arith
  verify_line-Agree has_key n m (chained e p (some c)) w v a =
      check_hashes-Agree n m e (or_genesis p) c (count_event prim e (some c) w)
        (count_event prim e (some c) v) (ground arith)

  finish-Agree : (w v : Walk) → Agree w v → IsValid (finish prim w) → IsValid (finish prim v)
  finish-Agree w v a h = ground (arith, a.fields)

  verify_from-Agree :
      (has_key : Bool) (i j : ℕ) (lines : List Line) (w v : Walk)
      → Agree w v
      → IsValid (verify_from prim has_key i lines w)
      → IsValid (verify_from prim has_key j lines v)
  unfolding AgreeStep
  verify_from-Agree has_key i j [] w v a h =
      unfold verify_from in finish-Agree w v a (unfold verify_from in h)
  verify_from-Agree has_key i j (line ∷ lines) w v a h =
      let h' = subst IsValid (verify_from-cons prim has_key i line lines w) h in
      subst IsValid (sym (verify_from-cons prim has_key j line lines v))
        (elim (Step-cases prim (verify_line prim has_key (i + 1) line w)) [
          | inr (o, e) ↦ absurd (return_not-IsValid prim has_key (i + 1) line w o e (rw e at h'))
          | inl (w', e) ↦ elim (Step-cases prim (verify_line prim has_key (j + 1) line v)) [
            | inr (o, e') ↦
                absurd (rw (e, e') at (verify_line-Agree has_key (i + 1) (j + 1) line w v a))
            | inl (v', e') ↦ rw e' (
                verify_from-Agree has_key (i + 1) (j + 1) lines w' v'
                  (rw (e, e') at (verify_line-Agree has_key (i + 1) (j + 1) line w v a))
                  (rw e at h'))
          ]
        ])

  insert_from :
      (has_key : Bool) (i : ℕ) (lines rest : List Line) (e : AuditEvent) (p : Option Text)
      (w : Walk)
      → IsValid (verify_from prim has_key i (lines ++ rest) w)
      → IsValid (verify_from prim has_key i (lines ++ chained e p none ∷ rest) w)
  insert_from has_key i [] rest e p w h =
      subst IsValid (sym (verify_from-cons prim has_key i (chained e p none) rest w)) (
        unfold verify_line in
        verify_from-Agree has_key i (i + 1) rest w (count_event prim e none w)
          (record { previous = refl; hashes = refl; fields = λ x. ground arith }) h)
  insert_from has_key i (line ∷ lines) rest e p w h =
      let h' = subst IsValid (verify_from-cons prim has_key i line (lines ++ rest) w) h in
      subst IsValid
        (sym (verify_from-cons prim has_key i line (lines ++ chained e p none ∷ rest) w))
        (elim (Step-cases prim (verify_line prim has_key (i + 1) line w)) [
          | inr (o, f) ↦ absurd (return_not-IsValid prim has_key (i + 1) line w o f (rw f at h'))
          | inl (w', f) ↦ rw f (insert_from has_key (i + 1) lines rest e p w' (rw f at h'))
        ])

-- A line of an event that has no hash can be put anywhere into an accepted log, with any event and
-- any previous hash, and the log is still accepted, with every key.
pub unhashed_line_unseen :
    (prim : Primitives) (key : PublicKey) (lines rest : List Line) (e : AuditEvent)
    (p : Option Text)
    → IsValid (verify_audit_chain_with_pubkey prim key (some (lines ++ rest)))
    → IsValid (verify_audit_chain_with_pubkey prim key (some (lines ++ chained e p none ∷ rest)))
unfolding verify_audit_chain_with_pubkey
unhashed_line_unseen prim not_given lines rest e p h =
    insert_from prim false 0 lines rest e p walk_start h
unhashed_line_unseen prim usable lines rest e p h =
    insert_from prim true 0 lines rest e p walk_start h
unhashed_line_unseen prim unusable lines rest e p h = absurd h
