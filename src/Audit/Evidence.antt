-- ===== src/Audit/Evidence.antt =====
-- What a log that the verifier accepts is evidence of.
use claw_crate.Base.{
  ℕ, ◌+◌, Text, ◌≡◌, refl, sym, ap, ◌∙◌, subst, ◌⊎◌, inl, inr, Bool, true, false, none, some, List,
  [], ◌∷◌, ◌++◌, text_eq_iff, arith,
}
use claw_crate.Audit.Log.{
  Line, blank, malformed, block_signature, chained, AuditEvent, BlockSignature, Primitives,
  or_genesis, compute_event_hash,
}
use claw_crate.Audit.Verify.{
  Outcome, ok, err, Walk, Step, next, return, check_signature, check_hashes, count_event,
  verify_line, verify_from,
}

abbrev pub IsValid : Outcome → Type 0
IsValid (ok r) = r.valid ≡ true
IsValid (err e) = ⊥

-- The events of a log that carry a hash, and the last such hash.
abbrev pub checked : List Line → List AuditEvent
checked [] = []
checked (blank ∷ lines) = checked lines
checked (malformed c ∷ lines) = checked lines
checked (block_signature s ∷ lines) = checked lines
checked (chained event previous none ∷ lines) = checked lines
checked (chained event previous (some current) ∷ lines) = event ∷ checked lines

abbrev pub last_current : Text → List Line → Text
last_current h [] = h
last_current h (blank ∷ lines) = last_current h lines
last_current h (malformed c ∷ lines) = last_current h lines
last_current h (block_signature s ∷ lines) = last_current h lines
last_current h (chained event previous none ∷ lines) = last_current h lines
last_current h (chained event previous (some current) ∷ lines) = last_current current lines

module _ (prim : Primitives) where
  -- The hash of a whole list of events behind a hash.
  abbrev pub fold_hash : Text → List AuditEvent → Text
  fold_hash h [] = h
  fold_hash h (e ∷ es) = fold_hash (compute_event_hash prim e h) es

  abbrev pub after : Bool → ℕ → List Line → Step → Outcome
  after has_key index lines (return o) = o
  after has_key index lines (next w) = verify_from prim has_key index lines w

  pub verify_from-cons :
      (has_key : Bool) (index : ℕ) (line : Line) (lines : List Line) (w : Walk)
      → verify_from prim has_key index (line ∷ lines) w
        ≡ after has_key (index + 1) lines (verify_line prim has_key (index + 1) line w)
  unfolding verify_from
  verify_from-cons has_key index line lines w = ground arith

  -- A round for a hashed event that goes on has found the hashes that it expects.
  check_hashes-next :
      (n : ℕ) (event : AuditEvent) (previous current : Text) (w w' : Walk)
      → check_hashes prim n event previous current w ≡ next w'
      → (current ≡ compute_event_hash prim event w.previous_hash) × (w'.previous_hash ≡ current)
  unfolding check_hashes
  check_hashes-next n event previous current w w' h = ground (
    arith,
    text_eq_iff previous w.previous_hash,
    text_eq_iff (compute_event_hash prim event previous) current,
  )

  check_signature-next :
      (n : ℕ) (s : BlockSignature) (w w' : Walk)
      → check_signature prim n s w ≡ next w'
      → w'.previous_hash ≡ w.previous_hash
  unfolding check_signature
  check_signature-next n s w w' h = ground arith

  -- A round that goes on, by the line: what it does to the last hash.
  pub verify_line-next :
      (has_key : Bool) (n : ℕ) (line : Line) (w w' : Walk)
      → verify_line prim has_key n line w ≡ next w'
      → (w'.previous_hash ≡ fold_hash w.previous_hash (checked (line ∷ [])))
        × (w'.previous_hash ≡ last_current w.previous_hash (line ∷ []))
  unfolding verify_line
  verify_line-next has_key n blank w w' h = ground arith
  verify_line-next has_key n (malformed c) w w' h = ground arith
  verify_line-next false n (block_signature s) w w' h = ground arith
  verify_line-next true n (block_signature s) w w' h =
      (check_signature-next n s w w' h, check_signature-next n s w w' h)
  verify_line-next has_key n (chained event previous none) w w' h = ground arith
  verify_line-next has_key n (chained event previous (some current)) w w' h =
      let (a, b) =
        check_hashes-next n event (or_genesis previous) current
          (count_event prim event (some current) w) w' h in
      (b ∙ a, b)

  fold_hash-append :
      (h : Text) (es fs : List AuditEvent) → fold_hash h (es ++ fs) ≡ fold_hash (fold_hash h es) fs
  fold_hash-append h [] fs = refl
  fold_hash-append h (e ∷ es) fs = fold_hash-append (compute_event_hash prim e h) es fs

  checked-cons :
      (line : Line) (lines : List Line)
      → checked (line ∷ lines) ≡ checked (line ∷ []) ++ checked lines
  checked-cons blank lines = refl
  checked-cons (malformed c) lines = refl
  checked-cons (block_signature s) lines = refl
  checked-cons (chained event previous none) lines = refl
  checked-cons (chained event previous (some current)) lines = refl

  pub last_current-cons :
      (h : Text) (line : Line) (lines : List Line)
      → last_current h (line ∷ lines) ≡ last_current (last_current h (line ∷ [])) lines
  last_current-cons h blank lines = refl
  last_current-cons h (malformed c) lines = refl
  last_current-cons h (block_signature s) lines = refl
  last_current-cons h (chained event previous none) lines = refl
  last_current-cons h (chained event previous (some current)) lines = refl

  pub return_not-IsValid :
      (has_key : Bool) (n : ℕ) (line : Line) (w : Walk) (o : Outcome)
      → verify_line prim has_key n line w ≡ return o
      → ¬ IsValid o
  unfolding verify_line check_signature check_hashes
  return_not-IsValid has_key n blank w o h = ground arith
  return_not-IsValid has_key n (malformed c) w (ok r) h = ground arith
  return_not-IsValid has_key n (malformed c) w (err e) h = λ v. v
  return_not-IsValid false n (block_signature s) w o h = ground arith
  return_not-IsValid true n (block_signature s) w (ok r) h = ground arith
  return_not-IsValid true n (block_signature s) w (err e) h = λ v. v
  return_not-IsValid has_key n (chained event previous none) w o h = ground arith
  return_not-IsValid has_key n (chained event previous (some current)) w (ok r) h = ground arith
  return_not-IsValid has_key n (chained event previous (some current)) w (err e) h = λ v. v

  pub Step-cases : (s : Step) → ((w : Walk) × (s ≡ next w)) ⊎ ((o : Outcome) × (s ≡ return o))
  Step-cases (next w) = inl (w, refl)
  Step-cases (return o) = inr (o, refl)

  -- Behind an accepted log the last stored hash is that of the whole list of hashed events.
  pub verify_from-IsValid :
      (has_key : Bool) (index : ℕ) (lines : List Line) (w : Walk)
      → IsValid (verify_from prim has_key index lines w)
      → last_current w.previous_hash lines ≡ fold_hash w.previous_hash (checked lines)
  verify_from-IsValid has_key index [] w v = refl
  verify_from-IsValid has_key index (line ∷ lines) w v =
      let v' = subst IsValid (verify_from-cons has_key index line lines w) v in
      elim (Step-cases (verify_line prim has_key (index + 1) line w)) [
        | inr (o, e) ↦ absurd (return_not-IsValid has_key (index + 1) line w o e (rw e at v'))
        | inl (w', e) ↦
            let (a, b) = verify_line-next has_key (index + 1) line w w' e in
            let rest =
              verify_from-IsValid has_key (index + 1) lines w'
                (subst (λ s. IsValid (after has_key (index + 1) lines s)) e v') in
            last_current-cons w.previous_hash line lines
            ∙ ap (λ h. last_current h lines) (sym b)
            ∙ rest
            ∙ ap (λ h. fold_hash h (checked lines)) a
            ∙ sym (fold_hash-append w.previous_hash (checked (line ∷ [])) (checked lines))
            ∙ ap (fold_hash w.previous_hash) (sym (checked-cons line lines))
      ]
