-- ===== src/Audit/Collision.antt =====
-- The hashed lines of two accepted logs with one last hash tell one story, or show a collision of the hash.
use claw_crate.Base.{
  Text, ◌≡◌, refl, sym, ap, ◌∙◌, ◌≢◌, ◌⊎◌, inl, inr, true, false, some, List, [], ◌∷◌, ◌++◌, map,
  length, length-append, text_eq, text_eq_iff, arith, Bool-cases,
}
use claw_crate.Audit.Log.{Line, AuditEvent, Primitives, genesis_hash, compute_event_hash}
use claw_crate.Audit.Verify.{
  PublicKey, verify_audit_chain_with_pubkey, not_given, unusable, usable, walk_start,
}
use claw_crate.Audit.Evidence.{IsValid, checked, last_current, fold_hash, verify_from-IsValid}

-- Two texts that are split at the same distance from the end have the same parts.
append_injective : (a b c d : Text) → a ++ c ≡ b ++ d → length c ≡ length d → (a ≡ b) × (c ≡ d)
append_injective [] [] c d e l = (refl, e)
append_injective [] (y ∷ b) c d e l = absurd (omega (arith, ap length e, length-append b d))
append_injective (x ∷ a) [] c d e l = absurd (omega (arith, ap length e, length-append a c))
append_injective (x ∷ a) (y ∷ b) c d e l = let (p, q) = append_injective a b c d (cc) l in (cc, q)

module _ (prim : Primitives) where
  abbrev pub Collision : Type 0
  Collision = (s t : Text) × (s ≢ t) × (prim.sha256 s ≡ prim.sha256 t)

  -- The hash is a text of a fixed length, that of the first `previous_hash`.
  abbrev pub HasHashLength : Type 0
  HasHashLength = (t : Text) → length (prim.sha256 t) ≡ length genesis_hash

  abbrev Same : Text → Text → List AuditEvent → List AuditEvent → Type 0
  Same p q es fs = (p ≡ q) × (map prim.canonical_json es ≡ map prim.canonical_json fs)

  one_event :
      (p q : Text) (e f : AuditEvent)
      → length p ≡ length q
      → compute_event_hash prim e p ≡ compute_event_hash prim f q
      → ((p ≡ q) × (prim.canonical_json e ≡ prim.canonical_json f)) ⊎ Collision
  unfolding compute_event_hash
  one_event p q e f l h =
      let s = prim.canonical_json e ++ p in
      let t = prim.canonical_json f ++ q in
      elim (Bool-cases (text_eq s t)) [
        | inl same ↦
            let (a, b) =
              append_injective (prim.canonical_json e) (prim.canonical_json f) p q
                ((text_eq_iff s t).0 same) l in
            inl (b, a)
        | inr other ↦ inr (s, t, λ same. ground (arith, (text_eq_iff s t).1 same), h)
      ]

  compute-length :
      (h : HasHashLength) (e f : AuditEvent) (p q : Text)
      → length (compute_event_hash prim e p) ≡ length (compute_event_hash prim f q)
  unfolding compute_event_hash
  compute-length h e f p q = h _ ∙ sym (h _)

  fold_hash_injective :
      (es fs : List AuditEvent) (p q : Text)
      → HasHashLength
      → length p ≡ length q
      → length es ≡ length fs
      → fold_hash prim p es ≡ fold_hash prim q fs
      → Same p q es fs ⊎ Collision
  fold_hash_injective [] [] p q h l n e = inl (e, refl)
  fold_hash_injective [] (f ∷ fs) p q h l n e = absurd (omega arith)
  fold_hash_injective (x ∷ es) [] p q h l n e = absurd (omega arith)
  fold_hash_injective (x ∷ es) (f ∷ fs) p q h l n e =
      elim (fold_hash_injective es fs _ _ h (compute-length h x f p q) (omega arith) e) [
        | inr found ↦ inr found
        | inl (same, rest) ↦ elim (one_event p q x f l same) [
          | inr found ↦ inr found
          | inl (here, text) ↦ inl (here, cc)
        ]
      ]

-- A log accepted by the verifier, whatever key was given.
accepted-last :
    (prim : Primitives) (key : PublicKey) (lines : List Line)
    → IsValid (verify_audit_chain_with_pubkey prim key (some lines))
    → last_current genesis_hash lines ≡ fold_hash prim genesis_hash (checked lines)
unfolding verify_audit_chain_with_pubkey
accepted-last prim not_given lines v = verify_from-IsValid prim false 0 lines walk_start v
accepted-last prim usable lines v = verify_from-IsValid prim true 0 lines walk_start v
accepted-last prim unusable lines v = absurd v

-- Where every hash has the length of a SHA-256 text: of two logs that the verifier accepts, with as
-- many lines that store a hash and the same last stored hash, these lines have the same canonical
-- JSON of their events in the same order, or two different texts are found that the hash maps to one
-- value. Nothing is said of lines that store no hash.
pub accepted_logs_agree :
    (prim : Primitives) (key key' : PublicKey) (lines lines' : List Line)
    → HasHashLength prim
    → IsValid (verify_audit_chain_with_pubkey prim key (some lines))
    → IsValid (verify_audit_chain_with_pubkey prim key' (some lines'))
    → length (checked lines) ≡ length (checked lines')
    → last_current genesis_hash lines ≡ last_current genesis_hash lines'
    → (map prim.canonical_json (checked lines) ≡ map prim.canonical_json (checked lines'))
      ⊎ Collision prim
accepted_logs_agree prim key key' lines lines' h v v' n e =
    elim (fold_hash_injective prim (checked lines) (checked lines') genesis_hash genesis_hash h refl
      n (sym (accepted-last prim key lines v) ∙ e ∙ accepted-last prim key' lines' v')) [
        | inl (_, same) ↦ inl same
        | inr found ↦ inr found
      ]
