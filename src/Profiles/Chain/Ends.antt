-- ===== src/Profiles/Chain/Ends.antt =====
-- Resolution ends where profiles can be loaded at finitely many paths only, as they are spelled.
use claw_crate.Base.{
  ℕ, zero, suc, ◌+◌, ◌≤◌, ◌<◌, ◌≡◌, refl, sym, ap, ◌∙◌, subst, ◌≢◌, inl, inr, Text, false, Option,
  none, some, List, [], ◌∷◌, length, Any, any, FilePath, path_eq, path_eq_iff, arith,
}
use claw_crate.Profiles.Merge.{RawProfile, InheritedProfile}
use claw_crate.Profiles.Resolve.{Result, ok, err}
use claw_crate.Profiles.Chain.{
  ProfileEntry, from_reference, file_path, parent, Store, over_base, resolve_entry,
}
use claw_crate.Profiles.Chain.Nearest.{Call, cycle, unloaded, at_root, below, resolve_entry-Call}

abbrev pub In : FilePath → List FilePath → Type 0
In p ps = Any (λ q. p ≡ q) ps

abbrev IsDistinct : List FilePath → Type 0
IsDistinct [] = Unit
IsDistinct (p ∷ ps) = (¬ In p ps) × IsDistinct ps

-- A list that holds a path is a shorter one with the others, and it.
without :
    (p : FilePath) (qs : List FilePath)
    → In p qs
    → (rest : List FilePath) × (length qs ≡ suc (length rest))
      × ((r : FilePath) → In r qs → r ≢ p → In r rest)
without p [] i = absurd i
without p (q ∷ qs) (inl e) =
    (qs, refl, λ r i other. elim i [ inl e' ↦ absurd (other (e' ∙ sym e)) | inr i' ↦ i' ])
without p (q ∷ qs) (inr i) =
    let (rest, n, others) = without p qs i in
    (
      q ∷ rest,
      ap suc n,
      λ r i' other. elim i' [ inl e ↦ inl e | inr i'' ↦ inr (others r i'' other) ],
    )

-- Distinct paths, all in a list, are no more than the list has.
distinct-length :
    (ps qs : List FilePath)
    → IsDistinct ps
    → ((r : FilePath) → In r ps → In r qs)
    → length ps ≤ length qs
distinct-length [] qs d i = omega arith
distinct-length (p ∷ ps) qs d i =
    let (rest, n, others) = without p qs (i p (inl refl)) in
    let below =
      distinct-length ps rest (d.1)
        (λ r in_ps. others r (i r (inr in_ps)) (λ same. d.0 (subst (λ x. In x ps) same in_ps))) in
    omega (arith, below, n)

not_seen : (p : FilePath) (ps : List FilePath) → any (path_eq p) ps ≡ false → ¬ In p ps
not_seen p [] h i = i
not_seen p (q ∷ qs) h (inl e) = ground (arith, path_eq_iff p q)
not_seen p (q ∷ qs) h (inr i) = not_seen p qs (ground arith) i

-- Only at these paths, as they are spelled with their `..`, can profiles be loaded.
abbrev pub HoldProfiles : Store → List FilePath → Type 0
HoldProfiles store paths =
    (entry : ProfileEntry) (relative_to : Option FilePath) (raw : RawProfile)
    → store.load entry (file_path entry relative_to store.profiles_dir) ≡ ok raw
    → In (file_path entry relative_to store.profiles_dir) paths

over_base-returns :
    (raw : RawProfile) (file : FilePath) (o : Option (Result InheritedProfile))
    → o ≢ none
    → over_base raw file o ≢ none
over_base-returns raw file none r = λ h. r refl
over_base-returns raw file (some (ok b)) r = λ h. ground arith
over_base-returns raw file (some (err e)) r = λ h. ground arith

module _ (store : Store) (paths : List FilePath) (hold : HoldProfiles store paths) where
  abbrev Above : List FilePath → Type 0
  Above visited = IsDistinct visited × ((r : FilePath) → In r visited → In r paths)

  Call-returns :
      (fuel : ℕ) (entry : ProfileEntry) (relative_to : Option FilePath) (visited : List FilePath)
      → Above visited
      → ((base : Text)
          → Above (file_path entry relative_to store.profiles_dir ∷ visited)
          → resolve_entry store fuel
              (from_reference base)
              (parent (file_path entry relative_to store.profiles_dir))
              (file_path entry relative_to store.profiles_dir ∷ visited)
            ≢ none)
      → (o : Option (Result InheritedProfile)) → Call store fuel entry relative_to visited o
      → o ≢ none
  Call-returns fuel entry relative_to visited above rec o (cycle seen) = λ h. ground arith
  Call-returns fuel entry relative_to visited above rec o (unloaded new failed) = λ h. ground arith
  Call-returns fuel entry relative_to visited above rec o (at_root new loaded extends) =
      λ h. ground arith
  Call-returns fuel entry relative_to visited above rec o
        (below {raw = raw} {base = base} new loaded extends) =
      over_base-returns raw _ _ (
        rec base (
          (not_seen _ visited new, above.0),
          λ r i. elim i [
            | inl e ↦ subst (λ x. In x paths) (sym e) (hold entry relative_to raw loaded)
            | inr i' ↦ above.1 r i'
          ],
        ))

  resolve_from-returns :
      (fuel : ℕ) (entry : ProfileEntry) (relative_to : Option FilePath) (visited : List FilePath)
      → Above visited
      → length paths < fuel + length visited
      → resolve_entry store fuel entry relative_to visited ≢ none
  resolve_from-returns zero entry relative_to visited above enough =
      absurd (omega (arith, enough, distinct-length visited paths (above.0) (above.1)))
  resolve_from-returns (suc fuel) entry relative_to visited above enough =
      Call-returns fuel entry relative_to visited above
        (λ base above'.
          resolve_from-returns fuel (from_reference base)
            (parent (file_path entry relative_to store.profiles_dir))
            (file_path entry relative_to store.profiles_dir ∷ visited) above' (omega arith))
        (resolve_entry store (suc fuel) entry relative_to visited)
        (resolve_entry-Call store fuel entry relative_to visited)

-- Where all paths at which profiles can be loaded, as they are spelled with their `..`, are in a list,
-- fuel above its length is enough: resolving an entry returns a profile or an error, also where a
-- chain comes back to a path that is spelled as before.
pub resolve_entry-returns :
    (store : Store) (paths : List FilePath) (fuel : ℕ) (entry : ProfileEntry)
    → HoldProfiles store paths
    → length paths < fuel
    → resolve_entry store fuel entry none [] ≢ none
resolve_entry-returns store paths fuel entry hold enough =
    resolve_from-returns store paths hold fuel entry none [] (ground arith, λ r i. absurd i)
      (omega arith)
