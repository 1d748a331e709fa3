-- ===== src/Profiles/Chain/Nearest.antt =====
-- What a resolved chain of `extends` says: of each setting, what the nearest profile says that has
-- it.
use claw_crate.Base.{
  ℕ, zero, suc, ◌≡◌, refl, sym, subst, ap, ◌⊎◌, inl, inr, Text, true, false, Option, none, some,
  List, [], ◌∷◌, FilePath, any, path_eq, Bool-cases, Option-cases, arith,
}
use claw_crate.Profiles.Merge.{RawProfile, InheritedProfile, from_raw, merge_profiles, or}
use claw_crate.Profiles.Resolve.{Result, ok, err, ProfileError, inheritance_cycle}
use claw_crate.Profiles.Chain.{
  ProfileEntry, from_reference, file_path, parent, Store, over_base, resolve_entry,
}

-- The profiles along a chain with their files, the nearest first.
abbrev pub Chained : Type 0
Chained = List (RawProfile × FilePath)

pub data Lineage (store : Store) : ProfileEntry → Option FilePath → Chained → Type 0 where
  root :
      {entry : ProfileEntry} {relative_to : Option FilePath} {raw : RawProfile}
      → store.load entry (file_path entry relative_to store.profiles_dir) ≡ ok raw
      → raw.extends ≡ none
      → Lineage store entry relative_to ((raw, file_path entry relative_to store.profiles_dir) ∷ [])
  child :
      {entry : ProfileEntry} {relative_to : Option FilePath} {raw : RawProfile} {base : Text}
      {rest : Chained}
      → store.load entry (file_path entry relative_to store.profiles_dir) ≡ ok raw
      → raw.extends ≡ some base
      → Lineage store
          (from_reference base)
          (parent (file_path entry relative_to store.profiles_dir))
          rest
      → Lineage store entry relative_to
          ((raw, file_path entry relative_to store.profiles_dir) ∷ rest)

abbrev pub first_set : {A : Type 0} → (RawProfile → Option A) → Chained → Option A
first_set f [] = none
first_set f (link ∷ rest) = or (f link.0) (first_set f rest)

abbrev pub first_file : Chained → Option FilePath
first_file [] = none
first_file (link ∷ rest) = some link.1

abbrev pub IsNearest : Chained → InheritedProfile → Type 0
IsNearest l p =
    (p.name ≡ first_set (λ r. r.name) l)
    × (p.default_mode ≡ first_set (λ r. r.default_mode) l)
    × (p.filesystem.read ≡ first_set (λ r. r.filesystem.read) l)
    × (p.filesystem.write ≡ first_set (λ r. r.filesystem.write) l)
    × (p.filesystem.deny ≡ first_set (λ r. r.filesystem.deny) l)
    × (p.network ≡ first_set (λ r. r.network) l)
    × (p.environment.scrub ≡ first_set (λ r. r.environment.scrub) l)
    × (p.environment.passthrough ≡ first_set (λ r. r.environment.passthrough) l)
    × (p.resources.max_cpu_seconds ≡ first_set (λ r. r.resources.max_cpu_seconds) l)
    × (p.resources.max_memory_mb ≡ first_set (λ r. r.resources.max_memory_mb) l)
    × (p.resources.max_open_files ≡ first_set (λ r. r.resources.max_open_files) l)
    × (p.resources.max_processes ≡ first_set (λ r. r.resources.max_processes) l)
    × (p.resources.max_output_bytes ≡ first_set (λ r. r.resources.max_output_bytes) l)
    × (some p.source_path ≡ first_file l)

or_none : {A : Type 0} (o : Option A) → o ≡ or o none
or_none none = refl
or_none (some a) = refl

from_raw-IsNearest :
    (raw : RawProfile) (file : FilePath) → IsNearest ((raw, file) ∷ []) (from_raw raw file)
from_raw-IsNearest raw file = (
  or_none _,
  or_none _,
  or_none _,
  or_none _,
  or_none _,
  or_none _,
  or_none _,
  or_none _,
  or_none _,
  or_none _,
  or_none _,
  or_none _,
  or_none _,
  refl,
)

merge_profiles-IsNearest :
    (raw : RawProfile) (file : FilePath) (l : Chained) (base : InheritedProfile)
    → IsNearest l base
    → IsNearest ((raw, file) ∷ l) (merge_profiles base (from_raw raw file))
unfolding merge_profiles
merge_profiles-IsNearest raw file l base (a, b, c, d, e, f, g, h, i, j, k, m, n, o) = (
  ap (or _) a,
  ap (or _) b,
  ap (or _) c,
  ap (or _) d,
  ap (or _) e,
  ap (or _) f,
  ap (or _) g,
  ap (or _) h,
  ap (or _) i,
  ap (or _) j,
  ap (or _) k,
  ap (or _) m,
  ap (or _) n,
  refl,
)

Result-cases :
    {A : Type 0} (r : Result A) → ((a : A) × (r ≡ ok a)) ⊎ ((e : ProfileError) × (r ≡ err e))
Result-cases (ok a) = inl (a, refl)
Result-cases (err e) = inr (e, refl)

module _ (store : Store) (fuel : ℕ) (entry : ProfileEntry) (relative_to : Option FilePath)
    (visited : List FilePath) where
  abbrev pub file : FilePath
  file = file_path entry relative_to store.profiles_dir

  -- One call, by the four ways that it goes.
  pub data Call : Option (Result InheritedProfile) → Type 0 where
    cycle : any (path_eq file) visited ≡ true → Call (some (err (inheritance_cycle file)))
    unloaded :
        {e : ProfileError}
        → any (path_eq file) visited ≡ false
        → store.load entry file ≡ err e
        → Call (some (err e))
    at_root :
        {raw : RawProfile}
        → any (path_eq file) visited ≡ false
        → store.load entry file ≡ ok raw
        → raw.extends ≡ none
        → Call (some (ok (from_raw raw file)))
    below :
        {raw : RawProfile} {base : Text}
        → any (path_eq file) visited ≡ false
        → store.load entry file ≡ ok raw
        → raw.extends ≡ some base
        → Call (
            over_base raw file
              (resolve_entry store fuel (from_reference base) (parent file) (file ∷ visited)))

  pub resolve_entry-Call : Call (resolve_entry store (suc fuel) entry relative_to visited)
  unfolding resolve_entry
  resolve_entry-Call = elim (Bool-cases (any (path_eq file) visited)) [
    | inl seen ↦ rw seen (cycle seen)
    | inr new ↦ elim (Result-cases (store.load entry file)) [
      | inr (e, failed) ↦ rw (new, failed) (unloaded new failed)
      | inl (raw, loaded) ↦ elim (Option-cases raw.extends) [
        | inl root_there ↦ rw (new, loaded, root_there) (at_root new loaded root_there)
        | inr (base, extends) ↦ rw (new, loaded, extends) (below new loaded extends)
      ]
    ]
  ]

over_base-ok :
    (raw : RawProfile) (file : FilePath) (o : Option (Result InheritedProfile))
    (p : InheritedProfile)
    → over_base raw file o ≡ some (ok p)
    → (base : InheritedProfile) × (o ≡ some (ok base))
      × (p ≡ merge_profiles base (from_raw raw file))
over_base-ok raw file none p h = ground arith
over_base-ok raw file (some (err e)) p h = ground arith
over_base-ok raw file (some (ok base)) p h = (base, refl, ground arith)

abbrev HasLineage : Store → ProfileEntry → Option FilePath → InheritedProfile → Type 0
HasLineage store entry relative_to p =
    (l : Chained) × Lineage store entry relative_to l × IsNearest l p

Call-HasLineage :
    (store : Store) (fuel : ℕ) (entry : ProfileEntry) (relative_to : Option FilePath)
    (visited : List FilePath) (p : InheritedProfile)
    → ((base : Text) (b : InheritedProfile)
        → resolve_entry store fuel
            (from_reference base)
            (parent (file_path entry relative_to store.profiles_dir))
            (file_path entry relative_to store.profiles_dir ∷ visited)
          ≡ some (ok b)
        → HasLineage store
            (from_reference base)
            (parent (file_path entry relative_to store.profiles_dir))
            b)
    → (o : Option (Result InheritedProfile)) → Call store fuel entry relative_to visited o
    → o ≡ some (ok p)
    → HasLineage store entry relative_to p
Call-HasLineage store fuel entry relative_to visited p rec o (cycle seen) e = ground arith
Call-HasLineage store fuel entry relative_to visited p rec o (unloaded new failed) e = ground arith
Call-HasLineage store fuel entry relative_to visited p rec o
      (at_root {raw = raw} new loaded extends) e =
    let same : from_raw raw (file_path entry relative_to store.profiles_dir) ≡ p = ground arith in
    (
      _,
      root loaded extends,
      subst (IsNearest ((raw, file_path entry relative_to store.profiles_dir) ∷ [])) same
          (from_raw-IsNearest raw _),
    )
Call-HasLineage store fuel entry relative_to visited p rec o
      (below {raw = raw} {base = base} new loaded extends) e =
    let f = file_path entry relative_to store.profiles_dir in
    let (b, resolved, same) = over_base-ok raw f _ p e in
    let (l, lineage, nearest) = rec base b resolved in
    (
      (raw, f) ∷ l,
      child loaded extends lineage,
      subst (IsNearest ((raw, f) ∷ l)) (sym same) (merge_profiles-IsNearest raw f l b nearest),
    )

-- An entry that resolves to a profile starts a chain of profiles that can be loaded, each the one
-- that its predecessor extends, up to one that extends none; and the result has of every setting
-- the value in the nearest profile of the chain that has one, and the file of the first.
pub resolve_entry-IsNearest :
    (store : Store) (fuel : ℕ) (entry : ProfileEntry) (relative_to : Option FilePath)
    (visited : List FilePath) (p : InheritedProfile)
    → resolve_entry store fuel entry relative_to visited ≡ some (ok p)
    → (l : Chained) × Lineage store entry relative_to l × IsNearest l p
resolve_entry-IsNearest store zero entry relative_to visited p h =
    unfold resolve_entry in ground arith
resolve_entry-IsNearest store (suc fuel) entry relative_to visited p h =
    Call-HasLineage store fuel entry relative_to visited p
      (λ base b resolved.
        resolve_entry-IsNearest store fuel (from_reference base)
          (parent (file_path entry relative_to store.profiles_dir))
          (file_path entry relative_to store.profiles_dir ∷ visited) b resolved)
      (resolve_entry store (suc fuel) entry relative_to visited)
      (resolve_entry-Call store fuel entry relative_to visited) h
