-- ===== src/Profiles/Tests.antt =====
-- Runs of the resolution of profiles, and the theorems at such runs.
use claw_crate.Base.{
  ◌≡◌, refl, ◌≢◌, ◌⊎◌, inl, inr, Text, codes, Bool, true, false, Option, none, some, [], ◌∷◌,
  FilePath, path_eq, normal, root_dir, text_eq, arith, path_eq_iff,
}
use claw_crate.Profiles.Merge.{RawProfile, RawNetwork, config, from_raw, merge_profiles}
use claw_crate.Profiles.Resolve.{
  Result, ok, err, profile_not_found, inheritance_cycle, ResolvedProfile, no_network, direct,
  to_limits, to_path,
}
use claw_crate.Profiles.Chain.{path, Store, file_path, from_reference, resolve_entry}
use claw_crate.Profiles.Chain.Nearest.{Chained, Lineage, IsNearest, resolve_entry-IsNearest}
use claw_crate.Profiles.Chain.Climb.{up_and_down, climbing_cycle_unseen}
use claw_crate.Profiles.Chain.Ends.{HoldProfiles, resolve_entry-returns}

abbrev bare : Option Text → Option Text → RawProfile
bare name extends = record {
  name = name;
  extends = extends;
  default_mode = some (codes "replica");
  filesystem = record { read = none; write = some (codes "." ∷ []); deny = none };
  network = none;
  environment = record { scrub = none; passthrough = none };
  resources = record {
    max_cpu_seconds = none;
    max_memory_mb = none;
    max_open_files = none;
    max_processes = some 7;
    max_output_bytes = none;
  };
}

abbrev custom : FilePath
custom = root_dir ∷ normal (codes "p") ∷ normal (codes "c.yaml") ∷ []

abbrev loop : FilePath
loop = root_dir ∷ normal (codes "p") ∷ normal (codes "l.yaml") ∷ []

abbrev safe : FilePath
safe = normal (codes "profiles") ∷ normal (codes "safe.yaml") ∷ []

-- `/p/c.yaml` extends the profile of the name, and `/p/l.yaml` extends itself.
abbrev load_file : Bool → Bool → Bool → Result RawProfile
load_file true b c = ok (bare none (some (codes "safe")))
load_file false true c = ok (bare none (some (codes "l.yaml")))
load_file false false true = ok (bare (some (codes "safe")) none)
load_file false false false = err (profile_not_found [])

abbrev small : Store
small = record {
  profiles_dir = normal (codes "profiles") ∷ [];
  load = λ entry file. load_file (path_eq file custom) (path_eq file loop) (path_eq file safe);
}

resolved :
    resolve_entry small 4 (path custom) none []
    ≡ some (
        ok (
          merge_profiles
            (from_raw (bare (some (codes "safe")) none) safe)
            (from_raw (bare none (some (codes "safe"))) custom)))
unfolding resolve_entry file_path from_reference
resolved = refl

cyclic : resolve_entry small 4 (path loop) none [] ≡ some (err (inheritance_cycle loop))
unfolding resolve_entry file_path from_reference to_path text_eq
cyclic = refl

resolve_entry-IsNearest_example :
    (l : Chained) × Lineage small (path custom) none l
    × IsNearest l (
        merge_profiles
          (from_raw (bare (some (codes "safe")) none) safe)
          (from_raw (bare none (some (codes "safe"))) custom))
resolve_entry-IsNearest_example = resolve_entry-IsNearest small 4 (path custom) none [] _ resolved

load_file-ok :
    (a b c : Bool) (raw : RawProfile)
    → load_file a b c ≡ ok raw
    → (a ≡ true) ⊎ ((b ≡ true) ⊎ (c ≡ true))
load_file-ok true b c raw h = inl refl
load_file-ok false true c raw h = inr (inl refl)
load_file-ok false false true raw h = inr (inr refl)
load_file-ok false false false raw h = ground arith

small-HoldProfiles : HoldProfiles small (custom ∷ loop ∷ safe ∷ [])
small-HoldProfiles entry relative_to raw h =
    let file = file_path entry relative_to (normal (codes "profiles") ∷ []) in
    elim (load_file-ok (path_eq file custom) (path_eq file loop) (path_eq file safe) raw h) [
      | inl e ↦ inl ((path_eq_iff file custom).0 e)
      | inr (inl e) ↦ inr (inl ((path_eq_iff file loop).0 e))
      | inr (inr e) ↦ inr (inr (inl ((path_eq_iff file safe).0 e)))
    ]

resolve_entry-returns_example : resolve_entry small 4 (path loop) none [] ≢ none
resolve_entry-returns_example =
    resolve_entry-returns small (custom ∷ loop ∷ safe ∷ []) 4 (path loop) small-HoldProfiles
      (omega arith)

abbrev plain : ResolvedProfile
plain = record {
  name = codes "build";
  fs_read = [];
  fs_write = (normal (codes "~") ∷ normal (codes ".npm") ∷ []) ∷ [];
  fs_deny = [];
  net = no_network;
  env_scrub = [];
  env_passthrough = [];
  resources = to_limits (record {
    max_cpu_seconds = none;
    max_memory_mb = none;
    max_open_files = none;
    max_processes = none;
    max_output_bytes = none;
  });
  default_mode = direct;
}

abbrev setting : Option RawNetwork
setting = some (
    config
      (record { mode = codes " Filtered"; allowed_domains = codes " " ∷ codes "Pkg.dev" ∷ [] }))

-- `/p/a.yaml` extends `../p/a.yaml`, and is found at every path.
abbrev climbing : RawProfile
climbing = bare none (some (codes "../p/a.yaml"))

abbrev everywhere : Store
everywhere = record { profiles_dir = []; load = λ entry file. ok climbing }

refers_up : from_reference (codes "../p/a.yaml") ≡ path (up_and_down (codes "p") (codes "a.yaml"))
unfolding from_reference to_path text_eq
refers_up = refl

climbing-unresolved :
    resolve_entry everywhere 50
      (path (root_dir ∷ normal (codes "p") ∷ normal (codes "a.yaml") ∷ []))
      none
      []
    ≡ none
climbing-unresolved =
    climbing_cycle_unseen (root_dir ∷ []) (codes "p") (codes "a.yaml") everywhere climbing
      (codes "../p/a.yaml") 50 (λ n entry. refl) refl refers_up
