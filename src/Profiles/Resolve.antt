-- ===== src/Profiles/Resolve.antt =====
-- From an inherited profile to a resolved one (crates/clawcrate-profiles/src/lib.rs, with the types
-- of crates/clawcrate-types/src/lib.rs).
use claw_crate.Base.{
  ℕ, Text, codes, if◌then◌else◌, Option, none, some, List, [], ◌∷◌, ◌++◌, map, text_eq, FilePath,
  trim, to_ascii_lowercase, is_empty, ◌==◌, starts_with, Component, root_dir, cur_dir, parent_dir,
  normal,
}
use claw_crate.Profiles.Merge.{RawNetwork, string, config, RawResources, InheritedProfile}

pub data NetLevel : Type 0 where
  no_network open_network : NetLevel
  filtered : List Text → NetLevel

pub data DefaultMode : Type 0 where
  direct replica : DefaultMode

pub record ResourceLimits : Type 0 where
  pub max_cpu_seconds : ℕ
  pub max_memory_mb : ℕ
  pub max_open_files : ℕ
  pub max_processes : ℕ
  pub max_output_bytes : ℕ

pub record ResolvedProfile : Type 0 where
  pub name : Text
  pub fs_read : List FilePath
  pub fs_write : List FilePath
  pub fs_deny : List Text
  pub net : NetLevel
  pub env_scrub : List Text
  pub env_passthrough : List Text
  pub resources : ResourceLimits
  pub default_mode : DefaultMode

pub data ProfileError : Type 0 where
  profile_not_found : Text → ProfileError
  unreadable : FilePath → ProfileError
  invalid_network : FilePath → Text → ProfileError
  invalid_filtered_network : FilePath → ProfileError
  invalid_default_mode : FilePath → Text → ProfileError
  inheritance_cycle : FilePath → ProfileError

pub data Result (A : Type 0) : Type 0 where
  ok : A → Result A
  err : ProfileError → Result A

unfoldable pub normalize_string : Text → Text
unfolding trim to_ascii_lowercase
normalize_string input = to_ascii_lowercase (trim input)

unfoldable pub normalize_domains : List Text → List Text
unfolding normalize_string
normalize_domains [] = []
normalize_domains (value ∷ values) =
    let rest = normalize_domains values in
    if is_empty (normalize_string value) then rest else normalize_string value ∷ rest

unfoldable pub parse_default_mode : Option Text → FilePath → Result DefaultMode
unfolding normalize_string text_eq
parse_default_mode none path = ok direct
parse_default_mode (some raw) path =
    let mode = normalize_string raw in
    if text_eq mode (codes "direct")
    then ok direct
    else if text_eq mode (codes "replica")
    then ok replica
    else err (invalid_default_mode path mode)

unfoldable pub parse_network_mode_string : Text → FilePath → Result NetLevel
unfolding normalize_string text_eq
parse_network_mode_string raw path =
    let mode = normalize_string raw in
    if text_eq mode (codes "none")
    then ok no_network
    else if text_eq mode (codes "open")
    then ok open_network
    else if text_eq mode (codes "filtered")
    then err (invalid_filtered_network path)
    else err (invalid_network path mode)

abbrev pub filtered_by : List Text → FilePath → Result NetLevel
filtered_by [] path = err (invalid_filtered_network path)
filtered_by (d ∷ ds) path = ok (filtered (d ∷ ds))

unfoldable pub parse_network : Option RawNetwork → FilePath → Result NetLevel
unfolding normalize_string text_eq parse_network_mode_string normalize_domains
parse_network none path = ok no_network
parse_network (some (string value)) path = parse_network_mode_string value path
parse_network (some (config c)) path =
    let mode = normalize_string c.mode in
    if text_eq mode (codes "none")
    then ok no_network
    else if text_eq mode (codes "open")
    then ok open_network
    else if text_eq mode (codes "filtered")
    then filtered_by (normalize_domains c.allowed_domains) path
    else err (invalid_network path mode)

abbrev pub unwrap_or : {A : Type 0} → Option A → A → A
unwrap_or none default = default
unwrap_or (some a) default = a

abbrev pub to_limits : RawResources → ResourceLimits
to_limits raw = record {
  max_cpu_seconds = unwrap_or raw.max_cpu_seconds 120;
  max_memory_mb = unwrap_or raw.max_memory_mb 2048;
  max_open_files = unwrap_or raw.max_open_files 1024;
  max_processes = unwrap_or raw.max_processes 128;
  max_output_bytes = unwrap_or raw.max_output_bytes 2097152;
}

-- `PathBuf::from`: the pieces between slashes.
abbrev pub add_to_first : ℕ → List Text → List Text
add_to_first c [] = (c ∷ []) ∷ []
add_to_first c (piece ∷ rest) = (c ∷ piece) ∷ rest

unfoldable pub pieces : Text → List Text
pieces [] = [] ∷ []
pieces (c ∷ s) = let rest = pieces s in if c == 47 then [] ∷ rest else add_to_first c rest

abbrev pub component : Text → List Component
component s =
    if is_empty s
    then []
    else if text_eq s (codes ".")
    then cur_dir ∷ []
    else if text_eq s (codes "..")
    then parent_dir ∷ []
    else normal s ∷ []

unfoldable pub components : List Text → FilePath
components [] = []
components (piece ∷ rest) = component piece ++ components rest

unfoldable pub to_path : Text → FilePath
unfolding pieces components
to_path s =
    if starts_with s (codes "/") then root_dir ∷ components (pieces s) else components (pieces s)

abbrev pub without_dots : FilePath → FilePath
without_dots [] = []
without_dots (cur_dir ∷ rest) = without_dots rest
without_dots (c ∷ rest) = c ∷ without_dots rest

abbrev pub inner_without_dots : FilePath → FilePath
inner_without_dots [] = []
inner_without_dots (c ∷ rest) = c ∷ without_dots rest

-- `Path::components`, by which paths are compared: of the `.` components only a leading one stays.
unfoldable pub path_components : Text → FilePath
unfolding to_path
path_components s = inner_without_dots (to_path s)

-- The two parsed settings and the lists: `to_resolved_profile`.
unfoldable pub to_resolved_profile : InheritedProfile → Text → Result ResolvedProfile
unfolding parse_network parse_default_mode path_components
to_resolved_profile inherited fallback_name =
    elim (parse_network inherited.network inherited.source_path) [
      | err e ↦ err e
      | ok network ↦ elim (parse_default_mode inherited.default_mode inherited.source_path) [
        | err e ↦ err e
        | ok mode ↦ ok (record {
          name = unwrap_or inherited.name fallback_name;
          fs_read = map path_components (unwrap_or inherited.filesystem.read []);
          fs_write = map path_components (unwrap_or inherited.filesystem.write []);
          fs_deny = unwrap_or inherited.filesystem.deny [];
          net = network;
          env_scrub = unwrap_or inherited.environment.scrub [];
          env_passthrough = unwrap_or inherited.environment.passthrough [];
          resources = to_limits inherited.resources;
          default_mode = mode;
        })
      ]
    ]
