-- ===== src/Darwin.antt =====
-- crates/clawcrate-sandbox/src/darwin.rs: the text of the Seatbelt profile that confines a command on macOS,
-- and the launch under it.
pub mod Globs
pub mod Strings
pub mod Rules
pub mod Meaning
pub mod Decided
pub mod Launch
pub mod Violations
mod Tests
use claw_crate.Base.{
  ℕ, zero, suc, ◌+◌, Text, codes, Bool, true, false, not, ◌&&◌, ◌||◌, if◌then◌else◌, Option, none,
  some, List, [], ◌∷◌, ◌++◌, map, leb, ◌==◌, take, is_empty, trim_start_matches, trim_end_matches,
  FilePath, Component, root_dir, cur_dir, parent_dir, normal,
}
use claw_crate.Profiles.Resolve.{
  NetLevel, no_network, open_network, filtered, ResolvedProfile, to_path,
}
use claw_crate.Env.{scrub_environment}
use claw_crate.PathNormalize.{home_from_env_pairs, normalize_paths, resolve_path_with_home}

-- The text of a path, by `to_string_lossy`.
abbrev pub component_text : Component → Text
component_text root_dir = codes "/"
component_text cur_dir = codes "."
component_text parent_dir = codes ".."
component_text (normal name) = name

abbrev pub joined : List Component → Text
joined [] = []
joined (c ∷ []) = component_text c
joined (c ∷ d ∷ rest) = component_text c ++ (codes "/" ++ joined (d ∷ rest))

unfoldable pub path_text : FilePath → Text
path_text (root_dir ∷ rest) = codes "/" ++ joined rest
path_text rest = joined rest

-- `normalize_path_patterns` of path_normalize.rs.
unfoldable pub normalize_path_patterns : FilePath → List Text → Option FilePath → List Text
unfolding resolve_path_with_home to_path path_text
normalize_path_patterns cwd [] home = []
normalize_path_patterns cwd (pattern ∷ patterns) home =
    path_text (resolve_path_with_home cwd (to_path pattern) home)
    ∷ normalize_path_patterns cwd patterns home

pub record PreparedDarwinSandbox : Type 0 where
  pub execution_id : Text
  pub command : List Text
  pub cwd : FilePath
  pub fs_read : List FilePath
  pub fs_write : List FilePath
  pub fs_deny : List Text
  pub net : NetLevel
  pub scrubbed_env : List (Text × Text)
  pub scrubbed_keys : List Text

-- `str::replace` of one character.
unfoldable pub replace : ℕ → Text → Text → Text
replace c by [] = []
replace c by (d ∷ s) = let rest = replace c by s in if d == c then by ++ rest else d ∷ rest

unfoldable pub escape_sbpl_string : Text → Text
unfolding replace
escape_sbpl_string value =
    replace 10 (92 ∷ b'n' ∷ []) (replace 34 (92 ∷ 34 ∷ []) (replace 92 (92 ∷ 92 ∷ []) value))

unfoldable pub escape_sbpl_regex : Text → Text
unfolding replace
escape_sbpl_regex value = replace 34 (92 ∷ 34 ∷ []) (replace 92 (92 ∷ 92 ∷ []) value)

-- The characters `. + ( ) { } [ ] ^ $ | \`.
abbrev pub is_special : ℕ → Bool
is_special c =
    c == b'.'
    || c == b'+'
    || c == 40
    || c == 41
    || c == 123
    || c == 125
    || c == 91
    || c == 93
    || c == b'^'
    || c == b'$'
    || c == b'|'
    || c == 92

abbrev pub one_char : ℕ → Text
one_char c = if c == b'?' then codes "[^/]" else if is_special c then 92 ∷ c ∷ [] else c ∷ []

-- A star looks at the character behind it.
unfoldable pub glob_chars : Text → Text
glob_chars [] = []
glob_chars (c ∷ []) = if c == b'*' then codes "[^/]*" else one_char c
glob_chars (c ∷ d ∷ rest) =
    let both = glob_chars rest in
    let one = glob_chars (d ∷ rest) in
    if c == b'*'
    then (if d == b'*' then codes ".*" ++ both else codes "[^/]*" ++ one)
    else one_char c ++ one

unfoldable pub glob_to_regex : Text → Text
unfolding glob_chars
glob_to_regex glob = b'^' ∷ (glob_chars glob ++ b'$' ∷ [])

unfoldable pub sensitive_deny_paths : Option FilePath → List FilePath
sensitive_deny_paths none = []
sensitive_deny_paths (some home) =
    (home ++ normal (codes ".ssh") ∷ [])
    ∷ (home ++ normal (codes ".aws") ∷ [])
    ∷ (home ++ normal (codes ".gnupg") ∷ [])
    ∷ (home ++ normal (codes ".docker") ∷ [])
    ∷ (home ++ normal (codes "Library") ∷ normal (codes "Keychains") ∷ [])
    ∷ (home ++ normal (codes "Library") ∷ normal (codes "Cookies") ∷ [])
    ∷ []

-- A rule about files with what it is about, and its end.
abbrev pub line : Text → Text → Text → Text
line front value back = front ++ (value ++ back)

abbrev pub read_lines : FilePath → List Text
read_lines path =
    let escaped = escape_sbpl_string (path_text path) in
    line (codes "(allow file-read* (literal \"") escaped (codes "\"))")
    ∷ line (codes "(allow file-read* (subpath \"") escaped (codes "\"))")
    ∷ []

abbrev pub write_lines : FilePath → List Text
write_lines path =
    let escaped = escape_sbpl_string (path_text path) in
    line (codes "(allow file-read* (literal \"") escaped (codes "\"))")
    ∷ line (codes "(allow file-read* (subpath \"") escaped (codes "\"))")
    ∷ line (codes "(allow file-write* (literal \"") escaped (codes "\"))")
    ∷ line (codes "(allow file-write* (subpath \"") escaped (codes "\"))")
    ∷ []

abbrev pub deny_lines : Text → List Text
deny_lines pattern =
    let regex = escape_sbpl_regex (glob_to_regex pattern) in
    line (codes "(deny file-read* (regex #\"") regex (codes "\"))")
    ∷ line (codes "(deny file-write* (regex #\"") regex (codes "\"))")
    ∷ []

abbrev pub sensitive_lines : FilePath → List Text
sensitive_lines path =
    let escaped = escape_sbpl_string (path_text path) in
    line (codes "(deny file-read* (subpath \"") escaped (codes "\"))")
    ∷ line (codes "(deny file-write* (subpath \"") escaped (codes "\"))")
    ∷ []

abbrev pub flat_map : {A B : Type 0} → (A → List B) → List A → List B
flat_map f [] = []
flat_map f (x ∷ xs) = f x ++ flat_map f xs

abbrev pub first_lines : List Text
first_lines = map codes (
    "(version 1)" ∷ "(deny default)" ∷ "(import \"system.sb\")" ∷ "(allow process-exec)"
    ∷ "(allow process-fork)" ∷ "(allow signal (target self))" ∷ "(allow file-read-metadata)"
    ∷ "(allow sysctl-read)" ∷ [])

abbrev pub net_line : NetLevel → Text
net_line no_network = codes "(deny network*)"
net_line open_network = codes "(allow network*)"
net_line (filtered allowed) = codes "(allow network*)"

abbrev pub join_lines : List Text → Text
join_lines [] = []
join_lines (l ∷ []) = l
join_lines (l ∷ m ∷ lines) = l ++ 10 ∷ join_lines (m ∷ lines)

unfoldable pub generate_sbpl_profile : PreparedDarwinSandbox → Option FilePath → Text
unfolding escape_sbpl_string escape_sbpl_regex glob_to_regex sensitive_deny_paths path_text
generate_sbpl_profile prepared home = join_lines (
    first_lines
    ++ net_line prepared.net
      ∷ (flat_map read_lines prepared.fs_read
          ++ (flat_map write_lines prepared.fs_write
              ++ (flat_map deny_lines prepared.fs_deny
                  ++ flat_map sensitive_lines (sensitive_deny_paths home)))))

-- Of a plan its id, command, directory and profile; the profile's text comes second.
unfoldable pub prepare_with_env :
    Text
    → List Text
    → FilePath
    → ResolvedProfile
    → List (Text × Text)
    → PreparedDarwinSandbox × Text
unfolding generate_sbpl_profile normalize_path_patterns scrub_environment home_from_env_pairs
    normalize_paths
prepare_with_env id command cwd profile env_vars =
    let scrubbed = scrub_environment env_vars profile.env_scrub profile.env_passthrough in
    let home = home_from_env_pairs scrubbed.kept in
    let prepared : PreparedDarwinSandbox = record {
      execution_id = id;
      command = command;
      cwd = cwd;
      fs_read = normalize_paths cwd profile.fs_read home;
      fs_write = normalize_paths cwd profile.fs_write home;
      fs_deny = normalize_path_patterns cwd profile.fs_deny home;
      net = profile.net;
      scrubbed_env = scrubbed.kept;
      scrubbed_keys = scrubbed.removed;
    } in
    (prepared, generate_sbpl_profile prepared home)
