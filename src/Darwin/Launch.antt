-- ===== src/Darwin/Launch.antt =====
-- The launch under `sandbox-exec`, and the file that holds the profile meanwhile
-- (crates/clawcrate-sandbox/src/darwin.rs). The file system and the processes are arguments.
pub mod Clean
use claw_crate.Base.{
  ℕ, zero, suc, ◌+◌, Text, codes, Bool, true, false, not, ◌&&◌, ◌||◌, if◌then◌else◌, Option, none,
  some, List, [], ◌∷◌, ◌++◌, leb, ◌==◌, is_empty, trim_start_matches, trim_end_matches, FilePath,
  normal,
}
use claw_crate.Darwin.{PreparedDarwinSandbox, path_text}

abbrev pub is_ascii_alphanumeric : ℕ → Bool
is_ascii_alphanumeric c =
    (leb b'0' c && leb c b'9') || (leb b'A' c && leb c b'Z') || (leb b'a' c && leb c b'z')

abbrev pub is_clean : ℕ → Bool
is_clean c = is_ascii_alphanumeric c || c == b'-' || c == b'_'

-- The loop with the room that is left; every character that is pushed has one byte.
unfoldable pub sanitize_chars : ℕ → Text → Text
sanitize_chars room [] = []
sanitize_chars zero (c ∷ value) = []
sanitize_chars (suc room) (c ∷ value) = (if is_clean c then c else b'_') ∷ sanitize_chars room value

abbrev pub is_underscore : ℕ → Bool
is_underscore c = c == b'_'

abbrev pub or_fallback : Text → Text → Text
or_fallback sanitized fallback = if is_empty sanitized then fallback else sanitized

unfoldable pub sanitize_identifier_component : Text → ℕ → Text → Text
unfolding sanitize_chars trim_start_matches trim_end_matches
sanitize_identifier_component value max_len fallback =
    or_fallback
      (trim_end_matches is_underscore
        (trim_start_matches is_underscore (sanitize_chars max_len value)))
      fallback

-- The process id and the time as texts.
unfoldable pub unique_sbpl_path : FilePath → Text → Text → Text → FilePath
unfolding sanitize_identifier_component
unique_sbpl_path temp_root execution_id process_id nanos =
    temp_root
    ++ normal (
        codes "sbpl_"
        ++ (sanitize_identifier_component execution_id 64 (codes "exec")
            ++ (codes "_" ++ (process_id ++ (codes "_" ++ (nanos ++ codes ".sb"))))))
      ∷ []

abbrev pub user_component : Option Text → Option Text → Text → Text
user_component (some user) logname process_id =
    sanitize_identifier_component user 64 (codes "unknown-user")
user_component none (some logname) process_id =
    sanitize_identifier_component logname 64 (codes "unknown-user")
user_component none none process_id = codes "pid-" ++ process_id

-- By the variables `USER` and `LOGNAME`.
unfoldable pub default_sbpl_temp_root : FilePath → Option Text → Option Text → Text → FilePath
unfolding sanitize_identifier_component
default_sbpl_temp_root temp_dir user logname process_id =
    temp_dir
    ++ normal (codes "clawcrate")
      ∷ normal (codes "sbpl")
      ∷ normal (user_component user logname process_id)
      ∷ []

pub data DarwinSandboxError : Type 0 where
  empty_command create_temp_dir write_profile spawn_failed : DarwinSandboxError

pub record SpawnedCommand : Type 0 where
  pub program : FilePath
  pub args : List Text
  pub cwd : FilePath
  pub env : List (Text × Text)

pub data Effect : Type 0 where
  created_dir removed : FilePath → Effect
  written : FilePath → Text → Effect
  spawned : SpawnedCommand → Effect

pub record DarwinWorld : Type 0 where
  pub creates : Bool
  pub writes : Bool
  pub spawns : Bool

pub data Result : Type 0 where
  child : FilePath → Result
  err : DarwinSandboxError → Result

module _ (world : DarwinWorld) (sandbox_exec temp_root : FilePath) where
  abbrev pub command_for : PreparedDarwinSandbox → FilePath → Text → List Text → SpawnedCommand
  command_for prepared sbpl_path program args = record {
    program = sandbox_exec;
    args = codes "-f" ∷ path_text sbpl_path ∷ codes "--" ∷ program ∷ args;
    cwd = prepared.cwd;
    env = prepared.scrubbed_env;
  }

  -- The effects for a command and the path of its profile.
  abbrev pub launch_at : PreparedDarwinSandbox → Text → FilePath → List Text → List Effect × Result
  launch_at prepared sbpl_profile sbpl_path [] = ([], err empty_command)
  launch_at prepared sbpl_profile sbpl_path (program ∷ args) =
      if not world.creates
      then ([], err create_temp_dir)
      else if not world.writes
      then (created_dir temp_root ∷ [], err write_profile)
      else if not world.spawns
      then (
        created_dir temp_root ∷ written sbpl_path sbpl_profile ∷ removed sbpl_path ∷ [],
        err spawn_failed,
      )
      else (
        created_dir temp_root
            ∷ written sbpl_path sbpl_profile
            ∷ spawned (command_for prepared sbpl_path program args)
            ∷ [],
        child sbpl_path,
      )

  unfoldable pub launch_with_stdio :
      PreparedDarwinSandbox → Text → Text → Text → List Effect × Result
  unfolding unique_sbpl_path path_text
  launch_with_stdio prepared sbpl_profile process_id nanos =
      launch_at prepared sbpl_profile
        (unique_sbpl_path temp_root prepared.execution_id process_id nanos) prepared.command

-- `DarwinSandboxedChild::wait` when it works or fails, and the drop of the handle behind it.
unfoldable pub wait : FilePath → Bool → List Effect
wait sbpl_profile_path waits = if waits then removed sbpl_profile_path ∷ [] else []

unfoldable pub drop_child : FilePath → List Effect
drop_child sbpl_profile_path = removed sbpl_profile_path ∷ []
