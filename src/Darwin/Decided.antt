-- ===== src/Darwin/Decided.antt =====
-- What the rules of the Seatbelt profile decide about files.
use claw_crate.Base.{Text, Bool, ◌||◌, Option, any, FilePath}
use claw_crate.Darwin.{PreparedDarwinSandbox, glob_to_regex, sensitive_deny_paths}
use claw_crate.Darwin.Meaning.{under}

module _ (regex_matches : Text → FilePath → Bool) where
  abbrev denied_by_rules : PreparedDarwinSandbox → Option FilePath → FilePath → Bool
  denied_by_rules prepared home path =
      any (λ pattern. regex_matches (glob_to_regex pattern) path) prepared.fs_deny
      || any (under path) (sensitive_deny_paths home)
