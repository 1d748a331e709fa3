-- ===== src/Darwin/Tests.antt =====
-- Runs of the macOS backend's parts, and the theorems about them at concrete inputs.
use claw_crate.Base.{
  ◌≡◌, refl, Text, codes, Bool, true, false, Option, none, some, List, [], ◌∷◌, ◌++◌, FilePath,
  root_dir, normal, strip_path,
}
use claw_crate.Profiles.Resolve.{no_network}
use claw_crate.Darwin.{
  PreparedDarwinSandbox, escape_sbpl_string, glob_to_regex, path_text, sensitive_deny_paths,
}
use claw_crate.Darwin.Globs.{Piece, fits, read_pieces, read_regex, glob_pieces, read-glob_to_regex}
use claw_crate.Darwin.Rules.{file_read, file_rules}
use claw_crate.Darwin.Meaning.{decide}
use claw_crate.Darwin.Launch.{sanitize_identifier_component}
use claw_crate.Darwin.Violations.{SeatbeltViolation, parse_denial_line, parse_log_output, rfind}
use claw_crate.Darwin.Violations.Attributed.{
  IsAttributed, parse_denial_line-IsAttributed, parse_denial_line-front,
}

abbrev home : FilePath
home = root_dir ∷ normal (codes "h") ∷ []

abbrev prepared : PreparedDarwinSandbox
prepared = record {
  execution_id = codes "1";
  command = codes "ls" ∷ [];
  cwd = home;
  fs_read = home ∷ [];
  fs_write = [];
  fs_deny = codes "/h/*.pem" ∷ [];
  net = no_network;
  scrubbed_env = [];
  scrubbed_keys = [];
}

escaped : escape_sbpl_string (codes "a\"b\\") ≡ codes "a\\\"b\\\\"
unfolding escape_sbpl_string
escaped = refl

regex_of_stars : glob_to_regex (codes "**/*.pem") ≡ codes "^.*/[^/]*\\.pem$"
unfolding glob_to_regex
regex_of_stars = refl

read-glob_to_regex_example :
    read_regex (glob_to_regex (codes "**/*.")) ≡ some (glob_pieces (codes "**/*."))
read-glob_to_regex_example = read-glob_to_regex (codes "**/*.")

-- A reader of the literals and a matcher as the theorem asks for them.
abbrev matches : Text → FilePath → Bool
matches r path = fits_some (read_regex r) path
  where
    fits_some : Option (List Piece) → FilePath → Bool
    fits_some none path = false
    fits_some (some pieces) path = fits pieces (path_text path)

abbrev key_file : FilePath
key_file = home ++ normal (codes "k.pem") ∷ []

-- The pattern covers a file that could be read otherwise.
pattern_denies : decide matches false (file_rules prepared (some home)) file_read key_file ≡ false
unfolding glob_to_regex read_pieces path_text sensitive_deny_paths strip_path
pattern_denies = refl

other_allowed :
    decide matches false
      (file_rules prepared (some home))
      file_read
      (home ++ normal (codes "k.txt") ∷ [])
    ≡ true
unfolding glob_to_regex read_pieces path_text sensitive_deny_paths strip_path
other_allowed = refl

sanitized : sanitize_identifier_component (codes "../a b") 64 (codes "exec") ≡ codes "a_b"
unfolding sanitize_identifier_component
sanitized = refl

abbrev cat_line : Text
cat_line = codes "Sandbox: cat(47) deny(1) file-read-data /etc/hosts"

abbrev cat_violation : SeatbeltViolation
cat_violation = record { operation = codes "file-read-data"; target = codes "/etc/hosts" }

read_cat : parse_denial_line cat_line 47 ≡ some cat_violation
unfolding parse_denial_line
read_cat = refl

not_of_another : parse_denial_line cat_line 48 ≡ none
unfolding parse_denial_line
not_of_another = refl

reported_once : (parse_log_output (cat_line ∷ cat_line ∷ []) 47).violations ≡ cat_violation ∷ []
unfolding parse_log_output
reported_once = refl

parse_denial_line-IsAttributed_example : IsAttributed cat_line 47
parse_denial_line-IsAttributed_example =
    parse_denial_line-IsAttributed cat_line 47 cat_violation read_cat

-- The denial of another process, 99, at a path that spells a marker.
abbrev other_front : Text
other_front = codes "Sandbox: x(99) deny(1) file-read-data /tmp/"

parse_denial_line-front_example :
    parse_denial_line (other_front ++ cat_line) 47 ≡ parse_denial_line cat_line 47
unfolding rfind
parse_denial_line-front_example =
    parse_denial_line-front other_front cat_line 47
      ([], codes "cat(47) deny(1) file-read-data /etc/hosts") refl
