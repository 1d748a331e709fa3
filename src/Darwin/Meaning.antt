-- ===== src/Darwin/Meaning.antt =====
-- What a profile means for files, and how rules of Seatbelt decide.
use claw_crate.Base.{
  ◌≡◌, Text, codes, normal, Bool, true, false, ◌&&◌, ◌||◌, if◌then◌else◌, Option, none, some, List,
  [], ◌∷◌, ◌++◌, any, FilePath, strip_path, path_eq,
}
use claw_crate.Darwin.{PreparedDarwinSandbox, path_text}
use claw_crate.Darwin.Globs.{Piece, glob_pieces, fits, read_regex}
use claw_crate.Darwin.Rules.{
  Operation, file_read, file_write, Filter, literal, subpath, regex, Rule,
}

abbrev pub same_operation : Operation → Operation → Bool
same_operation file_read file_read = true
same_operation file_write file_write = true
same_operation _ _ = false

abbrev pub is_some : Option FilePath → Bool
is_some none = false
is_some (some rest) = true

-- The path is the directory or lies below it.
abbrev pub under : FilePath → FilePath → Bool
under path directory = is_some (strip_path path directory)

-- What a profile means. Below the home these are hidden.
abbrev pub hidden : List FilePath
hidden =
    (normal (codes ".ssh") ∷ [])
    ∷ (normal (codes ".aws") ∷ [])
    ∷ (normal (codes ".gnupg") ∷ [])
    ∷ (normal (codes ".docker") ∷ [])
    ∷ (normal (codes "Library") ∷ normal (codes "Keychains") ∷ [])
    ∷ (normal (codes "Library") ∷ normal (codes "Cookies") ∷ [])
    ∷ []

abbrev pub is_hidden : Option FilePath → FilePath → Bool
is_hidden none path = false
is_hidden (some home) path = any (λ below. under path (home ++ below)) hidden

abbrev pub is_denied : PreparedDarwinSandbox → Option FilePath → FilePath → Bool
is_denied prepared home path =
    any (λ pattern. fits (glob_pieces pattern) (path_text path)) prepared.fs_deny
    || is_hidden home path

abbrev pub is_granted : PreparedDarwinSandbox → Operation → FilePath → Bool
is_granted prepared file_read path =
    any (under path) prepared.fs_read || any (under path) prepared.fs_write
is_granted prepared file_write path = any (under path) prepared.fs_write

-- How a regular expression matches, where it is one of the pieces of a pattern.
abbrev pub MatchesPieces : (Text → FilePath → Bool) → Type 0
MatchesPieces regex_matches =
    (r : Text) (pieces : List Piece) (path : FilePath)
    → read_regex r ≡ some pieces
    → regex_matches r path ≡ fits pieces (path_text path)

module _ (regex_matches : Text → FilePath → Bool) where
  abbrev pub covers : Filter → FilePath → Bool
  covers (literal p) path = path_eq p path
  covers (subpath p) path = under path p
  covers (regex r) path = regex_matches r path

  -- The last rule for an operation that matches a path decides; `before` is what the rules before
  -- these come to.
  abbrev pub decide : Bool → List Rule → Operation → FilePath → Bool
  decide before [] operation path = before
  decide before (r ∷ rules) operation path =
      decide
        (if same_operation r.operation operation && covers r.filter path then r.allows else before)
        rules operation path
