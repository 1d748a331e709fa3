-- ===== src/Env.antt =====
-- crates/clawcrate-sandbox/src/env_scrub.rs: which environment variables a child process keeps.
-- `scrub_current_environment` hands the process's variables to `scrub_environment`; here they are
-- an argument. `Env/Wildcard.antt` has the pattern matcher, `Env/Kept.antt` the proofs.
pub mod Wildcard
pub mod Kept
mod Tests
use claw_crate.Base.{
  Text, codes, Bool, true, false, List, [], ◌∷◌, ◌++◌, ◌&&◌, not, any, is_empty, starts_with,
  if◌then◌else◌, set_insert, text_order,
}
use Wildcard.{wildcard_matches}

pub record ScrubbedEnvironment : Type 0 where
  pub kept : List (Text × Text)
  pub removed : List Text

abbrev pub internal_child_env_prefixes : List Text
internal_child_env_prefixes = codes "CLAWCRATE_AUDIT_" ∷ []

unfoldable pub is_internal_child_env : Text → Bool
unfolding starts_with
is_internal_child_env candidate =
    any (λ prefix. starts_with candidate prefix) internal_child_env_prefixes

unfoldable pub matches_any_pattern : Text → List Text → Bool
unfolding wildcard_matches
matches_any_pattern candidate patterns =
    any (λ pattern. not (is_empty pattern) && wildcard_matches pattern candidate) patterns

-- The loop of `scrub_environment`; `removed` is the `BTreeSet`.
unfoldable pub scrub_from :
    ScrubbedEnvironment → List Text → List Text → List (Text × Text) → ScrubbedEnvironment
scrub_from done scrub_patterns passthrough_patterns [] = done
scrub_from done scrub_patterns passthrough_patterns ((name, value) ∷ vars) =
    scrub_from
      (if is_internal_child_env name
        then record done { removed = set_insert name done.removed }
        else if matches_any_pattern name scrub_patterns
            && not (matches_any_pattern name passthrough_patterns)
        then record done { removed = set_insert name done.removed }
        else record done { kept = done.kept ++ (name, value) ∷ [] })
      scrub_patterns passthrough_patterns vars

unfoldable pub scrub_environment : List (Text × Text) → List Text → List Text → ScrubbedEnvironment
unfolding scrub_from is_internal_child_env matches_any_pattern set_insert
scrub_environment vars scrub_patterns passthrough_patterns =
    scrub_from (record { kept = []; removed = [] }) scrub_patterns passthrough_patterns vars
