-- ===== src/Env/Tests.antt =====
-- Runs of the scrubbing code, and its theorems at inputs that meet their conditions.
use claw_crate.Base.{
  Text, codes, ◌≡◌, refl, ◌↔◌, true, false, List, [], ◌∷◌, Any, arith, Filtered, IsAscending, Bool,
  some, text_order,
}
use claw_crate.Env.{scrub_environment}
use claw_crate.Env.Kept.{IsKept, scrub_environment-kept, scrub_environment-removed}
use claw_crate.Env.Wildcard.{star, wildcard_matches, scan, enough, start}
use claw_crate.Env.Wildcard.Total.{scan_returns}
use claw_crate.Env.Wildcard.Pattern.{Matches, literal, done}
use claw_crate.Env.Wildcard.Complete.{wildcard_matches_iff}
use claw_crate.Env.Wildcard.Escape.{star_escapes}

matcher_tests :
    (wildcard_matches (codes "AWS_*") (codes "AWS_REGION") ≡ true)
    × (wildcard_matches (codes "*_SECRET*") (codes "MY_SEC_SECRET_KEY") ≡ true)
    × (wildcard_matches (codes "*a*b") (codes "xaxbxc") ≡ false)
    × (wildcard_matches (codes "*_SECRET*") (codes "*X_SECRET") ≡ false)
unfolding wildcard_matches
matcher_tests = (refl, refl, refl, refl)

abbrev secrets : List (Text × Text)
secrets =
    (codes "AWS_KEY", codes "1")
    ∷ (codes "HOME", codes "/r")
    ∷ (codes "CLAWCRATE_AUDIT_SIGN", codes "k")
    ∷ []

scrub_test :
    scrub_environment secrets (codes "AWS_*" ∷ codes "HOME" ∷ []) (codes "HO*" ∷ []) ≡ record {
      kept = (codes "HOME", codes "/r") ∷ [];
      removed = codes "AWS_KEY" ∷ codes "CLAWCRATE_AUDIT_SIGN" ∷ [];
    }
unfolding scrub_environment
scrub_test = refl

wildcard_matches_iff_example :
    (wildcard_matches (codes "A*") (codes "AB") ≡ true) ↔ Matches (codes "A*") (codes "AB")
wildcard_matches_iff_example = wildcard_matches_iff (codes "A*") (codes "AB") (omega arith)

scrub_environment-kept_example :
    Filtered
      (λ (v : Text × Text). IsKept (codes "AWS_*" ∷ []) [] v.0)
      secrets
      (scrub_environment secrets (codes "AWS_*" ∷ []) []).kept
scrub_environment-kept_example =
    scrub_environment-kept secrets (codes "AWS_*" ∷ []) [] (omega arith)

scrub_environment-removed_example :
    IsAscending (scrub_environment secrets (codes "AWS_*" ∷ []) []).removed
    × ((name : Text)
        → Any (λ n. n ≡ name) (scrub_environment secrets (codes "AWS_*" ∷ []) []).removed
          ↔ Any (λ v. (v.0 ≡ name) × ¬ IsKept (codes "AWS_*" ∷ []) [] name) secrets)
scrub_environment-removed_example =
    scrub_environment-removed secrets (codes "AWS_*" ∷ []) [] (omega arith)

scan_returns_example :
    (b : Bool) × (scan (enough (codes "A*") (codes "AB")) (codes "A*") (codes "AB") start ≡ some b)
scan_returns_example = scan_returns (codes "A*") (codes "AB")

star_escapes_example :
    Matches (star ∷ 65 ∷ []) (star ∷ 66 ∷ 65 ∷ [])
    × (wildcard_matches (star ∷ 65 ∷ []) (star ∷ 66 ∷ 65 ∷ []) ≡ false)
star_escapes_example =
    star_escapes 65 66 [] (65 ∷ []) (omega arith) (omega arith) (literal (omega arith) done)
