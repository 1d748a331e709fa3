-- ===== src/Approval/Tests.antt =====
-- Commands, the hosts that they name and their approval, and the theorems at such runs.
use claw_crate.Base.{
  ◌≡◌, ◌≢◌, refl, inl, inr, ap, sym, drop, length, length-append, is_whitespace, arith, Text, codes,
  true, false, Option, none, some, List, [], ◌∷◌,
}
use claw_crate.Profiles.Resolve.{no_network, filtered}
use claw_crate.Approval.References.{extract_host_from_reference, normalize_host}
use claw_crate.Approval.{
  command_appears_to_need_network, detect_out_of_profile_requests, hosts_outside, Session,
  enforce_out_of_profile_approval, ok,
}
use claw_crate.Approval.Named.{https}
use claw_crate.Approval.Asked.{Covers, plain_address_requested}
use claw_crate.Approval.Enforced.{IsCleared, enforce_out_of_profile_approval-IsCleared}

abbrev no_address : Text → Option Text
no_address name = none

abbrev fetch : List Text
fetch = codes "curl" ∷ codes "https://user@registry.pkg.dev:443/a" ∷ []

abbrev rules : List Text
rules = codes "*.pkg.dev" ∷ []

named :
    extract_host_from_reference (codes "--url=https://user@registry.pkg.dev:443/a")
    ≡ some (codes "registry.pkg.dev")
unfolding extract_host_from_reference
named = refl

-- The query of an address is taken for its user.
query_taken :
    extract_host_from_reference (codes "https://evil.test?@registry.pkg.dev")
    ≡ some (codes "registry.pkg.dev")
unfolding extract_host_from_reference
query_taken = refl

needed : command_appears_to_need_network fetch ≡ true
unfolding command_appears_to_need_network
needed = refl

nothing : detect_out_of_profile_requests no_address fetch (filtered rules) ≡ []
unfolding detect_out_of_profile_requests
nothing = refl

abbrev session : Session
session = record {
  approve_out_of_profile = false;
  json = false;
  stdin_is_terminal = true;
  answer = some (codes "y\n");
  append_works = true;
}

went_on : (enforce_out_of_profile_approval session no_address fetch no_network).1 ≡ ok
unfolding enforce_out_of_profile_approval
went_on = refl

enforce_out_of_profile_approval-IsCleared_example :
    IsCleared session
      (detect_out_of_profile_requests no_address fetch no_network)
      (enforce_out_of_profile_approval session no_address fetch no_network).0
enforce_out_of_profile_approval-IsCleared_example =
    enforce_out_of_profile_approval-IsCleared session no_address fetch no_network went_on

-- The address behind `=` in a query is taken for what is referred to.
query_assigned :
    extract_host_from_reference (codes "https://evil.test/?x=https://registry.pkg.dev")
    ≡ some (codes "registry.pkg.dev")
unfolding extract_host_from_reference
query_assigned = refl

abbrev to_other : List Text
to_other = codes "curl" ∷ codes "-s" ∷ codes "https://a.test/a" ∷ []

requested_other :
    detect_out_of_profile_requests no_address to_other (filtered rules)
    ≡ hosts_outside (codes "a.test" ∷ []) ∷ []
unfolding detect_out_of_profile_requests
requested_other = refl

not_covered : ¬ Covers (codes "*.pkg.dev") (codes "a.test")
unfolding normalize_host
not_covered (inl e) = ground arith
not_covered (inr (front, suffix, e, below)) =
    let longer : length suffix ≡ 7 = ap length (sym (ap (drop 2) e)) in
    omega (arith, ap length below, length-append front (46 ∷ suffix), longer)

plain_address_requested_example :
    detect_out_of_profile_requests no_address to_other (filtered rules) ≢ []
unfolding is_whitespace
plain_address_requested_example =
    plain_address_requested no_address to_other (filtered rules) https (codes "a.test") (codes "/a")
      (refl, (codes "a.tes", 116, refl, refl)) (refl, refl, refl) (inr (inr (inl refl)))
      (not_covered, tt)
