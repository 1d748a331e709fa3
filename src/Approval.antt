-- ===== src/Approval.antt =====
-- crates/clawcrate-cli/src/approval.rs: what a command asks for beyond its profile, and the approval
-- of it. The parsing of addresses, the terminal and the user are arguments.
pub mod References
pub mod Texts
pub mod Named
pub mod Asked
pub mod Enforced
pub mod Ends
mod Tests
use claw_crate.Base.{
  ℕ, zero, suc, ◌+◌, Text, codes, Bool, true, false, ◌&&◌, ◌||◌, not, if◌then◌else◌, Option, none,
  some, List, [], ◌∷◌, ◌++◌, length, any, text_eq, is_empty, starts_with, ends_with, contains_char,
  strip_prefix, split_once, rsplit_once, reverse, trim, trim_start_matches, trim_end_matches,
  to_ascii_lowercase, ◌==◌, set_insert, text_order, file_name,
}
use claw_crate.Profiles.Resolve.{path_components, NetLevel, no_network, open_network, filtered}
use claw_crate.Audit.Log.{AuditEventKind, approval_decision}
use claw_crate.Approval.References.{
  normalize_host, extract_host_from_reference, is_ambiguous_network_reference, is_none, unwrap_or,
}
use claw_crate.Replica.{accepts}

unfoldable pub domain_allowed : Text → List Text → Bool
unfolding normalize_host strip_prefix ends_with text_eq
domain_allowed host allowed_domains =
    any
      (λ rule. elim (strip_prefix (normalize_host rule) (codes "*.")) [
        | some suffix ↦ ends_with (normalize_host host) (46 ∷ suffix)
        | none ↦ text_eq (normalize_host host) (normalize_host rule)
      ])
      allowed_domains

unfoldable pub command_basename : Text → Text
unfolding path_components to_ascii_lowercase
command_basename command =
    to_ascii_lowercase (unwrap_or (file_name (path_components command)) command)

abbrev pub one_of : List Text → Text → Bool
one_of names name = any (λ n. text_eq n name) names

-- The tables of executables, and of the first arguments that the network is needed for.
abbrev pub always : List Text
always =
    codes "curl"
    ∷ codes "wget"
    ∷ codes "http"
    ∷ codes "https"
    ∷ codes "scp"
    ∷ codes "ssh"
    ∷ codes "rsync"
    ∷ codes "apt"
    ∷ codes "apt-get"
    ∷ codes "dnf"
    ∷ codes "yum"
    ∷ codes "apk"
    ∷ codes "brew"
    ∷ []

abbrev pub with_argument : List (List Text × List Text)
with_argument =
    (
      codes "git" ∷ [],
      codes "clone"
          ∷ codes "fetch"
          ∷ codes "pull"
          ∷ codes "push"
          ∷ codes "ls-remote"
          ∷ codes "remote"
          ∷ codes "submodule"
          ∷ [],
    )
    ∷ (
      codes "npm" ∷ codes "pnpm" ∷ codes "yarn" ∷ [],
      codes "install"
          ∷ codes "add"
          ∷ codes "update"
          ∷ codes "upgrade"
          ∷ codes "publish"
          ∷ codes "login"
          ∷ [],
    )
    ∷ (
      codes "pip" ∷ codes "pip3" ∷ codes "poetry" ∷ codes "uv" ∷ [],
      codes "install"
          ∷ codes "add"
          ∷ codes "update"
          ∷ codes "publish"
          ∷ codes "sync"
          ∷ codes "lock"
          ∷ codes "export"
          ∷ [],
    )
    ∷ (
      codes "cargo" ∷ [],
      codes "add"
          ∷ codes "install"
          ∷ codes "search"
          ∷ codes "publish"
          ∷ codes "login"
          ∷ codes "owner"
          ∷ codes "yank"
          ∷ codes "fetch"
          ∷ codes "update"
          ∷ [],
    )
    ∷ []

abbrev pub in_table : Text → Option Text → List (List Text × List Text) → Bool
in_table executable none rows = false
in_table executable (some arg) rows =
    any (λ row. one_of row.0 executable && one_of row.1 (to_ascii_lowercase arg)) rows

abbrev pub head : List Text → Option Text
head [] = none
head (a ∷ rest) = some a

abbrev pub refers : Text → Bool
refers arg = not (is_none (extract_host_from_reference arg))

unfoldable pub command_appears_to_need_network : List Text → Bool
unfolding extract_host_from_reference command_basename text_eq to_ascii_lowercase
command_appears_to_need_network [] = false
command_appears_to_need_network (executable ∷ args) =
    any refers (executable ∷ args)
    || one_of always (command_basename executable)
    || in_table (command_basename executable) (head args) with_argument

pub record CommandHostExtraction : Type 0 where
  pub hosts : List Text
  pub had_ambiguous_targets : Bool

-- The loop, with what it has found so far; `hosts` is the `BTreeSet`.
unfoldable pub extract_hosts_from :
    (Text → Option Text) → CommandHostExtraction → List Text → CommandHostExtraction
unfolding extract_host_from_reference is_ambiguous_network_reference set_insert
extract_hosts_from parse_ip found [] = found
extract_hosts_from parse_ip found (arg ∷ args) =
    extract_hosts_from parse_ip
      (elim (extract_host_from_reference arg) [
        | some host ↦ record found { hosts = set_insert host found.hosts }
        | none ↦
            if is_ambiguous_network_reference parse_ip arg
            then record found { had_ambiguous_targets = true }
            else found
      ])
      args

unfoldable pub extract_hosts_from_command : (Text → Option Text) → List Text → CommandHostExtraction
unfolding extract_hosts_from
extract_hosts_from_command parse_ip command =
    extract_hosts_from parse_ip (record { hosts = []; had_ambiguous_targets = false }) command

-- The requests, as data in place of the texts that are shown.
pub data Request : Type 0 where
  network : Request
  ambiguous : Request
  hosts_outside : List Text → Request

abbrev pub shown : Request → Text
shown network = codes "network access requested by command but profile network mode is `none`"
shown ambiguous =
    codes
      "command appears to need network, but filtered-mode host extraction was ambiguous; explicit approval required"
shown (hosts_outside hosts) =
    codes "command references host(s) outside filtered allowlist: " ++ joined hosts
  where
    joined : List Text → Text
    joined [] = []
    joined (h ∷ []) = h
    joined (h ∷ hs) = h ++ codes ", " ++ joined hs

unfoldable pub denied : List Text → List Text → List Text
unfolding domain_allowed
denied allowed_domains [] = []
denied allowed_domains (host ∷ hosts) =
    let rest = denied allowed_domains hosts in
    if domain_allowed host allowed_domains then rest else host ∷ rest

abbrev pub outside : List Text → List Request
outside [] = []
outside (host ∷ hosts) = hosts_outside (host ∷ hosts) ∷ []

-- The arm for a filtered network.
abbrev pub filtered_requests : List Text → CommandHostExtraction → List Request
filtered_requests allowed_domains found = elim found.hosts [
  | [] ↦ ambiguous ∷ []
  | host ∷ hosts ↦
      (if found.had_ambiguous_targets then ambiguous ∷ [] else [])
      ++ outside (denied allowed_domains (host ∷ hosts))
]

abbrev pub network_requests : (Text → Option Text) → List Text → NetLevel → List Request
network_requests parse_ip command no_network = network ∷ []
network_requests parse_ip command open_network = []
network_requests parse_ip command (filtered allowed_domains) =
    filtered_requests allowed_domains (extract_hosts_from_command parse_ip command)

-- For the plan's command and the network of its profile.
unfoldable pub detect_out_of_profile_requests :
    (Text → Option Text) → List Text → NetLevel → List Request
unfolding command_appears_to_need_network extract_hosts_from_command denied
detect_out_of_profile_requests parse_ip command net =
    if command_appears_to_need_network command then network_requests parse_ip command net else []

pub record Session : Type 0 where
  pub approve_out_of_profile : Bool
  pub json : Bool
  pub stdin_is_terminal : Bool
  -- The answer at the prompt, or the failure to read one.
  pub answer : Option Text
  pub append_works : Bool

pub data ApprovalEffect : Type 0 where
  prompted : ApprovalEffect
  appended : AuditEventKind → ApprovalEffect

pub data Ended : Type 0 where
  ok error : Ended

abbrev pub shown_all : List Request → List Text
shown_all [] = []
shown_all (r ∷ rs) = shown r ∷ shown_all rs

module _ (session : Session) where
  -- `append_audit_event(...)?` and then an end.
  abbrev pub append_then :
      List ApprovalEffect → AuditEventKind → Ended → List ApprovalEffect × Ended
  append_then effects event ended =
      (effects ++ appended event ∷ [], if session.append_works then ended else error)

  abbrev pub prompt : List Request → Option Text → List ApprovalEffect × Ended
  prompt requested none = (prompted ∷ [], error)
  prompt requested (some answer) =
      append_then (prompted ∷ []) (approval_decision (shown_all requested) (accepts answer) false)
        (if accepts answer then ok else error)

  abbrev pub ask : List Request → List ApprovalEffect × Ended
  ask requested =
      if session.approve_out_of_profile
      then append_then [] (approval_decision (shown_all requested) true true) ok
      else if session.json || not session.stdin_is_terminal
      then append_then [] (approval_decision (shown_all requested) false true) error
      else prompt requested session.answer

  abbrev pub enforce_requests : List Request → List ApprovalEffect × Ended
  enforce_requests [] = ([], ok)
  enforce_requests (r ∷ requested) = ask (r ∷ requested)

  unfoldable pub enforce_out_of_profile_approval :
      (Text → Option Text) → List Text → NetLevel → List ApprovalEffect × Ended
  unfolding detect_out_of_profile_requests accepts
  enforce_out_of_profile_approval parse_ip command net =
      enforce_requests (detect_out_of_profile_requests parse_ip command net)
