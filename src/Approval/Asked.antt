-- ===== src/Approval/Asked.antt =====
-- A command that names a host in a plain address makes a request, unless the host is allowed.
use claw_crate.Base.{
  ◌≡◌, ◌≢◌, ◌⊎◌, inl, inr, refl, sym, ap, ◌∙◌, subst, Text, Bool, true, false, ◌||◌, if◌then◌else◌,
  Option, none, some, List, [], ◌∷◌, ◌++◌, any, Any, All, codes, ends_with, starts_with_iff,
  strip_prefix, strip_prefix_iff, text_eq, text_eq_iff, reverse, reverse-append, reverse-reverse,
  text_order, set_insert, set_insert-mem, arith, Bool-cases,
}
use claw_crate.Profiles.Resolve.{NetLevel, no_network, open_network, filtered}
use claw_crate.Approval.References.{
  normalize_host, extract_host_from_reference, is_ambiguous_network_reference,
}
use claw_crate.Approval.{
  domain_allowed, command_appears_to_need_network, refers, CommandHostExtraction,
  extract_hosts_from, extract_hosts_from_command, Request, ambiguous, denied, outside,
  filtered_requests, detect_out_of_profile_requests,
}
use claw_crate.Approval.Named.{
  IsPlainHost, IsPlainTail, Scheme, address, extract_host-address, normalize-plain,
}

abbrev Mentions : Text → List Text → Type 0
Mentions host hosts = Any (λ h. h ≡ host) hosts

abbrev Names : Text → List Text → Type 0
Names host args = Any (λ a. extract_host_from_reference a ≡ some host) args

module _ (parse_ip : Text → Option Text) (host : Text) where
  -- The loop's step, by what is read of an argument.
  abbrev step : CommandHostExtraction → Text → Option Text → CommandHostExtraction
  step found arg (some h) = record found { hosts = set_insert h found.hosts }
  step found arg none =
      if is_ambiguous_network_reference parse_ip arg
      then record found { had_ambiguous_targets = true }
      else found

  step-kept :
      (found : CommandHostExtraction) (arg : Text) (o : Option Text)
      → Mentions host found.hosts
      → Mentions host (step found arg o).hosts
  step-kept found arg (some h) m = (set_insert-mem h host found.hosts).1 (inr m)
  step-kept found arg none m = elim (Bool-cases (is_ambiguous_network_reference parse_ip arg)) [
    | inl e ↦ rw e m
    | inr e ↦ rw e m
  ]

  step-named :
      (found : CommandHostExtraction) (arg : Text) (o : Option Text)
      → o ≡ some host
      → Mentions host (step found arg o).hosts
  step-named found arg o e =
      subst (λ x. Mentions host (step found arg x).hosts) (sym e)
        ((set_insert-mem host host found.hosts).1 (inl refl))

  kept :
      (args : List Text) (found : CommandHostExtraction)
      → Mentions host found.hosts
      → Mentions host (extract_hosts_from parse_ip found args).hosts
  unfolding extract_hosts_from
  kept [] found m = m
  kept (arg ∷ args) found m =
      kept args (step found arg (extract_host_from_reference arg))
        (step-kept found arg (extract_host_from_reference arg) m)

  named :
      (args : List Text) (found : CommandHostExtraction)
      → Names host args
      → Mentions host (extract_hosts_from parse_ip found args).hosts
  unfolding extract_hosts_from
  named [] found n = absurd n
  named (arg ∷ args) found (inl e) =
      kept args (step found arg (extract_host_from_reference arg))
        (step-named found arg (extract_host_from_reference arg) e)
  named (arg ∷ args) found (inr n) = named args (step found arg (extract_host_from_reference arg)) n

denied-not_nil :
    (allowed hosts : List Text) (host : Text)
    → domain_allowed host allowed ≡ false
    → Mentions host hosts
    → denied allowed hosts ≢ []
unfolding denied
denied-not_nil allowed [] host d m = absurd m
denied-not_nil allowed (h ∷ hosts) host d (inl e) =
    rw (ap (λ x. domain_allowed x allowed) e ∙ d) (λ empty. ground arith)
denied-not_nil allowed (h ∷ hosts) host d (inr m) = elim (Bool-cases (domain_allowed h allowed)) [
  | inl e ↦ rw e (denied-not_nil allowed hosts host d m)
  | inr e ↦ rw e (λ empty. ground arith)
]

outside-not_nil : (hosts : List Text) → hosts ≢ [] → outside hosts ≢ []
outside-not_nil [] h = λ e. h refl
outside-not_nil (x ∷ xs) h = λ e. ground arith

append-not_nil : (rs ss : List Request) → ss ≢ [] → rs ++ ss ≢ []
append-not_nil [] ss h = h
append-not_nil (r ∷ rs) ss h = λ e. ground arith

filtered-not_nil :
    (allowed hosts : List Text) (unclear : Bool) (host : Text)
    → domain_allowed host allowed ≡ false
    → Mentions host hosts
    → filtered_requests allowed (record { hosts = hosts; had_ambiguous_targets = unclear }) ≢ []
filtered-not_nil allowed [] unclear host d m = absurd m
filtered-not_nil allowed (h ∷ hosts) unclear host d m =
    append-not_nil (if unclear then ambiguous ∷ [] else []) (outside (denied allowed (h ∷ hosts)))
      (outside-not_nil (denied allowed (h ∷ hosts)) (denied-not_nil allowed (h ∷ hosts) host d m))

Names-refers : (host : Text) (args : List Text) → Names host args → any refers args ≡ true
Names-refers host [] n = absurd n
Names-refers host (arg ∷ args) (inl e) = rw e refl
Names-refers host (arg ∷ args) (inr n) = ground (arith, Names-refers host args n)

Names-needs :
    (host : Text) (command : List Text)
    → Names host command
    → command_appears_to_need_network command ≡ true
unfolding command_appears_to_need_network
Names-needs host [] n = absurd n
Names-needs host (executable ∷ args) n = rw (Names-refers host (executable ∷ args) n) refl

address-Names :
    (scheme : Scheme) (host tail : Text) (command : List Text)
    → IsPlainHost host
    → IsPlainTail tail
    → Any (λ a. a ≡ address scheme host tail) command
    → Names host command
address-Names scheme host tail [] p t m = absurd m
address-Names scheme host tail (arg ∷ command) p t (inl e) =
    inl (ap extract_host_from_reference e ∙ extract_host-address host p tail t scheme)
address-Names scheme host tail (arg ∷ command) p t (inr m) =
    inr (address-Names scheme host tail command p t m)

-- A rule covers a host that it spells, or, with `*.` in front, the hosts below the one it spells.
abbrev pub Covers : Text → Text → Type 0
Covers rule host =
    (normalize_host rule ≡ host)
    ⊎ ((front : Text) × (suffix : Text) × (normalize_host rule ≡ codes "*." ++ suffix)
        × (host ≡ front ++ 46 ∷ suffix))

-- No network, or a filtered one of which no rule covers the host.
abbrev pub KeepsOut : NetLevel → Text → Type 0
KeepsOut no_network host = Unit {0}
KeepsOut open_network host = ⊥
KeepsOut (filtered allowed) host = All (λ rule. ¬ Covers rule host) allowed

ends_with-front : (s t : Text) → ends_with s t ≡ true → (front : Text) × (s ≡ front ++ t)
unfolding ends_with
ends_with-front s t e =
    let (rest, same) = (starts_with_iff (reverse s) (reverse t)).0 e in
    (
      reverse rest,
      sym (reverse-reverse s)
          ∙ ap reverse same
          ∙ reverse-append (reverse t) rest
          ∙ ap (λ x. reverse rest ++ x) (reverse-reverse t),
    )

both_false : (a b : Bool) → a ≡ false → b ≡ false → a || b ≡ false
both_false a b e f = ground arith

module _ (host : Text) (plain : IsPlainHost host) where
  abbrev allows_by : Text → Option Text → Bool
  allows_by rule (some suffix) = ends_with (normalize_host host) (46 ∷ suffix)
  allows_by rule none = text_eq (normalize_host host) (normalize_host rule)

  allows-Covers :
      (rule : Text) (o : Option Text)
      → strip_prefix (normalize_host rule) (codes "*.") ≡ o
      → allows_by rule o ≡ true
      → Covers rule host
  allows-Covers rule (some suffix) e h =
      let (front, same) =
        ends_with-front host (46 ∷ suffix)
          (subst (λ x. ends_with x (46 ∷ suffix) ≡ true) (normalize-plain host plain) h) in
      inr (front, suffix, (strip_prefix_iff (normalize_host rule) (codes "*.") suffix).0 e, same)
  allows-Covers rule none e h = inl (
      sym ((text_eq_iff (normalize_host host) (normalize_host rule)).0 h)
      ∙ normalize-plain host plain)

  not_allowed :
      (allowed : List Text)
      → All (λ rule. ¬ Covers rule host) allowed
      → domain_allowed host allowed ≡ false
  unfolding domain_allowed
  not_allowed [] h = refl
  not_allowed (rule ∷ allowed) (h, hs) =
      elim (Bool-cases (allows_by rule (strip_prefix (normalize_host rule) (codes "*.")))) [
        | inl e ↦
            absurd (h (allows-Covers rule (strip_prefix (normalize_host rule) (codes "*.")) refl e))
        | inr e ↦
            both_false (allows_by rule (strip_prefix (normalize_host rule) (codes "*.")))
              (domain_allowed host allowed) e (not_allowed allowed hs)
      ]

-- Whatever else a command has: where one of its arguments is an `https`, `http` or `ssh` address of a
-- host of lower-case letters, digits, dashes and inner dots, with nothing behind it or a path
-- without spaces and `=`, and the profile has no network or a filtered one of which no rule covers
-- the host, something is requested.
pub plain_address_requested :
    (parse_ip : Text → Option Text) (command : List Text) (net : NetLevel) (scheme : Scheme)
    (host tail : Text)
    → IsPlainHost host
    → IsPlainTail tail
    → Any (λ a. a ≡ address scheme host tail) command
    → KeepsOut net host
    → detect_out_of_profile_requests parse_ip command net ≢ []
unfolding detect_out_of_profile_requests extract_hosts_from_command
plain_address_requested parse_ip command open_network scheme host tail p t m d = absurd d
plain_address_requested parse_ip command no_network scheme host tail p t m d =
    rw (Names-needs host command (address-Names scheme host tail command p t m)) (λ e. ground arith)
plain_address_requested parse_ip command (filtered allowed) scheme host tail p t m d =
    let names = address-Names scheme host tail command p t m in
    let found = extract_hosts_from_command parse_ip command in
    rw (Names-needs host command names) (
      filtered-not_nil allowed found.hosts found.had_ambiguous_targets host
        (not_allowed host p allowed d)
        (named parse_ip host command (record { hosts = []; had_ambiguous_targets = false }) names))
