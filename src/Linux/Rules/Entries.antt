-- ===== src/Linux/Rules/Entries.antt =====
-- What the map of the filter holds for each system call.
use claw_crate.Base.{
  ℕ, Text, codes, ◌≡◌, refl, Bool, true, false, if◌then◌else◌, Option, none, some, List, [], ◌∷◌,
  text_order, get, map_insert, keys, IsAscending, get-map_insert, map_insert-IsAscending,
  get_of_before, any, Bool-cases, arith, ◌⊎◌,
}
use claw_crate.Profiles.Resolve.{NetLevel, no_network, open_network, filtered}
use claw_crate.Linux.Syscalls.{
  TargetArch, x86_64, other_arch, linux_seccomp_allowed_syscalls, has_network,
}
use claw_crate.Linux.Rules.{
  Seccompiler, CmpOp, eq, ne, pr_set_seccomp, Rules, map_remove, insert_all, narrow_prctl,
  push_rule, single, filter_rules, build_linux_seccomp_rules,
  restrict_prctl_from_installing_filters, allow_listener_handover_sendmsg,
}

abbrev pub is_among : Text → List Text → Bool
is_among name names = any (λ k. text_order.beq k name) names

module _ {V : Type 0} where
  get-map_remove :
      (j k : Text) (m : List (Text × V))
      → IsAscending (keys m)
      → get j (map_remove k m) ≡ (if text_order.beq k j then none else get j m)
  unfolding map_remove get
  get-map_remove j k [] h = ground arith
  get-map_remove j k ((i, v) ∷ m) (first, rest) = ground (
    arith,
    get-map_remove j k m rest,
    text_order.beq_iff i k,
    text_order.beq_iff k j,
    text_order.beq_iff i j,
    get_of_before i m first,
  )

  insert_all-IsAscending :
      (ks : List Text) (v : V) (m : List (Text × V))
      → IsAscending (keys m)
      → IsAscending (keys (insert_all ks v m))
  unfolding insert_all
  insert_all-IsAscending [] v m h = h
  insert_all-IsAscending (k ∷ ks) v m h =
      insert_all-IsAscending ks v (map_insert k v m) (map_insert-IsAscending k v m h)

  get-insert_all :
      (j : Text) (ks : List Text) (v : V) (m : List (Text × V))
      → get j (insert_all ks v m) ≡ (if is_among j ks then some v else get j m)
  unfolding insert_all
  get-insert_all j [] v m = refl
  get-insert_all j (k ∷ ks) v m =
      ground (arith, get-insert_all j ks v (map_insert k v m), get-map_insert j k v m)

module _ (lib : Seccompiler) where
  open lib use {Condition, Rule, new_condition, new_rule}

  abbrev pub listed : Option Rule → Option (List Rule)
  listed none = none
  listed (some rule) = some (rule ∷ [])

  -- The one rule for a comparison of the first argument, if it can be made.
  abbrev pub only : CmpOp → ℕ → Option (List Rule)
  only op value = listed (single lib (new_condition 0 op value))

  abbrev pub handover : Option ℕ → Option (List Rule)
  handover none = none
  handover (some fd) = only eq fd

  -- What a profile allows of a system call.
  abbrev pub entry : TargetArch → NetLevel → Option ℕ → Text → Option (List Rule)
  entry arch net channel name =
      if text_order.beq (codes "prctl") name
      then only ne pr_set_seccomp
      else if is_among name (linux_seccomp_allowed_syscalls arch net)
      then some []
      else if text_order.beq (codes "sendmsg") name
      then handover channel
      else none

  narrow_prctl-entry :
      (name : Text) (rules : Rules lib) (o : Option Rule)
      → IsAscending (keys rules)
      → get name (narrow_prctl lib o rules)
        ≡ (if text_order.beq (codes "prctl") name then listed o else get name rules)
  narrow_prctl-entry name rules none h = get-map_remove name (codes "prctl") rules h
  narrow_prctl-entry name rules (some rule) h =
      get-map_insert name (codes "prctl") (rule ∷ []) rules

  inserted-entry :
      (name : Text) (allowed : List Text)
      → get name (insert_all {V = List Rule} allowed [] [])
        ≡ (if is_among name allowed then some [] else none)
  unfolding get
  inserted-entry name allowed = get-insert_all name allowed [] []

  built-entry :
      (arch : TargetArch) (net : NetLevel) (name : Text)
      → get name (build_linux_seccomp_rules lib arch net) ≡ entry arch net none name
  unfolding build_linux_seccomp_rules restrict_prctl_from_installing_filters
  built-entry arch net name =
      let allowed = linux_seccomp_allowed_syscalls arch net in
      ground (
        arith,
        narrow_prctl-entry name (insert_all allowed [] [])
            (single lib (new_condition 0 ne pr_set_seccomp))
            (insert_all-IsAscending allowed [] [] tt),
        inserted-entry name allowed,
      )

  -- `sendmsg` is allowed with the network, and only with it.
  sendmsg-entry :
      (arch : TargetArch) (net : NetLevel)
      → entry arch net none (codes "sendmsg") ≡ (if has_network net then some [] else none)
  unfolding linux_seccomp_allowed_syscalls
  sendmsg-entry x86_64 no_network = refl
  sendmsg-entry x86_64 open_network = refl
  sendmsg-entry x86_64 (filtered allowed) = refl
  sendmsg-entry other_arch no_network = refl
  sendmsg-entry other_arch open_network = refl
  sendmsg-entry other_arch (filtered allowed) = refl

  push_rule-entry :
      (name : Text) (rules : Rules lib) (o : Option Rule)
      → get (codes "sendmsg") rules ≡ none
      → get name (push_rule lib o rules)
        ≡ (if text_order.beq (codes "sendmsg") name then listed o else get name rules)
  push_rule-entry name rules none h = ground (arith, text_order.beq_iff (codes "sendmsg") name)
  push_rule-entry name rules (some rule) h =
      rw h (get-map_insert name (codes "sendmsg") (rule ∷ []) rules)

  handed-entry :
      (arch : TargetArch) (net : NetLevel) (fd : ℕ) (name : Text)
      → (has_network net ≡ true) ⊎ (has_network net ≡ false)
      → get name (allow_listener_handover_sendmsg lib fd (build_linux_seccomp_rules lib arch net))
        ≡ entry arch net (some fd) name
  unfolding allow_listener_handover_sendmsg
  handed-entry arch net fd name network = ground (
    arith,
    built-entry arch net name,
    built-entry arch net (codes "sendmsg"),
    sendmsg-entry arch net,
    text_order.beq_iff (codes "sendmsg") name,
    push_rule-entry name (build_linux_seccomp_rules lib arch net)
        (single lib (new_condition 0 eq fd)),
  )

  -- Whatever the profile's network, the architecture, the channel of the listener and the rules
  -- that can be made: the map of the filter holds for `prctl` the one rule that its operation is
  -- not the installation of a filter, or nothing; for every other allowed system call no rule,
  -- which is always; for `sendmsg` without network the one rule that it is on the channel, if there
  -- is one; and nothing else.
  pub filter_rules-entry :
      (arch : TargetArch) (net : NetLevel) (channel : Option ℕ) (name : Text)
      → get name (filter_rules lib arch net channel) ≡ entry arch net channel name
  unfolding filter_rules
  filter_rules-entry arch net none name = built-entry arch net name
  filter_rules-entry arch net (some fd) name =
      handed-entry arch net fd name (Bool-cases (has_network net))
