-- ===== src/Linux/Landlock/Applied.antt =====
-- The system calls that restrict a child, whatever the kernel answers.
use Prim.Native.Nat.{bit_or}
use claw_crate.Base.{
  ℕ, ◌≡◌, refl, ap, if◌then◌else◌, Option, none, some, List, [], ◌∷◌, ◌++◌, append-nil, subst,
  Bool-cases, Option-cases, inl, inr, ◌==◌,
}
use claw_crate.Linux.Landlock.{
  LandlockPathGrant, LinuxLandlockContext, Call, create_ruleset, add_rule, set_no_new_privs,
  restrict_self, close_ruleset, Kernel, Ended, os_error, landlock_access_for_path_type,
  landlock_errno_to_io_error, ended_by, behind, on_no_new_privs, on_add, add_rules, on_create,
  apply_linux_landlock_restrictions,
}

-- The rules of a set of grants: none for one that would give nothing.
abbrev pub rules_of : ℕ → List LandlockPathGrant → List Call
rules_of mask [] = []
rules_of mask (grant ∷ grants) =
    let access = landlock_access_for_path_type mask grant.is_dir in
    let rest = rules_of mask grants in if access == 0 then rest else add_rule access grant.fd ∷ rest

abbrev pub all_rules : LinuxLandlockContext → List Call
all_rules context =
    rules_of context.write_access_mask context.allowed_write_paths
    ++ rules_of context.read_access_mask context.allowed_read_paths

abbrev pub handled : LinuxLandlockContext → ℕ
handled context = bit_or context.write_access_mask context.read_access_mask

module _ (kernel : Kernel) where
  -- The kernel takes a rule, or fails with a number.
  abbrev pub Takes : Call → Option ℕ → Type 0
  Takes (add_rule access fd) answer = kernel.adds access fd ≡ answer
  Takes _ answer = ⊥

  abbrev pub TakesAll : List Call → Type 0
  TakesAll [] = Unit {0}
  TakesAll (call ∷ calls) = Takes call none × TakesAll calls

  -- What is done behind the creation of the ruleset, for the rules to be added.
  pub data Restricting (rules : List Call) : List Call × Ended → Type 0 where
    refused :
        (before after : List Call) (rule : Call) (errno : ℕ)
        → rules ≡ before ++ rule ∷ after
        → TakesAll before
        → Takes rule (some errno)
        → Restricting rules (before ++ rule ∷ close_ruleset ∷ [], os_error errno)
    privileged :
        (errno : ℕ)
        → TakesAll rules
        → kernel.sets_no_new_privs ≡ some errno
        → Restricting rules (rules ++ set_no_new_privs ∷ close_ruleset ∷ [], os_error errno)
    restricted :
        TakesAll rules
        → kernel.sets_no_new_privs ≡ none
        → Restricting rules (
          rules ++ set_no_new_privs ∷ restrict_self ∷ close_ruleset ∷ [],
          ended_by (landlock_errno_to_io_error kernel.restricts kernel.closes),
        )

  one_more_rule :
      (rule : Call) (rules : List Call) {next : List Call × Ended}
      → Takes rule none
      → Restricting rules next
      → Restricting (rule ∷ rules) (behind rule next)
  one_more_rule rule rules t (refused before after r errno e taken x) =
      refused (rule ∷ before) after r errno (ap (λ l. rule ∷ l) e) (t, taken) x
  one_more_rule rule rules t (privileged errno taken e) = privileged errno (t, taken) e
  one_more_rule rule rules t (restricted taken e) = restricted (t, taken) e

  add_rules-Restricting :
      (mask : ℕ) (grants : List LandlockPathGrant) (rules : List Call) (next : List Call × Ended)
      → Restricting rules next
      → Restricting (rules_of mask grants ++ rules) (add_rules kernel mask grants next)
  unfolding add_rules
  add_rules-Restricting mask [] rules next r = r
  add_rules-Restricting mask (grant ∷ grants) rules next r =
      elim (Bool-cases (landlock_access_for_path_type mask grant.is_dir == 0)) [
        | inl nothing ↦ rw nothing (add_rules-Restricting mask grants rules next r)
        | inr some_access ↦
            rw some_access
              (elim (Option-cases
                (kernel.adds (landlock_access_for_path_type mask grant.is_dir) grant.fd)) [
                  | inl e ↦
                      rw (e, on_add)
                        (one_more_rule _ _ e (add_rules-Restricting mask grants rules next r))
                  | inr (errno, e) ↦ rw (e, on_add) (refused [] _ _ errno refl tt e)
                ])
      ]

  on_no_new_privs-Restricting :
      (o : Option ℕ) → kernel.sets_no_new_privs ≡ o → Restricting [] (on_no_new_privs kernel o)
  on_no_new_privs-Restricting (some errno) e = privileged errno tt e
  on_no_new_privs-Restricting none e = restricted tt e

  pub data Restricts (context : LinuxLandlockContext) : List Call × Ended → Type 0 where
    no_ruleset :
        (errno : ℕ)
        → kernel.creates (handled context) ≡ some errno
        → Restricts context (create_ruleset (handled context) ∷ [], os_error errno)
    with_ruleset :
        {next : List Call × Ended}
        → kernel.creates (handled context) ≡ none
        → Restricting (all_rules context) next
        → Restricts context (behind (create_ruleset (handled context)) next)

  on_create-Restricts :
      (context : LinuxLandlockContext) (next : List Call × Ended) (o : Option ℕ)
      → kernel.creates (handled context) ≡ o
      → Restricting (all_rules context) next
      → Restricts context (on_create kernel (handled context) o next)
  on_create-Restricts context next (some errno) e r = no_ruleset errno e
  on_create-Restricts context next none e r = with_ruleset e r

-- Whatever the kernel answers: the ruleset handles the rights of both masks; if it cannot be
-- made, nothing else is done. Otherwise the rules are added in order, those of writing first,
-- without the ones that would give nothing; at the first that is refused the ruleset is closed and
-- its error returned. Behind all of them new privileges are refused, and if that fails the
-- ruleset is closed and the error returned; only then the process is restricted, once, and the
-- ruleset closed, and the result is the error of the restriction, or else of the closing.
pub apply_linux_landlock_restrictions-Restricts :
    (kernel : Kernel) (context : LinuxLandlockContext)
    → Restricts kernel context (apply_linux_landlock_restrictions kernel context)
unfolding apply_linux_landlock_restrictions
apply_linux_landlock_restrictions-Restricts kernel context =
    on_create-Restricts kernel context _ (kernel.creates (handled context)) refl (
      add_rules-Restricting kernel context.write_access_mask context.allowed_write_paths _ _ (
        subst
          (λ rules. Restricting kernel rules (
            add_rules kernel context.read_access_mask context.allowed_read_paths
              (on_no_new_privs kernel kernel.sets_no_new_privs)))
          (append-nil (rules_of context.read_access_mask context.allowed_read_paths))
          (add_rules-Restricting kernel context.read_access_mask context.allowed_read_paths [] _
            (on_no_new_privs-Restricting kernel kernel.sets_no_new_privs refl))))
