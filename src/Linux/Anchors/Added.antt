-- ===== src/Linux/Anchors/Added.antt =====
-- The rules that a child adds are those of its grants.
use claw_crate.Base.{
  ℕ, ◌≡◌, ◌⊎◌, refl, sym, subst, false, List, [], ◌∷◌, ◌++◌, Any, inl, inr, arith, Bool-cases, ◌==◌,
}
use claw_crate.Linux.Landlock.{
  LandlockPathGrant, LinuxLandlockContext, Call, create_ruleset, add_rule, set_no_new_privs,
  restrict_self, close_ruleset, landlock_access_for_path_type, landlock_write_access_mask_for_abi,
  landlock_read_access_mask_for_abi, apply_linux_landlock_restrictions, behind,
}
use claw_crate.Linux.Landlock.Applied.{
  rules_of, all_rules, Restricting, refused, privileged, restricted, Restricts, no_ruleset,
  with_ruleset,
}
use claw_crate.Linux.Anchors.Read.{Granted}
use claw_crate.Linux.Landlock

abbrev pub Called : Call → List Call → Type 0
Called call calls = Any (λ c. c ≡ call) calls

pub Called-append :
    (call : Call) (xs ys : List Call) → Called call (xs ++ ys) → Called call xs ⊎ Called call ys
Called-append call [] ys m = inr m
Called-append call (x ∷ xs) ys m = ground (arith, Called-append call xs ys)

Called-append_left : (call : Call) (xs ys : List Call) → Called call xs → Called call (xs ++ ys)
Called-append_left call [] ys m = absurd m
Called-append_left call (x ∷ xs) ys m = ground (arith, Called-append_left call xs ys)

Called-append_right : (call : Call) (xs ys : List Call) → Called call ys → Called call (xs ++ ys)
Called-append_right call [] ys m = m
Called-append_right call (x ∷ xs) ys m = inr (Called-append_right call xs ys m)

module _ (kernel : Landlock.Kernel) (access fd : ℕ) where
  -- A rule that is added is one of the rules to be added.
  Restricting-rules :
      (rules : List Call) {next : List Call × Landlock.Ended}
      → Restricting kernel rules next
      → Called (add_rule access fd) next.0
      → Called (add_rule access fd) rules
  Restricting-rules rules (refused before after rule errno e taken x) m =
      subst (Called (add_rule access fd)) (sym e)
        (elim (Called-append (add_rule access fd) before (rule ∷ close_ruleset ∷ []) m) [
          | inl earlier ↦ Called-append_left (add_rule access fd) before (rule ∷ after) earlier
          | inr last ↦ Called-append_right (add_rule access fd) before (rule ∷ after) (ground arith)
        ])
  Restricting-rules rules (privileged errno taken e) m =
      ground
        (arith, Called-append (add_rule access fd) rules (set_no_new_privs ∷ close_ruleset ∷ []))
  Restricting-rules rules (restricted taken e) m = ground (
    arith,
    Called-append (add_rule access fd) rules
        (set_no_new_privs ∷ restrict_self ∷ close_ruleset ∷ []),
  )

  pub Restricts-rules :
      (context : LinuxLandlockContext) {next : List Call × Landlock.Ended}
      → Restricts kernel context next
      → Called (add_rule access fd) next.0
      → Called (add_rule access fd) (all_rules context)
  Restricts-rules context (no_ruleset errno e) m = ground arith
  Restricts-rules context (with_ruleset e r) m =
      Restricting-rules (all_rules context) r (ground arith)

-- Such a rule is that of a grant.
abbrev pub IsRuleOf : ℕ → ℕ → ℕ → LandlockPathGrant → Type 0
IsRuleOf mask access fd grant =
    (access ≡ landlock_access_for_path_type mask grant.is_dir) × (fd ≡ grant.fd)

pub rules_of-grant :
    (mask access fd : ℕ) (grants : List LandlockPathGrant)
    → Called (add_rule access fd) (rules_of mask grants)
    → (grant : LandlockPathGrant) × Granted grant grants × IsRuleOf mask access fd grant
rules_of-grant mask access fd [] m = absurd m
rules_of-grant mask access fd (grant ∷ grants) m =
    elim (Bool-cases (landlock_access_for_path_type mask grant.is_dir == 0)) [
      | inl nothing ↦ later (rules_of-grant mask access fd grants (ground arith))
      | inr something ↦ elim (one_of (rules_of mask grants) something) [
        | inl same ↦ (grant, inl refl, ground arith)
        | inr rest ↦ later (rules_of-grant mask access fd grants rest)
      ]
    ]
  where
    later :
        (g : LandlockPathGrant) × Granted g grants × IsRuleOf mask access fd g
        → (g : LandlockPathGrant) × Granted g (grant ∷ grants) × IsRuleOf mask access fd g
    later (g, among, rule) = (g, inr among, rule)

    one_of :
        (rest : List Call)
        → (landlock_access_for_path_type mask grant.is_dir == 0) ≡ false
        → (add_rule (landlock_access_for_path_type mask grant.is_dir) grant.fd ≡ add_rule access fd)
          ⊎ Called (add_rule access fd) (rules_of mask grants)
    one_of rest something = ground arith
