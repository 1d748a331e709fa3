-- ===== src/Egress/Rules.antt =====
-- Which hosts the rules allow.
use claw_crate.Base.{
  ◌≡◌, sym, ap, ◌∙◌, ◌↔◌, ◌⊎◌, inl, inr, ◌≢◌, Text, codes, true, Option, none, some, List, [], ◌∷◌,
  ◌++◌, reverse, Any, any_iff, text_eq_iff, strip_prefix, strip_prefix_iff, starts_with_iff,
  ends_with, arith, Option-cases, is_empty,
}
use mathlib.Core.List.{reverse-append, reverse-reverse}
use claw_crate.Egress.Hosts.{normalize_host, rule_allows, allowed_by, is_host_allowed}

ends_reversed : (s p r : Text) → reverse s ≡ reverse p ++ r → s ≡ reverse r ++ p
ends_reversed s p r e =
    sym (reverse-reverse s)
    ∙ ap reverse e
    ∙ reverse-append (reverse p) r
    ∙ ap (λ t. reverse r ++ t) (reverse-reverse p)

ends_with_iff : (s p : Text) → (ends_with s p ≡ true) ↔ ((r : Text) × (s ≡ r ++ p))
unfolding ends_with
ends_with_iff s p = (
  λ h.
      let (r, e) = (starts_with_iff (reverse s) (reverse p)).0 h in
      (reverse r, ends_reversed s p r e),
  λ (r, e).
      (starts_with_iff (reverse s) (reverse p)).1 (reverse r, ap reverse e ∙ reverse-append r p),
)

-- A rule covers a name: it is the name, or a star, a dot and the end of the name behind a dot.
abbrev pub Covers : Text → Text → Type 0
Covers name rule =
    ((suffix : Text) × (before : Text) × (rule ≡ codes "*." ++ suffix)
      × (name ≡ before ++ 46 ∷ suffix))
    ⊎ (((suffix : Text) → rule ≢ codes "*." ++ suffix) × (name ≡ rule))

rule_allows_iff : (name rule : Text) → (rule_allows name rule ≡ true) ↔ Covers name rule
unfolding rule_allows
rule_allows_iff name rule = elim (Option-cases (strip_prefix rule (codes "*."))) [
  | inl e ↦ rw e (
    λ h. inr (
      λ suffix same. ground (arith, (strip_prefix_iff rule (codes "*.") suffix).1 same),
      (text_eq_iff name rule).0 h,
    ),
    λ c. elim c [
      | inl (suffix, before, r, n) ↦ ground (arith, (strip_prefix_iff rule (codes "*.") suffix).1 r)
      | inr (other, same) ↦ (text_eq_iff name rule).1 same
    ],
  )
  | inr (suffix, e) ↦ rw e (
    λ h.
        (let (before, n) = (ends_with_iff name (46 ∷ suffix)).0 h in
          inl (suffix, before, (strip_prefix_iff rule (codes "*.") suffix).0 e, n)),
    λ c. elim c [
      | inl (suffix', before, r, n) ↦
          (let same : some suffix ≡ some suffix' =
              sym e ∙ (strip_prefix_iff rule (codes "*.") suffix').1 r in
            (ends_with_iff name (46 ∷ suffix)).1 (before, cc))
      | inr (other, same) ↦ absurd (other suffix ((strip_prefix_iff rule (codes "*.") suffix).0 e))
    ],
  )
]

Any-map : {P Q : Text → Type 0} (xs : List Text) → ((x : Text) → P x → Q x) → Any P xs → Any Q xs
Any-map [] f a = a
Any-map (x ∷ xs) f (inl p) = inl (f x p)
Any-map (x ∷ xs) f (inr a) = inr (Any-map xs f a)

-- What lets a normalized name through, by the address that it is.
abbrev pub AllowedBy : Text → List Text → Option Text → Type 0
AllowedBy name allowed_domains (some ip) = Any (λ rule. rule ≡ ip) allowed_domains
AllowedBy name allowed_domains none = Any (Covers name) allowed_domains

allowed_by_iff :
    (name : Text) (allowed_domains : List Text) (o : Option Text)
    → (allowed_by name allowed_domains o ≡ true) ↔ AllowedBy name allowed_domains o
unfolding allowed_by
allowed_by_iff name allowed_domains (some ip) = (
  λ h. Any-map allowed_domains (λ rule. (text_eq_iff rule ip).0) ((any_iff _ allowed_domains).0 h),
  λ a. (any_iff _ allowed_domains).1 (Any-map allowed_domains (λ rule. (text_eq_iff rule ip).1) a),
)
allowed_by_iff name allowed_domains none = (
  λ h.
      Any-map allowed_domains (λ rule. (rule_allows_iff name rule).0)
        ((any_iff _ allowed_domains).0 h),
  λ a.
      (any_iff _ allowed_domains).1
        (Any-map allowed_domains (λ rule. (rule_allows_iff name rule).1) a),
)

is_empty_iff : (s : Text) → (is_empty s ≡ true) ↔ (s ≡ [])
is_empty_iff [] = ground arith
is_empty_iff (c ∷ s) = ground arith

-- A host is allowed exactly if its normalized name is not empty and, where that is an address, the
-- rules hold the address as it is printed, or else one of the rules covers the name: as the name
-- itself, or as `*.` and the end of the name behind a dot.
pub is_host_allowed_iff :
    (parse_ip : Text → Option Text) (host : Text) (allowed_domains : List Text)
    → (is_host_allowed parse_ip host allowed_domains ≡ true) ↔ (
        (normalize_host host ≢ [])
        × AllowedBy (normalize_host host) allowed_domains (parse_ip (normalize_host host)))
unfolding is_host_allowed
is_host_allowed_iff parse_ip host allowed_domains = ground (
  arith,
  is_empty_iff (normalize_host host),
  allowed_by_iff (normalize_host host) allowed_domains (parse_ip (normalize_host host)),
)
