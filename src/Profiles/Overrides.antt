-- ===== src/Profiles/Overrides.antt =====
-- What the stack of a workspace adds to a profile, and what a network setting can resolve to.
use claw_crate.Base.{
  ◌≡◌, refl, subst, ap, ◌∙◌, ◌≢◌, inl, inr, ◌↔◌, Text, Bool, true, false, not, if◌then◌else◌,
  Option, none, some, List, [], ◌∷◌, ◌++◌, all, All, text_eq, text_eq_iff, FilePath, path_eq,
  path_eq_iff, arith, Bool-cases, is_empty,
}
use claw_crate.Profiles.Merge.{RawNetwork, string, config}
use claw_crate.Profiles.Resolve.{
  ResolvedProfile, ok, filtered, normalize_string, normalize_domains, filtered_by, parse_network,
  parse_network_mode_string,
}
use claw_crate.Profiles.Stack.{
  DetectedStack, rust, node, python, unknown, push_unique_path, push_unique_string,
  apply_stack_overrides,
}

module _ {A : Type 0} (eq : A → A → Bool) (eq_iff : (a b : A) → (eq a b ≡ true) ↔ (a ≡ b)) where
  -- The shape that both `push_unique_path` and `push_unique_string` have.
  push_unique : List A → A → List A
  push_unique values x =
      if all (λ existing. not (eq existing x)) values then values ++ x ∷ [] else values

  holds-all :
      (values : List A) (x : A) → all (λ existing. not (eq existing x)) (values ++ x ∷ []) ≡ false
  holds-all [] x = ground (arith, eq_iff x x)
  holds-all (v ∷ values) x = ground (arith, holds-all values x)

  all-append :
      (values : List A) (x y : A)
      → all (λ existing. not (eq existing x)) values ≡ false
      → all (λ existing. not (eq existing x)) (values ++ y ∷ []) ≡ false
  all-append [] x y h = ground arith
  all-append (v ∷ values) x y h = ground (arith, all-append values x y)

  -- Whether a value is among others.
  abbrev Has : List A → A → Type 0
  Has values x = all (λ existing. not (eq existing x)) values ≡ false

  push_unique-Has : (values : List A) (x : A) → Has (push_unique values x) x
  unfolding push_unique
  push_unique-Has values x = elim (Bool-cases (all (λ existing. not (eq existing x)) values)) [
    | inl e ↦ rw e (holds-all values x)
    | inr e ↦ rw e e
  ]

  push_unique-keeps_Has : (values : List A) (x y : A) → Has values x → Has (push_unique values y) x
  unfolding push_unique
  push_unique-keeps_Has values x y h =
      elim (Bool-cases (all (λ existing. not (eq existing y)) values)) [
        | inl e ↦ rw e (all-append values x y h)
        | inr e ↦ rw e h
      ]

  push_unique-of_Has : (values : List A) (x : A) → Has values x → push_unique values x ≡ values
  unfolding push_unique
  push_unique-of_Has values x h = rw h refl

  again_one : (v : List A) (x : A) → push_unique (push_unique v x) x ≡ push_unique v x
  again_one v x = push_unique-of_Has (push_unique v x) x (push_unique-Has v x)

  again_two :
      (v : List A) (x y : A)
      → push_unique (push_unique (push_unique (push_unique v x) y) x) y
        ≡ push_unique (push_unique v x) y
  again_two v x y =
      let w = push_unique (push_unique v x) y in
      ap (λ u. push_unique u y)
        (push_unique-of_Has w x (push_unique-keeps_Has (push_unique v x) x y (push_unique-Has v x)))
      ∙ push_unique-of_Has w y (push_unique-Has (push_unique v x) y)

  again_three :
      (v : List A) (x y z : A)
      → push_unique
          (push_unique (push_unique (push_unique (push_unique (push_unique v x) y) z) x) y)
          z
        ≡ push_unique (push_unique (push_unique v x) y) z
  again_three v x y z =
      let a = push_unique v x in
      let b = push_unique a y in
      let w = push_unique b z in
      ap (λ u. push_unique (push_unique u y) z)
        (push_unique-of_Has w x
          (push_unique-keeps_Has b x z (push_unique-keeps_Has a x y (push_unique-Has v x))))
      ∙ ap (λ u. push_unique u z)
          (push_unique-of_Has w y (push_unique-keeps_Has b y z (push_unique-Has a y)))
      ∙ push_unique-of_Has w z (push_unique-Has b z)

path_again :
    (v : List FilePath) (x : FilePath)
    → push_unique_path (push_unique_path v x) x ≡ push_unique_path v x
unfolding push_unique push_unique_path
path_again v x = again_one path_eq path_eq_iff v x

paths_again :
    (v : List FilePath) (x y : FilePath)
    → push_unique_path (push_unique_path (push_unique_path (push_unique_path v x) y) x) y
      ≡ push_unique_path (push_unique_path v x) y
unfolding push_unique push_unique_path
paths_again v x y = again_two path_eq path_eq_iff v x y

three_paths_again :
    (v : List FilePath) (x y z : FilePath)
    → push_unique_path
        (push_unique_path
          (push_unique_path (push_unique_path (push_unique_path (push_unique_path v x) y) z) x)
          y)
        z
      ≡ push_unique_path (push_unique_path (push_unique_path v x) y) z
unfolding push_unique push_unique_path
three_paths_again v x y z = again_three path_eq path_eq_iff v x y z

string_again :
    (v : List Text) (x : Text)
    → push_unique_string (push_unique_string v x) x ≡ push_unique_string v x
unfolding push_unique push_unique_string
string_again v x = again_one text_eq text_eq_iff v x

same_lists :
    (p : ResolvedProfile) (r r' w w' : List FilePath) (e e' : List Text)
    → r ≡ r'
    → w ≡ w'
    → e ≡ e'
    → ◌≡◌ {A = ResolvedProfile}
        (record p { fs_read = r; fs_write = w; env_passthrough = e })
        (record p { fs_read = r'; fs_write = w'; env_passthrough = e' })
same_lists p r r' w w' e e' a b c = rw (a, b, c) refl

-- Applying the overrides of a stack to a profile that has them already changes nothing.
pub apply_stack_overrides-twice :
    (profile : ResolvedProfile) (stack : DetectedStack)
    → apply_stack_overrides (apply_stack_overrides profile stack) stack
      ≡ apply_stack_overrides profile stack
unfolding apply_stack_overrides
apply_stack_overrides-twice profile rust = refl
apply_stack_overrides-twice profile unknown = refl
apply_stack_overrides-twice profile node =
    same_lists profile _ _ _ _ _ _ (paths_again profile.fs_read _ _)
      (three_paths_again profile.fs_write _ _ _) (string_again profile.env_passthrough _)
apply_stack_overrides-twice profile python =
    same_lists profile _ _ _ _ _ _ (path_again profile.fs_read _) (paths_again profile.fs_write _ _)
      (string_again profile.env_passthrough _)

normalize_domains-IsNonEmpty : (values : List Text) → All (λ d. d ≢ []) (normalize_domains values)
unfolding normalize_domains
normalize_domains-IsNonEmpty [] = ground arith
normalize_domains-IsNonEmpty (v ∷ values) = elim (Bool-cases (is_empty (normalize_string v))) [
  | inl e ↦ rw e (normalize_domains-IsNonEmpty values)
  | inr e ↦ rw e (λ h. ground arith, normalize_domains-IsNonEmpty values)
]

mode_string-not_filtered :
    (value : Text) (path : FilePath) (domains : List Text)
    → parse_network_mode_string value path ≢ ok (filtered domains)
unfolding parse_network_mode_string
mode_string-not_filtered value path domains h = ground arith

filtered_by-ok :
    (ds domains : List Text) (path : FilePath)
    → filtered_by ds path ≡ ok (filtered domains)
    → (ds ≡ domains) × (domains ≢ [])
filtered_by-ok [] domains path h = ground arith
filtered_by-ok (d ∷ ds) domains path h = (ground arith, ground arith)

-- A filtered network that a setting resolves to, whatever the setting, has at least one rule, and no
-- rule is empty.
pub parse_network-filtered :
    (raw : Option RawNetwork) (path : FilePath) (domains : List Text)
    → parse_network raw path ≡ ok (filtered domains)
    → (domains ≢ []) × All (λ d. d ≢ []) domains
unfolding parse_network
parse_network-filtered none path domains h = ground arith
parse_network-filtered (some (string value)) path domains h =
    absurd (mode_string-not_filtered value path domains h)
parse_network-filtered (some (config c)) path domains h =
    let (same, some_there) =
      filtered_by-ok (normalize_domains c.allowed_domains) domains path (ground arith) in
    (some_there, subst (All (λ d. d ≢ [])) same (normalize_domains-IsNonEmpty c.allowed_domains))
