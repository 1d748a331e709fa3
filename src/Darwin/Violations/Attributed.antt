-- ===== src/Darwin/Violations/Attributed.antt =====
-- A denial is attributed by the process id that is logged with it, behind the last marker of a line.
use claw_crate.Base.{
  ℕ, ◌≡◌, refl, sym, ap, ◌∙◌, Text, codes, Option, none, some, [], ◌∷◌, ◌++◌, strip_prefix,
  strip_prefix_iff, trim, ◌==◌, ==_iff, arith, Bool-cases, Option-cases, inl, inr,
}
use claw_crate.Darwin.Violations.{
  SeatbeltViolation, before_more, at_start, or_else, find, rfind, parse_u32, from_close, if_own,
  from_pid, from_deny, from_payload, parse_denial_line,
}

split_cons :
    (c : ℕ) (s needle a b : Text) (o : Option (Text × Text))
    → ((x y : Text) → o ≡ some (x, y) → s ≡ x ++ (needle ++ y))
    → before_more c o ≡ some (a, b)
    → c ∷ s ≡ a ++ (needle ++ b)
split_cons c s needle a b none h e = ground arith
split_cons c s needle a b (some (x, y)) h e = ground (arith, h x y)

split_start :
    (s needle a b : Text) (o : Option Text)
    → strip_prefix s needle ≡ o
    → at_start o ≡ some (a, b)
    → s ≡ a ++ (needle ++ b)
split_start s needle a b none h e = ground arith
split_start s needle a b (some rest) h e = ground (arith, (strip_prefix_iff s needle rest).0 h)

-- What is found stands in the text.
find-split : (needle s a b : Text) → find needle s ≡ some (a, b) → s ≡ a ++ (needle ++ b)
unfolding find
find-split needle [] a b h = ground arith
find-split needle (c ∷ s) a b h = elim (Option-cases (strip_prefix (c ∷ s) needle)) [
  | inl e ↦
      split_cons c s needle a b (find needle s) (λ x y. find-split needle s x y)
        (rw (e, or_else) at h)
  | inr (rest, e) ↦ split_start (c ∷ s) needle a b (some rest) e (rw (e, or_else) at h)
]

rfind-split : (needle s a b : Text) → rfind needle s ≡ some (a, b) → s ≡ a ++ (needle ++ b)
unfolding rfind
rfind-split needle [] a b h = ground arith
rfind-split needle (c ∷ s) a b h = elim (Option-cases (rfind needle s)) [
  | inl e ↦ split_start (c ∷ s) needle a b (strip_prefix (c ∷ s) needle) refl (rw (e, or_else) at h)
  | inr (found, e) ↦
      split_cons c s needle a b (some found) (λ x y q. rfind-split needle s x y (e ∙ q))
        (rw (e, or_else) at h)
]

rfind-none_behind : (needle x y : Text) → rfind needle (x ++ y) ≡ none → rfind needle y ≡ none
unfolding rfind
rfind-none_behind needle [] y h = h
rfind-none_behind needle (c ∷ x) y h = elim (Option-cases (rfind needle (x ++ y))) [
  | inl e ↦ rfind-none_behind needle x y e
  | inr (found, e) ↦ ground arith
]

rfind-front :
    (needle front s a b : Text)
    → rfind needle s ≡ some (a, b)
    → rfind needle (front ++ s) ≡ some (front ++ a, b)
unfolding rfind
rfind-front needle [] s a b h = h
rfind-front needle (c ∷ front) s a b h = rw (rfind-front needle front s a b h) refl

-- Where the last needle of a text is found, none is behind it.
rfind-last : (n : ℕ) (ns s a b : Text) → rfind (n ∷ ns) s ≡ some (a, b) → rfind (n ∷ ns) b ≡ none
unfolding rfind
rfind-last n ns [] a b h = ground arith
rfind-last n ns (c ∷ s) a b h = elim (Option-cases (rfind (n ∷ ns) s)) [
  | inr ((x, y), e) ↦
      let same : y ≡ b = ground arith in ap (rfind (n ∷ ns)) (sym same) ∙ rfind-last n ns s x y e
  | inl e ↦ elim (Option-cases (strip_prefix (c ∷ s) (n ∷ ns))) [
    | inl q ↦ ground arith
    | inr (rest, q) ↦
        let same : rest ≡ b = ground arith in
        let text : c ∷ s ≡ n ∷ (ns ++ rest) = (strip_prefix_iff (c ∷ s) (n ∷ ns) rest).0 q in
        let behind : s ≡ ns ++ rest = ground arith in
        ap (rfind (n ∷ ns)) (sym same)
        ∙ rfind-none_behind (n ∷ ns) ns rest (ap (rfind (n ∷ ns)) (sym behind) ∙ e)
  ]
]

-- The line has the marker for the last time, then a name with the process id in parentheses, and
-- then the denial.
pub record IsAttributed (line : Text) (pid : ℕ) : Type 0 where
  pub front : Text
  pub name : Text
  pub logged : Text
  pub after_deny : Text
  pub marked :
      line
      ≡ front
        ++ (codes "Sandbox: "
            ++ ((name ++ (codes "(" ++ logged)) ++ (codes ") deny(" ++ after_deny)))
  pub last :
      rfind (codes "Sandbox: ") ((name ++ (codes "(" ++ logged)) ++ (codes ") deny(" ++ after_deny))
      ≡ none
  pub own : parse_u32 (trim logged) ≡ some pid

module _ (line : Text) (pid : ℕ) where
  own_pid :
      (o : Option ℕ) (violation : Option SeatbeltViolation) (v : SeatbeltViolation)
      → if_own o pid violation ≡ some v
      → o ≡ some pid
  own_pid none violation v h = ground arith
  own_pid (some logged_pid) violation v h = elim (Bool-cases (logged_pid == pid)) [
    | inl same ↦ ap some ((==_iff logged_pid pid).0 same)
    | inr other ↦ ground arith
  ]

  -- The parts, with where they were found.
  from_pid-IsAttributed :
      (front payload before_deny after_deny : Text) (found : Option (Text × Text))
      (v : SeatbeltViolation)
      → rfind (codes "Sandbox: ") line ≡ some (front, payload)
      → find (codes ") deny(") payload ≡ some (before_deny, after_deny)
      → rfind (codes "(") before_deny ≡ found
      → from_pid pid found after_deny ≡ some v
      → IsAttributed line pid
  from_pid-IsAttributed front payload before_deny after_deny none v m d p h = ground arith
  from_pid-IsAttributed front payload before_deny after_deny (some (name, logged)) v m d p h =
      let inner = rfind-split (codes "(") before_deny name logged p in
      let outer = find-split (codes ") deny(") payload before_deny after_deny d in
      let whole : payload ≡ (name ++ (codes "(" ++ logged)) ++ (codes ") deny(" ++ after_deny) =
        outer ∙ ap (λ t. t ++ (codes ") deny(" ++ after_deny)) inner in
      record {
        front = front;
        name = name;
        logged = logged;
        after_deny = after_deny;
        marked =
            rfind-split (codes "Sandbox: ") line front payload m
            ∙ ap (λ t. front ++ (codes "Sandbox: " ++ t)) whole;
        last =
            ap (rfind (codes "Sandbox: ")) (sym whole)
            ∙ rfind-last b'S' (codes "andbox: ") line front payload m;
        own = own_pid (parse_u32 (trim logged)) (from_close (find (codes ")") after_deny)) v h;
      }

  from_deny-IsAttributed :
      (front payload : Text) (found : Option (Text × Text)) (v : SeatbeltViolation)
      → rfind (codes "Sandbox: ") line ≡ some (front, payload)
      → find (codes ") deny(") payload ≡ found
      → from_deny pid found ≡ some v
      → IsAttributed line pid
  from_deny-IsAttributed front payload none v m d h = ground arith
  from_deny-IsAttributed front payload (some (before_deny, after_deny)) v m d h =
      from_pid-IsAttributed front payload before_deny after_deny (rfind (codes "(") before_deny) v m
        d refl h

  from_payload-IsAttributed :
      (found : Option (Text × Text)) (v : SeatbeltViolation)
      → rfind (codes "Sandbox: ") line ≡ found
      → from_payload pid found ≡ some v
      → IsAttributed line pid
  from_payload-IsAttributed none v m h = ground arith
  from_payload-IsAttributed (some (front, payload)) v m h =
      from_deny-IsAttributed front payload (find (codes ") deny(") payload) v m refl h

-- A line that is read as a denial of a process has the marker, behind its last one a name with in
-- parentheses a number that is the process id, and behind that the denial.
pub parse_denial_line-IsAttributed :
    (line : Text) (pid : ℕ) (v : SeatbeltViolation)
    → parse_denial_line line pid ≡ some v
    → IsAttributed line pid
unfolding parse_denial_line
parse_denial_line-IsAttributed line pid v h =
    from_payload-IsAttributed line pid (rfind (codes "Sandbox: ") line) v refl h

-- A line with a marker is read the same with any text put in front of it: what it reads as is
-- decided from its last marker on.
pub parse_denial_line-front :
    (front line : Text) (pid : ℕ) (found : Text × Text)
    → rfind (codes "Sandbox: ") line ≡ some found
    → parse_denial_line (front ++ line) pid ≡ parse_denial_line line pid
unfolding parse_denial_line
parse_denial_line-front front line pid (a, b) h =
    rw (rfind-front (codes "Sandbox: ") front line a b h, h, from_payload) refl
