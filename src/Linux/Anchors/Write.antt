-- ===== src/Linux/Anchors/Write.antt =====
-- Where writing is anchored: at the longest part of a path that exists.
use mathlib.Core.List.{reverse-cons, reverse-reverse}
use claw_crate.Base.{
  ℕ, zero, suc, ◌≤◌, ◌<◌, ◌≡◌, ◌⊎◌, refl, ap, ◌∙◌, sym, subst, true, false, if◌then◌else◌, some,
  List, [], ◌∷◌, ◌++◌, reverse, length, length-append, take, FilePath, Component, root_dir, cur_dir,
  parent_dir, normal, set_insert, set_insert-mem, inl, inr, arith, Bool-cases, path_order,
}
use claw_crate.Linux.Anchors.{
  Kernel, Result, ok, err, resolved, existing_parent, nearest_existing_landlock_anchor,
  insert_anchor, write_anchors,
}
use claw_crate.Linux.Anchors.Read.{Among}

le_or_lt : (a b : ℕ) → (a ≤ b) ⊎ (b < a)
le_or_lt a b = omega arith

module _ {A : Type 0} where
  take-append_le : (n : ℕ) (xs ys : List A) → n ≤ length xs → take n (xs ++ ys) ≡ take n xs
  take-append_le zero xs ys h = refl
  take-append_le (suc n) [] ys h = absurd (omega arith)
  take-append_le (suc n) (x ∷ xs) ys h = ap (λ t. x ∷ t) (take-append_le n xs ys (omega arith))

  take_all : (n : ℕ) (xs : List A) → length xs ≤ n → take n xs ≡ xs
  take_all zero [] h = refl
  take_all zero (x ∷ xs) h = absurd (omega arith)
  take_all (suc n) [] h = refl
  take_all (suc n) (x ∷ xs) h = ap (λ t. x ∷ t) (take_all n xs (omega arith))

module _ (kernel : Kernel) where
  -- The anchor is the part of a path of some length that exists, and no longer part does.
  pub record IsNearest (path anchor : FilePath) : Type 0 where
    pub size : ℕ
    pub within : size ≤ length path
    pub part : take size path ≡ anchor
    pub there : kernel.exists anchor ≡ true
    pub no_longer : (n : ℕ) → size < n → n ≤ length path → kernel.exists (take n path) ≡ false

  at_parent :
      (xs : FilePath) (c : Component)
      → kernel.exists (xs ++ c ∷ []) ≡ false
      → kernel.exists xs ≡ true
      → IsNearest (xs ++ c ∷ []) xs
  at_parent xs c missing there = record {
    size = length xs;
    within = omega (arith, length-append xs (c ∷ []));
    part =
        take-append_le (length xs) xs (c ∷ []) (omega arith)
        ∙ take_all (length xs) xs (omega arith);
    there = there;
    no_longer =
        λ n h k. rw (take_all n (xs ++ c ∷ []) (omega (arith, length-append xs (c ∷ [])))) missing;
  }

  further_up :
      (xs : FilePath) (c : Component) (anchor : FilePath)
      → kernel.exists (xs ++ c ∷ []) ≡ false
      → IsNearest xs anchor
      → IsNearest (xs ++ c ∷ []) anchor
  further_up xs c anchor missing near = record {
    size = near.size;
    within = omega (arith, length-append xs (c ∷ []), near.within);
    part = take-append_le near.size xs (c ∷ []) near.within ∙ near.part;
    there = near.there;
    no_longer = λ n h k. longer n h k;
  }
    where
      longer :
          (n : ℕ)
          → near.size < n
          → n ≤ length (xs ++ c ∷ [])
          → kernel.exists (take n (xs ++ c ∷ [])) ≡ false
      longer n h k = elim (le_or_lt n (length xs)) [
        | inl below ↦ rw (take-append_le n xs (c ∷ []) below) (near.no_longer n h below)
        | inr above ↦
            rw (take_all n (xs ++ c ∷ []) (omega (arith, length-append xs (c ∷ [])))) missing
      ]

  one_up :
      (c : Component) (rest : List Component) (anchor : FilePath)
      → kernel.exists (reverse (c ∷ rest)) ≡ false
      → (if kernel.exists (reverse rest) then some (reverse rest) else existing_parent kernel rest)
        ≡ some anchor
      → (kernel.exists (reverse rest) ≡ false
          → existing_parent kernel rest ≡ some anchor
          → IsNearest (reverse rest) anchor)
      → IsNearest (reverse (c ∷ rest)) anchor
  one_up c rest anchor missing h up =
      let missing' = subst (λ p. kernel.exists p ≡ false) (reverse-cons c rest) missing in
      subst (λ p. IsNearest p anchor) (sym (reverse-cons c rest))
        (elim (Bool-cases (kernel.exists (reverse rest))) [
          | inl there ↦
              let same : reverse rest ≡ anchor = ground arith in
              subst (λ a. IsNearest (reverse rest ++ c ∷ []) a) same
                (at_parent (reverse rest) c missing' there)
          | inr none_there ↦
              further_up (reverse rest) c anchor missing' (up none_there (ground arith))
        ])

  existing_parent-IsNearest :
      (rs : List Component) (anchor : FilePath)
      → kernel.exists (reverse rs) ≡ false
      → existing_parent kernel rs ≡ some anchor
      → IsNearest (reverse rs) anchor
  unfolding existing_parent
  existing_parent-IsNearest [] anchor missing h = ground arith
  existing_parent-IsNearest (root_dir ∷ rest) anchor missing h = ground arith
  existing_parent-IsNearest (cur_dir ∷ rest) anchor missing h =
      one_up cur_dir rest anchor missing h (existing_parent-IsNearest rest anchor)
  existing_parent-IsNearest (parent_dir ∷ rest) anchor missing h =
      one_up parent_dir rest anchor missing h (existing_parent-IsNearest rest anchor)
  existing_parent-IsNearest (normal s ∷ rest) anchor missing h =
      one_up (normal s) rest anchor missing h (existing_parent-IsNearest rest anchor)

  nearest_existing_landlock_anchor-IsNearest :
      (path anchor : FilePath)
      → nearest_existing_landlock_anchor kernel path ≡ ok anchor
      → IsNearest path anchor
  unfolding nearest_existing_landlock_anchor
  nearest_existing_landlock_anchor-IsNearest path anchor h =
      elim (Bool-cases (kernel.exists path)) [
        | inl there ↦
            let same : path ≡ anchor = ground arith in
            subst (λ a. IsNearest path a) same
              (record {
                size = length path;
                within = omega arith;
                part = take_all (length path) path (omega arith);
                there = there;
                no_longer = λ n below k. absurd (omega arith);
              })
        | inr missing ↦
            subst (λ p. IsNearest p anchor) (reverse-reverse path)
              (existing_parent-IsNearest (reverse path) anchor (rw (reverse-reverse path) missing)
                (ground arith))
      ]

  -- The anchor is the nearest one of a path that the profile writes.
  abbrev pub IsWritable : FilePath → List FilePath → FilePath → Type 0
  IsWritable cwd fs_write anchor =
      (path : FilePath) × Among path fs_write × IsNearest (resolved cwd path) anchor

  written :
      (cwd path : FilePath) (paths anchors found : List FilePath) (anchor : FilePath)
      (res : Result FilePath)
      → nearest_existing_landlock_anchor kernel (resolved cwd path) ≡ res
      → ((a : FilePath)
          → write_anchors kernel cwd paths (set_insert a anchors) ≡ ok found
          → Among anchor (set_insert a anchors) ⊎ IsWritable cwd paths anchor)
      → insert_anchor kernel res (λ a. write_anchors kernel cwd paths (set_insert a anchors))
        ≡ ok found
      → Among anchor anchors ⊎ IsWritable cwd (path ∷ paths) anchor
  written cwd path paths anchors found anchor (err e) n ih h = ground arith
  written cwd path paths anchors found anchor (ok a) n ih h = elim (ih a h) [
    | inl among ↦ elim ((set_insert-mem a anchor anchors).0 among) [
      | inl same ↦ inr (
        path,
        inl refl,
        nearest_existing_landlock_anchor-IsNearest (resolved cwd path) anchor (n ∙ ap ok same),
      )
      | inr before ↦ inl before
    ]
    | inr (p, among, near) ↦ inr (p, inr among, near)
  ]

  pub write_anchors-IsWritable :
      (cwd : FilePath) (paths anchors found : List FilePath) (anchor : FilePath)
      → write_anchors kernel cwd paths anchors ≡ ok found
      → Among anchor found
      → Among anchor anchors ⊎ IsWritable cwd paths anchor
  unfolding write_anchors
  write_anchors-IsWritable cwd [] anchors found anchor h m = inl (ground arith)
  write_anchors-IsWritable cwd (path ∷ paths) anchors found anchor h m =
      written cwd path paths anchors found anchor
        (nearest_existing_landlock_anchor kernel (resolved cwd path)) refl
        (λ a e. write_anchors-IsWritable cwd paths (set_insert a anchors) found anchor e m) h
