-- ===== src/Capture/Snapshots/Ordered.antt =====
-- The order of the changes and of the snapshots themselves.
use claw_crate.Base.{
  ◌≡◌, refl, sym, ◌∙◌, subst, inl, inr, Bool, true, Option, none, some, List, [], ◌∷◌, ◌++◌, arith,
  All, Bool-cases, FilePath, path_eq_iff, path_order, get, contains_key, contains_key-get, keys,
  ap₂, IsAscending, All-lt_trans,
}
use claw_crate.Capture.Snapshots.{
  FileFingerprint, FileSnapshot, FsChange, FileSystem, deleted_or_modified, push, first_loop,
  created_change, second_loop, insert_change, sort_by_path, diff_snapshots,
}
use claw_crate.Capture.Snapshots.Changes.{
  change_at, change_at-sort_by_path, change_at-append, change_at-first_loop, change_at-second_loop,
  both-Reported, Reported, orelse, from_after, path-deleted_or_modified,
}

abbrev pub paths : List FsChange → List FilePath
paths [] = []
paths (c ∷ cs) = c.path ∷ paths cs

-- No change of the list is at the path: said by the search, and so a matter of equations only.
abbrev Distinct : List FsChange → Type 0
Distinct [] = Unit
Distinct (c ∷ cs) = (change_at c.path cs ≡ none) × Distinct cs

lt_of_absent :
    (c : FsChange) (cs : List FsChange)
    → IsAscending (paths cs)
    → change_at c.path cs ≡ none
    → IsAscending (paths (insert_change c cs))
      × ((k : FilePath)
          → path_order.lt k c.path ≡ true
          → All (λ p. path_order.lt k p ≡ true) (paths cs)
          → All (λ p. path_order.lt k p ≡ true) (paths (insert_change c cs)))
unfolding insert_change change_at
lt_of_absent c [] h e = ((tt, tt), λ k l _. (l, tt))
lt_of_absent c (d ∷ ds) (h, hs) e = elim (Bool-cases (path_order.lt d.path c.path)) [
  | inl before ↦
      let (asc, all) = lt_of_absent c ds hs (ground arith) in
      rw before ((all d.path before h, asc), λ k l a. (a.0, all k l a.1))
  | inr behind ↦
      let after = path_order.total d.path c.path behind (ground arith) in
      rw behind (((after, All-lt_trans c.path d.path (paths ds) after h), (h, hs)), λ k l a. (l, a))
]

sort-IsAscending : (cs : List FsChange) → Distinct cs → IsAscending (paths (sort_by_path cs))
unfolding sort_by_path
sort-IsAscending [] h = tt
sort-IsAscending (c ∷ cs) (h, hs) =
    (lt_of_absent c (sort_by_path cs) (sort-IsAscending cs hs)
      (change_at-sort_by_path c.path cs ∙ h)).0

absent_of_before :
    (k : FilePath) (cs : List FsChange)
    → All (λ p. path_order.lt k p ≡ true) (paths cs)
    → change_at k cs ≡ none
unfolding change_at
absent_of_before k [] h = refl
absent_of_before k (c ∷ cs) (h, hs) =
    ground (arith, absent_of_before k cs hs, path_eq_iff c.path k, path_order.irrefl k)

-- Changes of an ascending list of paths are distinct.
ascending-Distinct : (cs : List FsChange) → IsAscending (paths cs) → Distinct cs
ascending-Distinct [] h = tt
ascending-Distinct (c ∷ cs) (h, hs) = (absent_of_before c.path cs h, ascending-Distinct cs hs)

append-Distinct :
    (cs ds : List FsChange)
    → Distinct cs
    → Distinct ds
    → All (λ p. change_at p ds ≡ none) (paths cs)
    → Distinct (cs ++ ds)
append-Distinct [] ds h k a = k
append-Distinct (c ∷ cs) ds (h, hs) k (a, more) =
    (change_at-append c.path cs ds ∙ (rw h a), append-Distinct cs ds hs k more)

All-push :
    (P : FilePath → Type 0) (k : FilePath) (o : Option FsChange) (cs : List FsChange)
    → ((c : FsChange) → o ≡ some c → c.path ≡ k)
    → P k
    → All P (paths cs)
    → All P (paths (push o cs))
All-push P k none cs e h a = a
All-push P k (some c) cs e h a = (subst P (sym (e c refl)) h, a)

push-IsAscending :
    (k : FilePath) (o : Option FsChange) (cs : List FsChange)
    → ((c : FsChange) → o ≡ some c → c.path ≡ k)
    → All (λ p. path_order.lt k p ≡ true) (paths cs)
    → IsAscending (paths cs)
    → IsAscending (paths (push o cs))
push-IsAscending k none cs e h a = a
push-IsAscending k (some c) cs e h a =
    (subst (λ q. All (λ p. path_order.lt q p ≡ true) (paths cs)) (sym (e c refl)) h, a)

module _ (fs : FileSystem) where
  All-first_loop :
      (P : FilePath → Type 0) (after before : FileSnapshot)
      → All P (keys before)
      → All P (paths (first_loop fs after before))
  unfolding first_loop deleted_or_modified
  All-first_loop P after [] h = tt
  All-first_loop P after ((k, v) ∷ before) (h, hs) =
      All-push P k (deleted_or_modified fs k v (get k after)) _
        (path-deleted_or_modified fs k v (get k after)) h (All-first_loop P after before hs)

  first_loop-IsAscending :
      (after before : FileSnapshot)
      → IsAscending (keys before)
      → IsAscending (paths (first_loop fs after before))
  unfolding first_loop
  first_loop-IsAscending after [] h = tt
  first_loop-IsAscending after ((k, v) ∷ before) (h, hs) =
      push-IsAscending k (deleted_or_modified fs k v (get k after)) _
        (path-deleted_or_modified fs k v (get k after))
        (All-first_loop (λ p. path_order.lt k p ≡ true) after before h)
        (first_loop-IsAscending after before hs)

  All-second_loop :
      (P : FilePath → Type 0) (before after : FileSnapshot)
      → All P (keys after)
      → All P (paths (second_loop fs before after))
  unfolding second_loop created_change
  All-second_loop P before [] h = tt
  All-second_loop P before ((k, v) ∷ after) (h, hs) =
      ground (arith, All-second_loop P before after hs)

  second_loop-IsAscending :
      (before after : FileSnapshot)
      → IsAscending (keys after)
      → IsAscending (paths (second_loop fs before after))
  unfolding second_loop created_change
  second_loop-IsAscending before [] h = tt
  second_loop-IsAscending before ((k, v) ∷ after) (h, hs) = ground (
    arith,
    second_loop-IsAscending before after hs,
    All-second_loop (λ p. path_order.lt k p ≡ true) before after h,
  )

  from_after-known :
      (k : FilePath) (o : Option FileFingerprint) {b : Bool} → b ≡ true → from_after fs k b o ≡ none
  from_after-known k none e = refl
  from_after-known k (some a) e = ground arith

  -- What the second loop reports is not in the first snapshot.
  known_absent :
      (before after : FileSnapshot)
      → IsAscending (keys after)
      → (some_of : FileSnapshot)
      → ((p : FilePath) → contains_key p some_of ≡ true → contains_key p before ≡ true)
      → All (λ p. change_at p (second_loop fs before after) ≡ none) (keys some_of)
  unfolding contains_key
  known_absent before after h [] sub = tt
  known_absent before after h ((k, v) ∷ m) sub = (
    change_at-second_loop fs k before after h
        ∙ from_after-known k (get k after) (sub k (ground (arith, path_eq_iff k k))),
    known_absent before after h m (λ p e. sub p (ground arith)),
  )

  -- For two snapshots in the order of a `BTreeMap`, the changes come in strictly ascending order
  -- of their paths, so at most one for each path, and the change for a path is what the two
  -- snapshots say of it: none where the path is in neither or its fingerprints are equal, created
  -- or deleted where it is in one only, modified where its fingerprints differ.
  pub diff_snapshots-Reported :
      (before after : FileSnapshot)
      → IsAscending (keys before)
      → IsAscending (keys after)
      → IsAscending (paths (diff_snapshots fs before after))
        × ((p : FilePath)
            → Reported fs p
                (get p before)
                (get p after)
                (change_at p (diff_snapshots fs before after)))
  unfolding diff_snapshots
  diff_snapshots-Reported before after hb ha = (
    sort-IsAscending _ (
        append-Distinct (first_loop fs after before) (second_loop fs before after)
          (ascending-Distinct _ (first_loop-IsAscending after before hb))
          (ascending-Distinct _ (second_loop-IsAscending before after ha))
          (All-first_loop (λ p. change_at p (second_loop fs before after) ≡ none) after before
            (known_absent before after ha before (λ k h. h)))),
    λ p.
        subst (Reported fs p (get p before) (get p after))
          (sym (
            change_at-sort_by_path p _
            ∙ change_at-append p (first_loop fs after before) _
            ∙ ap₂ orelse (change_at-first_loop fs p before after hb)
                (change_at-second_loop fs p before after ha)))
          (both-Reported fs p (contains_key p before) (get p before) (get p after)
            (contains_key-get p before)),
  )
