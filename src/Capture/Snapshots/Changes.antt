-- ===== src/Capture/Snapshots/Changes.antt =====
-- What `diff_snapshots` reports, path by path, and that snapshots have the order it relies on.
use claw_crate.Base.{
  Text, ◌≡◌, refl, ap, ◌∙◌, subst, ◌≢◌, ◌↔◌, inl, inr, Bool, true, false, Option, none, some, List,
  [], ◌∷◌, ◌++◌, if◌then◌else◌, text_eq_iff, arith, Bool-cases, FilePath, path_eq, path_eq_iff,
  path_order, get, contains_key, keys, IsAscending, get_of_before,
}
use claw_crate.Capture.Snapshots.{
  FileFingerprint, FileSnapshot, created, modified, deleted, FsChange, FileSystem, hash_eq,
  fingerprint_eq, changed_file_hash, deleted_or_modified, push, first_loop, created_change,
  second_loop, insert_change, sort_by_path,
}

-- The first change that is reported for a path.
unfoldable pub change_at : FilePath → List FsChange → Option FsChange
change_at p [] = none
change_at p (c ∷ cs) = if path_eq c.path p then some c else change_at p cs

abbrev pub orelse : Option FsChange → Option FsChange → Option FsChange
orelse none b = b
orelse (some a) b = some a

pub change_at-append :
    (p : FilePath) (cs ds : List FsChange)
    → change_at p (cs ++ ds) ≡ orelse (change_at p cs) (change_at p ds)
unfolding change_at
change_at-append p [] ds = refl
change_at-append p (c ∷ cs) ds = ground (arith, change_at-append p cs ds)

change_at-insert_change :
    (p : FilePath) (c : FsChange) (cs : List FsChange)
    → change_at p (insert_change c cs) ≡ change_at p (c ∷ cs)
unfolding change_at insert_change
change_at-insert_change p c [] = refl
change_at-insert_change p c (d ∷ ds) = ground (
  arith,
  change_at-insert_change p c ds,
  path_eq_iff c.path p,
  path_eq_iff d.path p,
  path_order.irrefl p,
)

pub change_at-sort_by_path :
    (p : FilePath) (cs : List FsChange) → change_at p (sort_by_path cs) ≡ change_at p cs
unfolding sort_by_path change_at
change_at-sort_by_path p [] = refl
change_at-sort_by_path p (c ∷ cs) =
    change_at-insert_change p c (sort_by_path cs)
    ∙ ap (λ r. if path_eq c.path p then some c else r) (change_at-sort_by_path p cs)

orelse-none : (o : Option FsChange) → orelse o none ≡ o
orelse-none none = refl
orelse-none (some c) = refl

hash_eq_iff : (a b : Option Text) → (hash_eq a b ≡ true) ↔ (a ≡ b)
unfolding hash_eq
hash_eq_iff none none = ground arith
hash_eq_iff none (some b) = ground arith
hash_eq_iff (some a) none = ground arith
hash_eq_iff (some a) (some b) = ground (arith, text_eq_iff a b)

fingerprint_eq_iff : (a b : FileFingerprint) → (fingerprint_eq a b ≡ true) ↔ (a ≡ b)
unfolding fingerprint_eq
fingerprint_eq_iff a b = ground (arith, hash_eq_iff a.sha256 b.sha256)

module _ (fs : FileSystem) where
  -- What the two snapshots together say of one path.
  pub data Reported (p : FilePath)
      : Option FileFingerprint → Option FileFingerprint → Option FsChange → Type 0 where
    absent : Reported p none none none
    created_file :
        (a : FileFingerprint)
        → Reported p none (some a) (
            some (record {
              path = p;
              kind = created;
              size_bytes = some a.size_bytes;
              sha256 = changed_file_hash fs p a;
            }))
    deleted_file :
        (b : FileFingerprint)
        → Reported p (some b) none (
            some (record {
              path = p;
              kind = deleted;
              size_bytes = some b.size_bytes;
              sha256 = b.sha256;
            }))
    untouched : (b a : FileFingerprint) → a ≡ b → Reported p (some b) (some a) none
    modified_file :
        (b a : FileFingerprint)
        → a ≢ b
        → Reported p (some b) (some a) (
            some (record {
              path = p;
              kind = modified;
              size_bytes = some a.size_bytes;
              sha256 = changed_file_hash fs p a;
            }))

  abbrev pub from_before :
      FilePath → Option FileFingerprint → Option FileFingerprint → Option FsChange
  from_before p none after = none
  from_before p (some b) after = deleted_or_modified fs p b after

  abbrev pub from_after : FilePath → Bool → Option FileFingerprint → Option FsChange
  from_after p known none = none
  from_after p true (some a) = none
  from_after p false (some a) = some (created_change fs p a)

  pub path-deleted_or_modified :
      (p : FilePath) (b : FileFingerprint) (after : Option FileFingerprint) (c : FsChange)
      → deleted_or_modified fs p b after ≡ some c
      → c.path ≡ p
  unfolding deleted_or_modified
  path-deleted_or_modified p b none c h = ground arith
  path-deleted_or_modified p b (some a) c h = ground arith

  -- A change of another path in front is passed over; one of this path is found.
  change_at-push :
      (p k : FilePath) (o : Option FsChange) (cs : List FsChange)
      → ((c : FsChange) → o ≡ some c → c.path ≡ k)
      → change_at p (push o cs)
        ≡ (if path_eq k p then orelse o (change_at p cs) else change_at p cs)
  unfolding change_at
  change_at-push p k none cs h = ground arith
  change_at-push p k (some c) cs h = rw (h c refl)

  pub change_at-first_loop :
      (p : FilePath) (before after : FileSnapshot)
      → IsAscending (keys before)
      → change_at p (first_loop fs after before) ≡ from_before p (get p before) (get p after)
  unfolding first_loop get
  change_at-first_loop p [] after h = unfold change_at in refl
  change_at-first_loop p ((k, v) ∷ before) after (h, hs) =
      let here : change_at p (first_loop fs after ((k, v) ∷ before)) ≡ _ =
        change_at-push p k (deleted_or_modified fs k v (get k after)) (first_loop fs after before)
          (path-deleted_or_modified k v (get k after)) in
      here ∙ (elim (Bool-cases (path_eq k p)) [
        | inl same ↦
            let e = (path_eq_iff k p).0 same in
            let gone : get p before ≡ none =
              subst (λ q. get q before ≡ none) e (get_of_before k before h) in
            let rest : change_at p (first_loop fs after before) ≡ none =
              change_at-first_loop p before after hs
              ∙ ap (λ o. from_before p o (get p after)) gone in
            rw same (
              rw rest (
                orelse-none (deleted_or_modified fs k v (get k after))
                ∙ ap (λ q. deleted_or_modified fs q v (get q after)) e))
        | inr other ↦ rw other (change_at-first_loop p before after hs)
      ])

  path-from_after :
      (k : FilePath) (v : FileFingerprint) (known : Bool) (c : FsChange)
      → from_after k known (some v) ≡ some c
      → c.path ≡ k
  unfolding created_change
  path-from_after k v true c h = ground arith
  path-from_after k v false c h = ground arith

  second_loop-push :
      (k : FilePath) (v : FileFingerprint) (before after : FileSnapshot)
      → second_loop fs before ((k, v) ∷ after)
        ≡ push (from_after k (contains_key k before) (some v)) (second_loop fs before after)
  unfolding second_loop
  second_loop-push k v before after = ground arith

  pub change_at-second_loop :
      (p : FilePath) (before after : FileSnapshot)
      → IsAscending (keys after)
      → change_at p (second_loop fs before after)
        ≡ from_after p (contains_key p before) (get p after)
  unfolding second_loop get
  change_at-second_loop p before [] h = unfold change_at in refl
  change_at-second_loop p before ((k, v) ∷ after) (h, hs) =
      ap (change_at p) (second_loop-push k v before after)
      ∙ change_at-push p k (from_after k (contains_key k before) (some v))
          (second_loop fs before after) (path-from_after k v (contains_key k before))
      ∙ (elim (Bool-cases (path_eq k p)) [
        | inl same ↦
            let e = (path_eq_iff k p).0 same in
            let gone : get p after ≡ none =
              subst (λ q. get q after ≡ none) e (get_of_before k after h) in
            let rest : change_at p (second_loop fs before after) ≡ none =
              change_at-second_loop p before after hs
              ∙ ap (λ o. from_after p (contains_key p before) o) gone in
            rw same (
              rw rest (
                orelse-none (from_after k (contains_key k before) (some v))
                ∙ ap (λ q. from_after q (contains_key q before) (some v)) e))
        | inr other ↦ rw other (change_at-second_loop p before after hs)
      ])

  pub both-Reported :
      (p : FilePath) (known : Bool) (before after : Option FileFingerprint)
      → (known ≡ false) ↔ (before ≡ none)
      → Reported p before after (orelse (from_before p before after) (from_after p known after))
  unfolding deleted_or_modified created_change
  both-Reported p true none after h = absurd (ground arith)
  both-Reported p false none none h = Reported.absent
  both-Reported p false none (some a) h = Reported.created_file a
  both-Reported p known (some b) none h = Reported.deleted_file b
  both-Reported p false (some b) after h = absurd (ground arith)
  both-Reported p true (some b) (some a) h = elim (Bool-cases (fingerprint_eq a b)) [
    | inl same ↦ rw same (Reported.untouched b a ((fingerprint_eq_iff a b).0 same))
    | inr other ↦
        rw other (Reported.modified_file b a (λ e. ground (arith, (fingerprint_eq_iff a b).1 e)))
  ]
