-- ===== src/Base/Lists.antt =====
-- Lists measured and indexed by native numbers, under the library's names, and the predicates
-- and Boolean tests on lists that the components share.
use Prim.Native.Nat.{ℕ, zero, suc, ◌+◌, ◌-◌, ◌≤◌, ◌<◌, min}
use Prim.Native.Nat.add
use mathlib.Core.Path.{◌≡◌, refl, ap}
use mathlib.Core.Logic.{◌⊎◌, ◌↔◌}
use mathlib.Core.Bool.{Bool, true, false, ◌&&◌, ◌||◌}
use mathlib.Core.List.{List, [], ◌∷◌, ◌++◌}
use mathlib.Core.Option.{Option, none, some}
use native.Mathlib.Omega.{arith}

module _ {ℓ} {A : Type ℓ} where
  abbrev pub length : List A → ℕ
  length [] = 0
  length (x ∷ xs) = suc (length xs)

  abbrev pub get_elem? : List A → ℕ → Option A
  get_elem? [] i = none
  get_elem? (x ∷ xs) zero = some x
  get_elem? (x ∷ xs) (suc i) = get_elem? xs i

  abbrev pub take : ℕ → List A → List A
  take zero xs = []
  take (suc n) [] = []
  take (suc n) (x ∷ xs) = x ∷ take n xs

  abbrev pub drop : ℕ → List A → List A
  drop zero xs = xs
  drop (suc n) [] = []
  drop (suc n) (x ∷ xs) = drop n xs

  pub length-append : (xs ys : List A) → length (xs ++ ys) ≡ length xs + length ys
  length-append [] ys = omega arith
  length-append (x ∷ xs) ys = omega (arith, length-append xs ys)

  pub length-take : (n : ℕ) (xs : List A) → length (take n xs) ≡ min n (length xs)
  length-take zero xs = omega arith
  length-take (suc n) [] = omega arith
  length-take (suc n) (x ∷ xs) = omega (arith, length-take n xs)

  pub length-drop : (n : ℕ) (xs : List A) → length (drop n xs) ≡ length xs - n
  length-drop zero xs = omega arith
  length-drop (suc n) [] = omega arith
  length-drop (suc n) (x ∷ xs) = omega (arith, length-drop n xs)

  pub take-append-drop : (n : ℕ) (xs : List A) → take n xs ++ drop n xs ≡ xs
  take-append-drop zero xs = refl
  take-append-drop (suc n) [] = refl
  take-append-drop (suc n) (x ∷ xs) = ap (λ t. x ∷ t) (take-append-drop n xs)

  -- What an index shows of the rest of the list.
  pub drop_of_some :
      (xs : List A) (i : ℕ) (x : A) → get_elem? xs i ≡ some x → drop i xs ≡ x ∷ drop (suc i) xs
  drop_of_some [] i x h = ground arith
  drop_of_some (y ∷ ys) zero x h = ground arith
  drop_of_some (y ∷ ys) (suc i) x h = drop_of_some ys i x h

  pub drop_of_none : (xs : List A) (i : ℕ) → get_elem? xs i ≡ none → drop i xs ≡ []
  drop_of_none [] zero h = refl
  drop_of_none [] (suc i) h = refl
  drop_of_none (y ∷ ys) zero h = ground arith
  drop_of_none (y ∷ ys) (suc i) h = drop_of_none ys i h

  pub lt_of_some : (xs : List A) (i : ℕ) (x : A) → get_elem? xs i ≡ some x → i < length xs
  lt_of_some [] i x h = ground arith
  lt_of_some (y ∷ ys) zero x h = omega arith
  lt_of_some (y ∷ ys) (suc i) x h = omega (arith, lt_of_some ys i x h)

  pub le_of_none : (xs : List A) (i : ℕ) → get_elem? xs i ≡ none → length xs ≤ i
  le_of_none [] i h = omega arith
  le_of_none (y ∷ ys) zero h = ground arith
  le_of_none (y ∷ ys) (suc i) h = omega (arith, le_of_none ys i h)

  pub drop-nil : (n : ℕ) → drop n [] ≡ []
  drop-nil zero = refl
  drop-nil (suc n) = refl

  pub drop-drop : (j k : ℕ) (xs : List A) → drop j (drop k xs) ≡ drop (k + j) xs
  drop-drop j zero xs = rw add.zero
  drop-drop j (suc k) [] = rw add.suc (drop-nil j)
  drop-drop j (suc k) (x ∷ xs) = rw add.suc (drop-drop j k xs)

  pub drop-suc : (j : ℕ) (xs : List A) → drop (suc j) xs ≡ drop 1 (drop j xs)
  drop-suc zero xs = refl
  drop-suc (suc j) [] = refl
  drop-suc (suc j) (x ∷ xs) = drop-suc j xs

  pub drop_all : (n : ℕ) (xs : List A) → length xs ≤ n → drop n xs ≡ []
  drop_all zero [] h = refl
  drop_all (suc n) [] h = refl
  drop_all zero (x ∷ xs) h = absurd (omega arith)
  drop_all (suc n) (x ∷ xs) h = drop_all n xs (omega arith)

  abbrev pub any : (A → Bool) → List A → Bool
  any p [] = false
  any p (x ∷ xs) = p x || any p xs

  abbrev pub all : (A → Bool) → List A → Bool
  all p [] = true
  all p (x ∷ xs) = p x && all p xs

abbrev pub All {ℓ κ} : {A : Type ℓ} → (A → Type κ) → List A → Type κ
All P [] = Unit
All P (x ∷ xs) = P x × All P xs

abbrev pub Any {ℓ} : {A : Type ℓ} → (A → Type 0) → List A → Type 0
Any P [] = ⊥
Any P (x ∷ xs) = P x ⊎ Any P xs

-- The tests `any` and `all`, read as predicates.
module _ {ℓ} {A : Type ℓ} (p : A → Bool) where
  pub any_iff : (xs : List A) → (any p xs ≡ true) ↔ Any (λ x. p x ≡ true) xs
  any_iff [] = ground arith
  any_iff (x ∷ xs) = ground (arith, any_iff xs)

  pub all_iff : (xs : List A) → (all p xs ≡ true) ↔ All (λ x. p x ≡ true) xs
  all_iff [] = ground arith
  all_iff (x ∷ xs) = ground (arith, all_iff xs)

-- `ys` are the elements of `xs` with `P`, each as often as there and in the same order.
pub data Filtered {A : Type 0} (P : A → Type 0) : List A → List A → Type 0 where
  empty : Filtered P [] []
  keep : {x : A} {xs ys : List A} → P x → Filtered P xs ys → Filtered P (x ∷ xs) (x ∷ ys)
  leave : {x : A} {xs ys : List A} → ¬ P x → Filtered P xs ys → Filtered P (x ∷ xs) ys
