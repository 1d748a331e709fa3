-- ===== src/Base/Orders.antt =====
-- Total orders as an interface, and sets and maps that a `BTreeSet` or a `BTreeMap` keeps sorted.
use Prim.Native.Nat.{ℕ}
use mathlib.Core.Path.{◌≡◌, refl}
use mathlib.Core.Logic.{◌↔◌, ◌⊎◌, inl, inr}
use mathlib.Core.Bool.{Bool, true, false, ◌&&◌, ◌||◌}
use mathlib.Core.List.{List, [], ◌∷◌}
use native.Mathlib.Omega.{arith}
use claw_crate.Base.Tests.{ltb, ◌==◌ as nat_beq, ==_iff, if◌then◌else◌, Bool-cases}
use claw_crate.Base.Lists.{All, Any}

-- What `Ord` promises: a strict order that tells any two different values apart.
pub record Order {ℓ} (A : Type ℓ) : Type ℓ where
  pub lt : A → A → Bool
  pub beq : A → A → Bool
  pub beq_iff : (a b : A) → (beq a b ≡ true) ↔ (a ≡ b)
  pub irrefl : (a : A) → lt a a ≡ false
  pub trans : (a b c : A) → lt a b ≡ true → lt b c ≡ true → lt a c ≡ true
  pub total : (a b : A) → lt a b ≡ false → beq a b ≡ false → lt b a ≡ true

pub ltb_irrefl : (a : ℕ) → ltb a a ≡ false
ltb_irrefl a = ground arith

pub ltb_trans : (a b c : ℕ) → ltb a b ≡ true → ltb b c ≡ true → ltb a c ≡ true
ltb_trans a b c h k = ground arith

pub ltb_total : (a b : ℕ) → ltb a b ≡ false → nat_beq a b ≡ false → ltb b a ≡ true
ltb_total a b h k = ground arith

instance abbrev pub nat_order : Order ℕ
nat_order = record {
  lt = ltb;
  beq = nat_beq;
  beq_iff = ==_iff;
  irrefl = ltb_irrefl;
  trans = ltb_trans;
  total = ltb_total;
}

module _ {ℓ} {A : Type ℓ} ⦃o : Order A⦄ where
  abbrev pub beq_list : List A → List A → Bool
  beq_list [] [] = true
  beq_list [] (y ∷ ys) = false
  beq_list (x ∷ xs) [] = false
  beq_list (x ∷ xs) (y ∷ ys) = o.beq x y && beq_list xs ys

  -- The lexicographic order.
  abbrev pub lt_list : List A → List A → Bool
  lt_list [] [] = false
  lt_list [] (y ∷ ys) = true
  lt_list (x ∷ xs) [] = false
  lt_list (x ∷ xs) (y ∷ ys) = o.lt x y || (o.beq x y && lt_list xs ys)

  beq_refl : (a : A) → o.beq a a ≡ true
  beq_refl a = (o.beq_iff a a).1 refl

  pub beq_list_iff : (xs ys : List A) → (beq_list xs ys ≡ true) ↔ (xs ≡ ys)
  beq_list_iff [] [] = ground arith
  beq_list_iff [] (y ∷ ys) = ground arith
  beq_list_iff (x ∷ xs) [] = ground arith
  beq_list_iff (x ∷ xs) (y ∷ ys) = ground (arith, beq_list_iff xs ys, o.beq_iff x y)

  pub lt_list_irrefl : (xs : List A) → lt_list xs xs ≡ false
  lt_list_irrefl [] = refl
  lt_list_irrefl (x ∷ xs) = ground (arith, lt_list_irrefl xs, o.irrefl x)

  pub lt_list_trans :
      (xs ys zs : List A) → lt_list xs ys ≡ true → lt_list ys zs ≡ true → lt_list xs zs ≡ true
  lt_list_trans [] [] zs h k = ground arith
  lt_list_trans [] (y ∷ ys) [] h k = ground arith
  lt_list_trans [] (y ∷ ys) (z ∷ zs) h k = refl
  lt_list_trans (x ∷ xs) [] zs h k = ground arith
  lt_list_trans (x ∷ xs) (y ∷ ys) [] h k = ground arith
  lt_list_trans (x ∷ xs) (y ∷ ys) (z ∷ zs) h k =
      ground
        (arith, lt_list_trans xs ys zs, o.trans x y z, o.beq_iff x y, o.beq_iff y z, o.beq_iff x z)

  pub lt_list_total :
      (xs ys : List A) → lt_list xs ys ≡ false → beq_list xs ys ≡ false → lt_list ys xs ≡ true
  lt_list_total [] [] h k = ground arith
  lt_list_total [] (y ∷ ys) h k = ground arith
  lt_list_total (x ∷ xs) [] h k = refl
  lt_list_total (x ∷ xs) (y ∷ ys) h k =
      ground (arith, lt_list_total xs ys, o.total x y, o.beq_iff x y, o.beq_iff y x)

instance abbrev pub list_order {ℓ} : {A : Type ℓ} ⦃o : Order A⦄ → Order (List A)
list_order = record {
  lt = lt_list;
  beq = beq_list;
  beq_iff = beq_list_iff;
  irrefl = lt_list_irrefl;
  trans = lt_list_trans;
  total = lt_list_total;
}

instance abbrev pub text_order : Order (List ℕ)
text_order = list_order

-- Any value strictly before all others of the list, and so on down the list.
abbrev pub IsAscending {ℓ} : {A : Type ℓ} ⦃o : Order A⦄ → List A → Type 0
IsAscending [] = Unit
IsAscending ⦃o⦄ (x ∷ xs) = All (λ y. o.lt x y ≡ true) xs × IsAscending xs

module _ {A : Type 0} ⦃o : Order A⦄ where
  -- `BTreeSet::insert`.
  unfoldable pub set_insert : A → List A → List A
  set_insert x [] = x ∷ []
  set_insert x (y ∷ ys) =
      if o.beq x y then y ∷ ys else if o.lt x y then x ∷ (y ∷ ys) else y ∷ set_insert x ys

  pub set_insert-mem :
      (x z : A) (ys : List A) → Any (λ y. y ≡ z) (set_insert x ys) ↔ ((x ≡ z) ⊎ Any (λ y. y ≡ z) ys)
  unfolding set_insert
  set_insert-mem x z [] = ground arith
  set_insert-mem x z (y ∷ ys) = ground (arith, set_insert-mem x z ys, o.beq_iff x y)

  pub All-lt_trans :
      (x y : A) (ys : List A)
      → o.lt x y ≡ true
      → All (λ z. o.lt y z ≡ true) ys
      → All (λ z. o.lt x z ≡ true) ys
  All-lt_trans x y [] h k = tt
  All-lt_trans x y (z ∷ ys) h (k, ks) = (o.trans x y z h k, All-lt_trans x y ys h ks)

  All-set_insert : (P : A → Type 0) (x : A) (ys : List A) → P x → All P ys → All P (set_insert x ys)
  unfolding set_insert
  All-set_insert P x [] h k = (h, tt)
  All-set_insert P x (y ∷ ys) h (k, ks) = ground (arith, All-set_insert P x ys h ks)

  pub set_insert-IsAscending :
      (x : A) (ys : List A) → IsAscending ys → IsAscending (set_insert x ys)
  unfolding set_insert
  set_insert-IsAscending x [] h = (tt, tt)
  set_insert-IsAscending x (y ∷ ys) (h, hs) = elim (Bool-cases (o.beq x y)) [
    | inl same ↦ rw same (h, hs)
    | inr other ↦ elim (Bool-cases (o.lt x y)) [
      | inl before ↦ rw (other, before) ((before, All-lt_trans x y ys before h), (h, hs))
      | inr behind ↦
          rw (other, behind)
            (
              All-set_insert (λ z. o.lt y z ≡ true) x ys (o.total x y behind other) h,
              set_insert-IsAscending x ys hs,
            )
    ]
  ]
