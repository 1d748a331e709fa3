-- ===== src/Base/Maps.antt =====
-- A `BTreeMap` as the list of its entries in ascending order of the keys.
use mathlib.Core.Path.{◌≡◌, refl}
use mathlib.Core.Logic.{◌↔◌, inl, inr}
use mathlib.Core.Bool.{Bool, true, false}
use mathlib.Core.Option.{Option, none, some}
use mathlib.Core.List.{List, [], ◌∷◌}
use native.Mathlib.Omega.{arith}
use claw_crate.Base.Tests.{if◌then◌else◌, Bool-cases}
use claw_crate.Base.Lists.{All}
use claw_crate.Base.Orders.{Order, IsAscending, All-lt_trans}

module _ {K V : Type 0} ⦃o : Order K⦄ where
  abbrev pub keys : List (K × V) → List K
  keys [] = []
  keys ((k, v) ∷ m) = k ∷ keys m

  unfoldable pub get : K → List (K × V) → Option V
  get j [] = none
  get j ((k, v) ∷ m) = if o.beq k j then some v else get j m

  unfoldable pub contains_key : K → List (K × V) → Bool
  contains_key j [] = false
  contains_key j ((k, v) ∷ m) = if o.beq k j then true else contains_key j m

  -- `BTreeMap::insert`.
  unfoldable pub map_insert : K → V → List (K × V) → List (K × V)
  map_insert j w [] = (j, w) ∷ []
  map_insert j w ((k, v) ∷ m) =
      if o.beq j k
      then (k, w) ∷ m
      else if o.lt j k
      then (j, w) ∷ (k, v) ∷ m
      else (k, v) ∷ map_insert j w m

  pub contains_key-get : (j : K) (m : List (K × V)) → (contains_key j m ≡ false) ↔ (get j m ≡ none)
  unfolding contains_key get
  contains_key-get j [] = ground arith
  contains_key-get j ((k, v) ∷ m) = ground (arith, contains_key-get j m)

  pub get-map_insert :
      (j k : K) (v : V) (m : List (K × V))
      → get j (map_insert k v m) ≡ (if o.beq k j then some v else get j m)
  unfolding get map_insert
  get-map_insert j k v [] = refl
  get-map_insert j k v ((i, w) ∷ m) =
      ground (arith, get-map_insert j k v m, o.beq_iff k i, o.beq_iff i j, o.beq_iff k j)

  All-map_insert :
      (P : K → Type 0) (j : K) (w : V) (m : List (K × V))
      → P j
      → All P (keys m)
      → All P (keys (map_insert j w m))
  unfolding map_insert
  All-map_insert P j w [] h k = (h, tt)
  All-map_insert P j w ((i, v) ∷ m) h (k, ks) = ground (arith, All-map_insert P j w m h ks)

  pub map_insert-IsAscending :
      (j : K) (w : V) (m : List (K × V))
      → IsAscending (keys m)
      → IsAscending (keys (map_insert j w m))
  unfolding map_insert
  map_insert-IsAscending j w [] h = (tt, tt)
  map_insert-IsAscending j w ((k, v) ∷ m) (h, hs) = elim (Bool-cases (o.beq j k)) [
    | inl same ↦ rw same (h, hs)
    | inr other ↦ elim (Bool-cases (o.lt j k)) [
      | inl before ↦ rw (other, before) ((before, All-lt_trans j k (keys m) before h), (h, hs))
      | inr behind ↦
          rw (other, behind)
            (
              All-map_insert (λ z. o.lt k z ≡ true) j w m (o.total j k behind other) h,
              map_insert-IsAscending j w m hs,
            )
    ]
  ]

  -- A key before all others of the map is not in the map.
  pub get_of_before :
      (j : K) (m : List (K × V)) → All (λ k. o.lt j k ≡ true) (keys m) → get j m ≡ none
  unfolding get
  get_of_before j [] h = refl
  get_of_before j ((k, v) ∷ m) (h, hs) =
      ground (arith, get_of_before j m hs, o.beq_iff k j, o.irrefl j)
