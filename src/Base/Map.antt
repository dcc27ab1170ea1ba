-- ===== src/Base/Map.antt =====
-- `std::map`: an association list in ascending order of its keys.
use mathlib.Core.Path.{◌≡◌, refl}
use mathlib.Core.Bool.{true}
use mathlib.Core.Option.{Option, none, some}
use mathlib.Core.Option
use mathlib.Core.List.{List, [], ◌∷◌}
use native.Mathlib.Omega.{arith}
use link_layer_discovery.Base.Tests.{if◌then◌else◌}
use link_layer_discovery.Base.Key.{Key}

abbrev pub Map {ℓ κ} : Type ℓ → Type κ → Type (ℓ ⊔ κ)
Map K V = List (K × V)

module _ {ℓ κ} {K : Type ℓ} {V : Type κ} ⦃key : Key K⦄ where
  -- `m.find(k)`; `m.contains(k)` is whether it has a value.
  unfoldable pub lookup : K → Map K V → Option V
  lookup k [] = none
  lookup k ((j, v) ∷ m) = if key.beq k j then some v else lookup k m

  -- `m[k] = v`
  unfoldable pub insert : K → V → Map K V → Map K V
  insert k v [] = (k, v) ∷ []
  insert k v ((j, w) ∷ m) =
      if key.beq k j
      then (k, v) ∷ m
      else if key.less k j
      then (k, v) ∷ (j, w) ∷ m
      else (j, w) ∷ insert k v m

  -- `m.erase(k)`
  unfoldable pub erase : K → Map K V → Map K V
  erase k [] = []
  erase k ((j, w) ∷ m) = if key.beq k j then erase k m else (j, w) ∷ erase k m

  pub lookup-insert :
      (k q : K) (v : V) (m : Map K V)
      → lookup q (insert k v m) ≡ (if key.beq q k then some v else lookup q m)
  unfolding lookup insert
  lookup-insert k q v [] = refl
  lookup-insert k q v ((j, w) ∷ m) =
      ground (arith, key.beq_iff q k, key.beq_iff k j, key.beq_iff q j, lookup-insert k q v m)

  pub lookup-erase :
      (k q : K) (m : Map K V) → lookup q (erase k m) ≡ (if key.beq q k then none else lookup q m)
  unfolding lookup erase
  lookup-erase k q [] = ground arith
  lookup-erase k q ((j, w) ∷ m) =
      ground (arith, key.beq_iff q k, key.beq_iff k j, key.beq_iff q j, lookup-erase k q m)

  -- Every key is above `k`.
  abbrev pub Above : K → Map K V → Type 0
  Above k [] = Unit {0}
  Above k ((j, w) ∷ m) = (key.less k j ≡ true) × Above k m

  -- The keys ascend.
  abbrev pub IsAscending : Map K V → Type 0
  IsAscending [] = Unit {0}
  IsAscending ((j, w) ∷ m) = Above j m × IsAscending m

  pub lookup-Above : (k : K) (m : Map K V) → Above k m → lookup k m ≡ none
  unfolding lookup
  lookup-Above k [] h = refl
  lookup-Above k ((j, w) ∷ m) h =
      ground (arith, key.beq_iff k j, key.less_irrefl k, lookup-Above k m h.1)

  Above-trans : (k j : K) (m : Map K V) → key.less k j ≡ true → Above j m → Above k m
  Above-trans k j [] h a = tt
  Above-trans k j ((i, w) ∷ m) h a = (key.less_trans k j i h a.0, Above-trans k j m h a.1)

  insert-Above :
      (b k : K) (v : V) (m : Map K V) → key.less b k ≡ true → Above b m → Above b (insert k v m)
  unfolding insert
  insert-Above b k v [] h a = (h, tt)
  insert-Above b k v ((j, w) ∷ m) h a = ground (arith, insert-Above b k v m h a.1)

  pub insert-IsAscending :
      (k : K) (v : V) (m : Map K V) → IsAscending m → IsAscending (insert k v m)
  unfolding insert
  insert-IsAscending k v [] s = (tt, tt)
  insert-IsAscending k v ((j, w) ∷ m) s = ground (
    arith,
    key.beq_iff k j,
    key.less_total k j,
    Above-trans k j m,
    insert-Above j k v m,
    insert-IsAscending k v m s.1,
  )

  erase-Above : (b k : K) (m : Map K V) → Above b m → Above b (erase k m)
  unfolding erase
  erase-Above b k [] a = tt
  erase-Above b k ((j, w) ∷ m) a = ground (arith, erase-Above b k m a.1)

  pub erase-IsAscending : (k : K) (m : Map K V) → IsAscending m → IsAscending (erase k m)
  unfolding erase
  erase-IsAscending k [] s = tt
  erase-IsAscending k ((j, w) ∷ m) s =
      ground (arith, erase-Above j k m s.0, erase-IsAscending k m s.1)

module _ {ℓ κ} {K : Type ℓ} {V : Type κ} ⦃key : Key K⦄ where
  pub erase-insert_self : (k : K) (v : V) (m : Map K V) → erase k (insert k v m) ≡ erase k m
  unfolding erase insert
  erase-insert_self k v [] = ground (arith, key.beq_iff k k)
  erase-insert_self k v ((j, w) ∷ m) =
      ground (arith, key.beq_iff k k, key.beq_iff k j, erase-insert_self k v m)

  pub insert-insert : (k : K) (v w : V) (m : Map K V) → insert k v (insert k w m) ≡ insert k v m
  unfolding insert
  insert-insert k v w [] = ground (arith, key.beq_iff k k)
  insert-insert k v w ((j, x) ∷ m) =
      ground (arith, key.beq_iff k k, key.beq_iff k j, insert-insert k v w m)

-- A loop over the map that changes the values in place.
unfoldable pub map_values {ℓ κ μ} :
    {K : Type ℓ} {V : Type κ} {W : Type μ} → (V → W) → Map K V → Map K W
map_values f [] = []
map_values f ((k, v) ∷ m) = (k, f v) ∷ map_values f m

module _ {ℓ κ μ} {K : Type ℓ} {V : Type κ} {W : Type μ} ⦃key : Key K⦄ (f : V → W) where
  pub lookup-map_values :
      (q : K) (m : Map K V) → lookup q (map_values f m) ≡ Option.map f (lookup q m)
  unfolding lookup map_values
  lookup-map_values q [] = refl
  lookup-map_values q ((k, v) ∷ m) = ground (arith, lookup-map_values q m)

  map_values-Above : (b : K) (m : Map K V) → Above b m → Above b (map_values f m)
  unfolding map_values
  map_values-Above b [] a = tt
  map_values-Above b ((k, v) ∷ m) a = (a.0, map_values-Above b m a.1)

  pub map_values-IsAscending : (m : Map K V) → IsAscending m → IsAscending (map_values f m)
  unfolding map_values
  map_values-IsAscending [] s = tt
  map_values-IsAscending ((k, v) ∷ m) s = (map_values-Above k m s.0, map_values-IsAscending m s.1)
