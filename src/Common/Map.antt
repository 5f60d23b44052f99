-- ===== src/Common/Map.antt =====
-- `std::collections::BTreeMap` and `BTreeSet`: association lists in ascending order of keys.
-- The keys of a map differ, so that `remove` may drop every entry of its key.
pub mod Keys
pub mod Laws
pub mod Sums
use Prim.Native.Nat.{ℕ, ◌+◌}
use mathlib.Core.Path.{◌≡◌}
use mathlib.Core.Logic.{◌↔◌}
use mathlib.Core.Bool.{Bool, true}
use mathlib.Core.Option.{Option, none, some}
use mathlib.Core.List.{List, [], ◌∷◌}
use vanargand.Common.Tests.{if◌then◌else◌}
use vanargand.Common.Outcome.{is_some}

-- A key type with its order and its equality test.
pub record Key {ℓ} (K : Type ℓ) : Type ℓ where
  pub less : K → K → Bool
  pub same : K → K → Bool
  pub same_iff : (j k : K) → (same j k ≡ true) ↔ (j ≡ k)

abbrev pub Map {ℓ} : Type ℓ → Type ℓ → Type ℓ
Map K V = List (K × V)

-- A `BTreeSet` is a map to nothing.
abbrev pub Set : Type 0 → Type 0
Set K = Map K Unit

module _ {ℓ} {K V : Type ℓ} ⦃o : Key K⦄ where
  -- `map.get(&k)`
  unfoldable pub lookup : K → Map K V → Option V
  lookup k [] = none
  lookup k ((j, v) ∷ m) = if o.same j k then some v else lookup k m

  -- `map.contains_key(&k)`
  abbrev pub contains : K → Map K V → Bool
  contains k m = is_some (lookup k m)

  -- A new entry goes before the first greater key.
  unfoldable pub place : K → V → Map K V → Map K V
  place k v [] = (k, v) ∷ []
  place k v ((j, w) ∷ m) = if o.less k j then (k, v) ∷ (j, w) ∷ m else (j, w) ∷ place k v m

  unfoldable pub replace : K → V → Map K V → Map K V
  replace k v [] = []
  replace k v ((j, w) ∷ m) = if o.same j k then (j, v) ∷ m else (j, w) ∷ replace k v m

  -- `map.insert(k, v)`
  unfoldable pub insert : K → V → Map K V → Map K V
  insert k v m = if contains k m then replace k v m else place k v m

  -- `map.remove(&k)`
  unfoldable pub remove : K → Map K V → Map K V
  remove k [] = []
  remove k ((j, w) ∷ m) = let rest = remove k m in if o.same j k then rest else (j, w) ∷ rest

  -- No key is listed twice.
  abbrev pub Nodup : Map K V → Type ℓ
  Nodup [] = Unit
  Nodup ((k, v) ∷ m) = (lookup k m ≡ none) × Nodup m

-- The sum of a measure over the values of a map.
unfoldable pub sum_values {ℓ} : {K V : Type ℓ} → (V → ℕ) → Map K V → ℕ
sum_values f [] = 0
sum_values f ((k, v) ∷ m) = f v + sum_values f m
