-- ===== src/Common/Map/Laws.antt =====
-- What `lookup` finds after each change of a map.
use mathlib.Core.Path.{◌≡◌, refl}
use mathlib.Core.Logic.{◌≢◌, inl, inr}
use mathlib.Core.Bool.{true, false}
use mathlib.Core.Option.{none, some}
use mathlib.Core.List.{[], ◌∷◌}
use native.Mathlib.Omega.{arith}
use vanargand.Common.Tests.{if◌then◌else◌, Option-cases}
use vanargand.Common.Map.{Key, Map, lookup, contains, place, replace, insert, remove}

module _ {ℓ} {K : Type ℓ} ⦃o : Key K⦄ where
  pub same_refl : (k : K) → o.same k k ≡ true
  same_refl k = (o.same_iff k k).1 refl

  pub same_ne : (j k : K) → j ≢ k → o.same j k ≡ false
  same_ne j k h = ground (arith, o.same_iff j k)

module _ {ℓ} {K V : Type ℓ} ⦃o : Key K⦄ where
  pub lookup-place :
      (k j : K) (v : V) (m : Map K V)
      → lookup k m ≡ none
      → lookup j (place k v m) ≡ (if o.same k j then some v else lookup j m)
  unfolding lookup place
  lookup-place k j v [] h = refl
  lookup-place k j v ((i, w) ∷ m) h =
      ground (arith, o.same_iff k j, o.same_iff i k, o.same_iff i j, lookup-place k j v m)

  pub lookup-replace :
      (k j : K) (v : V) (m : Map K V)
      → contains k m ≡ true
      → lookup j (replace k v m) ≡ (if o.same k j then some v else lookup j m)
  unfolding lookup replace
  lookup-replace k j v [] h = ground arith
  lookup-replace k j v ((i, w) ∷ m) h =
      ground (arith, o.same_iff k j, o.same_iff i k, o.same_iff i j, lookup-replace k j v m)

  pub lookup-insert :
      (k j : K) (v : V) (m : Map K V)
      → lookup j (insert k v m) ≡ (if o.same k j then some v else lookup j m)
  unfolding insert
  lookup-insert k j v m = elim (Option-cases (lookup k m)) [
    | inl absent ↦ rw absent (lookup-place k j v m absent)
    | inr (w, found) ↦ rw found (lookup-replace k j v m (rw found refl))
  ]

  pub lookup-remove :
      (k j : K) (m : Map K V) → lookup j (remove k m) ≡ (if o.same k j then none else lookup j m)
  unfolding lookup remove
  lookup-remove k j [] = ground arith
  lookup-remove k j ((i, w) ∷ m) =
      ground (arith, o.same_iff k j, o.same_iff i k, o.same_iff i j, lookup-remove k j m)

  pub lookup-insert_self : (k : K) (v : V) (m : Map K V) → lookup k (insert k v m) ≡ some v
  lookup-insert_self k v m = rw (lookup-insert, same_refl)

  pub lookup-insert_ne :
      (k j : K) (v : V) (m : Map K V) → k ≢ j → lookup j (insert k v m) ≡ lookup j m
  lookup-insert_ne k j v m h = rw (lookup-insert, same_ne k j h)

  pub lookup-remove_self : (k : K) (m : Map K V) → lookup k (remove k m) ≡ none
  lookup-remove_self k m = rw (lookup-remove, same_refl)

  pub lookup-remove_ne : (k j : K) (m : Map K V) → k ≢ j → lookup j (remove k m) ≡ lookup j m
  lookup-remove_ne k j m h = rw (lookup-remove, same_ne k j h)
