-- ===== src/Common/Map/Sums.antt =====
-- How each change of a map moves the sum of its values.
use Prim.Native.Nat.{ℕ, ◌+◌}
use mathlib.Core.Path.{◌≡◌, refl}
use mathlib.Core.Logic.{inl, inr}
use mathlib.Core.Bool.{true}
use mathlib.Core.Option.{none, some}
use mathlib.Core.List.{[], ◌∷◌}
use native.Mathlib.Omega.{arith}
use vanargand.Common.Tests.{Option-cases}
use vanargand.Common.Map.{
  Key, Map, lookup, contains, place, replace, insert, remove, Nodup, sum_values,
}
use vanargand.Common.Map.Laws.{lookup-place, lookup-replace, lookup-remove}

module _ {ℓ} {K V : Type ℓ} ⦃o : Key K⦄ (f : V → ℕ) where
  sum-place : (k : K) (v : V) (m : Map K V) → sum_values f (place k v m) ≡ sum_values f m + f v
  unfolding place sum_values
  sum-place k v [] = omega arith
  sum-place k v ((j, w) ∷ m) = ground (arith, sum-place k v m)

  sum-replace :
      (k : K) (v w : V) (m : Map K V)
      → lookup k m ≡ some w
      → sum_values f (replace k v m) + f w ≡ sum_values f m + f v
  unfolding lookup replace sum_values
  sum-replace k v w [] h = cc
  sum-replace k v w ((j, u) ∷ m) h = ground (arith, sum-replace k v w m)

  pub sum-insert_new :
      (k : K) (v : V) (m : Map K V)
      → lookup k m ≡ none
      → sum_values f (insert k v m) ≡ sum_values f m + f v
  unfolding insert
  sum-insert_new k v m h = rw h (sum-place k v m)

  pub sum-insert_old :
      (k : K) (v w : V) (m : Map K V)
      → lookup k m ≡ some w
      → sum_values f (insert k v m) + f w ≡ sum_values f m + f v
  unfolding insert
  sum-insert_old k v w m h = rw h (sum-replace k v w m h)

  sum-remove_absent :
      (k : K) (m : Map K V) → lookup k m ≡ none → sum_values f (remove k m) ≡ sum_values f m
  unfolding lookup remove sum_values
  sum-remove_absent k [] h = refl
  sum-remove_absent k ((j, u) ∷ m) h = ground (arith, sum-remove_absent k m)

  pub sum-remove :
      (k : K) (w : V) (m : Map K V)
      → Nodup m
      → lookup k m ≡ some w
      → sum_values f (remove k m) + f w ≡ sum_values f m
  unfolding lookup remove sum_values
  sum-remove k w [] d h = cc
  sum-remove k w ((j, u) ∷ m) d h =
      ground (arith, o.same_iff j k, sum-remove_absent k m, sum-remove k w m d.1)

module _ {ℓ} {K V : Type ℓ} ⦃o : Key K⦄ where
  place-Nodup : (k : K) (v : V) (m : Map K V) → lookup k m ≡ none → Nodup m → Nodup (place k v m)
  unfolding place lookup
  place-Nodup k v [] h d = (refl, tt)
  place-Nodup k v ((j, w) ∷ m) h d =
      ground (arith, o.same_iff j k, o.same_iff k j, lookup-place k j v m, place-Nodup k v m)

  replace-Nodup :
      (k : K) (v : V) (m : Map K V) → contains k m ≡ true → Nodup m → Nodup (replace k v m)
  unfolding replace lookup
  replace-Nodup k v [] h d = tt
  replace-Nodup k v ((j, w) ∷ m) h d =
      ground (arith, o.same_iff j k, o.same_iff k j, lookup-replace k j v m, replace-Nodup k v m)

  pub insert-Nodup : (k : K) (v : V) (m : Map K V) → Nodup m → Nodup (insert k v m)
  unfolding insert
  insert-Nodup k v m d = elim (Option-cases (lookup k m)) [
    | inl absent ↦ rw absent (place-Nodup k v m absent d)
    | inr (w, found) ↦ rw found (replace-Nodup k v m (rw found refl) d)
  ]

  pub remove-Nodup : (k : K) (m : Map K V) → Nodup m → Nodup (remove k m)
  unfolding remove
  remove-Nodup k [] d = tt
  remove-Nodup k ((j, w) ∷ m) d = ground (arith, lookup-remove k j m, remove-Nodup k m d.1)
