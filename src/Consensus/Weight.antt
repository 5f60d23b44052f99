-- ===== src/Consensus/Weight.antt =====
-- vanargand-consensus/src/weight.rs: voting weight (128 bits) and its arithmetic.
use vanargand.Common.{
  ℕ, ◌+◌, ◌-◌, ◌*◌, ◌/◌, ◌^◌, ◌≤◌, ◌<◌, ◌≡◌, Bool, true, false, Option, none, some, List, [], ◌∷◌,
  ltb, ◌==◌, if◌then◌else◌, arith,
}
use native.Mathlib.Nat.{mul-le-mul_left}
use vanargand.Common.Lists.{sum_of}
use vanargand.Types.Amount.{Amount, IsU64}

abbrev pub u128_bound : ℕ
u128_bound = 2 ^ 128

abbrev pub Weight : Type 0
Weight = ℕ

abbrev pub Multiplier : Type 0
Multiplier = ℕ

abbrev pub multiplier_one : ℕ
multiplier_one = 1_000

abbrev pub multiplier_max : ℕ
multiplier_max = 2_000

-- `Multiplier::new`
unfoldable pub new_multiplier : ℕ → Multiplier
new_multiplier thousandths =
    if ltb thousandths multiplier_one
    then multiplier_one
    else if ltb multiplier_max thousandths
    then multiplier_max
    else thousandths

-- `u128::saturating_mul` and `checked_mul`
abbrev pub saturating_mul_u128 : ℕ → ℕ → ℕ
saturating_mul_u128 a b = if ltb (a * b) u128_bound then a * b else u128_bound - 1

abbrev pub checked_mul_u128 : ℕ → ℕ → Option ℕ
checked_mul_u128 a b = if ltb (a * b) u128_bound then some (a * b) else none

-- `Weight::of`
unfoldable pub weight_of_bond : Amount → Multiplier → Weight
weight_of_bond bond multiplier = saturating_mul_u128 bond multiplier / multiplier_one

-- `Weight::checked_add`
abbrev pub checked_add_u128 : Weight → Weight → Option Weight
checked_add_u128 a b = if ltb (a + b) u128_bound then some (a + b) else none

unfoldable pub weight_sum_from : Weight → List Weight → Option Weight
weight_sum_from total [] = some total
weight_sum_from total (item ∷ items) =
    if ltb (total + item) u128_bound then weight_sum_from (total + item) items else none

-- `Weight::checked_sum`
unfoldable pub weight_sum : List Weight → Option Weight
unfolding weight_sum_from
weight_sum items = weight_sum_from 0 items

unfoldable pub scaled : Weight → ℕ → ℕ → Weight
scaled weight numerator denominator =
    if denominator == 0 then 0 else saturating_mul_u128 weight numerator / denominator

unfoldable pub exceeds_two_thirds_of : Weight → Weight → Bool
exceeds_two_thirds_of weight total = elim (checked_mul_u128 weight 3) [
  | none ↦ false
  | some left ↦ elim (checked_mul_u128 total 2) [ none ↦ false | some right ↦ ltb right left ]
]

pub exceeds_two_thirds_of-lt :
    (weight total : Weight) → exceeds_two_thirds_of weight total ≡ true → total * 2 < weight * 3
unfolding exceeds_two_thirds_of
exceeds_two_thirds_of-lt weight total h = ground arith

pub lt-exceeds_two_thirds_of :
    (weight total : Weight)
    → total * 2 < weight * 3
    → weight * 3 < u128_bound
    → exceeds_two_thirds_of weight total ≡ true
unfolding exceeds_two_thirds_of
lt-exceeds_two_thirds_of weight total h b = ground arith

new_multiplier-bound :
    (thousandths : ℕ)
    → (multiplier_one ≤ new_multiplier thousandths) × (new_multiplier thousandths ≤ multiplier_max)
unfolding new_multiplier
new_multiplier-bound thousandths = ground arith

-- The weight of a 64-bit bond is between the bond and twice the bond.
pub weight_of_bond-bound :
    (bond : Amount) (m : Multiplier)
    → IsU64 bond
    → multiplier_one ≤ m
    → m ≤ multiplier_max
    → (bond ≤ weight_of_bond bond m) × (weight_of_bond bond m ≤ 2 * bond)
unfolding weight_of_bond
weight_of_bond-bound bond m h lo hi =
    let low = mul-le-mul_left bond lo in
    let high = mul-le-mul_left bond hi in ground (arith, low, high)

weight_sum_from-some :
    (total : Weight) (items : List Weight)
    → total + sum_of (λ x. x) items < u128_bound
    → weight_sum_from total items ≡ some (total + sum_of (λ x. x) items)
unfolding weight_sum_from
weight_sum_from-some total [] h = ground arith
weight_sum_from-some total (x ∷ xs) h = ground (arith, weight_sum_from-some (total + x) xs)

-- A sum that fits 128 bits is returned.
pub weight_sum-some :
    (items : List Weight)
    → sum_of (λ x. x) items < u128_bound
    → weight_sum items ≡ some (sum_of (λ x. x) items)
unfolding weight_sum
weight_sum-some items h = ground (arith, weight_sum_from-some 0 items)

weight_sum_from-eq :
    (total : Weight) (items : List Weight) (t : Weight)
    → weight_sum_from total items ≡ some t
    → (t ≡ total + sum_of (λ x. x) items) × (total < u128_bound → t < u128_bound)
unfolding weight_sum_from
weight_sum_from-eq total [] t h = ground arith
weight_sum_from-eq total (x ∷ xs) t h = ground (arith, weight_sum_from-eq (total + x) xs t)

-- A sum that is returned is the true sum, and fits 128 bits.
pub weight_sum-eq :
    (items : List Weight) (t : Weight)
    → weight_sum items ≡ some t
    → (t ≡ sum_of (λ x. x) items) × (t < u128_bound)
unfolding weight_sum
weight_sum-eq items t h = ground (arith, weight_sum_from-eq 0 items t h)
