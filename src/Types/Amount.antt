-- ===== src/Types/Amount.antt =====
-- vanargand-types/src/amount.rs: quantities of value in ulf (64 bits), with arithmetic that says
-- when it fails, and the splits of a fee and of an epoch's emission. A machine integer is a native
-- number; what does not fit its width is the `None` of the checked operations.
pub mod Arith
pub mod Splits
use vanargand.Common.{
  ℕ, ◌+◌, ◌-◌, ◌*◌, ◌/◌, ◌^◌, ◌<◌, Bool, true, false, Option, none, some, List, [], ◌∷◌, ltb, leb,
  ◌==◌, if◌then◌else◌, bind, unwrap_or,
}
use Prim.Native.Nat.{compare, Ordering}

abbrev pub u64_bound : ℕ
u64_bound = 2 ^ 64

abbrev pub IsU64 : ℕ → Type 0
IsU64 n = n < u64_bound

abbrev pub Amount : Type 0
Amount = ℕ

abbrev pub ulf_per_van : ℕ
ulf_per_van = 1_000_000_000

abbrev pub max_supply : ℕ
max_supply = 100_000_000 * ulf_per_van

-- `u64::checked_add`, `checked_sub` and `checked_mul`
abbrev pub checked_add : Amount → Amount → Option Amount
checked_add a b = if ltb (a + b) u64_bound then some (a + b) else none

abbrev pub checked_sub : Amount → Amount → Option Amount
checked_sub a b = if leb b a then some (a - b) else none

abbrev pub checked_mul : Amount → ℕ → Option Amount
checked_mul a factor = if ltb (a * factor) u64_bound then some (a * factor) else none

-- `u64::saturating_add`
abbrev pub saturating_add : ℕ → ℕ → ℕ
saturating_add a b = if ltb (a + b) u64_bound then a + b else u64_bound - 1

abbrev pub is_zero : Amount → Bool
is_zero a = a == 0

abbrev pub within_cap : Amount → Bool
within_cap a = leb a max_supply

unfoldable pub from_van : ℕ → Option Amount
from_van van = checked_mul van ulf_per_van

-- The product is taken in 128 bits, where two 64-bit factors fit.
unfoldable pub mul_div_floor : Amount → ℕ → ℕ → Option Amount
mul_div_floor a numerator denominator =
    if denominator == 0
    then none
    else if ltb (a * numerator / denominator) u64_bound
    then some (a * numerator / denominator)
    else none

unfoldable pub sum_from : Amount → List Amount → Option Amount
sum_from total [] = some total
sum_from total (item ∷ items) =
    if ltb (total + item) u64_bound then sum_from (total + item) items else none

unfoldable pub checked_sum : List Amount → Option Amount
unfolding sum_from
checked_sum items = sum_from 0 items

pub record Ratio : Type 0 where
  pub numerator : ℕ
  pub denominator : ℕ

unfoldable pub to_ppm : Ratio → Option ℕ
to_ppm r =
    if r.denominator == 0
    then none
    else if ltb (r.numerator * 1_000_000 / r.denominator) u64_bound
    then some (r.numerator * 1_000_000 / r.denominator)
    else none

unfoldable pub cmp_exact : Ratio → Ratio → Option Ordering
cmp_exact r s =
    if r.denominator == 0
    then none
    else if s.denominator == 0
    then none
    else some (compare (r.numerator * s.denominator) (s.numerator * r.denominator))

abbrev pub provider_weight : ℕ
provider_weight = 70

abbrev pub pot_weight : ℕ
pot_weight = 20

abbrev pub fee_total : ℕ
fee_total = 100

pub record FeeSplit : Type 0 where
  pub provider : Amount
  pub pot : Amount
  pub burn : Amount

unfoldable pub fee_split_of : Amount → FeeSplit
unfolding mul_div_floor
fee_split_of fee =
    let provider = unwrap_or (mul_div_floor fee provider_weight fee_total) 0 in
    let pot = unwrap_or (mul_div_floor fee pot_weight fee_total) 0 in
    let paid = unwrap_or (checked_add provider pot) 0 in
    record { provider = provider; pot = pot; burn = unwrap_or (checked_sub fee paid) 0 }

unfoldable pub fee_split_total : FeeSplit → Option Amount
unfolding checked_sum
fee_split_total s = checked_sum (s.provider ∷ s.pot ∷ s.burn ∷ [])

pub record EmissionSplit : Type 0 where
  pub validators : Amount
  pub bootstrap : Amount
  pub treasury : Amount

unfoldable pub emission_split_of : Amount → EmissionSplit
unfolding mul_div_floor
emission_split_of budget = record {
  validators = unwrap_or (mul_div_floor budget 60 100) 0;
  bootstrap = unwrap_or (mul_div_floor budget 25 100) 0;
  treasury = unwrap_or (mul_div_floor budget 15 100) 0;
}

unfoldable pub emission_split_total : EmissionSplit → Option Amount
unfolding checked_sum
emission_split_total s = checked_sum (s.validators ∷ s.bootstrap ∷ s.treasury ∷ [])
