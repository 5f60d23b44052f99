-- ===== src/Consensus/Emission.antt =====
-- vanargand-consensus/src/emission.rs: the halving schedule and the check of a header's counter.
pub mod Schedule
use vanargand.Common.{
  ℕ, zero, suc, ◌+◌, ◌-◌, ◌*◌, ◌/◌, ◌%◌, ◌≤◌, ◌<◌, ◌≡◌, ◌↔◌, refl, ap, ◌∙◌, Bool, true, false, ltb,
  leb, if◌then◌else◌, min, arith, Result, ok, err, Done, not, Bool-cases, inl, inr, unwrap_or,
}
use vanargand.Types.Amount.{
  Amount, u64_bound, saturating_add, max_supply, within_cap, ulf_per_van, mul_div_floor,
}
use vanargand.Types.Window.{epoch_blocks}

abbrev pub epochs_per_year : ℕ
epochs_per_year = 8_766

abbrev pub epochs_per_period : ℕ
epochs_per_period = 4 * epochs_per_year

abbrev pub first_period_emission : ℕ
first_period_emission = 50_000_000 * ulf_per_van

pub data EmissionError : Type 0 where
  over_formula went_backwards : Amount → Amount → EmissionError
  over_cap : Amount → EmissionError

abbrev saturating_mul : ℕ → ℕ → ℕ
saturating_mul a b = if ltb (a * b) u64_bound then a * b else u64_bound - 1

unfoldable pub period_of : ℕ → ℕ
period_of epoch = epoch / epochs_per_period

-- `value >> count`, one place at a time
unfoldable pub shift_right : ℕ → ℕ → ℕ
shift_right value zero = value
shift_right value (suc count) = shift_right value count / 2

unfoldable pub period_emission : ℕ → ℕ
period_emission period = if leb 64 period then 0 else shift_right first_period_emission period

unfoldable pub emission_for_epoch : ℕ → Amount
emission_for_epoch epoch = period_emission (period_of epoch) / epochs_per_period

-- The loop of `permitted_through`, after its first `count` rounds.
unfoldable pub complete_periods : ℕ → ℕ
complete_periods zero = 0
complete_periods (suc index) =
    saturating_add (complete_periods index)
      (saturating_mul (period_emission index / epochs_per_period) epochs_per_period)

unfoldable pub permitted_through : ℕ → Amount
permitted_through epoch =
    let period = period_of epoch in
    let elapsed = saturating_add (epoch % epochs_per_period) 1 in
    let per_epoch = period_emission period / epochs_per_period in
    min (saturating_add (complete_periods (min period 64)) (saturating_mul per_epoch elapsed))
      max_supply

unfoldable pub max_regeneration : Amount → Amount
unfolding mul_div_floor
max_regeneration burned = unwrap_or (mul_div_floor burned 1 2) 0

unfoldable pub check_counter : Amount → Amount → ℕ → Result EmissionError Done
check_counter parent_emitted claimed epoch =
    if ltb claimed parent_emitted
    then err (went_backwards parent_emitted claimed)
    else if not (within_cap claimed)
    then err (over_cap claimed)
    else if ltb (permitted_through epoch) claimed
    then err (over_formula claimed (permitted_through epoch))
    else ok tt

unfoldable pub epoch_of_height : ℕ → ℕ
epoch_of_height height = height / epoch_blocks
