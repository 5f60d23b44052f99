-- ===== src/Types/Amount/Splits.antt =====
-- The splits lose nothing and mint nothing.
use vanargand.Common.{ℕ, ◌+◌, ◌*◌, ◌/◌, ◌≤◌, ◌<◌, ◌≡◌, some, arith}
use vanargand.Common.{[], ◌∷◌}
use vanargand.Types.Amount.Arith.{checked_sum-some}
use vanargand.Types.Amount.{
  IsU64, fee_split_of, fee_split_total, emission_split_of, emission_split_total,
}

-- The parts of a fee, in plain arithmetic.
pub fee_split_parts :
    (fee : ℕ)
    → IsU64 fee
    → ((fee_split_of fee).provider ≡ fee * 70 / 100)
      × ((fee_split_of fee).pot ≡ fee * 20 / 100)
      × ((fee_split_of fee).burn + (fee_split_of fee).provider + (fee_split_of fee).pot ≡ fee)
unfolding fee_split_of
fee_split_parts fee h = ground arith

-- On every 64-bit fee the three parts sum to exactly the fee, the burn is at least a tenth of it,
-- and it is positive if the fee is.
pub fee_split_exact :
    (fee : ℕ)
    → IsU64 fee
    → (fee_split_total (fee_split_of fee) ≡ some fee)
      × (fee ≤ 10 * (fee_split_of fee).burn)
      × (0 < fee → 0 < (fee_split_of fee).burn)
unfolding fee_split_total
fee_split_exact fee h = ground (
  arith,
  fee_split_parts fee h,
  checked_sum-some
      ((fee_split_of fee).provider ∷ (fee_split_of fee).pot ∷ (fee_split_of fee).burn ∷ []),
)

emission_split_parts :
    (budget : ℕ)
    → IsU64 budget
    → ((emission_split_of budget).validators ≡ budget * 60 / 100)
      × ((emission_split_of budget).bootstrap ≡ budget * 25 / 100)
      × ((emission_split_of budget).treasury ≡ budget * 15 / 100)
unfolding emission_split_of
emission_split_parts budget h = ground arith

-- The three envelopes of a 64-bit budget never sum to more than the budget, and fall short of it by
-- less than three ulf.
pub emission_split_bound :
    (budget : ℕ)
    → IsU64 budget
    → let s = emission_split_of budget in
      (s.validators + s.bootstrap + s.treasury ≤ budget)
      × (budget < s.validators + s.bootstrap + s.treasury + 3)
      × (emission_split_total s ≡ some (s.validators + s.bootstrap + s.treasury))
unfolding emission_split_total
emission_split_bound budget h =
    let s = emission_split_of budget in
    ground (
      arith,
      emission_split_parts budget h,
      checked_sum-some (s.validators ∷ s.bootstrap ∷ s.treasury ∷ []),
    )
