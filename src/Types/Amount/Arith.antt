-- ===== src/Types/Amount/Arith.antt =====
-- Bounds of the checked arithmetic, and the exact comparison of ratios.
use vanargand.Common.{ℕ, ◌+◌, ◌*◌, ◌≤◌, ◌<◌, ◌≡◌, some, List, [], ◌∷◌, arith}
use vanargand.Common.Lists.{sum_of}
use vanargand.Types.Amount.{IsU64, u64_bound, mul_div_floor, sum_from, checked_sum}

-- A proportional share that is returned fits 64 bits and is the floor: it is at most the exact
-- share, and the exact share is less than one ulf more.
pub mul_div_floor_floor :
    (a n d q : ℕ) → mul_div_floor a n d ≡ some q → IsU64 q × (d * q ≤ a * n) × (a * n < d * q + d)
unfolding mul_div_floor
mul_div_floor_floor a n d q h = grind arith

sum_from-eq :
    (total : ℕ) (items : List ℕ) (s : ℕ)
    → sum_from total items ≡ some s
    → s ≡ total + sum_of (λ x. x) items
unfolding sum_from
sum_from-eq total [] s h = ground arith
sum_from-eq total (x ∷ xs) s h = ground (arith, sum_from-eq (total + x) xs s)

-- A checked sum that is returned is the true sum.
pub checked_sum-eq :
    (items : List ℕ) (s : ℕ) → checked_sum items ≡ some s → s ≡ sum_of (λ x. x) items
unfolding checked_sum
checked_sum-eq items s h = omega (arith, sum_from-eq 0 items s h)

sum_from-some :
    (total : ℕ) (items : List ℕ)
    → total + sum_of (λ x. x) items < u64_bound
    → sum_from total items ≡ some (total + sum_of (λ x. x) items)
unfolding sum_from
sum_from-some total [] h = ground arith
sum_from-some total (x ∷ xs) h = ground (arith, sum_from-some (total + x) xs)

-- A sum that fits is returned: the partial sums cannot overflow first.
pub checked_sum-some :
    (items : List ℕ)
    → sum_of (λ x. x) items < u64_bound
    → checked_sum items ≡ some (sum_of (λ x. x) items)
unfolding checked_sum
checked_sum-some items h = ground (arith, sum_from-some 0 items)
