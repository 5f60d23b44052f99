-- ===== src/Consensus/Committee.antt =====
-- vanargand-consensus/src/committee.rs: the committee of an epoch, drawn by weight without
-- replacement, and who of it is on duty at a block.
pub mod Draw
pub mod Seats
pub mod Duty
use vanargand.Common.{
  ℕ, zero, suc, ◌+◌, ◌-◌, ◌%◌, Bool, true, false, Option, none, some, List, [], ◌∷◌, ltb, leb, ◌==◌,
  if◌then◌else◌, unwrap_or, is_some, map, min, ◌||◌,
}
use vanargand.Common.Lists.{length, get_elem?}
use vanargand.Types.Amount.{saturating_add, checked_sub}
use vanargand.Types.Tx.{AccountId}
use vanargand.Consensus.Weight.{Weight, u128_bound, weight_sum}
use vanargand.Consensus.Seed.{SeedDigests, EpochSeed, draw_u128}
use vanargand.Consensus.Validator.{ValidatorRecord, ValidatorSet, validator_weight, eligible}

abbrev pub sampled : ℕ
sampled = 192

abbrev pub active : ℕ
active = 64

pub record CommitteeMember : Type 0 where
  pub account : AccountId
  pub weight : Weight

pub record Committee : Type 0 where
  pub members : List CommitteeMember
  pub permutation : List ℕ
  pub total_weight : Weight

abbrev pub member_weight : CommitteeMember → Weight
member_weight m = m.weight

abbrev pub member_account : CommitteeMember → AccountId
member_account m = m.account

abbrev pub candidate_of : ValidatorRecord → CommitteeMember
candidate_of r = record { account = r.account; weight = validator_weight r }

abbrev pub saturating_add_u128 : ℕ → ℕ → ℕ
saturating_add_u128 a b = if ltb (a + b) u128_bound then a + b else u128_bound - 1

-- The loop of `pick_by_cumulative_weight`.
unfoldable pub pick_from : ℕ → Weight → List CommitteeMember → ℕ → Option ℕ
pick_from index cumulative [] point = none
pick_from index cumulative (candidate ∷ candidates) point =
    let reached = saturating_add_u128 cumulative candidate.weight in
    let rest = pick_from (suc index) reached candidates point in
    if ltb point reached then some index else rest

unfoldable pub pick_by_cumulative_weight : List CommitteeMember → ℕ → Option ℕ
unfolding pick_from
pick_by_cumulative_weight candidates point = elim (pick_from 0 0 candidates point) [
  | some index ↦ some index
  | none ↦ checked_sub (length candidates) 1
]

-- `Vec::remove`
unfoldable pub remove_at : List CommitteeMember → ℕ → List CommitteeMember
remove_at [] index = []
remove_at (x ∷ xs) zero = xs
remove_at (x ∷ xs) (suc index) = x ∷ remove_at xs index

-- `b"draw"` and `b"activate"`
abbrev draw_label : List ℕ
draw_label = 100 ∷ 114 ∷ 97 ∷ 119 ∷ []

abbrev activate_label : List ℕ
activate_label = 97 ∷ 99 ∷ 116 ∷ 105 ∷ 118 ∷ 97 ∷ 116 ∷ 101 ∷ []

-- `slice::swap`; an index out of range panics in the source and changes nothing here.
unfoldable pub set_at : List ℕ → ℕ → ℕ → List ℕ
set_at [] index v = []
set_at (x ∷ xs) zero v = v ∷ xs
set_at (x ∷ xs) (suc index) v = x ∷ set_at xs index v

unfoldable pub swap : List ℕ → ℕ → ℕ → List ℕ
unfolding set_at
swap xs i j = elim (get_elem? xs i) [
  | none ↦ xs
  | some a ↦ elim (get_elem? xs j) [ none ↦ xs | some b ↦ set_at (set_at xs i b) j a ]
]

unfoldable pub range_from : ℕ → ℕ → List ℕ
range_from start zero = []
range_from start (suc count) = start ∷ range_from (suc start) count

module _ (digests : SeedDigests) (seed : EpochSeed) where
  -- The loop of `draw`, a round for each seat that is still free.
  unfoldable pub draw_seats : ℕ → ℕ → Weight → List CommitteeMember → List CommitteeMember
  unfolding pick_by_cumulative_weight remove_at draw_u128
  draw_seats zero round remaining candidates = []
  draw_seats (suc seats) round remaining candidates =
      if (length candidates == 0) || (remaining == 0)
      then []
      else elim (pick_by_cumulative_weight candidates
          (draw_u128 digests seed draw_label round % remaining)) [
            | none ↦ []
            | some index ↦ elim (get_elem? candidates index) [
              | none ↦ []
              | some member ↦
                  member
                  ∷ draw_seats seats (suc round) (unwrap_or (checked_sub remaining member.weight) 0)
                      (remove_at candidates index)
            ]
          ]

  -- The loop of `activation_permutation`, from `index` down to 1.
  unfoldable pub shuffle : ℕ → List ℕ → List ℕ
  unfolding swap draw_u128
  shuffle zero order = order
  shuffle (suc index) order =
      shuffle index (
        swap order (suc index)
          (draw_u128 digests seed activate_label (suc index) % (suc index + 1)))

  -- An index of 16 bits: there are at most 192 seats.
  unfoldable pub activation_permutation : ℕ → List ℕ
  unfolding shuffle range_from
  activation_permutation size =
      let order = range_from 0 (min size 65_536) in shuffle (length order - 1) order

  unfoldable pub draw : ValidatorSet → Committee
  unfolding draw_seats activation_permutation weight_sum eligible
  draw set =
      let candidates = map candidate_of (eligible set) in
      let remaining = unwrap_or (weight_sum (map member_weight candidates)) 0 in
      let members = draw_seats (min sampled (length candidates)) 0 remaining candidates in
      record {
        members = members;
        permutation = activation_permutation (length members);
        total_weight = unwrap_or (weight_sum (map member_weight members)) 0;
      }

-- `iter().any(|member| member.account == *account)`
unfoldable pub is_member : AccountId → List CommitteeMember → Bool
is_member account [] = false
is_member account (m ∷ ms) = (m.account == account) || is_member account ms

unfoldable pub contains_member : Committee → AccountId → Bool
unfolding is_member
contains_member c account = is_member account c.members

unfoldable pub find_weight : AccountId → List CommitteeMember → Option Weight
find_weight account [] = none
find_weight account (m ∷ ms) =
    if m.account == account then some m.weight else find_weight account ms

unfoldable pub weight_of : Committee → AccountId → Option Weight
unfolding find_weight
weight_of c account = find_weight account c.members

-- The loop of `active_at`, from a step on.
unfoldable pub on_duty_from : List CommitteeMember → List ℕ → ℕ → ℕ → ℕ → List CommitteeMember
on_duty_from members permutation offset step zero = []
on_duty_from members permutation offset step (suc count) =
    let rest = on_duty_from members permutation offset (suc step) count in
    elim (get_elem? permutation (saturating_add offset step % length members)) [
      | none ↦ rest
      | some index ↦ elim (get_elem? members index) [ none ↦ rest | some m ↦ m ∷ rest ]
    ]

unfoldable pub active_at : Committee → ℕ → List CommitteeMember
unfolding on_duty_from
active_at c block_in_epoch =
    let size = length c.members in
    if size == 0
    then []
    else on_duty_from c.members c.permutation (block_in_epoch % size) 0 (min active size)

unfoldable pub active_weight_at : Committee → ℕ → Weight
unfolding active_at weight_sum
active_weight_at c block_in_epoch =
    unwrap_or (weight_sum (map member_weight (active_at c block_in_epoch))) 0

unfoldable pub is_active_at : Committee → AccountId → ℕ → Bool
unfolding active_at is_member
is_active_at c account block_in_epoch = is_member account (active_at c block_in_epoch)
