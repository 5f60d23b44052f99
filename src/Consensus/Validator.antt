-- ===== src/Consensus/Validator.antt =====
-- vanargand-consensus/src/validator.rs: the validators and their weights.
use vanargand.Common.{◌≡◌, ◌≤◌, Bool, not, Option, List, [], ◌∷◌, ◌==◌, if◌then◌else◌, bind, map}
use vanargand.Common.Lists.{All}
use vanargand.Common.Map.{Map, lookup, insert, remove, Nodup}
use vanargand.Common.Map.Keys.{nat_key}
use vanargand.Types.Amount.{Amount, IsU64, checked_sum, mul_div_floor}
use vanargand.Types.Tx.{Hash, AccountId, VerifyingKey}
use vanargand.Consensus.Weight.{
  Weight, Multiplier, multiplier_one, multiplier_max, weight_of_bond, weight_sum,
}

pub record ValidatorRecord : Type 0 where
  pub account : AccountId
  pub key : VerifyingKey
  pub bond : Amount
  pub multiplier : Multiplier
  pub commitment_root : Hash
  pub last_reveal : Hash

unfoldable pub new_validator : AccountId → VerifyingKey → Amount → Hash → ValidatorRecord
new_validator account key bond commitment_root = record {
  account = account;
  key = key;
  bond = bond;
  multiplier = multiplier_one;
  commitment_root = commitment_root;
  last_reveal = commitment_root;
}

unfoldable pub validator_weight : ValidatorRecord → Weight
unfolding weight_of_bond
validator_weight r = weight_of_bond r.bond r.multiplier

unfoldable pub is_eligible : ValidatorRecord → Bool
unfolding validator_weight
is_eligible r = not (validator_weight r == 0)

abbrev pub ValidatorSet : Type 0
ValidatorSet = Map AccountId ValidatorRecord

unfoldable pub insert_validator : ValidatorRecord → ValidatorSet → ValidatorSet
insert_validator r set = insert r.account r set

unfoldable pub remove_validator : AccountId → ValidatorSet → ValidatorSet
remove_validator account set = remove account set

unfoldable pub get_validator : AccountId → ValidatorSet → Option ValidatorRecord
get_validator account set = lookup account set

unfoldable pub eligible : ValidatorSet → List ValidatorRecord
unfolding is_eligible
eligible [] = []
eligible ((account, r) ∷ set) = let rest = eligible set in if is_eligible r then r ∷ rest else rest

unfoldable pub total_eligible_weight : ValidatorSet → Option Weight
unfolding weight_sum eligible
total_eligible_weight set = weight_sum (map validator_weight (eligible set))

unfoldable pub bonds : ValidatorSet → List Amount
bonds [] = []
bonds ((account, r) ∷ set) = r.bond ∷ bonds set

unfoldable pub security_budget : ValidatorSet → Option Amount
unfolding checked_sum bonds mul_div_floor
security_budget set = bind (checked_sum (bonds set)) λ total. mul_div_floor total 1 3

-- The record of each account is filed under it, with a 64-bit bond and a multiplier in range.
abbrev pub IsFiled : AccountId × ValidatorRecord → Type 0
IsFiled (account, r) =
    (r.account ≡ account)
    × IsU64 r.bond
    × (multiplier_one ≤ r.multiplier)
    × (r.multiplier ≤ multiplier_max)

abbrev pub IsValidatorSet : ValidatorSet → Type 0
IsValidatorSet set = Nodup set × All IsFiled set
