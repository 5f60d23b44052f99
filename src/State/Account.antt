-- ===== src/State/Account.antt =====
-- vanargand-state/src/account.rs: what the ledger knows about an account.
pub mod Laws
use vanargand.Common.{
  ℕ, Bool, Option, none, some, List, [], ◌∷◌, ◌&&◌, ◌==◌, if◌then◌else◌, bind, unwrap_or, map,
}
use vanargand.Common.Map.{Map, Set, lookup, insert, remove}
use vanargand.Common.Map.Keys.{nat_key, option_key}
use vanargand.Common.Lists.{length}
use vanargand.Types.Amount.{Amount, checked_add, checked_sub, checked_sum, is_zero}
use vanargand.Types.Nonce.{Lane, LaneState, new_lanes}
use vanargand.Types.Name.{Name}
use vanargand.Types.Tx.{AccountId, AssetId, DeviceId, VerifyingKey}

pub record Device : Type 0 where
  pub key : VerifyingKey
  pub lane : Lane
  pub nomad_share : Amount
  pub nomad_spent : Amount

unfoldable pub nomad_remaining : Device → Amount
nomad_remaining d = unwrap_or (checked_sub d.nomad_share d.nomad_spent) 0

-- The balance of an asset is stored under its identifier, that of VAN under `none`.
pub record Account : Type 0 where
  pub balances : Map (Option AssetId) Amount
  pub nomad_credit : Amount
  pub nomad_margin : Amount
  pub devices : Map DeviceId Device
  pub revoked_devices : Set DeviceId
  pub next_lane : Lane
  pub lanes : LaneState
  pub guardians : Set AccountId
  pub guardian_threshold : ℕ
  pub bonded : Amount
  pub name : Option Name

abbrev pub new_account : Account
new_account = record {
  balances = [];
  nomad_credit = 0;
  nomad_margin = 0;
  devices = [];
  revoked_devices = [];
  next_lane = 0;
  lanes = new_lanes;
  guardians = [];
  guardian_threshold = 0;
  bonded = 0;
  name = none;
}

unfoldable pub balance : Account → Option AssetId → Amount
balance a asset = unwrap_or (lookup asset a.balances) 0

unfoldable pub credit : Account → Option AssetId → Amount → Option Account
credit a asset amount =
    bind (checked_add (balance a asset) amount)
      λ updated. some (record a { balances = insert asset updated a.balances })

-- A balance that reaches zero is removed.
unfoldable pub debit : Account → Option AssetId → Amount → Option Account
debit a asset amount = bind (checked_sub (balance a asset) amount) λ updated. some (record a {
  balances = if is_zero updated then remove asset a.balances else insert asset updated a.balances;
})

unfoldable pub shares : Map DeviceId Device → List Amount
shares [] = []
shares ((id, d) ∷ m) = d.nomad_share ∷ shares m

unfoldable pub allocated_nomad : Account → Option Amount
allocated_nomad a = checked_sum (shares a.devices)

unfoldable pub is_vacant : Account → Bool
is_vacant a =
    (length a.balances == 0)
    && (length a.devices == 0)
    && (length a.revoked_devices == 0)
    && (length a.guardians == 0)
    && is_zero a.bonded
    && is_zero a.nomad_credit
    && is_zero a.nomad_margin
    && (elim a.name [ none ↦ 0 | some n ↦ 1 ] == 0)
