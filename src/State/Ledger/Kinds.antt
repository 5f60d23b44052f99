-- ===== src/State/Ledger/Kinds.antt =====
-- The handlers of ledger.rs, one for each kind of transaction, and the dispatch on the kind.
pub mod Dispatch
use vanargand.Common.{
  ℕ, ◌/◌, Bool, true, false, Option, none, some, Result, ok, err, Done, ok_or, map_err, and_then,
  is_ok, List, [], ◌∷◌, ltb, ◌==◌, ◌||◌, if◌then◌else◌, min,
}
use vanargand.Common.Map.{Map, lookup}
use vanargand.Common.Map.Keys.{nat_key}
use vanargand.Types.Amount.{Amount, checked_add, is_zero}
use vanargand.Types.Nonce.{Lane, u32_bound}
use vanargand.Types.Window.{ContestationWindow}
use vanargand.Types.Tx.{
  Crypto, Hash, AccountId, AssetId, DeviceId, VerifyingKey, AccountEquivocation,
  ValidatorEquivocation,
}
use vanargand.Types.Tx.Checks.{check_account_equivocation, check_validator_equivocation}
use vanargand.Bourse.Payword.{PayWordToken, max_tranches}
use vanargand.Bourse.Purse.{Purse, PurseId, open_purse, dispute_window_finalized_blocks}
use vanargand.State.Account.{Account, Device}
use vanargand.State.Asset.{authorise_mint, record_burn}
use vanargand.State.PurseBook.{Payout}
use vanargand.State.PurseBook
use vanargand.State.Recovery.{recovery_window_finalized_blocks}
use vanargand.State.Recovery
use vanargand.State.Slashing.{
  AccountOffence, ValidatorOffence, Penalty, split, is_empty, record_account, record_validator,
}
use vanargand.State.Ledger.{
  BlockContext, Ledger, Action, ◌>>=◌, ◌>>◌, StateError, zero_tranche_value, bad_evidence,
  unknown_accused_device, not_the_validator, asset, purse, recovery, slashing, overflow, pure, fail,
  gets, lift, lift_with, lift_put, modify, get_account, update_account, credit_entry, put_purses,
  put_assets, put_recoveries, put_offences,
}
use vanargand.State.Ledger.Change.{
  take_balance, set_nomad, add_device, revoke_device, bond_stake, unbond_stake, set_guardians,
  recover, clear_margin, clear_bond,
}

-- `checked_add(..).ok_or(Overflow)?` into the counter of what was destroyed.
unfoldable pub burn : Amount → Action Done
burn amount l = elim (checked_add l.burned amount) [
  | none ↦ (err overflow, l)
  | some burned ↦ (ok tt, record l { burned = burned })
]

unfoldable pub transfer : AccountId → AccountId → Option AssetId → Amount → Action Done
transfer from to held amount = do
  update_account from (take_balance held amount)
  credit_entry to held amount

unfoldable pub nomad_set : AccountId → Amount → Amount → Action Done
nomad_set id credit margin = update_account id (set_nomad credit margin)

unfoldable pub device_revoke : AccountId → DeviceId → Action Done
device_revoke id device = update_account id (revoke_device device)

unfoldable pub bond : AccountId → Amount → Action Done
bond id amount = update_account id (bond_stake amount)

unfoldable pub unbond : AccountId → Amount → Action Done
unbond id amount = update_account id (unbond_stake amount)

-- How many tranches a deposit pays for: a quotient beyond 32 bits is the longest chain.
unfoldable pub capacity_for : Amount → Amount → ℕ
capacity_for deposit tranche_value =
    let tranches = deposit / tranche_value in
    min (if ltb tranches u32_bound then tranches else max_tranches) max_tranches

unfoldable pub new_purse :
    AccountId → AccountId → Option AssetId → Amount → Hash → Amount → ℕ → Result StateError Purse
new_purse payer payee held deposit payword_root tranche_value expiry =
    map_err (λ e. purse (PurseBook.purse e))
      (open_purse payer payee held deposit payword_root tranche_value
        (capacity_for deposit tranche_value) expiry)

-- `self.purses.open(id, purse)?`
unfoldable pub file_purse : PurseId → Purse → Action Done
file_purse id p = do
  book ← gets (λ l. l.purses)
  lift_put put_purses (map_err purse (PurseBook.file book id p))

unfoldable pub purse_open :
    PurseId → AccountId → AccountId → Option AssetId → Amount → Hash → Amount → ℕ → Action Done
purse_open id payer payee held deposit payword_root tranche_value expiry =
    if is_zero tranche_value then fail zero_tranche_value else do
      update_account payer (take_balance held deposit)
      p ← lift (new_purse payer payee held deposit payword_root tranche_value expiry)
      file_purse id p

-- Nothing is credited, and no account made, for a share of nothing.
unfoldable pub credit_share : AccountId → Option AssetId → Amount → Action Done
credit_share id held amount = if is_zero amount then pure tt else credit_entry id held amount

unfoldable pub credit_payout : Payout → Action Done
credit_payout payout = do
  credit_share payout.payer payout.asset payout.settlement.to_payer
  credit_share payout.payee payout.asset payout.settlement.to_payee

unfoldable pub purse_close_cooperative : PurseId → AccountId → Amount → Amount → Action Done
purse_close_cooperative id caller to_payer to_payee = do
  book ← gets (λ l. l.purses)
  payout ←
      lift_with put_purses
        (map_err purse (PurseBook.close_cooperative book id caller to_payer to_payee))
  credit_payout payout

unfoldable pub asset_mint : AccountId → AssetId → AccountId → Amount → Action Done
asset_mint caller id to amount = do
  registry ← gets (λ l. l.assets)
  lift_put put_assets (map_err asset (authorise_mint registry id caller amount))
  credit_entry to (some id) amount

unfoldable pub asset_burn : AccountId → AssetId → Amount → Action Done
asset_burn caller id amount = do
  update_account caller (take_balance (some id) amount)
  registry ← gets (λ l. l.assets)
  lift_put put_assets (map_err asset (record_burn registry id amount))

unfoldable pub approve_with :
    BlockContext → AccountId → VerifyingKey → AccountId → Account → Action Done
approve_with ctx target new_root_key guardian account = do
  book ← gets (λ l. l.recoveries)
  lift_put put_recoveries (
      map_err recovery (
        Recovery.approve book target new_root_key guardian account.guardians (record {
          opened_at_finalized = ctx.finalized_height;
          duration = recovery_window_finalized_blocks;
        })))

unfoldable pub recovery_approve : BlockContext → AccountId → VerifyingKey → AccountId → Action Done
recovery_approve ctx target new_root_key guardian = do
  account ← get_account target
  approve_with ctx target new_root_key guardian account

-- The denouncer's half and the fire's.
unfoldable pub pay_penalty : Penalty → AccountId → Action Done
pay_penalty penalty denouncer =
    if is_empty penalty
    then pure tt
    else do burn penalty.burned; credit_entry denouncer none penalty.to_denouncer

-- The end of the two punishments: the offence is recorded, and what the account had is split.
unfoldable pub seize_margin : AccountOffence → Amount → AccountId → Action Done
seize_margin offence margin denouncer = do
  book ← gets (λ l. l.offences)
  lift_put put_offences (map_err slashing (record_account book offence))
  update_account offence.account clear_margin
  pay_penalty (split margin) denouncer

unfoldable pub seize_bond : ValidatorOffence → Amount → AccountId → Action Done
seize_bond offence bonded denouncer = do
  book ← gets (λ l. l.offences)
  lift_put put_offences (map_err slashing (record_validator book offence))
  update_account offence.validator clear_bond
  pay_penalty (split bonded) denouncer

abbrev pub offence_of : AccountEquivocation → AccountOffence
offence_of evidence = record {
  account = evidence.first.body.account;
  device = evidence.device;
  lane = evidence.first.body.nonce.lane;
  sequence = evidence.first.body.nonce.sequence;
}

-- The handlers that need a digest or a signature.
module _ (crypto : Crypto) where
  open crypto use {payword_link, device_id_of}

  unfoldable pub device_add : AccountId → VerifyingKey → Lane → Amount → Action Done
  device_add id key lane nomad_share =
      update_account id (add_device (device_id_of key) key lane nomad_share)

  unfoldable pub purse_close_unilateral :
      BlockContext → PurseId → AccountId → ℕ → Hash → Action Done
  purse_close_unilateral ctx id caller tranches_claimed payword_token = do
    book ← gets (λ l. l.purses)
    lift_put put_purses (
        map_err purse (
          PurseBook.begin_unilateral payword_link book id caller tranches_claimed
            (if ltb 0 tranches_claimed
              then some (record { index = tranches_claimed; link = payword_token })
              else none)
            (record {
              opened_at_finalized = ctx.finalized_height;
              duration = dispute_window_finalized_blocks;
            })))

  unfoldable pub purse_dispute : PurseId → ℕ → Hash → Action Done
  purse_dispute id tranches_claimed payword_token = do
    book ← gets (λ l. l.purses)
    lift_put put_purses (
        map_err purse (
          PurseBook.dispute payword_link book id tranches_claimed
            (record { index = tranches_claimed; link = payword_token })))

  unfoldable pub finish_recovery : BlockContext → AccountId → ℕ → Action Done
  finish_recovery ctx target threshold = do
    book ← gets (λ l. l.recoveries)
    new_root_key ←
        lift_with put_recoveries
          (map_err recovery (Recovery.finalise book target threshold ctx.finalized_height))
    update_account target (recover (device_id_of new_root_key) new_root_key)

  unfoldable pub recovery_finalise : BlockContext → AccountId → Action Done
  recovery_finalise ctx target = do
    account ← get_account target
    finish_recovery ctx target account.guardian_threshold

  -- `evidence.check` under the key of the accused device.
  unfoldable pub check_accused : AccountEquivocation → Account → Result StateError Done
  check_accused evidence account =
      and_then
        (ok_or (lookup evidence.device account.devices) (unknown_accused_device evidence.device))
        λ device. map_err bad_evidence (check_account_equivocation crypto evidence device.key)

  unfoldable pub convict_account : AccountEquivocation → AccountId → Account → Action Done
  convict_account evidence denouncer account = do
    lift (check_accused evidence account)
    seize_margin (offence_of evidence) account.nomad_margin denouncer

  unfoldable pub punish_account_equivocation : AccountEquivocation → AccountId → Action Done
  punish_account_equivocation evidence denouncer = do
    account ← get_account evidence.first.body.account
    convict_account evidence denouncer account

  -- Whether any device of the account signed both headers.
  unfoldable pub signed_by_any : ValidatorEquivocation → Map DeviceId Device → Bool
  signed_by_any evidence [] = false
  signed_by_any evidence ((id, device) ∷ m) =
      is_ok (check_validator_equivocation crypto evidence device.key) || signed_by_any evidence m

  unfoldable pub convict_validator : ValidatorEquivocation → AccountId → Account → Action Done
  convict_validator evidence denouncer account =
      if signed_by_any evidence account.devices
      then seize_bond
          (record { validator = evidence.validator; height = evidence.first.header.height })
          account.bonded denouncer
      else fail (not_the_validator evidence.validator)

  unfoldable pub punish_validator_equivocation : ValidatorEquivocation → AccountId → Action Done
  punish_validator_equivocation evidence denouncer = do
    account ← get_account evidence.validator
    convict_validator evidence denouncer account
