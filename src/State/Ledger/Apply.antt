-- ===== src/State/Ledger/Apply.antt =====
-- `Ledger::apply` of ledger.rs, and the housekeeping of a block.
use vanargand.Common.{
  ℕ, Bool, true, false, Option, none, some, Result, ok, err, Done, ok_or, and_then, not, List, [],
  ◌∷◌, ltb, ◌==◌, ◌&&◌, if◌then◌else◌,
}
use vanargand.Common.Map.{Map, lookup, contains}
use vanargand.Common.Map.Keys.{nat_key}
use vanargand.Types.Amount.{Amount, FeeSplit, fee_split_of, checked_add}
use vanargand.Types.Nonce.{Lane, accepts, next_sequence}
use vanargand.Types.Window.{FinalityRung}
use vanargand.Types.Tx.{Crypto, AccountId, DeviceId, TxBody, TxKind, transfer, purse_open, bond}
use vanargand.Types.Tx.Grammar.{tx_version, allowed_in_provisional, discriminant}
use vanargand.State.Account.{Account, Device, nomad_remaining}
use vanargand.State.PurseBook.{Payout, settle_elapsed}
use vanargand.State.NameBook.{prune_expired}
use vanargand.State.Ledger.{
  BlockContext, Applied, Ledger, Action, ◌>>=◌, ◌>>◌, StateError, wrong_chain, unsupported_version,
  expired, forbidden_in_provisional, no_such_account, no_such_device, device_revoked, wrong_lane,
  bad_nonce, nomad_credit_exhausted, overflow, pure, gets, lift, modify, update_account,
  credit_entry, put_purses, put_names,
}
use vanargand.State.Ledger.Change.{take_balance, consume_nonce, spend_nomad}
use vanargand.State.Ledger.Kinds.{burn, credit_payout}
use vanargand.State.Ledger.Kinds.Dispatch.{apply_kind}

abbrev pub is_provisional : FinalityRung → Bool
is_provisional FinalityRung.provisional = true
is_provisional FinalityRung.chain = false
is_provisional FinalityRung.federal = false

unfoldable pub is_past : Option ℕ → ℕ → Bool
is_past none height = false
is_past (some valid_until) height = ltb valid_until height

unfoldable pub check_envelope : BlockContext → TxBody → Result StateError Done
unfolding is_past
check_envelope ctx body =
    if not (body.version == tx_version)
    then err (unsupported_version body.version)
    else if not (body.chain == ctx.chain)
    then err wrong_chain
    else if is_past body.valid_until_finalized ctx.finalized_height
    then err
        (expired (elim body.valid_until_finalized [ none ↦ 0 | some h ↦ h ]) ctx.finalized_height)
    else if is_provisional ctx.rung && not (allowed_in_provisional body.kind)
    then err (forbidden_in_provisional (discriminant body.kind))
    else ok tt

unfoldable pub check_authority : Ledger → TxBody → Result StateError (Lane × DeviceId)
check_authority l body = elim (lookup body.account l.accounts) [
  | none ↦ err (no_such_account body.account)
  | some account ↦
      if contains body.device account.revoked_devices
      then err (device_revoked body.device)
      else elim (lookup body.device account.devices) [
        | none ↦ err (no_such_device body.device)
        | some device ↦
            if not (device.lane == body.nonce.lane)
            then err (wrong_lane device.lane body.nonce.lane)
            else if not (accepts account.lanes body.nonce)
            then err (bad_nonce (next_sequence account.lanes body.nonce.lane) body.nonce.sequence)
            else ok (device.lane, body.device)
      ]
]

-- What leaves the account in VAN beside the fee.
unfoldable pub extra_outflow : TxKind → Amount
extra_outflow (transfer _ none amount) = amount
extra_outflow (purse_open _ none deposit _ _ _) = deposit
extra_outflow (bond amount _) = amount
extra_outflow _ = 0

unfoldable pub native_outflow : TxBody → Result StateError Amount
native_outflow body = ok_or (checked_add body.fee (extra_outflow body.kind)) overflow

unfoldable pub check_nomad : Ledger → TxBody → DeviceId → Amount → Result StateError Done
check_nomad l body device_id outflow = elim (lookup body.account l.accounts) [
  | none ↦ err (no_such_account body.account)
  | some account ↦ elim (lookup device_id account.devices) [
    | none ↦ err (no_such_device device_id)
    | some device ↦
        if ltb (nomad_remaining device) outflow
        then err (nomad_credit_exhausted device_id outflow (nomad_remaining device))
        else ok tt
  ]
]

unfoldable pub add_to_pot : Amount → Action Done
add_to_pot amount l = elim (checked_add l.context_pot amount) [
  | none ↦ (err overflow, l)
  | some pot ↦ (ok tt, record l { context_pot = pot })
]

unfoldable pub add_to_fees : Amount → Action Done
add_to_fees amount l = elim (checked_add l.fees_collected amount) [
  | none ↦ (err overflow, l)
  | some fees ↦ (ok tt, record l { fees_collected = fees })
]

-- Where a fee that was taken goes: the counters, and the block's proposer.
unfoldable pub share_fee : AccountId → Amount → FeeSplit → Action Done
share_fee proposer paid fee = do
  burn fee.burn
  add_to_pot fee.pot
  add_to_fees paid
  credit_entry proposer none fee.provider

unfoldable pub charge_fee : BlockContext → TxBody → FeeSplit → Action Done
charge_fee ctx body fee = do
  update_account body.account (take_balance none body.fee)
  share_fee ctx.proposer body.fee fee

-- What is consumed of the offline credit: the outflow, in a provisional block.
unfoldable pub nomad_consumption :
    BlockContext → TxBody → DeviceId → Amount → Ledger → Result StateError Amount
unfolding check_nomad
nomad_consumption ctx body device_id outflow l =
    if is_provisional ctx.rung
    then and_then (check_nomad l body device_id outflow) (λ _. ok outflow)
    else ok 0

pub record Admitted : Type 0 where
  pub lane : Lane
  pub device_id : DeviceId
  pub consumed : Amount

-- The checks, in their order, before anything is written.
unfoldable pub check_all : BlockContext → TxBody → Ledger → Result StateError Admitted
check_all ctx body l = and_then (check_envelope ctx body) λ _.
    and_then (check_authority l body) λ authority. and_then (native_outflow body) λ outflow.
      and_then (nomad_consumption ctx body authority.1 outflow l)
        λ consumed. ok (record { lane = authority.0; device_id = authority.1; consumed = consumed })

-- The nonce last, so that a rejected transaction leaves the lane where it was.
unfoldable pub close_tx : TxBody → Lane → DeviceId → Amount → Action Applied
close_tx body lane device_id consumed = do
  update_account body.account (consume_nonce lane body.nonce)
  update_account body.account (spend_nomad device_id consumed)
  pure (record { fee = fee_split_of body.fee; nomad_consumed = consumed })

module _ (crypto : Crypto) where
  -- What follows the checks.
  unfoldable pub execute : BlockContext → TxBody → Lane → DeviceId → Amount → Action Applied
  execute ctx body lane device_id consumed = do
    charge_fee ctx body (fee_split_of body.fee)
    apply_kind crypto ctx body body.kind
    close_tx body lane device_id consumed

  unfoldable pub apply_in_place : BlockContext → TxBody → Action Applied
  apply_in_place ctx body = do
    checked ← gets (λ l. check_all ctx body l)
    admitted ← lift checked
    execute ctx body admitted.lane admitted.device_id admitted.consumed

  -- The working copy takes the ledger's place only when nothing failed.
  unfoldable pub apply : BlockContext → TxBody → Action Applied
  apply ctx body l =
      let (r, working) = apply_in_place ctx body l in
      elim r [ err e ↦ (err e, l) | ok applied ↦ (ok applied, working) ]

clear_spent : Map DeviceId Device → Map DeviceId Device
clear_spent [] = []
clear_spent ((id, device) ∷ m) = (id, record device { nomad_spent = 0 }) ∷ clear_spent m

clear_counters : Map AccountId Account → Map AccountId Account
unfolding clear_spent
clear_counters [] = []
clear_counters ((id, account) ∷ m) =
    (id, record account { devices = clear_spent account.devices }) ∷ clear_counters m

unfoldable pub settle_nomad_counters : Ledger → Ledger
unfolding clear_counters
settle_nomad_counters l = record l { accounts = clear_counters l.accounts }

unfoldable pub credit_payouts : List Payout → Action Done
credit_payouts [] = pure tt
credit_payouts (payout ∷ payouts) = do credit_payout payout; credit_payouts payouts

unfoldable pub settle_elapsed_purses : ℕ → Action (List Payout)
settle_elapsed_purses height = do
  book ← gets (λ l. l.purses)
  let settled = settle_elapsed book height
  modify (put_purses settled.1)
  credit_payouts settled.0
  pure settled.0

unfoldable pub prune_expired_commitments : ℕ → Ledger → Ledger × ℕ
prune_expired_commitments height l =
    let pruned = prune_expired l.names height in (put_names pruned.0 l, pruned.1)
