-- ===== src/State/Ledger/Kinds/Dispatch.antt =====
-- `apply_kind` of ledger.rs: what a body does once its fee is paid.
use vanargand.Common.{ℕ, Bool, Done, map_err, not, ◌==◌, if◌then◌else◌}
use vanargand.Types.Name.{Name}
use vanargand.Types.Tx.{
  Crypto, Hash, AccountId, TxBody, TxKind, device_add, device_revoke, name_commit, name_reveal,
  guardian_set, recovery_start, recovery_cancel, asset_create, account_equivocation,
  validator_equivocation, open_equivocation,
}
use vanargand.Types.Tx
use vanargand.State.Asset.{create}
use vanargand.State.NameBook.{commit, reveal}
use vanargand.State.Recovery.{not_recovering, cancel}
use vanargand.State.Ledger.{
  BlockContext, Action, ◌>>=◌, asset, name, recovery, fail, gets, lift_put, lift_with,
  update_account, put_assets, put_names, put_recoveries, pure,
}
use vanargand.State.Ledger.Change.{set_guardians}
use vanargand.State.Ledger.Kinds

module _ (crypto : Crypto) where
  open crypto use {tx_id, asset_id_of, name_commitment}

  -- `TxKind::RecoveryCancel`: only the account itself may cancel.
  unfoldable pub recovery_cancel_by : AccountId → AccountId → Action Done
  recovery_cancel_by account caller =
      if not (account == caller) then fail (recovery not_recovering) else do
        book ← gets (λ l. l.recoveries)
        cancelled ← lift_with put_recoveries (map_err recovery (cancel book account))
        pure tt

  unfoldable pub asset_create_by : TxBody → Name → ℕ → Bool → Action Done
  asset_create_by body ticker decimals reissuable = do
    registry ← gets (λ l. l.assets)
    lift_put put_assets (
        map_err asset (
          create registry (asset_id_of body.account (tx_id body)) body.account ticker decimals
            reissuable))

  unfoldable pub name_commit_by : BlockContext → AccountId → Hash → Action Done
  name_commit_by ctx caller commitment = do
    book ← gets (λ l. l.names)
    lift_put put_names (map_err name (commit book commitment caller ctx.finalized_height))

  unfoldable pub name_reveal_by : BlockContext → AccountId → Name → ℕ → Action Done
  name_reveal_by ctx caller revealed salt = do
    book ← gets (λ l. l.names)
    lift_put put_names
        (map_err name (reveal name_commitment book revealed salt caller ctx.finalized_height))

  unfoldable pub apply_kind : BlockContext → TxBody → TxKind → Action Done
  apply_kind ctx body (Tx.transfer to held amount) = Kinds.transfer body.account to held amount
  apply_kind ctx body (Tx.nomad_set credit margin) = Kinds.nomad_set body.account credit margin
  apply_kind ctx body (device_add key lane share) =
      Kinds.device_add crypto body.account key lane share
  apply_kind ctx body (device_revoke device) = Kinds.device_revoke body.account device
  apply_kind ctx body (Tx.bond amount _) = Kinds.bond body.account amount
  apply_kind ctx body (Tx.unbond amount) = Kinds.unbond body.account amount
  apply_kind ctx body (Tx.purse_open counterparty held deposit root tranche_value expiry) =
      Kinds.purse_open (tx_id body) body.account counterparty held deposit root tranche_value expiry
  apply_kind ctx body (Tx.purse_close_cooperative id payer_balance payee_balance _) =
      Kinds.purse_close_cooperative id body.account payer_balance payee_balance
  apply_kind ctx body (Tx.purse_close_unilateral id tranches_claimed token) =
      Kinds.purse_close_unilateral crypto ctx id body.account tranches_claimed token
  apply_kind ctx body (Tx.purse_dispute id tranches_claimed token) =
      Kinds.purse_dispute crypto id tranches_claimed token
  apply_kind ctx body (asset_create ticker decimals reissuable) =
      asset_create_by body ticker decimals reissuable
  apply_kind ctx body (Tx.asset_mint id to amount) = Kinds.asset_mint body.account id to amount
  apply_kind ctx body (Tx.asset_burn id amount) = Kinds.asset_burn body.account id amount
  apply_kind ctx body (name_commit commitment) = name_commit_by ctx body.account commitment
  apply_kind ctx body (name_reveal revealed salt) = name_reveal_by ctx body.account revealed salt
  apply_kind ctx body (guardian_set guardians threshold) =
      update_account body.account (set_guardians guardians threshold)
  apply_kind ctx body (recovery_start account new_root_key) =
      Kinds.recovery_approve ctx account new_root_key body.account
  apply_kind ctx body (recovery_cancel account) = recovery_cancel_by account body.account
  apply_kind ctx body (Tx.recovery_finalise account) = Kinds.recovery_finalise crypto ctx account
  apply_kind ctx body (account_equivocation evidence) =
      Kinds.punish_account_equivocation crypto (open_equivocation evidence) body.account
  apply_kind ctx body (validator_equivocation evidence) =
      Kinds.punish_validator_equivocation crypto evidence body.account
