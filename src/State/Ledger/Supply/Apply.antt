-- ===== src/State/Ledger/Supply/Apply.antt =====
-- What a whole transaction does to the supply.
use vanargand.Common.{◌+◌, ◌≡◌, ◌≢◌, refl, ap, none, ok, map_err, arith, not, ◌==◌}
use vanargand.Types.Amount.{Amount, IsU64, fee_split_of}
use vanargand.Types.Amount.Splits.{fee_split_parts}
use vanargand.Types.Tx.{
  Crypto, AccountId, DeviceId, VerifyingKey, TxBody, TxKind, account_equivocation,
  validator_equivocation, open_equivocation, device_add, device_revoke, name_commit, name_reveal,
  guardian_set, recovery_start, recovery_cancel, asset_create,
}
use vanargand.Types.Tx
use vanargand.Types.Nonce.{Lane}
use vanargand.Types.Tx.Grammar.{discriminant}
use vanargand.State.Account.{Account}
use vanargand.State.Recovery.{cancel}
use vanargand.State.Ledger.{
  BlockContext, Applied, Ledger, ◌>>◌, update_account, lift_with, put_assets, put_names,
  put_recoveries, recovery, credit_entry, pure,
}
use vanargand.State.Ledger.Change.{take_balance, consume_nonce, spend_nomad}
use vanargand.State.Ledger.Kinds
use vanargand.State.Ledger.Kinds.Dispatch.{
  recovery_cancel_by, asset_create_by, name_commit_by, name_reveal_by, apply_kind,
}
use vanargand.State.Ledger.Apply.{
  charge_fee, share_fee, add_to_pot, add_to_fees, apply, Admitted, execute, close_tx,
}
use vanargand.State.Ledger.Atomic.{apply-ok}
use vanargand.State.Ledger.Supply.{IsFiled, supply, Moves, Moves-bind, credit_entry-Moves}
use vanargand.State.Ledger.Supply.Accounts.{
  set_nomad-native, add_device-native, revoke_device-native, bond_stake-native, unbond_stake-native,
  set_guardians-native, consume_nonce-native, spend_nomad-native,
}
use vanargand.State.Ledger.Supply.Kinds.{
  update_account-even, take-Moves, burn-Moves, transfer-Moves, asset_mint-Moves, asset_burn-Moves,
  lift_put-even, lift_with-even, if-Moves,
}
use vanargand.State.Ledger.Supply.Channels.{purse_open-Moves, purse_close_cooperative-Moves}
use vanargand.State.Ledger.Supply.Crypto.{
  Moves-get, purse_close_unilateral-Moves, purse_dispute-Moves, recovery_finalise-Moves,
  punish_validator_equivocation-Moves,
}

add_to_pot-Moves :
    (amount : Amount) (l : Ledger) → IsFiled l → Moves l amount 0 (add_to_pot amount l)
unfolding add_to_pot
add_to_pot-Moves amount l h = ground arith

add_to_fees-Moves : (amount : Amount) (l : Ledger) → IsFiled l → Moves l 0 0 (add_to_fees amount l)
unfolding add_to_fees
add_to_fees-Moves amount l h = ground arith

share_fee-Moves :
    (proposer : AccountId) (fee : Amount) (l : Ledger)
    → IsU64 fee
    → IsFiled l
    → Moves l fee 0 (share_fee proposer fee (fee_split_of fee) l)
unfolding share_fee
share_fee-Moves proposer fee l fits h =
    let s = fee_split_of fee in
    let parts = fee_split_parts fee fits in
    let pay = credit_entry proposer none s.provider in
    Moves-bind (Kinds.burn s.burn) (λ _. add_to_pot s.pot >> (add_to_fees fee >> pay)) l s.burn 0
      (s.pot + s.provider) 0 fee 0 (omega (arith, parts)) (burn-Moves s.burn l h)
      λ a l' e h'.
        Moves-bind (add_to_pot s.pot) (λ _. add_to_fees fee >> pay) l' s.pot 0 s.provider 0
          (s.pot + s.provider) 0 (omega arith) (add_to_pot-Moves s.pot l' h')
          λ a l' e h'.
            Moves-bind (add_to_fees fee) (λ _. pay) l' 0 0 s.provider 0 s.provider 0 (omega arith)
              (add_to_fees-Moves fee l' h')
              λ a l' e h'. credit_entry-Moves proposer none s.provider l' h'

-- The fee leaves the payer and arrives in full: with the provider, in the pot and in the fire.
pub charge_fee-Moves :
    (ctx : BlockContext) (body : TxBody) (l : Ledger)
    → IsU64 body.fee
    → IsFiled l
    → Moves l 0 0 (charge_fee ctx body (fee_split_of body.fee) l)
unfolding charge_fee
charge_fee-Moves ctx body l fits h =
    Moves-bind (update_account body.account (take_balance none body.fee))
      (λ _. share_fee ctx.proposer body.fee (fee_split_of body.fee)) l 0 body.fee body.fee 0 0 0
      (omega arith) (take-Moves body.account none body.fee l h)
      λ a l' e h'. share_fee-Moves ctx.proposer body.fee l' fits h'

close_tx-Moves :
    (body : TxBody) (lane : Lane) (device_id : DeviceId) (consumed : Amount) (l : Ledger)
    → IsFiled l
    → Moves l 0 0 (close_tx body lane device_id consumed l)
unfolding close_tx
close_tx-Moves body lane device_id consumed l h =
    let spend = update_account body.account (spend_nomad device_id consumed) in
    let applied : Applied = record { fee = fee_split_of body.fee; nomad_consumed = consumed } in
    Moves-bind (update_account body.account (consume_nonce lane body.nonce))
      (λ _. spend >> pure applied) l 0 0 0 0 0 0 (omega arith)
      (update_account-even _ _ l h (consume_nonce-native lane body.nonce))
      λ a l' e h'.
        Moves-bind spend (λ _. pure applied) l' 0 0 0 0 0 0 (omega arith)
          (update_account-even _ _ l' h' (spend_nomad-native device_id consumed))
          λ a l'' e h'' b r. (h'', refl)

approve_with-Moves :
    (ctx : BlockContext) (target : AccountId) (key : VerifyingKey) (guardian : AccountId)
    (account : Account) (l : Ledger)
    → IsFiled l
    → Moves l 0 0 (Kinds.approve_with ctx target key guardian account l)
unfolding Kinds.approve_with
approve_with-Moves ctx target key guardian account l h =
    lift_put-even put_recoveries _ l (λ x. (h, refl))

recovery_approve-Moves :
    (ctx : BlockContext) (target : AccountId) (key : VerifyingKey) (guardian : AccountId)
    (l : Ledger)
    → IsFiled l
    → Moves l 0 0 (Kinds.recovery_approve ctx target key guardian l)
unfolding Kinds.recovery_approve
recovery_approve-Moves ctx target key guardian l h =
    Moves-get target (Kinds.approve_with ctx target key guardian) l 0 0
      λ account found. approve_with-Moves ctx target key guardian account l h

module _ (crypto : Crypto) where
  recovery_cancel_by-Moves :
      (account caller : AccountId) (l : Ledger)
      → IsFiled l
      → Moves l 0 0 (recovery_cancel_by crypto account caller l)
  unfolding recovery_cancel_by
  recovery_cancel_by-Moves account caller l h =
      if-Moves (not (account == caller)) _ _ l 0 0 (λ other b e. ground arith)
        λ own.
          Moves-bind (lift_with put_recoveries (map_err recovery (cancel l.recoveries account)))
            (λ _. pure tt) l 0 0 0 0 0 0 (omega arith)
            (lift_with-even put_recoveries _ l (λ x. (h, refl))) λ a l' e h' b r. (h', refl)

  -- Every kind but the conviction of an account keeps the supply.
  pub apply_kind-Moves :
      (ctx : BlockContext) (body : TxBody) (kind : TxKind) (l : Ledger)
      → discriminant kind ≢ 20
      → IsFiled l
      → Moves l 0 0 (apply_kind crypto ctx body kind l)
  unfolding apply_kind discriminant recovery_cancel_by asset_create_by name_commit_by name_reveal_by
      Kinds.nomad_set Kinds.device_add Kinds.device_revoke Kinds.bond Kinds.unbond
      Kinds.recovery_approve
  apply_kind-Moves ctx body (Tx.transfer to held amount) l n h =
      transfer-Moves body.account to held amount l h
  apply_kind-Moves ctx body (Tx.nomad_set credit margin) l n h =
      update_account-even _ _ l h (set_nomad-native credit margin)
  apply_kind-Moves ctx body (device_add key lane share) l n h =
      update_account-even _ _ l h (add_device-native (crypto.device_id_of key) key lane share)
  apply_kind-Moves ctx body (device_revoke device) l n h =
      update_account-even _ _ l h (revoke_device-native device)
  apply_kind-Moves ctx body (Tx.bond amount _) l n h =
      update_account-even _ _ l h (bond_stake-native amount)
  apply_kind-Moves ctx body (Tx.unbond amount) l n h =
      update_account-even _ _ l h (unbond_stake-native amount)
  apply_kind-Moves ctx body (Tx.purse_open payee held deposit root tranche expiry) l n h =
      purse_open-Moves _ body.account payee held deposit root tranche expiry l h
  apply_kind-Moves ctx body (Tx.purse_close_cooperative id x y _) l n h =
      purse_close_cooperative-Moves id body.account x y l h
  apply_kind-Moves ctx body (Tx.purse_close_unilateral id claimed token) l n h =
      purse_close_unilateral-Moves crypto ctx id body.account claimed token l h
  apply_kind-Moves ctx body (Tx.purse_dispute id claimed token) l n h =
      purse_dispute-Moves crypto id claimed token l h
  apply_kind-Moves ctx body (asset_create ticker decimals reissuable) l n h =
      lift_put-even put_assets _ l (λ x. (h, refl))
  apply_kind-Moves ctx body (Tx.asset_mint id to amount) l n h =
      asset_mint-Moves body.account id to amount l h
  apply_kind-Moves ctx body (Tx.asset_burn id amount) l n h =
      asset_burn-Moves body.account id amount l h
  apply_kind-Moves ctx body (name_commit commitment) l n h =
      lift_put-even put_names _ l (λ x. (h, refl))
  apply_kind-Moves ctx body (name_reveal revealed salt) l n h =
      lift_put-even put_names _ l (λ x. (h, refl))
  apply_kind-Moves ctx body (guardian_set guardians threshold) l n h =
      update_account-even _ _ l h (set_guardians-native guardians threshold)
  apply_kind-Moves ctx body (recovery_start account key) l n h =
      recovery_approve-Moves ctx account key body.account l h
  apply_kind-Moves ctx body (recovery_cancel account) l n h =
      recovery_cancel_by-Moves account body.account l h
  apply_kind-Moves ctx body (Tx.recovery_finalise account) l n h =
      recovery_finalise-Moves crypto ctx account l h
  apply_kind-Moves ctx body (account_equivocation evidence) l n h = ground arith
  apply_kind-Moves ctx body (validator_equivocation evidence) l n h =
      punish_validator_equivocation-Moves crypto evidence body.account l h

  execute-Moves :
      (ctx : BlockContext) (body : TxBody) (admitted : Admitted) (l : Ledger)
      → IsU64 body.fee
      → discriminant body.kind ≢ 20
      → IsFiled l
      → Moves l 0 0 (execute crypto ctx body admitted.lane admitted.device_id admitted.consumed l)
  unfolding execute
  execute-Moves ctx body admitted l fits n h =
      let last = close_tx body admitted.lane admitted.device_id admitted.consumed in
      Moves-bind (charge_fee ctx body (fee_split_of body.fee))
        (λ _. apply_kind crypto ctx body body.kind >> last) l 0 0 0 0 0 0 (omega arith)
        (charge_fee-Moves ctx body l fits h)
        λ a l' e h'.
          Moves-bind (apply_kind crypto ctx body body.kind) (λ _. last) l' 0 0 0 0 0 0 (omega arith)
            (apply_kind-Moves ctx body body.kind l' n h')
            λ a l'' e h''.
              close_tx-Moves body admitted.lane admitted.device_id admitted.consumed l'' h''

  -- No transaction creates or destroys VAN: a transaction that is applied, of any kind but the
  -- conviction of an account, with a 64-bit fee, on a ledger whose channels are each filed once,
  -- leaves the sum of the balances, the bonds, the VAN
  -- locked in channels, the destroyed VAN and the context pot as it was, and every channel filed
  -- once.
  pub apply-supply :
      (ctx : BlockContext) (body : TxBody) (l l' : Ledger) (applied : Applied)
      → IsFiled l
      → IsU64 body.fee
      → discriminant body.kind ≢ 20
      → apply crypto ctx body l ≡ (ok applied, l')
      → IsFiled l' × (supply l' ≡ supply l)
  apply-supply ctx body l l' applied h fits n e =
      let (m, passed, done) = apply-ok crypto ctx body l l' applied e in
      let moved = execute-Moves ctx body m l fits n h applied (ap (λ p. p.0) done) in
      ground (arith, done, moved)
