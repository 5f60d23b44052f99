-- ===== src/State/Ledger/Supply/Accounts.antt =====
-- What the changes of one account do to its VAN.
use vanargand.Common.{ℕ, ◌+◌, ◌≡◌, Option, none, ok, arith, Option-cases, inl, inr}
use vanargand.Common.Map.{Set}
use vanargand.Types.Amount.{Amount, checked_sub}
use vanargand.Types.Nonce.{Lane, Nonce}
use vanargand.Types.Tx.{AccountId, AssetId, DeviceId, VerifyingKey}
use vanargand.State.Account.{Account, balance, credit, debit}
use vanargand.State.Account.Laws.{credit-balance, debit-balance}
use vanargand.State.Ledger.Change.{
  take_balance, set_nomad, add_device, revoke_device, bond_stake, unbond_stake, set_guardians,
  recover, clear_margin, clear_bond, consume_nonce, spend_nomad,
}
use vanargand.State.Ledger.Supply.{native_of, van}

pub take_balance-native :
    (held : Option AssetId) (amount : Amount) (a a' : Account)
    → take_balance held amount a ≡ ok a'
    → native_of a' + van held amount ≡ native_of a
unfolding take_balance
take_balance-native held amount a a' h = elim (Option-cases (debit a held amount)) [
  | inl e ↦ ground arith
  | inr (b, e) ↦ ground (arith, debit-balance a held amount b none e)
]

pub bond_stake-native :
    (amount : Amount) (a a' : Account) → bond_stake amount a ≡ ok a' → native_of a' ≡ native_of a
unfolding bond_stake balance
bond_stake-native amount a a' h = elim (Option-cases (debit a none amount)) [
  | inl e ↦ ground arith
  | inr (b, e) ↦ ground (arith, debit-balance a none amount b none e)
]

pub unbond_stake-native :
    (amount : Amount) (a a' : Account) → unbond_stake amount a ≡ ok a' → native_of a' ≡ native_of a
unfolding unbond_stake balance
unbond_stake-native amount a a' h = elim (Option-cases (checked_sub a.bonded amount)) [
  | inl e ↦ ground arith
  | inr (b, e) ↦ elim (Option-cases (credit (record a { bonded = b }) none amount)) [
    | inl f ↦ ground arith
    | inr (c, f) ↦ ground (arith, credit-balance (record a { bonded = b }) none amount c none f)
  ]
]

pub clear_bond-native :
    (a a' : Account) → clear_bond a ≡ ok a' → native_of a' + a.bonded ≡ native_of a
unfolding clear_bond balance
clear_bond-native a a' h = ground arith

-- The changes that leave the VAN of an account alone.
pub set_nomad-native :
    (nomad_credit margin : Amount) (a a' : Account)
    → set_nomad nomad_credit margin a ≡ ok a'
    → native_of a' ≡ native_of a
unfolding set_nomad balance
set_nomad-native nomad_credit margin a a' h = ground arith

pub add_device-native :
    (id : DeviceId) (key : VerifyingKey) (lane : Lane) (share : Amount) (a a' : Account)
    → add_device id key lane share a ≡ ok a'
    → native_of a' ≡ native_of a
unfolding add_device balance
add_device-native id key lane share a a' h = ground arith

pub revoke_device-native :
    (device : DeviceId) (a a' : Account)
    → revoke_device device a ≡ ok a'
    → native_of a' ≡ native_of a
unfolding revoke_device balance
revoke_device-native device a a' h = ground arith

pub set_guardians-native :
    (guardians : Set AccountId) (threshold : ℕ) (a a' : Account)
    → set_guardians guardians threshold a ≡ ok a'
    → native_of a' ≡ native_of a
unfolding set_guardians balance
set_guardians-native guardians threshold a a' h = ground arith

pub recover-native :
    (id : DeviceId) (key : VerifyingKey) (a a' : Account)
    → recover id key a ≡ ok a'
    → native_of a' ≡ native_of a
unfolding recover balance
recover-native id key a a' h = ground arith

pub clear_margin-native : (a a' : Account) → clear_margin a ≡ ok a' → native_of a' ≡ native_of a
unfolding clear_margin balance
clear_margin-native a a' h = ground arith

pub consume_nonce-native :
    (lane : Lane) (nonce : Nonce) (a a' : Account)
    → consume_nonce lane nonce a ≡ ok a'
    → native_of a' ≡ native_of a
unfolding consume_nonce balance
consume_nonce-native lane nonce a a' h = ground arith

pub spend_nomad-native :
    (id : DeviceId) (consumed : Amount) (a a' : Account)
    → spend_nomad id consumed a ≡ ok a'
    → native_of a' ≡ native_of a
unfolding spend_nomad balance
spend_nomad-native id consumed a a' h = ground arith
