-- ===== src/State/Ledger/Outflow/Kinds.antt =====
-- What the fee and the kinds that a partition lets through take out of the account.
use vanargand.Common.{
  ℕ, ◌≡◌, refl, sym, ap, ◌∙◌, none, some, Option, Result, ok, err, arith, Bool-cases, inl, inr,
}
use vanargand.Common.Map.Keys.{nat_key}
use vanargand.Types.Amount.{Amount, FeeSplit, is_zero}
use vanargand.Types.Tx.{Crypto, AccountId, AssetId, Hash, TxBody, TxKind}
use vanargand.Types.Tx
use vanargand.Types.Tx.Grammar.{IsOffline, discriminant}
use vanargand.Bourse.Purse.{Purse, PurseId}
use vanargand.State.Ledger.{
  BlockContext, Ledger, StateError, Action, lift, lift_with, lift_put, gets, update_account,
  put_purses,
}
use vanargand.State.Ledger.Change.{take_balance}
use vanargand.State.Ledger.Kinds.{
  burn, transfer, purse_open, file_purse, new_purse, purse_close_cooperative, credit_payout,
  credit_share,
}
use vanargand.State.Ledger.Kinds.Dispatch.{apply_kind}
use vanargand.State.Ledger.Apply.{charge_fee, share_fee, add_to_pot, add_to_fees, extra_outflow}
use vanargand.State.Ledger.Supply.{van}
use vanargand.State.Ledger.Outflow.{
  Paying, Paying-then, Paying-none, update_account-Paying, take_balance-out, credit_entry-Paying,
}

abbrev Quiet : {A : Type 0} → Action A → Type 0
Quiet {A = A} m = (l l' : Ledger) (x : A) → m l ≡ (ok x, l') → l'.accounts ≡ l.accounts

burn-Quiet : (amount : Amount) → Quiet (burn amount)
unfolding burn
burn-Quiet amount l l' x h = ground arith

add_to_pot-Quiet : (amount : Amount) → Quiet (add_to_pot amount)
unfolding add_to_pot
add_to_pot-Quiet amount l l' x h = ground arith

add_to_fees-Quiet : (amount : Amount) → Quiet (add_to_fees amount)
unfolding add_to_fees
add_to_fees-Quiet amount l l' x h = ground arith

pub charge_fee-Paying :
    (id : AccountId) (ctx : BlockContext) (body : TxBody) (fee : FeeSplit)
    → Paying id body.fee (charge_fee ctx body fee)
unfolding charge_fee share_fee
charge_fee-Paying id ctx body fee =
    let shared : Paying id 0 (share_fee ctx.proposer body.fee fee) =
      Paying-then id 0 (burn fee.burn) _ (Paying-none id _ (burn-Quiet fee.burn)) λ _.
        Paying-then id 0 (add_to_pot fee.pot) _ (Paying-none id _ (add_to_pot-Quiet fee.pot)) λ _.
          Paying-then id 0 (add_to_fees body.fee) _ (Paying-none id _ (add_to_fees-Quiet body.fee))
            λ _. credit_entry-Paying id ctx.proposer none fee.provider in
    Paying-then id body.fee (update_account body.account (take_balance none body.fee)) _
      (update_account-Paying id body.account body.fee _ (take_balance-out none body.fee))
      λ _. shared

lift_with-Paying :
    {A B : Type 0} (id : AccountId) (put : A → Ledger → Ledger) (r : Result StateError (B × A))
    → ((x : A) (l : Ledger) → (put x l).accounts ≡ l.accounts)
    → Paying id 0 (lift_with put r)
lift_with-Paying id put (ok (b, x)) k =
    Paying-none id _ λ l l' y h. ap (λ p. p.1.accounts) (sym h) ∙ k x l
lift_with-Paying id put (err e) k = λ l l' y h. ground arith

lift_put-Paying :
    {A : Type 0} (id : AccountId) (put : A → Ledger → Ledger) (r : Result StateError A)
    → ((x : A) (l : Ledger) → (put x l).accounts ≡ l.accounts)
    → Paying id 0 (lift_put put r)
lift_put-Paying id put (ok x) k =
    Paying-none id _ λ l l' y h. ap (λ p. p.1.accounts) (sym h) ∙ k x l
lift_put-Paying id put (err e) k = λ l l' y h. ground arith

gets-Paying : {A : Type 0} (id : AccountId) (f : Ledger → A) → Paying id 0 (gets f)
gets-Paying id f = Paying-none id _ λ l l' x h. ap (λ p. p.1.accounts) (sym h)

lift-Paying : {A : Type 0} (id : AccountId) (r : Result StateError A) → Paying id 0 (lift r)
lift-Paying id r = Paying-none id _ λ l l' x h. ap (λ p. p.1.accounts) (sym h)

transfer-Paying :
    (id from to : AccountId) (held : Option AssetId) (amount : Amount)
    → Paying id (van held amount) (transfer from to held amount)
unfolding transfer
transfer-Paying id from to held amount =
    Paying-then id (van held amount) (update_account from (take_balance held amount)) _
      (update_account-Paying id from (van held amount) _ (take_balance-out held amount))
      λ _. credit_entry-Paying id to held amount

file_purse-Paying :
    (id : AccountId) (purse_id : PurseId) (p : Purse) → Paying id 0 (file_purse purse_id p)
unfolding file_purse
file_purse-Paying id purse_id p =
    Paying-then id 0 (gets (λ l. l.purses)) _ (gets-Paying id _)
      λ book. lift_put-Paying id put_purses _ λ x l. refl

purse_open-Paying :
    (id : AccountId) (purse_id : PurseId) (payer payee : AccountId) (held : Option AssetId)
    (deposit : Amount) (root : Hash) (value : Amount) (expiry : ℕ)
    → Paying id (van held deposit) (purse_open purse_id payer payee held deposit root value expiry)
unfolding purse_open
purse_open-Paying id purse_id payer payee held deposit root value expiry =
    elim (Bool-cases (is_zero value)) [
      | inl none_paid ↦ rw none_paid λ l l' x h. ground arith
      | inr some_paid ↦ rw some_paid (
          Paying-then id (van held deposit) (update_account payer (take_balance held deposit)) _
            (update_account-Paying id payer (van held deposit) _ (take_balance-out held deposit))
            λ _.
              Paying-then id 0 (lift (new_purse payer payee held deposit root value expiry)) _
                (lift-Paying id _) (file_purse-Paying id purse_id))
    ]

credit_share-Paying :
    (id other : AccountId) (held : Option AssetId) (amount : Amount)
    → Paying id 0 (credit_share other held amount)
unfolding credit_share
credit_share-Paying id other held amount = elim (Bool-cases (is_zero amount)) [
  | inl nothing ↦ rw nothing (Paying-none id _ λ l l' x h. ap (λ p. p.1.accounts) (sym h))
  | inr something ↦ rw something (credit_entry-Paying id other held amount)
]

purse_close_cooperative-Paying :
    (id : AccountId) (purse_id : PurseId) (caller : AccountId) (to_payer to_payee : Amount)
    → Paying id 0 (purse_close_cooperative purse_id caller to_payer to_payee)
unfolding purse_close_cooperative credit_payout
purse_close_cooperative-Paying id purse_id caller to_payer to_payee =
    Paying-then id 0 (gets (λ l. l.purses)) _ (gets-Paying id _) λ book.
      Paying-then id 0 (lift_with put_purses _) _ (lift_with-Paying id put_purses _ λ x l. refl)
        λ payout.
          Paying-then id 0 (credit_share payout.payer payout.asset payout.settlement.to_payer) _
            (credit_share-Paying id payout.payer payout.asset payout.settlement.to_payer)
            λ _. credit_share-Paying id payout.payee payout.asset payout.settlement.to_payee

module _ (crypto : Crypto) where
  pub apply_kind-Paying :
      (id : AccountId) (ctx : BlockContext) (body : TxBody) (kind : TxKind)
      → IsOffline kind
      → Paying id (extra_outflow kind) (apply_kind crypto ctx body kind)
  unfolding apply_kind extra_outflow discriminant
  apply_kind-Paying id ctx body (Tx.transfer to none amount) offline =
      transfer-Paying id body.account to none amount
  apply_kind-Paying id ctx body (Tx.transfer to (some asset) amount) offline =
      transfer-Paying id body.account to (some asset) amount
  apply_kind-Paying id ctx body (Tx.purse_open payee none deposit root value expiry) offline =
      purse_open-Paying id _ body.account payee none deposit root value expiry
  apply_kind-Paying id ctx body (Tx.purse_open payee (some asset) deposit root value expiry)
        offline =
      purse_open-Paying id _ body.account payee (some asset) deposit root value expiry
  apply_kind-Paying id ctx body (Tx.purse_close_cooperative purse_id to_payer to_payee sig)
        offline =
      purse_close_cooperative-Paying id purse_id body.account to_payer to_payee
  apply_kind-Paying id ctx body _ offline = absurd (ground (arith, offline))
