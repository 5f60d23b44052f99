-- ===== src/State/Ledger/Supply/Channels.antt =====
-- What the handlers of a channel do to the supply.
use vanargand.Common.{
  ℕ, ◌+◌, ◌≡◌, ap, subst, Option, ok, arith, Option-cases, Result-cases, inl, inr,
}
use vanargand.Common.Map.{lookup, Nodup, sum_values}
use vanargand.Common.Map.Keys.{nat_key}
use vanargand.Common.Map.Sums.{
  sum-insert_new, sum-insert_old, sum-remove, insert-Nodup, remove-Nodup,
}
use vanargand.Types.Amount.{Amount, is_zero}
use vanargand.Types.Tx.{Hash, AccountId, AssetId}
use vanargand.Types.Window.{ContestationWindow}
use vanargand.Bourse.Payword.{PayWordToken}
use vanargand.Bourse.Purse.{Purse, PurseId, open_purse, settle_cooperative}
use vanargand.Bourse.Purse
use vanargand.State.PurseBook.{PurseBook, PurseBookError, Payout, file, close_cooperative}
use vanargand.State.PurseBook
use vanargand.State.Ledger.{Ledger, ◌>>=◌, put_purses, update_account, lift, purse}
use vanargand.State.Ledger.Change.{take_balance}
use vanargand.State.Ledger.Kinds.{new_purse, file_purse, purse_open, purse_close_cooperative}
use vanargand.State.Ledger.Supply.{IsFiled, van, locked, Moves, Moves-bind}
use vanargand.State.Ledger.Supply.Kinds.{
  put_purses-Moves, lift-even, if-Moves, take-Moves, credit_payout-Moves,
}

-- A channel that is filed locks its deposit.
file-sums :
    (b b' : PurseBook) (id : PurseId) (p : Purse)
    → Nodup b.purses
    → file b id p ≡ ok b'
    → Nodup b'.purses × (sum_values locked b'.purses ≡ sum_values locked b.purses + locked p)
unfolding file
file-sums b b' id p h e = elim (Option-cases (lookup id b.purses)) [
  | inl absent ↦
      ground (arith, insert-Nodup id p b.purses h, sum-insert_new locked id p b.purses absent)
  | inr (q, found) ↦ ground arith
]

-- A channel that is closed by agreement leaves the book with exactly its deposit.
close-sums :
    (b b' : PurseBook) (id : PurseId) (caller : AccountId) (x y : Amount) (out : Payout)
    → Nodup b.purses
    → close_cooperative b id caller x y ≡ ok (out, b')
    → Nodup b'.purses
      × (sum_values locked b'.purses
            + (van out.asset out.settlement.to_payer + van out.asset out.settlement.to_payee)
          ≡ sum_values locked b.purses)
unfolding close_cooperative settle_cooperative
close-sums b b' id caller x y out h e = elim (Option-cases (lookup id b.purses)) [
  | inl absent ↦ ground arith
  | inr (q, found) ↦
      ground (arith, remove-Nodup id b.purses h, sum-remove locked id q b.purses h found)
]

new_purse-locked :
    (payer payee : AccountId) (held : Option AssetId) (deposit : Amount) (root : Hash)
    (tranche : Amount) (expiry : ℕ) (p : Purse)
    → new_purse payer payee held deposit root tranche expiry ≡ ok p
    → locked p ≡ van held deposit
unfolding new_purse open_purse
new_purse-locked payer payee held deposit root tranche expiry p e = ground arith

file_purse-Moves :
    (id : PurseId) (p : Purse) (l : Ledger) → IsFiled l → Moves l (locked p) 0 (file_purse id p l)
unfolding file_purse
file_purse-Moves id p l h =
    put_purses-Moves purse (file l.purses id p) l (locked p) 0
      λ b' filed. ground (arith, file-sums l.purses b' id p h filed)

pub purse_open-Moves :
    (id : PurseId) (payer payee : AccountId) (held : Option AssetId) (deposit : Amount)
    (root : Hash) (tranche : Amount) (expiry : ℕ) (l : Ledger)
    → IsFiled l
    → Moves l 0 0 (purse_open id payer payee held deposit root tranche expiry l)
unfolding purse_open
purse_open-Moves id payer payee held deposit root tranche expiry l h =
    let made = new_purse payer payee held deposit root tranche expiry in
    let locks = new_purse-locked payer payee held deposit root tranche expiry in
    let v = van held deposit in
    if-Moves (is_zero tranche) _ _ l 0 0 (λ z b e. ground arith)
      (λ z.
        Moves-bind (update_account payer (take_balance held deposit))
          (λ _. lift made >>= λ p. file_purse id p) l 0 v v 0 0 0 (omega arith)
          (take-Moves payer held deposit l h)
          λ a l' e h'.
            Moves-bind (lift made) (λ p. file_purse id p) l' 0 0 v 0 v 0 (omega arith)
              (lift-even made l' h')
              λ p l'' e' h''.
                subst (λ n. Moves l'' n 0 (file_purse id p l'')) (locks p (ap (λ x. x.0) e'))
                  (file_purse-Moves id p l'' h''))

pub purse_close_cooperative-Moves :
    (id : PurseId) (caller : AccountId) (x y : Amount) (l : Ledger)
    → IsFiled l
    → Moves l 0 0 (purse_close_cooperative id caller x y l)
unfolding purse_close_cooperative
purse_close_cooperative-Moves id caller x y l h b r =
    elim (Result-cases (close_cooperative l.purses id caller x y)) [
      | inl ((out, b'), closed) ↦
          let sums = close-sums l.purses b' id caller x y out h closed in
          ground (arith, credit_payout-Moves out (put_purses b' l) sums.0 b, sums)
      | inr (e, refused) ↦ ground arith
    ]

-- Opening or disputing a closure changes no deposit.
pub begin-sums :
    (link : Hash → Hash) (b b' : PurseBook) (id : PurseId) (caller : AccountId) (claimed : ℕ)
    (token : Option PayWordToken) (window : ContestationWindow)
    → Nodup b.purses
    → PurseBook.begin_unilateral link b id caller claimed token window ≡ ok b'
    → Nodup b'.purses × (sum_values locked b'.purses ≡ sum_values locked b.purses)
unfolding PurseBook.begin_unilateral Purse.begin_unilateral
begin-sums link b b' id caller claimed token window h e = elim (Option-cases (lookup id b.purses)) [
  | inl absent ↦ ground arith
  | inr (p, found) ↦
      elim (Result-cases (Purse.begin_unilateral link p caller claimed token window)) [
        | inl (p', begun) ↦
            ground
              (arith, insert-Nodup id p' b.purses h, sum-insert_old locked id p' p b.purses found)
        | inr (x, refused) ↦ ground arith
      ]
]

pub dispute-sums :
    (link : Hash → Hash) (b b' : PurseBook) (id : PurseId) (claimed : ℕ) (token : PayWordToken)
    → Nodup b.purses
    → PurseBook.dispute link b id claimed token ≡ ok b'
    → Nodup b'.purses × (sum_values locked b'.purses ≡ sum_values locked b.purses)
unfolding PurseBook.dispute Purse.dispute
dispute-sums link b b' id claimed token h e = elim (Option-cases (lookup id b.purses)) [
  | inl absent ↦ ground arith
  | inr (p, found) ↦ elim (Result-cases (Purse.dispute link p claimed token)) [
    | inl (p', disputed) ↦
        ground (arith, insert-Nodup id p' b.purses h, sum-insert_old locked id p' p b.purses found)
    | inr (x, refused) ↦ ground arith
  ]
]
