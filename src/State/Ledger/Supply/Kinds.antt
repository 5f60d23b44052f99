-- ===== src/State/Ledger/Supply/Kinds.antt =====
-- What the handlers that move value, and the ways to chain steps, do to the supply.
use vanargand.Common.{
  ℕ, ◌+◌, ◌≡◌, refl, Bool, true, false, Option, some, Result, ok, err, map_err, arith,
  if◌then◌else◌,
}
use vanargand.Common.Map.{Nodup, sum_values}
use vanargand.Common.Map.Keys.{nat_key}
use vanargand.Types.Amount.{Amount}
use vanargand.Types.Tx.{AccountId, AssetId}
use vanargand.State.Account.{Account}
use vanargand.State.PurseBook.{PurseBook, PurseBookError, Payout}
use vanargand.State.Asset.{authorise_mint, record_burn}
use vanargand.State.Ledger.{
  Ledger, StateError, Action, lift_put, lift_with, put_purses, update_account, credit_entry, lift,
  asset, put_assets,
}
use vanargand.State.Ledger.Change.{take_balance}
use vanargand.State.Ledger.Kinds.{
  burn, transfer, credit_share, credit_payout, asset_burn, asset_mint,
}
use vanargand.State.Ledger.Supply.{
  IsFiled, supply, van, locked, native_of, Moves, Moves-bind, update_account-Moves,
  credit_entry-Moves,
}
use vanargand.State.Ledger.Supply.Accounts.{take_balance-native}

pub update_account-even :
    (id : AccountId) (f : Account → Result StateError Account) (l : Ledger)
    → IsFiled l
    → ((a a' : Account) → f a ≡ ok a' → native_of a' ≡ native_of a)
    → Moves l 0 0 (update_account id f l)
update_account-even id f l h k =
    update_account-Moves id f l 0 0 h λ a a' found e. omega (arith, k a a' e)

pub take-Moves :
    (id : AccountId) (held : Option AssetId) (amount : Amount) (l : Ledger)
    → IsFiled l
    → Moves l 0 (van held amount) (update_account id (take_balance held amount) l)
take-Moves id held amount l h =
    update_account-Moves id (take_balance held amount) l 0 (van held amount) h
      λ a a' found e. omega (arith, take_balance-native held amount a a' e)

pub burn-Moves : (amount : Amount) (l : Ledger) → IsFiled l → Moves l amount 0 (burn amount l)
unfolding burn
burn-Moves amount l h = ground arith

pub transfer-Moves :
    (from to : AccountId) (held : Option AssetId) (amount : Amount) (l : Ledger)
    → IsFiled l
    → Moves l 0 0 (transfer from to held amount l)
unfolding transfer
transfer-Moves from to held amount l h =
    Moves-bind (update_account from (take_balance held amount)) (λ _. credit_entry to held amount) l
      0 (van held amount) (van held amount) 0 0 0 (omega arith) (take-Moves from held amount l h)
      λ a l' e h'. credit_entry-Moves to held amount l' h'

pub credit_share-Moves :
    (id : AccountId) (held : Option AssetId) (amount : Amount) (l : Ledger)
    → IsFiled l
    → Moves l (van held amount) 0 (credit_share id held amount l)
unfolding credit_share
credit_share-Moves id held amount l h = ground (arith, credit_entry-Moves id held amount l h)

-- A payout pays both shares out.
pub credit_payout-Moves :
    (p : Payout) (l : Ledger)
    → IsFiled l
    → Moves l
        (van p.asset p.settlement.to_payer + van p.asset p.settlement.to_payee)
        0
        (credit_payout p l)
unfolding credit_payout
credit_payout-Moves p l h =
    let s = p.settlement in
    Moves-bind (credit_share p.payer p.asset s.to_payer)
      (λ _. credit_share p.payee p.asset s.to_payee) l (van p.asset s.to_payer) 0
      (van p.asset s.to_payee) 0 _ 0 (omega arith)
      (credit_share-Moves p.payer p.asset s.to_payer l h)
      λ a l' e h'. credit_share-Moves p.payee p.asset s.to_payee l' h'

pub map_err-ok :
    {E E' A : Type 0} (f : E → E') (r : Result E A) (a : A) → map_err f r ≡ ok a → r ≡ ok a
map_err-ok f (ok x) a e = ground arith
map_err-ok f (err x) a e = ground arith

pub put_purses-Moves :
    (f : PurseBookError → StateError) (r : Result PurseBookError PurseBook) (l : Ledger)
    (up down : ℕ)
    → ((b' : PurseBook)
        → r ≡ ok b'
        → Nodup b'.purses
          × (sum_values locked b'.purses + down ≡ sum_values locked l.purses.purses + up))
    → Moves l up down (lift_put put_purses (map_err f r) l)
put_purses-Moves f (ok b') l up down k a e = let k' = k b' refl in (k'.0, omega arith)
put_purses-Moves f (err x) l up down k a e = ground arith

pub lift_put-even :
    {A : Type 0} (put : A → Ledger → Ledger) (r : Result StateError A) (l : Ledger)
    → ((x : A) → IsFiled (put x l) × (supply (put x l) ≡ supply l))
    → Moves l 0 0 (lift_put put r l)
lift_put-even put (ok x) l k a e = let k' = k x in (k'.0, omega arith)
lift_put-even put (err x) l k a e = ground arith

pub lift_with-even :
    {A B : Type 0} (put : A → Ledger → Ledger) (r : Result StateError (B × A)) (l : Ledger)
    → ((x : A) → IsFiled (put x l) × (supply (put x l) ≡ supply l))
    → Moves l 0 0 (lift_with put r l)
lift_with-even put (ok (y, x)) l k a e = let k' = k x in (k'.0, omega arith)
lift_with-even put (err x) l k a e = ground arith

pub lift-even :
    {A : Type 0} (r : Result StateError A) (l : Ledger) → IsFiled l → Moves l 0 0 (lift r l)
lift-even r l h a e = (h, omega arith)

pub if-Moves :
    {A : Type 0} (b : Bool) (m n : Action A) (l : Ledger) (up down : ℕ)
    → (b ≡ true → Moves l up down (m l))
    → (b ≡ false → Moves l up down (n l))
    → Moves l up down ((if b then m else n) l)
if-Moves true m n l up down h k = h refl
if-Moves false m n l up down h k = k refl

pub asset_mint-Moves :
    (caller : AccountId) (id : AssetId) (to : AccountId) (amount : Amount) (l : Ledger)
    → IsFiled l
    → Moves l 0 0 (asset_mint caller id to amount l)
unfolding asset_mint
asset_mint-Moves caller id to amount l h =
    Moves-bind (lift_put put_assets (map_err asset (authorise_mint l.assets id caller amount)))
      (λ _. credit_entry to (some id) amount) l 0 0 0 0 0 0 (omega arith)
      (lift_put-even put_assets _ l (λ x. (h, refl)))
      λ a l' e h'. credit_entry-Moves to (some id) amount l' h'

pub asset_burn-Moves :
    (caller : AccountId) (id : AssetId) (amount : Amount) (l : Ledger)
    → IsFiled l
    → Moves l 0 0 (asset_burn caller id amount l)
unfolding asset_burn
asset_burn-Moves caller id amount l h =
    Moves-bind (update_account caller (take_balance (some id) amount))
      (λ _. λ l'. lift_put put_assets (map_err asset (record_burn l'.assets id amount)) l') l 0 0 0
      0 0 0 (omega arith) (take-Moves caller (some id) amount l h)
      λ a l' e h'. lift_put-even put_assets _ l' (λ x. (h', refl))
