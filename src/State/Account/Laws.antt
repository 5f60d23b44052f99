-- ===== src/State/Account/Laws.antt =====
-- Credits and debits move one balance by the amount, and touch nothing else of the account.
use vanargand.Common.{◌+◌, ◌-◌, ◌≤◌, ◌<◌, ◌≡◌, Option, none, some, arith, if◌then◌else◌, unwrap_or}
use vanargand.Common.Map.{lookup, insert}
use vanargand.Common.Map.Keys.{option_key, option_same, option_same_iff}
use vanargand.Common.Map.Laws.{lookup-insert, lookup-remove}
use vanargand.Types.Amount.{Amount, u64_bound}
use vanargand.Types.Tx.{AssetId}
use vanargand.State.Account.{Account, balance, credit, debit}

-- A credit succeeds exactly when the new balance fits 64 bits.
pub credit_lem :
    (a : Account) (asset : Option AssetId) (amount : Amount)
    → balance a asset + amount < u64_bound
    → (a' : Account) × (credit a asset amount ≡ some a')
unfolding credit
credit_lem a asset amount fits =
    (record a { balances = insert asset (balance a asset + amount) a.balances }, ground arith)

-- A credit adds the amount to the one balance.
pub credit-balance :
    (a : Account) (asset : Option AssetId) (amount : Amount) (a' : Account) (other : Option AssetId)
    → credit a asset amount ≡ some a'
    → (balance a' other
        ≡ (if option_same asset other then balance a other + amount else balance a other))
      × (balance a asset + amount < u64_bound)
      × (a' ≡ record a { balances = a'.balances })
unfolding credit balance
credit-balance a asset amount a' other h = ground (
  arith,
  lookup-insert asset other (unwrap_or (lookup asset a.balances) 0 + amount) a.balances,
  option_same_iff asset other,
)

-- A debit succeeds exactly when the balance covers the amount, and takes it from the one balance.
pub debit-balance :
    (a : Account) (asset : Option AssetId) (amount : Amount) (a' : Account) (other : Option AssetId)
    → debit a asset amount ≡ some a'
    → (balance a' other
        ≡ (if option_same asset other then balance a other - amount else balance a other))
      × (amount ≤ balance a asset)
      × (a' ≡ record a { balances = a'.balances })
unfolding debit balance
debit-balance a asset amount a' other h = ground (
  arith,
  lookup-insert asset other (unwrap_or (lookup asset a.balances) 0 - amount) a.balances,
  lookup-remove asset other a.balances,
  option_same_iff asset other,
)

pub debit-none :
    (a : Account) (asset : Option AssetId) (amount : Amount)
    → debit a asset amount ≡ none
    → balance a asset < amount
unfolding debit
debit-none a asset amount h = ground arith
