-- ===== src/State/Ledger/Supply.antt =====
-- Where the VAN of a ledger is, and what the steps of a transaction do to its sum. `Ledger::
-- total_native_balance` is the executable sum; the proofs work with the sum that cannot overflow.
pub mod Accounts
pub mod Kinds
pub mod Channels
pub mod Crypto
pub mod Margin
pub mod Apply
use vanargand.Common.{
  ℕ, ◌+◌, ◌≡◌, refl, Bool, Option, none, some, Result, ok, err, Done, List, [], ◌∷◌, ◌++◌, bind,
  arith, Option-cases, Result-cases, inl, inr,
}
use vanargand.Common.Map.{Map, lookup, insert, Nodup, sum_values}
use vanargand.Common.Map.Keys.{nat_key}
use vanargand.Common.Map.Sums.{sum-insert_old, sum-insert_new}
use vanargand.Common.Lists.{sum_of}
use vanargand.Types.Amount.{Amount, Ratio, checked_add, checked_sum}
use vanargand.Types.Amount.Arith.{checked_sum-eq}
use vanargand.Types.Tx.{AccountId, AssetId}
use vanargand.Bourse.Purse.{Purse, PurseId}
use vanargand.State.Account.{Account, new_account, balance, credit}
use vanargand.State.Account.Laws.{credit-balance}
use vanargand.State.Ledger.{Ledger, StateError, Action, ◌>>=◌, update_account, credit_entry, entry}

unfoldable pub native_amounts : Map AccountId Account → List Amount
native_amounts [] = []
native_amounts ((id, a) ∷ m) = balance a none ∷ a.bonded ∷ native_amounts m

unfoldable pub native_deposits : Map PurseId Purse → List Amount
native_deposits [] = []
native_deposits ((id, p) ∷ m) = elim p.asset [
  | none ↦ p.deposit ∷ native_deposits m
  | some held ↦ native_deposits m
]

unfoldable pub total_native_balance : Ledger → Option Amount
unfolding native_amounts native_deposits
total_native_balance l = bind (checked_sum (native_amounts l.accounts)) λ in_accounts.
    bind (checked_sum (native_deposits l.purses.purses))
      λ in_channels. checked_add in_accounts in_channels

unfoldable pub fee_emission_ratio : Ledger → Amount → Ratio
fee_emission_ratio l emitted_supply = record {
  numerator = l.fees_collected;
  denominator = emitted_supply;
}

abbrev pub native_of : Account → ℕ
native_of a = balance a none + a.bonded

abbrev pub locked : Purse → ℕ
locked p = elim p.asset [ none ↦ p.deposit | some held ↦ 0 ]

-- The VAN in balances, in bonds and in channels.
abbrev pub holdings : Ledger → ℕ
holdings l = sum_values native_of l.accounts + sum_values locked l.purses.purses

-- With what was destroyed and the pot.
abbrev pub supply : Ledger → ℕ
supply l = holdings l + l.burned + l.context_pot

-- A channel is filed once.
abbrev pub IsFiled : Ledger → Type 0
IsFiled l = Nodup l.purses.purses

native_amounts-sum :
    (m : Map AccountId Account) → sum_of (λ x. x) (native_amounts m) ≡ sum_values native_of m
unfolding native_amounts sum_values
native_amounts-sum [] = refl
native_amounts-sum ((id, a) ∷ m) = omega (arith, native_amounts-sum m)

native_deposits-sum :
    (m : Map PurseId Purse) → sum_of (λ x. x) (native_deposits m) ≡ sum_values locked m
unfolding native_deposits sum_values
native_deposits-sum [] = refl
native_deposits-sum ((id, p) ∷ m) = ground (arith, native_deposits-sum m)

-- A total that is returned counts every balance, every bond and every VAN deposit, exactly.
pub total_native_balance-eq :
    (l : Ledger) (total : Amount) → total_native_balance l ≡ some total → total ≡ holdings l
unfolding total_native_balance
total_native_balance-eq l total h = elim (Option-cases (checked_sum (native_amounts l.accounts))) [
  | inl e ↦ ground arith
  | inr (a, e) ↦ elim (Option-cases (checked_sum (native_deposits l.purses.purses))) [
    | inl e' ↦ ground arith
    | inr (b, e') ↦ ground (
      arith,
      native_amounts-sum l.accounts,
      native_deposits-sum l.purses.purses,
      checked_sum-eq (native_amounts l.accounts) a e,
      checked_sum-eq (native_deposits l.purses.purses) b e',
    )
  ]
]

-- What a step did to the supply if it succeeded: it rose by `up` and fell by `down`.
abbrev pub Moves : {A : Type 0} → Ledger → ℕ → ℕ → Result StateError A × Ledger → Type 0
Moves {A = A} l up down p = (a : A) → p.0 ≡ ok a → IsFiled p.1 × (supply p.1 + down ≡ supply l + up)

-- One step after another, from the pair that the first one gives.
Moves-pair :
    {A B : Type 0} (l : Ledger) (up down up' down' : ℕ) (f : A → Action B)
    (p : Result StateError A × Ledger)
    → Moves {A = A} l up down p
    → ((a : A) (l' : Ledger) → p ≡ (ok a, l') → IsFiled l' → Moves {A = B} l' up' down' (f a l'))
    → Moves {A = B} l (up + up') (down + down') (elim p.0 [ ok a ↦ f a p.1 | err e ↦ (err e, p.1) ])
Moves-pair l up down up' down' f (ok a, l') h k b e =
    let first = h a refl in let second = k a l' refl first.0 b e in (second.0, omega arith)
Moves-pair l up down up' down' f (err x, l') h k b e = ground arith

-- Two steps in a row, where the sums come to `up` and `down`.
pub Moves-bind :
    {A B : Type 0} (m : Action A) (f : A → Action B) (l : Ledger) (up₁ down₁ up₂ down₂ up down : ℕ)
    → up₁ + up₂ + down ≡ up + (down₁ + down₂)
    → Moves {A = A} l up₁ down₁ (m l)
    → ((a : A) (l' : Ledger) → m l ≡ (ok a, l') → IsFiled l' → Moves {A = B} l' up₂ down₂ (f a l'))
    → Moves {A = B} l up down ((m >>= f) l)
Moves-bind m f l up₁ down₁ up₂ down₂ up down e h k b r =
    let both = Moves-pair l up₁ down₁ up₂ down₂ f (m l) h k b r in (both.0, omega arith)

-- A change of one account moves the supply by what it does to the account.
pub update_account-Moves :
    (id : AccountId) (f : Account → Result StateError Account) (l : Ledger) (up down : ℕ)
    → IsFiled l
    → ((a a' : Account)
        → lookup id l.accounts ≡ some a
        → f a ≡ ok a'
        → native_of a' + down ≡ native_of a + up)
    → Moves l up down (update_account id f l)
unfolding update_account
update_account-Moves id f l up down h k b e = elim (Option-cases (lookup id l.accounts)) [
  | inl absent ↦ ground arith
  | inr (a, found) ↦ elim (Result-cases (f a)) [
    | inl (a', changed) ↦
        ground (arith, k a a' found changed, sum-insert_old native_of id a' a l.accounts found)
    | inr (x, failed) ↦ ground arith
  ]
]

new_account-native : (balance new_account none ≡ 0) × (new_account.bonded ≡ 0)
unfolding balance lookup
new_account-native = (refl, refl)

-- VAN that is credited to an account raises the supply; another asset does not.
abbrev pub van : Option AssetId → Amount → ℕ
van held amount = elim held [ none ↦ amount | some id ↦ 0 ]

pub credit_entry-Moves :
    (id : AccountId) (held : Option AssetId) (amount : Amount) (l : Ledger)
    → IsFiled l
    → Moves l (van held amount) 0 (credit_entry id held amount l)
unfolding credit_entry
credit_entry-Moves id held amount l h b e = elim (Option-cases (credit (entry id l) held amount)) [
  | inl failed ↦ ground arith
  | inr (a', credited) ↦
      let moved = credit-balance (entry id l) held amount a' none credited in
      elim (Option-cases (lookup id l.accounts)) [
        | inl absent ↦
            ground (arith, new_account-native, sum-insert_new native_of id a' l.accounts absent)
        | inr (a, found) ↦ ground (arith, sum-insert_old native_of id a' a l.accounts found)
      ]
]
