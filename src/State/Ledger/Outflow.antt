-- ===== src/State/Ledger/Outflow.antt =====
-- What a transaction takes out of its own account, and the offline credit that answers for it.
pub mod Kinds
pub mod Offline
use vanargand.Common.{
  ℕ, ◌+◌, ◌≤◌, ◌≡◌, ◌≢◌, ◌⊎◌, refl, sym, ap, subst, ◌∙◌, true, false, none, some, Option, Result,
  ok, err, Done, arith, Option-cases, Result-cases, Bool, Bool-cases, inl, inr, ◌==◌, if◌then◌else◌,
}
use vanargand.Common.Map.{lookup, insert}
use vanargand.Common.Map.Keys.{nat_key}
use vanargand.Common.Map.Laws.{lookup-insert_self, lookup-insert_ne}
use vanargand.Types.Amount.{Amount, FeeSplit, is_zero}
use vanargand.Types.Tx.{Crypto, AccountId, AssetId, Hash, TxBody, TxKind}
use vanargand.Types.Tx
use vanargand.Types.Tx.Grammar.{IsOffline, discriminant}
use vanargand.Bourse.Purse.{Purse, PurseId}
use vanargand.State.Account.{Account, balance, credit, debit}
use vanargand.State.Account.Laws.{credit-balance, debit-balance}
use vanargand.State.Ledger.{
  BlockContext, Ledger, StateError, Action, ◌>>=◌, ◌>>◌, pure, fail, lift, lift_with, lift_put,
  gets, update_account, credit_entry, entry, put_account, put_purses,
}
use vanargand.State.Ledger.Change.{take_balance}
use vanargand.State.Ledger.Kinds.{
  burn, transfer, purse_open, file_purse, new_purse, purse_close_cooperative, credit_payout,
  credit_share,
}
use vanargand.State.Ledger.Kinds.Dispatch.{apply_kind}
use vanargand.State.Ledger.Apply.{charge_fee, share_fee, add_to_pot, add_to_fees, extra_outflow}
use vanargand.State.Ledger.Replay.{bind-ok, update_account-ok}
use vanargand.State.Ledger.Supply.{van}

-- An account that is there stays there with its devices and its counters, and at most `out` of VAN
-- has left its balance.
abbrev pub Pays : AccountId → ℕ → Ledger → Ledger → Type 0
Pays id out l l' =
    (a : Account)
    → lookup id l.accounts ≡ some a
    → (a' : Account) × (lookup id l'.accounts ≡ some a')
      × (a'.devices ≡ a.devices)
      × (balance a none ≤ balance a' none + out)

-- The same of every run of a step that succeeds.
abbrev pub Paying : {A : Type 0} → AccountId → ℕ → Action A → Type 0
Paying {A = A} id out m = (l l' : Ledger) (x : A) → m l ≡ (ok x, l') → Pays id out l l'

pub Pays-trans :
    (id : AccountId) (m n : ℕ) (l k l' : Ledger)
    → Pays id m l k
    → Pays id n k l'
    → Pays id (m + n) l l'
Pays-trans id m n l k l' p q a found =
    let (b, here, devices, left) = p a found in
    let (c, there, devices', left') = q b here in
    (c, there, devices' ∙ devices, omega (arith, left, left'))

pub Paying-bind :
    {A B : Type 0} (id : AccountId) (m n : ℕ) (step : Action A) (next : A → Action B)
    → Paying id m step
    → ((x : A) → Paying id n (next x))
    → Paying id (m + n) (step >>= next)
Paying-bind id m n step next p q l l' y h =
    let (x, k, done, rest) = bind-ok step next l y l' h in
    Pays-trans id m n l k l' (p l k x done) (q x k l' y rest)

pub Paying-then :
    {A B : Type 0} (id : AccountId) (m : ℕ) (step : Action A) (next : A → Action B)
    → Paying id m step
    → ((x : A) → Paying id 0 (next x))
    → Paying id m (step >>= next)
Paying-then id m step next p q =
    let sum : m + 0 ≡ m = omega arith in
    subst (λ n. Paying id n (step >>= next)) sum (Paying-bind id m 0 step next p q)

-- A step that leaves the accounts alone.
pub Paying-none :
    {A : Type 0} (id : AccountId) (m : Action A)
    → ((l l' : Ledger) (x : A) → m l ≡ (ok x, l') → l'.accounts ≡ l.accounts)
    → Paying id 0 m
Paying-none id m k l l' x h a found =
    (a, ap (λ s. lookup id s) (k l l' x h) ∙ found, refl, omega arith)

pub change-Pays :
    (id other : AccountId) (out : ℕ) (b' : Account) (l : Ledger)
    → ((a : Account)
        → lookup other l.accounts ≡ some a
        → (b'.devices ≡ a.devices) × (balance a none ≤ balance b' none + out))
    → Pays id out l (put_account other b' l)
change-Pays id other out b' l k a found = elim (Bool-cases (other == id)) [
  | inl same ↦
      let e : other ≡ id = ground arith in
      let (devices, left) = k a (ap (λ i. lookup i l.accounts) e ∙ found) in
      (
        b',
        ap (λ i. lookup id (insert i b' l.accounts)) e ∙ lookup-insert_self id b' l.accounts,
        devices,
        left,
      )
  | inr differs ↦
      let apart : other ≢ id = λ e. ground arith in
      (a, lookup-insert_ne other id b' l.accounts apart ∙ found, refl, omega arith)
]

pub update_account-Paying :
    (id other : AccountId) (out : ℕ) (f : Account → Result StateError Account)
    → ((a a' : Account)
        → f a ≡ ok a'
        → (a'.devices ≡ a.devices) × (balance a none ≤ balance a' none + out))
    → Paying id out (update_account other f)
update_account-Paying id other out f k l l' x h =
    let (a, a', found, changed, e) = update_account-ok other f l l' x h in
    let kept = λ (b : Account) (there : lookup other l.accounts ≡ some b).
      let same : a ≡ b = ground (arith, found, there) in
      subst (λ c. (a'.devices ≡ c.devices) × (balance c none ≤ balance a' none + out)) same
        (k a a' changed) in
    subst (λ q. Pays id out l q) (sym e) (change-Pays id other out a' l kept)

debit-out :
    (held : Option AssetId) (amount : Amount) (a a' : Account)
    → debit a held amount ≡ some a'
    → (a'.devices ≡ a.devices) × (balance a none ≤ balance a' none + van held amount)
debit-out none amount a a' h =
    let (there, covers, same) = debit-balance a none amount a' none h in
    (ap (λ q. q.devices) same, ground (arith, there, covers))
debit-out (some asset) amount a a' h =
    let (there, covers, same) = debit-balance a (some asset) amount a' none h in
    (ap (λ q. q.devices) same, ground (arith, there))

pub take_balance-out :
    (held : Option AssetId) (amount : Amount) (a a' : Account)
    → take_balance held amount a ≡ ok a'
    → (a'.devices ≡ a.devices) × (balance a none ≤ balance a' none + van held amount)
unfolding take_balance
take_balance-out held amount a a' h = elim (Option-cases (debit a held amount)) [
  | inl e ↦ ground arith
  | inr (b, e) ↦
      let same : b ≡ a' = ground (arith, e) in debit-out held amount a a' (e ∙ ap some same)
]

credit-in :
    (held : Option AssetId) (amount : Amount) (a a' : Account)
    → credit a held amount ≡ some a'
    → (a'.devices ≡ a.devices) × (balance a none ≤ balance a' none + 0)
credit-in held amount a a' h =
    let (there, fits, same) = credit-balance a held amount a' none h in
    (ap (λ q. q.devices) same, ground (arith, there))

pub credit_entry-Paying :
    (id other : AccountId) (held : Option AssetId) (amount : Amount)
    → Paying id 0 (credit_entry other held amount)
unfolding credit_entry
credit_entry-Paying id other held amount l l' x h =
    elim (Option-cases (credit (entry other l) held amount)) [
      | inl failed ↦ ground arith
      | inr (b', credited) ↦
          let put : l' ≡ put_account other b' l = ground arith in
          subst (λ q. Pays id 0 l q) (sym put)
            (change-Pays id other 0 b' l λ a found.
              let there : entry other l ≡ a = rw (found, entry) refl in
              credit-in held amount a b' (ap (λ c. credit c held amount) (sym there) ∙ credited))
    ]
