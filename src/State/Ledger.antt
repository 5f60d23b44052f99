-- ===== src/State/Ledger.antt =====
-- vanargand-state/src/ledger.rs: the ledger, its errors, and the steps that transactions are made
-- of. The operations on accounts stand in `Change`, those of each kind in `Kinds`, and the
-- application of a transaction in `Apply`; the proofs are in the modules beside them.
pub mod Change
pub mod Kinds
pub mod Apply
pub mod Atomic
pub mod Admission
pub mod Replay
pub mod Outflow
pub mod Supply
use vanargand.Common.{ℕ, Bool, true, false, Option, none, some, Result, ok, err, Done, List, []}
use vanargand.Common.Map.{Map, lookup, insert}
use vanargand.Common.Map.Keys.{nat_key}
use vanargand.Types.Amount.{Amount, FeeSplit}
use vanargand.Types.Nonce.{Lane}
use vanargand.Types.Window.{FinalityRung}
use vanargand.Types.Tx.{AccountId, AssetId, ChainId, DeviceId}
use vanargand.Types.Tx.Grammar.{TxError}
use vanargand.State.Account.{Account, new_account, credit}
use vanargand.State.Asset.{AssetRegistry, AssetError}
use vanargand.State.NameBook.{NameBook, NameError}
use vanargand.State.PurseBook.{PurseBook, PurseBookError}
use vanargand.State.Recovery.{RecoveryBook, RecoveryError}
use vanargand.State.Slashing.{SlashingBook, SlashingError}

pub record BlockContext : Type 0 where
  pub chain : ChainId
  pub height : ℕ
  pub finalized_height : ℕ
  pub rung : FinalityRung
  pub proposer : AccountId

pub record Applied : Type 0 where
  pub fee : FeeSplit
  pub nomad_consumed : Amount

-- The kind that an error names is its discriminant.
pub data StateError : Type 0 where
  wrong_chain : StateError
  unsupported_version : ℕ → StateError
  expired : ℕ → ℕ → StateError
  forbidden_in_provisional : ℕ → StateError
  no_such_account : AccountId → StateError
  no_such_device device_revoked : DeviceId → StateError
  wrong_lane : Lane → Lane → StateError
  bad_nonce : ℕ → ℕ → StateError
  insufficient_balance : Option AssetId → Amount → Amount → StateError
  nomad_credit_exhausted : DeviceId → Amount → Amount → StateError
  nomad_over_allocated : Amount → Amount → StateError
  lane_already_used : Lane → StateError
  device_was_revoked device_already_exists : DeviceId → StateError
  zero_tranche_value : StateError
  bad_evidence : TxError → StateError
  unknown_accused_device : DeviceId → StateError
  not_the_validator : AccountId → StateError
  asset : AssetError → StateError
  purse : PurseBookError → StateError
  name : NameError → StateError
  recovery : RecoveryError → StateError
  slashing : SlashingError → StateError
  overflow : StateError
  not_implemented : ℕ → StateError

pub record Ledger : Type 0 where
  pub accounts : Map AccountId Account
  pub purses : PurseBook
  pub assets : AssetRegistry
  pub names : NameBook
  pub recoveries : RecoveryBook
  pub offences : SlashingBook
  pub burned : Amount
  pub context_pot : Amount
  pub fees_collected : Amount

-- A method on `&mut self`: an error comes back with what was written before it.
abbrev pub Action : Type 0 → Type 0
Action A = Ledger → Result StateError A × Ledger

infixl 5 ◌>>=◌ ◌>>◌
abbrev pub ◌>>=◌ : {A B : Type 0} → Action A → (A → Action B) → Action B
◌>>=◌ m f l = let (r, l') = m l in elim r [ ok a ↦ f a l' | err e ↦ (err e, l') ]

abbrev pub ◌>>◌ : {A B : Type 0} → Action A → Action B → Action B
m >> k = m >>= λ _. k

module _ {A : Type 0} where
  abbrev pub pure : A → Action A
  pure a l = (ok a, l)

  abbrev pub fail : StateError → Action A
  fail e l = (err e, l)

  abbrev pub gets : (Ledger → A) → Action A
  gets f l = (ok (f l), l)

  -- A `Result` that a step without writes gives, behind `?`.
  abbrev pub lift : Result StateError A → Action A
  lift r l = (r, l)

  -- A `Result` of a part of the ledger, with the part as it then stands.
  abbrev pub lift_with : {B : Type 0} → (A → Ledger → Ledger) → Result StateError (B × A) → Action B
  lift_with put (ok (b, a)) l = (ok b, put a l)
  lift_with put (err e) l = (err e, l)

  abbrev pub lift_put : (A → Ledger → Ledger) → Result StateError A → Action Done
  lift_put put (ok a) l = (ok tt, put a l)
  lift_put put (err e) l = (err e, l)

abbrev pub modify : (Ledger → Ledger) → Action Done
modify f l = (ok tt, f l)

-- `self.accounts.get(&id).ok_or(NoSuchAccount(id))?`
unfoldable pub get_account : AccountId → Action Account
get_account id l = elim (lookup id l.accounts) [
  | none ↦ (err (no_such_account id), l)
  | some a ↦ (ok a, l)
]

-- `put_account`
abbrev pub put_account : AccountId → Account → Ledger → Ledger
put_account id a l = record l { accounts = insert id a l.accounts }

abbrev pub put_purses : PurseBook → Ledger → Ledger
put_purses b l = record l { purses = b }

abbrev pub put_assets : AssetRegistry → Ledger → Ledger
put_assets r l = record l { assets = r }

abbrev pub put_names : NameBook → Ledger → Ledger
put_names b l = record l { names = b }

abbrev pub put_recoveries : RecoveryBook → Ledger → Ledger
put_recoveries b l = record l { recoveries = b }

abbrev pub put_offences : SlashingBook → Ledger → Ledger
put_offences b l = record l { offences = b }

-- `get_mut(&id)` and a change of the account. What a failing change had written is not kept: every
-- caller fails with it, and `apply` then drops the working copy.
unfoldable pub update_account : AccountId → (Account → Result StateError Account) → Action Done
update_account id f l = elim (lookup id l.accounts) [
  | none ↦ (err (no_such_account id), l)
  | some a ↦ elim (f a) [ err e ↦ (err e, l) | ok a' ↦ (ok tt, put_account id a' l) ]
]

-- `self.accounts.entry(id).or_default()`
abbrev pub entry : AccountId → Ledger → Account
entry id l = elim (lookup id l.accounts) [ none ↦ new_account | some a ↦ a ]

-- `entry(id).or_default().credit(asset, amount).ok_or(Overflow)?`: the default account is there
-- even if the credit overflows.
unfoldable pub credit_entry : AccountId → Option AssetId → Amount → Action Done
credit_entry id held amount l = elim (credit (entry id l) held amount) [
  | none ↦ (err overflow, put_account id (entry id l) l)
  | some a ↦ (ok tt, put_account id a l)
]
