-- ===== src/State/Slashing.antt =====
-- vanargand-state/src/slashing.rs: punishing equivocation.
use vanargand.Common.{
  ℕ, ◌+◌, ◌≤◌, ◌≡◌, ◌≢◌, ◌↔◌, Bool, true, false, Option, some, ltb, ◌==◌, ◌&&◌, ◌||◌, if◌then◌else◌,
  Result, ok, err, unwrap_or, arith,
}
use vanargand.Common.Map.{Key, Set, contains, insert}
use vanargand.Common.Map.Laws.{lookup-insert_self, lookup-insert_ne}
use vanargand.Types.Amount.{Amount, IsU64, mul_div_floor, checked_add, checked_sub, is_zero}
use vanargand.Types.Nonce.{Lane}
use vanargand.Types.Tx.{AccountId, DeviceId}

pub record AccountOffence : Type 0 where
  pub account : AccountId
  pub device : DeviceId
  pub lane : Lane
  pub sequence : ℕ

pub record ValidatorOffence : Type 0 where
  pub validator : AccountId
  pub height : ℕ

abbrev account_offence_less : AccountOffence → AccountOffence → Bool
account_offence_less o p =
    ltb o.account p.account
    || ((o.account == p.account)
        && (ltb o.device p.device
            || ((o.device == p.device)
                && (ltb o.lane p.lane || ((o.lane == p.lane) && ltb o.sequence p.sequence)))))

abbrev account_offence_same : AccountOffence → AccountOffence → Bool
account_offence_same o p =
    (o.account == p.account)
    && (o.device == p.device)
    && (o.lane == p.lane)
    && (o.sequence == p.sequence)

pub account_offence_same_iff : (o p : AccountOffence) → (account_offence_same o p ≡ true) ↔ (o ≡ p)
account_offence_same_iff o p = ground arith

instance abbrev pub account_offence_key : Key AccountOffence
account_offence_key = record {
  less = account_offence_less;
  same = account_offence_same;
  same_iff = account_offence_same_iff;
}

abbrev validator_offence_less : ValidatorOffence → ValidatorOffence → Bool
validator_offence_less o p =
    ltb o.validator p.validator || ((o.validator == p.validator) && ltb o.height p.height)

abbrev validator_offence_same : ValidatorOffence → ValidatorOffence → Bool
validator_offence_same o p = (o.validator == p.validator) && (o.height == p.height)

pub validator_offence_same_iff :
    (o p : ValidatorOffence) → (validator_offence_same o p ≡ true) ↔ (o ≡ p)
validator_offence_same_iff o p = ground arith

instance abbrev pub validator_offence_key : Key ValidatorOffence
validator_offence_key = record {
  less = validator_offence_less;
  same = validator_offence_same;
  same_iff = validator_offence_same_iff;
}

pub record Penalty : Type 0 where
  pub seized : Amount
  pub to_denouncer : Amount
  pub burned : Amount

-- `Penalty::split`
unfoldable pub split : Amount → Penalty
unfolding mul_div_floor
split seized =
    let to_denouncer = unwrap_or (mul_div_floor seized 1 2) 0 in
    record {
      seized = seized;
      to_denouncer = to_denouncer;
      burned = unwrap_or (checked_sub seized to_denouncer) 0;
    }

unfoldable pub penalty_total : Penalty → Option Amount
penalty_total p = checked_add p.to_denouncer p.burned

unfoldable pub is_empty : Penalty → Bool
is_empty p = is_zero p.seized

pub data SlashingError : Type 0 where
  already_punished : SlashingError

pub record SlashingBook : Type 0 where
  pub accounts : Set AccountOffence
  pub validators : Set ValidatorOffence

-- A refused offence leaves the book as it was.
unfoldable pub record_account : SlashingBook → AccountOffence → Result SlashingError SlashingBook
record_account book offence =
    if contains offence book.accounts
    then err already_punished
    else ok (record book { accounts = insert offence tt book.accounts })

unfoldable pub record_validator :
    SlashingBook → ValidatorOffence → Result SlashingError SlashingBook
record_validator book offence =
    if contains offence book.validators
    then err already_punished
    else ok (record book { validators = insert offence tt book.validators })

-- Every 64-bit seizure is divided without loss, and the fire takes the larger half.
pub split_exact :
    (seized : Amount)
    → IsU64 seized
    → (penalty_total (split seized) ≡ some seized)
      × ((split seized).to_denouncer ≤ (split seized).burned)
      × ((split seized).burned ≤ (split seized).to_denouncer + 1)
unfolding split penalty_total
split_exact seized fits = ground arith

-- An offence is punished at most once: after it was recorded the same offence is refused, and any
-- other one is known exactly as before.
pub record_account_once :
    (book book' : SlashingBook) (offence other : AccountOffence)
    → record_account book offence ≡ ok book'
    → (record_account book' offence ≡ err already_punished)
      × (other ≢ offence → contains other book'.accounts ≡ contains other book.accounts)
      × (contains offence book.accounts ≡ false)
      × (book'.validators ≡ book.validators)
unfolding record_account
record_account_once book book' offence other h = ground (
  arith,
  lookup-insert_self offence tt book.accounts,
  lookup-insert_ne offence other tt book.accounts,
)
