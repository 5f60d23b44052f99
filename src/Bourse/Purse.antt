-- ===== src/Bourse/Purse.antt =====
-- vanargand-bourse/src/purse.rs: the on-chain half of a channel, and how it closes.
pub mod Closing
pub mod Fraud
use vanargand.Common.{
  ℕ, ◌*◌, ◌-◌, ◌+◌, Bool, true, false, Option, none, some, ltb, leb, ◌==◌, ◌||◌, if◌then◌else◌,
  Result, ok, err, Done, ok_or, map_err, and_then, not, is_some, min,
}
use vanargand.Types.Amount.{Amount, checked_add, checked_sub, saturating_add}
use vanargand.Types.Tx.{Hash, AccountId, AssetId, TxId}
use vanargand.Types.Window.{ContestationWindow, has_elapsed, epoch_blocks}
use vanargand.Bourse.Payword.{
  PayWordToken, PayWordError, bad_token, index_mismatch, value_of, verify_against_root,
}

abbrev pub PurseId : Type 0
PurseId = TxId

abbrev pub dispute_window_finalized_blocks : ℕ
dispute_window_finalized_blocks = 24 * epoch_blocks

pub record PendingClosure : Type 0 where
  pub claimant : AccountId
  pub claimed_tranches : ℕ
  pub window : ContestationWindow
  pub disputed : Bool

pub record Settlement : Type 0 where
  pub to_payer : Amount
  pub to_payee : Amount

pub data PurseError : Type 0 where
  not_a_party : AccountId → PurseError
  self_channel already_closing not_closing : PurseError
  window_open : ℕ → ℕ → PurseError
  not_an_improvement : ℕ → ℕ → PurseError
  pay_word : PayWordError → PurseError
  beyond_capacity : ℕ → ℕ → PurseError
  unbalanced_settlement : Amount → Amount → PurseError
  overflow : PurseError

pub record Purse : Type 0 where
  pub payer : AccountId
  pub payee : AccountId
  pub asset : Option AssetId
  pub deposit : Amount
  pub payword_root : Hash
  pub tranche_value : Amount
  pub capacity : ℕ
  pub expiry_finalized_height : ℕ
  pub closing : Option PendingClosure

-- `Settlement::total`
unfoldable pub settlement_total : Settlement → Option Amount
settlement_total s = checked_add s.to_payer s.to_payee

-- `Purse::open`
unfoldable pub open_purse :
    AccountId
    → AccountId
    → Option AssetId
    → Amount
    → Hash
    → Amount
    → ℕ
    → ℕ
    → Result PurseError Purse
open_purse payer payee asset deposit payword_root tranche_value capacity expiry =
    if payer == payee
    then err self_channel
    else ok (record {
      payer = payer;
      payee = payee;
      asset = asset;
      deposit = deposit;
      payword_root = payword_root;
      tranche_value = tranche_value;
      capacity = capacity;
      expiry_finalized_height = expiry;
      closing = none;
    })

unfoldable pub is_party : Purse → AccountId → Bool
is_party p account = (account == p.payer) || (account == p.payee)

unfoldable pub is_expired : Purse → ℕ → Bool
is_expired p finalized_height = leb p.expiry_finalized_height finalized_height

-- The value of the tranches, capped at the deposit.
unfoldable pub owed_for : Purse → ℕ → Result PurseError Amount
unfolding value_of
owed_for p tranches =
    and_then (map_err pay_word (value_of tranches p.tranche_value)) λ raw. ok (min raw p.deposit)

unfoldable pub settle_cooperative : Purse → Amount → Amount → Result PurseError Settlement
settle_cooperative p to_payer to_payee =
    and_then (ok_or (checked_add to_payer to_payee) overflow) λ total.
      if not (total == p.deposit)
      then err (unbalanced_settlement total p.deposit)
      else ok (record { to_payer = to_payer; to_payee = to_payee })

unfoldable pub settle : Purse → ℕ → Result PurseError Settlement
unfolding owed_for
settle p current_finalized_height = elim p.closing [
  | none ↦ err not_closing
  | some pending ↦
      if not (has_elapsed pending.window current_finalized_height)
      then err (
          window_open current_finalized_height
            (saturating_add pending.window.opened_at_finalized pending.window.duration))
      else if pending.disputed
      then ok (record { to_payer = 0; to_payee = p.deposit })
      else and_then (owed_for p pending.claimed_tranches) λ to_payee.
        and_then (ok_or (checked_sub p.deposit to_payee) overflow)
          λ to_payer. ok (record { to_payer = to_payer; to_payee = to_payee })
]

module _ (link : Hash → Hash) where
  unfoldable pub check_claim : Purse → ℕ → Option PayWordToken → Result PurseError Done
  check_claim p tranches token = if tranches == 0 then ok tt else elim token [
    | none ↦ err (pay_word (bad_token tranches))
    | some t ↦
        if not (t.index == tranches)
        then err (pay_word (index_mismatch tranches t.index))
        else map_err pay_word (verify_against_root link p.payword_root t)
  ]

  unfoldable pub begin_unilateral :
      Purse → AccountId → ℕ → Option PayWordToken → ContestationWindow → Result PurseError Purse
  begin_unilateral p claimant claimed_tranches token window =
      if not (is_party p claimant)
      then err (not_a_party claimant)
      else if is_some p.closing
      then err already_closing
      else if ltb p.capacity claimed_tranches
      then err (beyond_capacity claimed_tranches p.capacity)
      else and_then (check_claim p claimed_tranches token) λ _. ok (record p {
        closing = some (record {
          claimant = claimant;
          claimed_tranches = claimed_tranches;
          window = window;
          disputed = false;
        });
      })

  unfoldable pub dispute : Purse → ℕ → PayWordToken → Result PurseError Purse
  dispute p disputed_tranches token = elim p.closing [
    | none ↦ err not_closing
    | some pending ↦
        if leb disputed_tranches pending.claimed_tranches
        then err (not_an_improvement pending.claimed_tranches disputed_tranches)
        else if ltb p.capacity disputed_tranches
        then err (beyond_capacity disputed_tranches p.capacity)
        else and_then (check_claim p disputed_tranches (some token)) λ _. ok (record p {
          closing = some (record pending { claimed_tranches = disputed_tranches; disputed = true });
        })
  ]
