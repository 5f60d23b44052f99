-- ===== src/Tests/Ledger.antt =====
-- A transfer of 300 with a fee of 100 in a provisional block, run through vanargand-state/src/
-- ledger.rs, and a conviction.
use vanargand.Common.{
  ◌+◌, ◌≤◌, ◌≡◌, refl, ap, false, none, some, ok, err, arith, [], ◌∷◌, ◌==◌, ℕ, ◌⊎◌,
}
use vanargand.Common.Map.{lookup, contains, insert, remove, place, replace}
use vanargand.Common.Map.Keys.{nat_key}
use vanargand.Types.Amount.{fee_split_of, mul_div_floor, checked_sum, sum_from}
use vanargand.Types.Nonce.{accepts, consume, next_sequence, collides_with}
use vanargand.Types.Window.{FinalityRung}
use vanargand.Types.Tx.{Crypto, Hash, TxBody, transfer, AccountEquivocation}
use vanargand.Types.Tx.Grammar.{
  tx_version, allowed_in_provisional, discriminant, is_evidence, IsOffline,
}
use vanargand.State.Account.{
  Account, Device, new_account, balance, credit, debit, nomad_remaining, allocated_nomad, shares,
}
use vanargand.State.Asset.{new_registry}
use vanargand.State.NameBook.{new_name_book}
use vanargand.State.PurseBook.{new_purse_book}
use vanargand.State.Recovery.{new_recovery_book}
use vanargand.State.Ledger.{
  BlockContext, Applied, Ledger, StateError, update_account, credit_entry, get_account,
}
use vanargand.State.Ledger.Change.{
  take_balance, consume_nonce, spend_nomad, set_nomad, clear_margin,
}
use vanargand.State.Ledger.Kinds
use vanargand.State.Ledger.Kinds.Dispatch.{apply_kind}
use vanargand.State.Ledger.Apply.{
  is_past, check_envelope, check_authority, extra_outflow, native_outflow, check_nomad,
  nomad_consumption, check_all, add_to_pot, add_to_fees, share_fee, charge_fee, close_tx, execute,
  apply_in_place, apply,
}
use vanargand.State.Ledger.Replay.{apply_once}
use vanargand.State.Ledger.Admission.{apply-admitted}
use vanargand.State.Ledger.Outflow.Offline.{apply-IsOffline}
use vanargand.State.Ledger.Supply.{IsFiled, supply}
use vanargand.State.Slashing.{record_account, split, is_empty}
use vanargand.Types.Tx.Checks.{check_account_equivocation, verify_allowing_test_algorithms}
use vanargand.State.Ledger.Supply.Margin.{declared_margin_mints}
use vanargand.State.Ledger.Supply.Apply.{apply-supply}

abbrev pub next_link : Hash → Hash
next_link n = n + 1

-- Digests that need no hashing: enough to run the program on.
abbrev pub crypto : Crypto
crypto = record {
  payword_link = next_link;
  device_id_of = λ key. key.algorithm;
  tx_id = λ body. body.fee + 100;
  tx_signing_digest = λ body. body.fee;
  block_id = λ header. header.height;
  block_signing_digest = λ header. header.height;
  asset_id_of = λ account id. account + id;
  name_commitment = λ name salt account. salt + account;
  verify_signature = λ key digest signature. digest == signature.algorithm;
}

abbrev pub phone : Device
phone = record {
  key = record { algorithm = 11; bytes = [] };
  lane = 0;
  nomad_share = 500;
  nomad_spent = 0;
}

abbrev pub alice : Account
alice = record new_account {
  balances = (none, 1000) ∷ [];
  devices = (11, phone) ∷ [];
  nomad_credit = 500;
  next_lane = 1;
}

abbrev pub ledger : Ledger
ledger = record {
  accounts = (1, alice) ∷ [];
  purses = new_purse_book;
  assets = new_registry;
  names = new_name_book;
  recoveries = new_recovery_book;
  offences = record { accounts = []; validators = [] };
  burned = 0;
  context_pot = 0;
  fees_collected = 0;
}

abbrev pub partition : BlockContext
partition = record {
  chain = 7;
  height = 40;
  finalized_height = 30;
  rung = FinalityRung.provisional;
  proposer = 3;
}

abbrev pub payment : TxBody
payment = record {
  version = 1;
  chain = 7;
  account = 1;
  device = 11;
  nonce = record { lane = 0; sequence = 0 };
  fee = 100;
  valid_until_finalized = some 50;
  kind = transfer 2 none 300;
}

abbrev pub paid : Applied
paid = record { fee = record { provider = 70; pot = 20; burn = 10 }; nomad_consumed = 400 }

abbrev pub after : Ledger
after = record ledger {
  accounts =
      (
        1,
        record alice {
          balances = (none, 600) ∷ [];
          devices = (11, record phone { nomad_spent = 400 }) ∷ [];
          lanes = record { next = (0, 1) ∷ [] };
        },
      )
      ∷ (2, record new_account { balances = (none, 300) ∷ [] })
      ∷ (3, record new_account { balances = (none, 70) ∷ [] })
      ∷ [];
  burned = 10;
  context_pot = 20;
  fees_collected = 100;
}

payment_applied : apply crypto partition payment ledger ≡ (ok paid, after)
unfolding apply apply_in_place check_all check_envelope check_authority native_outflow extra_outflow
    nomad_consumption check_nomad nomad_remaining execute charge_fee share_fee Kinds.burn add_to_pot
    add_to_fees credit_entry update_account take_balance debit credit balance lookup insert remove
    place replace apply_kind Kinds.transfer close_tx consume_nonce spend_nomad consume accepts
    next_sequence fee_split_of mul_div_floor allowed_in_provisional is_past
payment_applied = refl

apply-supply_example : IsFiled after × (supply after ≡ supply ledger)
unfolding discriminant
apply-supply_example =
    apply-supply crypto partition payment ledger after paid tt (omega arith) (ground arith)
      payment_applied

apply_once_example : (e : StateError) × (apply crypto partition payment after ≡ (err e, after))
unfolding collides_with
apply_once_example =
    apply_once crypto partition partition payment payment ledger after paid payment_applied refl
      refl

apply-IsOffline_example :
    IsOffline payment.kind
    × (paid.nomad_consumed ≡ payment.fee + extra_outflow payment.kind)
    × ((paid.nomad_consumed ≡ 0) ⊎ (phone.nomad_spent + paid.nomad_consumed ≤ phone.nomad_share))
    × (a' : Account) × (d' : Device) × (lookup payment.account after.accounts ≡ some a')
    × (lookup payment.device a'.devices ≡ some d')
    × (balance alice none ≤ balance a' none + paid.nomad_consumed)
    × (d'.nomad_spent ≡ phone.nomad_spent + paid.nomad_consumed)
    × (d'.nomad_share ≡ phone.nomad_share)
unfolding lookup
apply-IsOffline_example =
    apply-IsOffline crypto partition payment ledger after paid alice phone payment_applied refl refl
      refl

apply-admitted_example :
    (payment.version ≡ tx_version)
    × (payment.chain ≡ partition.chain)
    × ((payment.valid_until_finalized ≡ none)
        ⊎ ((until : ℕ) × (payment.valid_until_finalized ≡ some until)
            × (partition.finalized_height ≤ until)))
    × (paid.fee ≡ fee_split_of payment.fee)
    × (a : Account) × (d : Device) × (lookup payment.account ledger.accounts ≡ some a)
    × (contains payment.device a.revoked_devices ≡ false)
    × (lookup payment.device a.devices ≡ some d)
    × (d.lane ≡ payment.nonce.lane)
    × (payment.nonce.sequence ≡ next_sequence a.lanes payment.nonce.lane)
apply-admitted_example = apply-admitted crypto partition payment ledger after paid payment_applied

-- Two payments of alice in one slot, and a margin of 40 that she only declares.
abbrev evidence : AccountEquivocation
evidence = record {
  device = 11;
  first = record { body = payment; signature = record { algorithm = 100; bytes = [] } };
  second = record {
    body = record payment { fee = 90 };
    signature = record { algorithm = 90; bytes = [] };
  };
}

abbrev declared : Ledger
declared = record ledger { accounts = (1, record alice { nomad_margin = 40 }) ∷ [] }

declares : Kinds.nomad_set 1 alice.nomad_credit 40 ledger ≡ (ok tt, declared)
unfolding Kinds.nomad_set update_account set_nomad allocated_nomad shares checked_sum sum_from
    lookup insert replace
declares = refl

abbrev convicted : Ledger
convicted = (Kinds.punish_account_equivocation crypto evidence 2 declared).1

convicts : (Kinds.punish_account_equivocation crypto evidence 2 declared).0 ≡ ok tt
unfolding Kinds.punish_account_equivocation Kinds.convict_account Kinds.check_accused
    Kinds.seize_margin Kinds.pay_penalty Kinds.burn get_account lookup update_account clear_margin
    credit_entry credit balance place insert check_account_equivocation
    verify_allowing_test_algorithms collides_with is_evidence record_account split is_empty
    mul_div_floor replace
convicts = refl

declared_margin_mints_example :
    (supply declared ≡ supply ledger) × (supply convicted ≡ supply ledger + 40)
declared_margin_mints_example =
    declared_margin_mints crypto evidence 2 alice.nomad_credit 40 ledger declared convicted tt
      declares (ap (λ r. (r, convicted)) convicts)
