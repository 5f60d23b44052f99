-- ===== src/Tests/Node.antt =====
-- A block of one payment in a partition, as it is built and as it is accepted, and two blocks of one
-- height that are both finalised.
use vanargand.Common.{
  ℕ, ◌-◌, ◌%◌, ◌≤◌, ◌≡◌, refl, true, false, Option, none, some, ok, arith, List, [], ◌∷◌, min, map,
}
use vanargand.Common.Lists.{All}
use vanargand.Common.Map.{lookup, insert, place, remove, replace}
use vanargand.Common.Map.Keys.{nat_key}
use vanargand.Types.Amount.{saturating_add, max_supply}
use vanargand.Types.Window.{FinalityRung, epoch_blocks}
use vanargand.Types.Tx.{AccountId, BlockHeader, Signature, Hash, Transaction}
use vanargand.Types.Tx.Grammar.{IsOffline, discriminant}
use vanargand.State.Ledger.{Ledger, bad_nonce}
use vanargand.State.Ledger.Supply.{supply, IsFiled}
use vanargand.Consensus.Emission.{epoch_of_height}
use vanargand.Consensus.Emission.Schedule.{emitted_through}
use vanargand.Consensus.Validator.{ValidatorSet, security_budget}
use vanargand.Consensus.Committee.{is_active_at, active_weight_at, draw}
use vanargand.Consensus.Certificate.{verify_certificate, finalises}
use vanargand.Consensus.Certificate.Intersection.{HasSigned}
use vanargand.Node.Block.{NodeCrypto, Block, body_of, computed_tx_root}
use vanargand.Node.Validate.{
  ChainParameters, AppliedBlock, validate_and_apply, apply_transactions, context_of,
}
use vanargand.Node.Validate.Safety.{validate_and_apply-accepted, validate_and_apply-finality}
use vanargand.Node.Validate.Body.{apply_transactions-supply, validate_and_apply-IsOffline}
use vanargand.Node.Propose.{ProposalInputs, Proposal, build, rejected}
use vanargand.Node.Propose.Accepted.{build-validate_and_apply}
use vanargand.Types.Amount.{fee_split_of, mul_div_floor}
use vanargand.Types.Merkle.{list_root, top, fold_all}
use vanargand.Types.Nonce.{accepts, consume, next_sequence}
use vanargand.Types.Window.{claimable_by_a_header}
use vanargand.Types.Tx.Grammar.{allowed_in_provisional}
use vanargand.State.Account.{new_account, balance, credit, debit, nomad_remaining}
use vanargand.State.NameBook.{prune_expired}
use vanargand.State.PurseBook.{settle_elapsed, ready, drop_paid}
use vanargand.State.Ledger.{credit_entry, update_account}
use vanargand.State.Ledger.Change.{take_balance, consume_nonce, spend_nomad}
use vanargand.State.Ledger.Kinds
use vanargand.State.Ledger.Kinds.Dispatch.{apply_kind}
use vanargand.State.Ledger.Supply.{fee_emission_ratio}
use vanargand.State.Ledger.Apply.{
  apply, apply_in_place, check_all, check_envelope, check_authority, native_outflow, extra_outflow,
  nomad_consumption, check_nomad, add_to_pot, add_to_fees, execute, charge_fee, share_fee, close_tx,
  is_past, settle_elapsed_purses, credit_payouts, prune_expired_commitments,
}
use vanargand.Consensus.Emission.{
  check_counter, permitted_through, complete_periods, period_of, period_emission, shift_right,
}
use vanargand.Consensus.Validator.{get_validator}
use vanargand.Node.Validate.{verify_transaction}
use vanargand.Node.Propose.{screen}
use vanargand.Types.Tx.Grammar.{check_provisional_grammar}
use vanargand.Types.Tx.Checks.{check_header, verify_header, valid_on_live_chain}
use vanargand.Crypto.Chain.{advance, walk, moved}
use vanargand.Tests.Ledger.{crypto, payment, ledger, alice, phone}
use vanargand.Tests.Consensus.{
  bonded, four, four-IsValidatorSet, vote_for, pair_committee, twice, pairing, digests, seed,
}

abbrev node : NodeCrypto
node = record {
  crypto = record crypto {
    block_id = λ header. header.archive_commitment;
    block_signing_digest = λ header. header.archive_commitment;
  };
  leaf_hash = twice;
  node_hash = pairing;
  commitment_link = λ x. x - 1;
  state_root_of = λ l. l.burned;
}

abbrev params : ChainParameters
params = record { chain = 7; allow_test_algorithms = false }

abbrev tip : BlockHeader
tip = record {
  version = 1;
  chain = 7;
  height = 39;
  parent = 8;
  rung = FinalityRung.provisional;
  finalized_height = 30;
  state_root = 0;
  tx_root = 0;
  proposer = 1;
  randomness_reveal = 0;
  archive_commitment = 39;
  emitted_supply = 5;
  security_budget = 0;
  fee_emission_ratio = record { numerator = 0; denominator = 5 };
}

abbrev two : ValidatorSet
two = (1, bonded 1) ∷ (2, bonded 2) ∷ []

abbrev inputs : ProposalInputs
inputs = record {
  parent = tip;
  proposer = 1;
  randomness_reveal = 1;
  rung = FinalityRung.provisional;
  finalized_height = 30;
  archive_commitment = 40;
  emitted_supply = 5;
}

abbrev signed_payment : Transaction
signed_payment = record { body = payment; signature = record { algorithm = 100; bytes = [] } }

abbrev sign : Hash → Option Signature
sign digest = some (record { algorithm = digest; bytes = [] })

abbrev block_40 : Block
block_40 = record {
  header = record {
    header = record {
      version = 1;
      chain = 7;
      height = 40;
      parent = 39;
      rung = FinalityRung.provisional;
      finalized_height = 30;
      state_root = 10;
      tx_root = 401;
      proposer = 1;
      randomness_reveal = 1;
      archive_commitment = 40;
      emitted_supply = 5;
      security_budget = 66;
      fee_emission_ratio = record { numerator = 100; denominator = 5 };
    };
    signature = record { algorithm = 40; bytes = [] };
  };
  transactions = signed_payment ∷ [];
  certificate = none;
}

-- The second candidate is the first one again.
abbrev proposal : Proposal
proposal = record {
  block = block_40;
  declined = record { index = 1; reason = rejected (bad_nonce 1 0) } ∷ [];
}

built :
    build node params sign inputs (signed_payment ∷ signed_payment ∷ []) ledger two pair_committee
    ≡ ok proposal
unfolding build claimable_by_a_header is_active_at get_validator check_counter permitted_through
    complete_periods period_of epoch_of_height period_emission shift_right settle_elapsed_purses
    credit_payouts settle_elapsed ready prune_expired_commitments prune_expired fee_emission_ratio
    apply apply_in_place check_all check_envelope check_authority native_outflow extra_outflow
    nomad_consumption check_nomad nomad_remaining execute charge_fee share_fee Kinds.burn add_to_pot
    add_to_fees credit_entry update_account take_balance debit credit balance lookup insert remove
    place replace apply_kind Kinds.transfer close_tx consume_nonce spend_nomad consume accepts
    next_sequence fee_split_of mul_div_floor is_past allowed_in_provisional screen
    verify_transaction security_budget computed_tx_root list_root top fold_all
built = refl

build-validate_and_apply_example :
    (applied : AppliedBlock) × (after : Ledger) × (updated : ValidatorSet) × (validate_and_apply
        node params block_40 tip
        (ledger, two)
        pair_committee
      ≡ (ok applied, after, updated))
unfolding get_validator lookup security_budget advance valid_on_live_chain walk moved
build-validate_and_apply_example =
    build-validate_and_apply node params sign inputs (signed_payment ∷ signed_payment ∷ []) ledger
      two pair_committee proposal (bonded 1)
      (1, record { committed = 1; consumed = 1; max_steps = 720 }) 66 built refl refl
      (λ digest s h. ground arith) refl refl (ground arith) (omega arith)

abbrev after_40 : Ledger
after_40 = record ledger {
  accounts =
      (
        1,
        record alice {
          balances = (none, 670) ∷ [];
          devices = (11, record phone { nomad_spent = 400 }) ∷ [];
          lanes = record { next = (0, 1) ∷ [] };
        },
      )
      ∷ (2, record new_account { balances = (none, 300) ∷ [] })
      ∷ [];
  burned = 10;
  context_pot = 20;
  fees_collected = 100;
}

abbrev two_after : ValidatorSet
two_after = (1, record (bonded 1) { last_reveal = 1 }) ∷ (2, bonded 2) ∷ []

abbrev applied_40 : AppliedBlock
applied_40 = record {
  block = 40;
  claimed_rung = FinalityRung.provisional;
  reached_rung = FinalityRung.provisional;
  signed_weight = 0;
  settlements = [];
  pruned_commitments = 0;
}

accepted_40 :
    validate_and_apply node params block_40 tip (ledger, two) pair_committee
    ≡ (ok applied_40, after_40, two_after)
unfolding validate_and_apply check_header verify_header valid_on_live_chain advance walk
    check_provisional_grammar claimable_by_a_header is_active_at get_validator check_counter
    permitted_through complete_periods period_of epoch_of_height period_emission shift_right
    settle_elapsed_purses credit_payouts settle_elapsed ready prune_expired_commitments
    prune_expired fee_emission_ratio apply apply_in_place check_all check_envelope check_authority
    native_outflow extra_outflow nomad_consumption check_nomad nomad_remaining execute charge_fee
    share_fee Kinds.burn add_to_pot add_to_fees credit_entry update_account take_balance debit
    credit balance lookup insert remove place replace apply_kind Kinds.transfer close_tx
    consume_nonce spend_nomad consume accepts next_sequence fee_split_of mul_div_floor is_past
    allowed_in_provisional verify_transaction security_budget computed_tx_root list_root top
    fold_all drop_paid
accepted_40 = refl

validate_and_apply-accepted_example :
    let header = block_40.header.header in
    (header.chain ≡ params.chain)
    × (header.height ≡ saturating_add tip.height 1)
    × (header.parent ≡ node.crypto.block_id tip)
    × (is_active_at pair_committee header.proposer (header.height % epoch_blocks) ≡ true)
    × (tip.finalized_height ≤ header.finalized_height)
    × (header.finalized_height ≤ header.height)
    × (tip.emitted_supply ≤ header.emitted_supply)
    × (header.emitted_supply ≤ min (emitted_through (epoch_of_height header.height)) max_supply)
    × (header.tx_root ≡ computed_tx_root node block_40.transactions)
    × (header.state_root ≡ node.state_root_of after_40)
    × (security_budget two ≡ some header.security_budget)
validate_and_apply-accepted_example =
    validate_and_apply-accepted node params block_40 tip ledger after_40 two two_after
      pair_committee applied_40 accepted_40

validate_and_apply-IsOffline_example :
    All (λ b. IsOffline b.kind) (map body_of block_40.transactions)
    × (block_40.certificate ≡ none)
    × (applied_40.reached_rung ≡ FinalityRung.provisional)
validate_and_apply-IsOffline_example =
    validate_and_apply-IsOffline node params block_40 tip ledger after_40 two two_after
      pair_committee applied_40 accepted_40 refl

payments_applied :
    apply_transactions node params
      (context_of node params block_40.header.header)
      0
      (signed_payment ∷ [])
      ledger
    ≡ ok after_40
unfolding apply_transactions context_of apply apply_in_place check_all check_envelope
    check_authority native_outflow extra_outflow nomad_consumption check_nomad nomad_remaining
    execute charge_fee share_fee Kinds.burn add_to_pot add_to_fees credit_entry update_account
    take_balance debit credit balance lookup insert remove place replace apply_kind Kinds.transfer
    close_tx consume_nonce spend_nomad consume accepts next_sequence fee_split_of mul_div_floor
    is_past allowed_in_provisional verify_transaction
payments_applied = refl

apply_transactions-supply_example : IsFiled after_40 × (supply after_40 ≡ supply ledger)
unfolding discriminant
apply_transactions-supply_example =
    apply_transactions-supply node params (context_of node params block_40.header.header) 0
      (signed_payment ∷ []) ledger after_40 tt ((omega arith, ground arith), tt) payments_applied

abbrev final_header : ℕ → BlockHeader
final_header mark = record {
  version = 1;
  chain = 7;
  height = 40;
  parent = 39;
  rung = FinalityRung.chain;
  finalized_height = 40;
  state_root = 0;
  tx_root = 0;
  proposer = 1;
  randomness_reveal = 1;
  archive_commitment = mark;
  emitted_supply = 5;
  security_budget = 133;
  fee_emission_ratio = record { numerator = 0; denominator = 5 };
}

abbrev final_block : ℕ → List AccountId → Block
final_block mark voters = record {
  header = record {
    header = final_header mark;
    signature = record { algorithm = mark; bytes = [] };
  };
  transactions = [];
  certificate = some (record { block = mark; votes = map (vote_for mark) voters });
}

abbrev one_final : Block
one_final = final_block 30 (1 ∷ 2 ∷ 3 ∷ [])

abbrev other_final : Block
other_final = final_block 41 (2 ∷ 3 ∷ 4 ∷ [])

abbrev four_after : ValidatorSet
four_after =
    (1, record (bonded 1) { last_reveal = 1 }) ∷ (2, bonded 2) ∷ (3, bonded 3) ∷ (4, bonded 4) ∷ []

abbrev applied_final : ℕ → AppliedBlock
applied_final mark = record {
  block = mark;
  claimed_rung = FinalityRung.chain;
  reached_rung = FinalityRung.chain;
  signed_weight = 300;
  settlements = [];
  pruned_commitments = 0;
}

one_accepted :
    validate_and_apply node params one_final tip (ledger, four) (draw digests seed four)
    ≡ (ok (applied_final 30), ledger, four_after)
unfolding validate_and_apply check_header verify_header valid_on_live_chain advance walk draw
    verify_certificate finalises active_weight_at check_provisional_grammar claimable_by_a_header
    is_active_at get_validator check_counter permitted_through complete_periods period_of
    epoch_of_height period_emission shift_right settle_elapsed_purses credit_payouts settle_elapsed
    ready prune_expired_commitments prune_expired fee_emission_ratio apply apply_in_place check_all
    check_envelope check_authority native_outflow extra_outflow nomad_consumption check_nomad
    nomad_remaining execute charge_fee share_fee Kinds.burn add_to_pot add_to_fees credit_entry
    update_account take_balance debit credit balance lookup insert remove place replace apply_kind
    Kinds.transfer close_tx consume_nonce spend_nomad consume accepts next_sequence fee_split_of
    mul_div_floor is_past allowed_in_provisional verify_transaction security_budget computed_tx_root
    list_root top fold_all drop_paid
one_accepted = refl

other_accepted :
    validate_and_apply node params other_final tip (ledger, four) (draw digests seed four)
    ≡ (ok (applied_final 41), ledger, four_after)
unfolding validate_and_apply check_header verify_header valid_on_live_chain advance walk draw
    verify_certificate finalises active_weight_at check_provisional_grammar claimable_by_a_header
    is_active_at get_validator check_counter permitted_through complete_periods period_of
    epoch_of_height period_emission shift_right settle_elapsed_purses credit_payouts settle_elapsed
    ready prune_expired_commitments prune_expired fee_emission_ratio apply apply_in_place check_all
    check_envelope check_authority native_outflow extra_outflow nomad_consumption check_nomad
    nomad_remaining execute charge_fee share_fee Kinds.burn add_to_pot add_to_fees credit_entry
    update_account take_balance debit credit balance lookup insert remove place replace apply_kind
    Kinds.transfer close_tx consume_nonce spend_nomad consume accepts next_sequence fee_split_of
    mul_div_floor is_past allowed_in_provisional verify_transaction security_budget computed_tx_root
    list_root top fold_all drop_paid
other_accepted = refl

validate_and_apply-finality_example :
    (a : AccountId) × HasSigned node.crypto four a (final_header 30)
    × HasSigned node.crypto four a (final_header 41)
validate_and_apply-finality_example =
    validate_and_apply-finality node params digests seed four four four_after four_after one_final
      other_final tip tip ledger ledger ledger ledger (applied_final 30) (applied_final 41)
      four-IsValidatorSet one_accepted other_accepted refl refl refl
