-- ===== src/Node/Validate.antt =====
-- vanargand-node/src/validate.rs: whether a block follows its parent, and what it does to the ledger
-- and to the validators. The stages of `run` are functions, in the order of the source.
pub mod Accepted
pub mod Safety
pub mod Body
use vanargand.Common.{
  ℕ, suc, ◌+◌, ◌%◌, Bool, true, false, Option, none, some, List, [], ◌∷◌, ltb, ◌==◌, not, ◌&&◌,
  ◌||◌, if◌then◌else◌, Result, ok, err, Done, and_then, map_err, map, is_some,
}
use vanargand.Common.Map.{lookup, insert}
use vanargand.Common.Map.Keys.{nat_key}
use vanargand.Types.Amount.{Amount, Ratio, saturating_add}
use vanargand.Types.Window.{FinalityRung, epoch_blocks}
use vanargand.Types.Tx.{
  Hash, AccountId, ChainId, BlockHeader, SignedHeader, Transaction, VerifyingKey,
}
use vanargand.Types.Tx.Grammar.{TxError, check_provisional_grammar}
use vanargand.Types.Tx.Checks.{
  HeaderError, check_header, verify_header, verify, verify_allowing_test_algorithms,
  valid_on_live_chain,
}
use vanargand.Crypto.Chain.{new_cursor, advance}
use vanargand.State.Ledger.{BlockContext, Ledger, StateError, no_such_account}
use vanargand.State.Ledger.Apply.{apply, settle_elapsed_purses, prune_expired_commitments}
use vanargand.State.Ledger.Supply.{fee_emission_ratio}
use vanargand.State.PurseBook.{Payout}
use vanargand.Consensus.Weight.{Weight}
use vanargand.Consensus.Emission.{EmissionError, check_counter, epoch_of_height}
use vanargand.Consensus.Validator.{ValidatorRecord, ValidatorSet, get_validator, security_budget}
use vanargand.Consensus.Committee.{Committee, is_active_at, active_weight_at}
use vanargand.Consensus.Certificate.{CertificateError, Certificate, verify_certificate, finalises}
use vanargand.Node.Block.{NodeCrypto, Block, body_of, computed_tx_root}

abbrev pub max_reveal_catchup : ℕ
max_reveal_catchup = 720

pub record ChainParameters : Type 0 where
  pub chain : ChainId
  pub allow_test_algorithms : Bool

pub record AppliedBlock : Type 0 where
  pub block : Hash
  pub claimed_rung : FinalityRung
  pub reached_rung : FinalityRung
  pub signed_weight : Weight
  pub settlements : List Payout
  pub pruned_commitments : ℕ

pub data BlockError : Type 0 where
  header_error : HeaderError → BlockError
  wrong_chain : BlockError
  not_the_next_height finalized_went_backwards : ℕ → ℕ → BlockError
  wrong_parent tx_root_mismatch state_root_mismatch : Hash → Hash → BlockError
  proposer_not_on_duty unknown_proposer : AccountId → BlockError
  bad_proposer_signature test_algorithm_on_live_chain bad_randomness_reveal : BlockError
  forbidden_in_provisional : TxError → BlockError
  unknown_device bad_transaction_signature : ℕ → BlockError
  transaction : ℕ → StateError → BlockError
  housekeeping : StateError → BlockError
  emission : EmissionError → BlockError
  fee_ratio_mismatch : Ratio → Ratio → BlockError
  security_budget_mismatch : BlockError
  certificate_error : CertificateError → BlockError
  certified_provisional_block : BlockError

abbrev pub same_ratio : Ratio → Ratio → Bool
same_ratio r s = (r.numerator == s.numerator) && (r.denominator == s.denominator)

abbrev pub rung_is_provisional : FinalityRung → Bool
rung_is_provisional FinalityRung.provisional = true
rung_is_provisional FinalityRung.chain = false
rung_is_provisional FinalityRung.federal = false

-- `validators.security_budget() != Some(header.security_budget)`
abbrev pub is_budget : Option Amount → Amount → Bool
is_budget none claimed = false
is_budget (some budget) claimed = budget == claimed

module _ (n : NodeCrypto) (params : ChainParameters) where
  -- The header by itself, then beside its parent, then its emission counter.
  unfoldable pub check_place : BlockHeader → BlockHeader → Result BlockError Done
  check_place header parent = and_then (map_err header_error (check_header header)) λ done.
      if not (header.chain == params.chain)
      then err wrong_chain
      else if not (header.height == saturating_add parent.height 1)
      then err (not_the_next_height parent.height header.height)
      else if not (header.parent == n.crypto.block_id parent)
      then err (wrong_parent header.parent (n.crypto.block_id parent))
      else if ltb header.finalized_height parent.finalized_height
      then err (finalized_went_backwards parent.finalized_height header.finalized_height)
      else map_err emission (
          check_counter parent.emitted_supply header.emitted_supply (epoch_of_height header.height))

  -- The proposer is on duty, known, signs, and reveals the next link of its chain.
  unfoldable pub check_proposer : SignedHeader → ValidatorSet → Committee → Result BlockError Done
  check_proposer signed validators committee =
      let header = signed.header in
      if not (is_active_at committee header.proposer (header.height % epoch_blocks))
      then err (proposer_not_on_duty header.proposer)
      else elim (get_validator header.proposer validators) [
        | none ↦ err (unknown_proposer header.proposer)
        | some validator ↦
            if not params.allow_test_algorithms && not (valid_on_live_chain validator.key.algorithm)
            then err test_algorithm_on_live_chain
            else (and_then
                (map_err (λ e. bad_proposer_signature)
                  (verify_header n.crypto signed validator.key))
                λ done.
                  elim (advance n.commitment_link
                    (new_cursor validator.last_reveal max_reveal_catchup)
                    header.randomness_reveal) [
                      | ok moved ↦ ok tt
                      | err e ↦ err bad_randomness_reveal
                    ])
      ]

  -- The body is the one that the header commits to, and fits its rung.
  unfoldable pub check_body : Block → Result BlockError Done
  check_body block =
      let header = block.header.header in
      let computed = computed_tx_root n block.transactions in
      if not (header.tx_root == computed)
      then err (tx_root_mismatch header.tx_root computed)
      else if not (rung_is_provisional header.rung)
      then ok tt
      else if is_some block.certificate
      then err certified_provisional_block
      else map_err forbidden_in_provisional
          (check_provisional_grammar (map body_of block.transactions))

  -- `verify`, or `verify_allowing_test_algorithms` where the chain allows them
  unfoldable pub verify_transaction : Transaction → VerifyingKey → Result TxError Done
  unfolding verify verify_allowing_test_algorithms
  verify_transaction tx key =
      if params.allow_test_algorithms
      then verify_allowing_test_algorithms n.crypto tx key
      else verify n.crypto tx key

  -- One round of the loop over the transactions.
  unfoldable pub admit : BlockContext → ℕ → Transaction → Ledger → Result BlockError Ledger
  unfolding lookup verify_transaction
  admit ctx index tx ledger = elim (lookup tx.body.account ledger.accounts) [
    | none ↦ err (transaction index (no_such_account tx.body.account))
    | some account ↦ elim (lookup tx.body.device account.devices) [
      | none ↦ err (unknown_device index)
      | some device ↦ elim (verify_transaction tx device.key) [
        | err e ↦ err (bad_transaction_signature index)
        | ok done ↦
            let (result, after) = apply n.crypto ctx tx.body ledger in
            elim result [ err cause ↦ err (transaction index cause) | ok applied ↦ ok after ]
      ]
    ]
  ]

  unfoldable pub apply_transactions :
      BlockContext → ℕ → List Transaction → Ledger → Result BlockError Ledger
  unfolding admit
  apply_transactions ctx index [] ledger = ok ledger
  apply_transactions ctx index (tx ∷ txs) ledger =
      and_then (admit ctx index tx ledger) λ after. apply_transactions ctx (suc index) txs after

  -- What the header commits to after the transactions.
  unfoldable pub check_commitments : BlockHeader → Ledger → ValidatorSet → Result BlockError Done
  check_commitments header ledger validators =
      let ratio = fee_emission_ratio ledger header.emitted_supply in
      if not (header.state_root == n.state_root_of ledger)
      then err (state_root_mismatch header.state_root (n.state_root_of ledger))
      else if not (same_ratio header.fee_emission_ratio ratio)
      then err (fee_ratio_mismatch header.fee_emission_ratio ratio)
      else if not (is_budget (security_budget validators) header.security_budget)
      then err security_budget_mismatch
      else ok tt

  -- The rung that the certificate proves, and its weight.
  unfoldable pub reach :
      Block → ValidatorSet → Committee → Result BlockError (Weight × FinalityRung)
  reach block validators committee = elim block.certificate [
    | none ↦ ok (0, FinalityRung.provisional)
    | some certificate ↦
        let place = block.header.header.height % epoch_blocks in
        and_then
          (map_err certificate_error (
            verify_certificate n.crypto committee validators params.allow_test_algorithms
              certificate block.header.header place))
          λ signed. ok (
            signed,
            if finalises signed (active_weight_at committee place)
                then FinalityRung.chain
                else FinalityRung.provisional,
          )
  ]

  -- `validators.get_mut(&header.proposer)`
  unfoldable pub record_reveal : BlockHeader → ValidatorSet → ValidatorSet
  unfolding get_validator
  record_reveal header validators = elim (get_validator header.proposer validators) [
    | none ↦ validators
    | some validator ↦
        insert header.proposer (record validator { last_reveal = header.randomness_reveal })
          validators
  ]

  -- What a block does before its transactions: channels that have waited settle, and commitments
  -- that have expired go.
  unfoldable pub housekeep : ℕ → Ledger → Result BlockError (List Payout × ℕ × Ledger)
  housekeep finalized_height ledger =
      let (settled, after) = settle_elapsed_purses finalized_height ledger in
      elim settled [
        | err cause ↦ err (housekeeping cause)
        | ok payouts ↦
            let pruned = prune_expired_commitments finalized_height after in
            ok (payouts, pruned.1, pruned.0)
      ]

  unfoldable pub context_of : BlockHeader → BlockContext
  context_of header = record {
    chain = header.chain;
    height = header.height;
    finalized_height = header.finalized_height;
    rung = header.rung;
    proposer = header.proposer;
  }

  unfoldable pub report : Block → List Payout → ℕ → Weight × FinalityRung → AppliedBlock
  report block settlements pruned reached = record {
    block = n.crypto.block_id block.header.header;
    claimed_rung = block.header.header.rung;
    reached_rung = reached.1;
    signed_weight = reached.0;
    settlements = settlements;
    pruned_commitments = pruned;
  }

  unfoldable pub run :
      Block
      → BlockHeader
      → Ledger
      → ValidatorSet
      → Committee
      → Result BlockError (AppliedBlock × Ledger × ValidatorSet)
  unfolding check_place check_proposer check_body housekeep context_of apply_transactions
      check_commitments reach record_reveal report
  run block parent ledger validators committee =
      let header = block.header.header in
      and_then (check_place header parent) λ placed.
        and_then (check_proposer block.header validators committee) λ proposed.
          and_then (check_body block) λ bodied.
            and_then (housekeep header.finalized_height ledger) λ kept.
              and_then (apply_transactions (context_of header) 0 block.transactions kept.2) λ after.
                and_then (check_commitments header after validators) λ committed.
                  and_then (reach block validators committee) λ reached.
                    ok (report block kept.0 kept.1 reached, after, record_reveal header validators)

  -- The working copies take the places only when nothing failed.
  unfoldable pub validate_and_apply :
      Block
      → BlockHeader
      → Ledger × ValidatorSet
      → Committee
      → Result BlockError AppliedBlock × Ledger × ValidatorSet
  unfolding run
  validate_and_apply block parent (ledger, validators) committee =
      elim (run block parent ledger validators committee) [
        | err e ↦ (err e, ledger, validators)
        | ok (applied, after, updated) ↦ (ok applied, after, updated)
      ]
