-- ===== src/Node/Propose.antt =====
-- vanargand-node/src/propose.rs: how a proposer builds a block from the candidates that it holds.
pub mod Screened
pub mod Accepted
use vanargand.Common.{
  ℕ, suc, ◌%◌, Bool, true, false, Option, none, some, List, [], ◌∷◌, ltb, not, ◌&&◌, if◌then◌else◌,
  Result, ok, err, Done, and_then, map_err, unwrap_or, is_some,
}
use vanargand.Common.Map.{lookup}
use vanargand.Common.Map.Keys.{nat_key}
use vanargand.Types.Amount.{Amount, saturating_add}
use vanargand.Types.Window.{FinalityRung, epoch_blocks, claimable_by_a_header}
use vanargand.Types.Tx.{Hash, AccountId, Signature, BlockHeader, Transaction}
use vanargand.Types.Tx.Grammar.{allowed_in_provisional, discriminant}
use vanargand.Types.Tx.Checks.{header_version}
use vanargand.State.Ledger.{BlockContext, Ledger, StateError}
use vanargand.State.Ledger.Apply.{apply, settle_elapsed_purses, prune_expired_commitments}
use vanargand.State.Ledger.Supply.{fee_emission_ratio}
use vanargand.Consensus.Emission.{EmissionError, check_counter, epoch_of_height}
use vanargand.Consensus.Validator.{ValidatorSet, get_validator, security_budget}
use vanargand.Consensus.Committee.{Committee, is_active_at}
use vanargand.Node.Block.{NodeCrypto, Block, computed_tx_root}
use vanargand.Node.Validate.{ChainParameters, rung_is_provisional, verify_transaction}

pub record ProposalInputs : Type 0 where
  pub parent : BlockHeader
  pub proposer : AccountId
  pub randomness_reveal : Hash
  pub rung : FinalityRung
  pub finalized_height : ℕ
  pub archive_commitment : Hash
  pub emitted_supply : Amount

-- The kind that a refusal names is its discriminant.
pub data DeclineReason : Type 0 where
  no_such_account unknown_device bad_signature : DeclineReason
  forbidden_in_provisional : ℕ → DeclineReason
  rejected : StateError → DeclineReason

pub record Declined : Type 0 where
  pub index : ℕ
  pub reason : DeclineReason

pub data ProposeError : Type 0 where
  not_on_duty unknown_proposer : AccountId → ProposeError
  finalized_went_backwards : ℕ → ℕ → ProposeError
  unclaimable_rung : FinalityRung → ProposeError
  emission : EmissionError → ProposeError
  housekeeping : StateError → ProposeError
  signing : ProposeError

pub record Proposal : Type 0 where
  pub block : Block
  pub declined : List Declined

-- What the loop over the candidates has come to.
pub record Draft : Type 0 where
  pub included : List Transaction
  pub refused : List Declined
  pub working : Ledger

abbrev pub rung_is_chain : FinalityRung → Bool
rung_is_chain FinalityRung.provisional = false
rung_is_chain FinalityRung.chain = true
rung_is_chain FinalityRung.federal = false

module _ (n : NodeCrypto) (params : ChainParameters) where
  unfoldable pub screen : BlockContext → Transaction → Ledger → Option DeclineReason
  unfolding lookup verify_transaction allowed_in_provisional
  screen ctx tx ledger =
      if rung_is_provisional ctx.rung && not (allowed_in_provisional tx.body.kind)
      then some (forbidden_in_provisional (discriminant tx.body.kind))
      else elim (lookup tx.body.account ledger.accounts) [
        | none ↦ some no_such_account
        | some account ↦ elim (lookup tx.body.device account.devices) [
          | none ↦ some unknown_device
          | some device ↦ elim (verify_transaction n params tx device.key) [
            | err e ↦ some bad_signature
            | ok done ↦ none
          ]
        ]
      ]

  -- The candidate was taken, or refused with its reason.
  unfoldable pub include : Transaction → Draft → Draft
  include tx d = record d { included = tx ∷ d.included }

  unfoldable pub decline : ℕ → DeclineReason → Draft → Draft
  decline index reason d = record d {
    refused = record { index = index; reason = reason } ∷ d.refused;
  }

  -- The loop over the candidates.
  unfoldable pub select : BlockContext → ℕ → List Transaction → Ledger → Draft
  unfolding screen include decline
  select ctx index [] ledger = record { included = []; refused = []; working = ledger }
  select ctx index (tx ∷ txs) ledger = elim (screen ctx tx ledger) [
    | some reason ↦ decline index reason (select ctx (suc index) txs ledger)
    | none ↦
        let (result, after) = apply n.crypto ctx tx.body ledger in
        elim result [
          | ok applied ↦ include tx (select ctx (suc index) txs after)
          | err e ↦ decline index (rejected e) (select ctx (suc index) txs after)
        ]
  ]

  -- A chain-final block finalises itself.
  unfoldable pub proposed_finalized_height : ProposalInputs → ℕ → ℕ
  proposed_finalized_height inputs height =
      if rung_is_chain inputs.rung then height else inputs.finalized_height

  unfoldable pub proposed_context : ProposalInputs → BlockContext
  unfolding proposed_finalized_height
  proposed_context inputs =
      let height = saturating_add inputs.parent.height 1 in
      record {
        chain = params.chain;
        height = height;
        finalized_height = proposed_finalized_height inputs height;
        rung = inputs.rung;
        proposer = inputs.proposer;
      }

  unfoldable pub proposed_header : ProposalInputs → ValidatorSet → Draft → BlockHeader
  unfolding proposed_finalized_height security_budget computed_tx_root
  proposed_header inputs validators draft =
      let height = saturating_add inputs.parent.height 1 in
      record {
        version = header_version;
        chain = params.chain;
        height = height;
        parent = n.crypto.block_id inputs.parent;
        rung = inputs.rung;
        finalized_height = proposed_finalized_height inputs height;
        state_root = n.state_root_of draft.working;
        tx_root = computed_tx_root n draft.included;
        proposer = inputs.proposer;
        randomness_reveal = inputs.randomness_reveal;
        archive_commitment = inputs.archive_commitment;
        emitted_supply = inputs.emitted_supply;
        security_budget = unwrap_or (security_budget validators) 0;
        fee_emission_ratio = fee_emission_ratio draft.working inputs.emitted_supply;
      }

  unfoldable pub assemble : ProposalInputs → ValidatorSet → Draft → Signature → Block
  unfolding proposed_header
  assemble inputs validators draft signature = record {
    header = record { header = proposed_header inputs validators draft; signature = signature };
    transactions = draft.included;
    certificate = none;
  }

  -- What the proposer checks before it starts.
  unfoldable pub check_inputs : ProposalInputs → ValidatorSet → Committee → Result ProposeError Done
  check_inputs inputs validators committee =
      let height = saturating_add inputs.parent.height 1 in
      if not (claimable_by_a_header inputs.rung)
      then err (unclaimable_rung inputs.rung)
      else if not (is_active_at committee inputs.proposer (height % epoch_blocks))
      then err (not_on_duty inputs.proposer)
      else if not (is_some (get_validator inputs.proposer validators))
      then err (unknown_proposer inputs.proposer)
      else if ltb inputs.finalized_height inputs.parent.finalized_height
      then err (finalized_went_backwards inputs.parent.finalized_height inputs.finalized_height)
      else map_err emission (
          check_counter inputs.parent.emitted_supply inputs.emitted_supply (epoch_of_height height))

  -- `sign` is the proposer's key in the signature backend.
  unfoldable pub build :
      (Hash → Option Signature)
      → ProposalInputs
      → List Transaction
      → Ledger
      → ValidatorSet
      → Committee
      → Result ProposeError Proposal
  unfolding check_inputs proposed_context proposed_header assemble select
  build sign inputs candidates ledger validators committee =
      and_then (check_inputs inputs validators committee) λ checked.
        let ctx = proposed_context inputs in
        let (settled, after) = settle_elapsed_purses ctx.finalized_height ledger in
        elim settled [
          | err e ↦ err (housekeeping e)
          | ok payouts ↦
              let pruned = prune_expired_commitments ctx.finalized_height after in
              let draft = select ctx 0 candidates pruned.0 in
              let header = proposed_header inputs validators draft in
              elim (sign (n.crypto.block_signing_digest header)) [
                | none ↦ err signing
                | some signature ↦ ok (record {
                  block = assemble inputs validators draft signature;
                  declined = draft.refused;
                })
              ]
        ]
