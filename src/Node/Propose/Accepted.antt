-- ===== src/Node/Propose/Accepted.antt =====
-- A block that was built is accepted.
use vanargand.Common.{
  ℕ, ◌%◌, ◌≤◌, ◌≡◌, ◌≢◌, ◌⊎◌, refl, sym, ap, ◌∙◌, true, false, Option, some, List, not, ◌&&◌,
  Result, ok, err, arith, Bool-cases, Option-cases, Result-cases, inl, inr,
}
use vanargand.Types.Amount.{saturating_add}
use vanargand.Types.Window.{FinalityRung, epoch_blocks, claimable_by_a_header}
use vanargand.Types.Tx.{Hash, Signature, SignedHeader, Transaction}
use vanargand.Types.Tx.Checks.{check_header, verify_header, valid_on_live_chain}
use vanargand.Crypto.Chain.{ChainCursor, new_cursor, advance}
use vanargand.State.Ledger.{Ledger}
use vanargand.State.Ledger.Apply.{settle_elapsed_purses, prune_expired_commitments}
use vanargand.State.PurseBook.{Payout}
use vanargand.Consensus.Emission.{check_counter, epoch_of_height}
use vanargand.Consensus.Validator.{ValidatorRecord, ValidatorSet, get_validator, security_budget}
use vanargand.Consensus.Committee.{Committee, is_active_at}
use vanargand.Node.Block.{NodeCrypto, Block}
use vanargand.Node.Validate.{
  ChainParameters, AppliedBlock, max_reveal_catchup, rung_is_provisional, check_place,
  check_proposer, check_body, check_commitments, reach, housekeep, report, record_reveal,
  validate_and_apply, context_of,
}
use vanargand.Node.Validate.Accepted.{stages-run, run-validate}
use vanargand.Node.Propose.{
  ProposalInputs, Proposal, ProposeError, Draft, check_inputs, proposed_context, proposed_header,
  proposed_finalized_height, select, assemble, signing, build,
}
use vanargand.Node.Propose.Screened.{select-apply_transactions, select-check_provisional_grammar}

rung_cases :
    (r : FinalityRung)
    → claimable_by_a_header r ≡ true
    → (r ≡ FinalityRung.provisional) ⊎ (r ≡ FinalityRung.chain)
unfolding claimable_by_a_header
rung_cases FinalityRung.provisional h = inl refl
rung_cases FinalityRung.chain h = inr refl
rung_cases FinalityRung.federal h = ground arith

abbrev block_or : Block → Result ProposeError Proposal → Block
block_or other (ok p) = p.block
block_or other (err e) = other

module _ (n : NodeCrypto) (params : ChainParameters) where
  check_inputs-ok :
      (inputs : ProposalInputs) (validators : ValidatorSet) (committee : Committee)
      → check_inputs n params inputs validators committee ≡ ok tt
      → let height = saturating_add inputs.parent.height 1 in
        (claimable_by_a_header inputs.rung ≡ true)
        × (is_active_at committee inputs.proposer (height % epoch_blocks) ≡ true)
        × (inputs.parent.finalized_height ≤ inputs.finalized_height)
        × (check_counter inputs.parent.emitted_supply inputs.emitted_supply (epoch_of_height height)
            ≡ ok tt)
  unfolding check_inputs
  check_inputs-ok inputs validators committee h =
      elim (Result-cases (
        check_counter inputs.parent.emitted_supply inputs.emitted_supply
          (epoch_of_height (saturating_add inputs.parent.height 1)))) [
            | inl (done, c) ↦ ground arith
            | inr (e, c) ↦ ground arith
          ]

  header_lem :
      (inputs : ProposalInputs) (validators : ValidatorSet) (draft : Draft)
      → claimable_by_a_header inputs.rung ≡ true
      → n.crypto.block_id inputs.parent ≢ 0
      → inputs.finalized_height ≤ saturating_add inputs.parent.height 1
      → check_counter inputs.parent.emitted_supply inputs.emitted_supply
          (epoch_of_height (saturating_add inputs.parent.height 1))
        ≡ ok tt
      → check_header (proposed_header n params inputs validators draft) ≡ ok tt
  unfolding check_header proposed_header check_counter claimable_by_a_header
      proposed_finalized_height
  header_lem inputs validators draft r p f c = ground (arith, rung_cases inputs.rung r)

  place_lem :
      (inputs : ProposalInputs) (validators : ValidatorSet) (draft : Draft)
      → check_header (proposed_header n params inputs validators draft) ≡ ok tt
      → inputs.parent.finalized_height ≤ inputs.finalized_height
      → inputs.finalized_height ≤ saturating_add inputs.parent.height 1
      → check_counter inputs.parent.emitted_supply inputs.emitted_supply
          (epoch_of_height (saturating_add inputs.parent.height 1))
        ≡ ok tt
      → check_place n params (proposed_header n params inputs validators draft) inputs.parent
        ≡ ok tt
  unfolding check_place proposed_header proposed_finalized_height
  place_lem inputs validators draft c l f e = rw (check_place, c) (ground (arith, e))

  proposer_lem :
      (inputs : ProposalInputs) (signed : SignedHeader) (validators : ValidatorSet)
      (committee : Committee) (v : ValidatorRecord) (moved : ℕ × ChainCursor)
      → is_active_at committee signed.header.proposer (signed.header.height % epoch_blocks) ≡ true
      → get_validator signed.header.proposer validators ≡ some v
      → (not params.allow_test_algorithms && not (valid_on_live_chain v.key.algorithm)) ≡ false
      → verify_header n.crypto signed v.key ≡ ok tt
      → advance n.commitment_link
          (new_cursor v.last_reveal max_reveal_catchup)
          signed.header.randomness_reveal
        ≡ ok moved
      → check_proposer n params signed validators committee ≡ ok tt
  unfolding check_proposer
  proposer_lem inputs signed validators committee v moved d g a s r =
      rw (check_proposer, d, g, a, s, r) refl

  body_lem :
      (inputs : ProposalInputs) (validators : ValidatorSet) (txs : List Transaction) (l : Ledger)
      (signature : Signature)
      → check_body n params (
          assemble n params inputs validators
            (select n params (proposed_context n params inputs) 0 txs l)
            signature)
        ≡ ok tt
  unfolding check_body assemble proposed_header proposed_context
  body_lem inputs validators txs l signature = elim (Bool-cases (rung_is_provisional inputs.rung)) [
    | inl p ↦ ground (
      arith,
      select-check_provisional_grammar n params (proposed_context n params inputs) 0 txs l p,
    )
    | inr p ↦ ground arith
  ]

  commitments_lem :
      (inputs : ProposalInputs) (validators : ValidatorSet) (draft : Draft) (budget : ℕ)
      → security_budget validators ≡ some budget
      → check_commitments n params
          (proposed_header n params inputs validators draft)
          draft.working
          validators
        ≡ ok tt
  unfolding check_commitments proposed_header
  commitments_lem inputs validators draft budget b = ground (arith, b)

  -- What a proposal was built from.
  build-ok :
      (sign : Hash → Option Signature) (inputs : ProposalInputs) (txs : List Transaction)
      (ledger : Ledger) (validators : ValidatorSet) (committee : Committee) (proposal : Proposal)
      → build n params sign inputs txs ledger validators committee ≡ ok proposal
      → (kept : List Payout × ℕ × Ledger) × (signature : Signature) × (check_inputs n params inputs
            validators committee
          ≡ ok tt)
        × (housekeep n params (proposed_context n params inputs).finalized_height ledger ≡ ok kept)
        × (sign (
              n.crypto.block_signing_digest (
                proposed_header n params inputs validators
                  (select n params (proposed_context n params inputs) 0 txs kept.2)))
            ≡ some signature)
        × (proposal.block
            ≡ assemble n params inputs validators
                (select n params (proposed_context n params inputs) 0 txs kept.2)
                signature)
  unfolding build housekeep
  build-ok sign inputs txs ledger validators committee proposal h =
      let ctx = proposed_context n params inputs in
      elim (Result-cases (check_inputs n params inputs validators committee)) [
        | inr (e, c) ↦ ground arith
        | inl (done, c) ↦
            elim (Result-cases (settle_elapsed_purses ctx.finalized_height ledger).0) [
              | inr (e, s) ↦ ground arith
              | inl (payouts, s) ↦
                  let after = (settle_elapsed_purses ctx.finalized_height ledger).1 in
                  let pruned = prune_expired_commitments ctx.finalized_height after in
                  let draft = select n params ctx 0 txs pruned.0 in
                  let header = proposed_header n params inputs validators draft in
                  elim (Option-cases (sign (n.crypto.block_signing_digest header))) [
                    | inl x ↦
                        let failed : build n params sign inputs txs ledger validators committee
                            ≡ err signing =
                          rw (build, c, s, x) refl in
                        ground (arith, failed)
                    | inr (signature, g) ↦
                        let built : build n params sign inputs txs ledger validators committee
                            ≡ ok (record {
                              block = assemble n params inputs validators draft signature;
                              declined = draft.refused;
                            }) =
                          rw (build, c, s, g) refl in
                        (
                          (payouts, pruned.1, pruned.0),
                          signature,
                          c,
                          rw (housekeep, s) refl,
                          g,
                          ap (block_or proposal.block) (sym h ∙ built),
                        )
                  ]
            ]
      ]

  -- What a proposer builds, every validator accepts: if a proposal is built and is validated against
  -- the same parent, ledger, validators and committee, then it is accepted, and whatever the
  -- candidates were. It is assumed that what the key signs verifies under the key that is filed for
  -- the proposer, whose algorithm the chain allows, that the reveal continues the proposer's chain,
  -- that the bonds of the validators sum within 64 bits, that the parent's identifier is not zero,
  -- and that the finalised height given is at most that of the block.
  pub build-validate_and_apply :
      (sign : Hash → Option Signature) (inputs : ProposalInputs) (txs : List Transaction)
      (ledger : Ledger) (validators : ValidatorSet) (committee : Committee) (proposal : Proposal)
      (v : ValidatorRecord) (moved : ℕ × ChainCursor) (budget : ℕ)
      → build n params sign inputs txs ledger validators committee ≡ ok proposal
      → get_validator inputs.proposer validators ≡ some v
      → (not params.allow_test_algorithms && not (valid_on_live_chain v.key.algorithm)) ≡ false
      → ((digest : Hash) (s : Signature)
          → sign digest ≡ some s
          → n.crypto.verify_signature v.key digest s ≡ true)
      → advance n.commitment_link
          (new_cursor v.last_reveal max_reveal_catchup)
          inputs.randomness_reveal
        ≡ ok moved
      → security_budget validators ≡ some budget
      → n.crypto.block_id inputs.parent ≢ 0
      → inputs.finalized_height ≤ saturating_add inputs.parent.height 1
      → (applied : AppliedBlock) × (after : Ledger) × (updated : ValidatorSet) × (validate_and_apply
            n params proposal.block inputs.parent
            (ledger, validators)
            committee
          ≡ (ok applied, after, updated))
  unfolding proposed_header proposed_context context_of assemble reach verify_header
  build-validate_and_apply sign inputs txs ledger validators committee proposal v moved budget h g a
        s r m p f =
      let (kept, signature, c, k, signed, same) =
        build-ok sign inputs txs ledger validators committee proposal h in
      let (claimable, duty, forwards, counter) = check_inputs-ok inputs validators committee c in
      let draft = select n params (proposed_context n params inputs) 0 txs kept.2 in
      let header = proposed_header n params inputs validators draft in
      let placed =
        place_lem inputs validators draft (header_lem inputs validators draft claimable p f counter)
          forwards f counter in
      let verified : verify_header n.crypto (record { header = header; signature = signature })
            v.key
          ≡ ok tt =
        rw (verify_header, s (n.crypto.block_signing_digest header) signature signed) refl in
      let proposed =
        proposer_lem inputs (record { header = header; signature = signature }) validators committee
          v moved duty g a verified r in
      let accepted =
        stages-run n params (assemble n params inputs validators draft signature) inputs.parent
          ledger draft.working validators committee kept (0, FinalityRung.provisional) placed
          proposed (body_lem inputs validators txs kept.2 signature) k
          (select-apply_transactions n params (proposed_context n params inputs) 0 0 txs kept.2)
          (commitments_lem inputs validators draft budget m) refl in
      (
        report n params (assemble n params inputs validators draft signature) kept.0 kept.1
            (0, FinalityRung.provisional),
        draft.working,
        record_reveal n params header validators,
        ap (λ b. validate_and_apply n params b inputs.parent (ledger, validators) committee) same
            ∙ run-validate n params (assemble n params inputs validators draft signature)
                inputs.parent ledger draft.working validators
                (record_reveal n params header validators) committee
                (report n params (assemble n params inputs validators draft signature) kept.0 kept.1
                  (0, FinalityRung.provisional))
                accepted,
      )
