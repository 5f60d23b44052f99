-- ===== src/Node/Validate/Safety.antt =====
-- What an accepted block says of its place, its rung and its ledger.
use vanargand.Common.{
  ◌%◌, ◌≤◌, ◌≡◌, sym, ap, ◌∙◌, true, none, some, ok, arith, Result-cases, Option-cases, Bool-cases,
  inl, inr, map, min,
}
use vanargand.Common.Map.Keys.{nat_key}
use vanargand.Types.Amount.{saturating_add, max_supply}
use vanargand.Types.Window.{FinalityRung, epoch_blocks}
use vanargand.Types.Tx.{AccountId, BlockHeader}
use vanargand.Types.Tx.Grammar.{check_provisional_grammar}
use vanargand.Types.Tx.Checks.{check_header, check_header-ok}
use vanargand.State.Ledger.{Ledger}
use vanargand.Consensus.Weight.{Weight}
use vanargand.Consensus.Emission.{check_counter, epoch_of_height}
use vanargand.Consensus.Emission.Schedule.{emitted_through, check_counter-ok}
use vanargand.Consensus.Validator.{ValidatorSet, security_budget, IsValidatorSet}
use vanargand.Consensus.Seed.{SeedDigests, EpochSeed}
use vanargand.Consensus.Committee.{Committee, is_active_at, active_weight_at, draw}
use vanargand.Consensus.Certificate.{Certificate, verify_certificate, finalises}
use vanargand.Consensus.Certificate.Intersection.{HasSigned, quorum_intersection}
use vanargand.Node.Block.{NodeCrypto, Block, body_of, computed_tx_root}
use vanargand.Node.Validate.{
  ChainParameters, AppliedBlock, check_place, check_proposer, check_body, check_commitments, reach,
  report, validate_and_apply,
}
use vanargand.Node.Validate.Accepted.{run-stages, validate-run}

module _ (n : NodeCrypto) (params : ChainParameters) where
  check_place-ok :
      (header parent : BlockHeader)
      → check_place n params header parent ≡ ok tt
      → (header.chain ≡ params.chain)
        × (header.height ≡ saturating_add parent.height 1)
        × (header.parent ≡ n.crypto.block_id parent)
        × (parent.finalized_height ≤ header.finalized_height)
        × (header.finalized_height ≤ header.height)
        × (parent.emitted_supply ≤ header.emitted_supply)
        × (header.emitted_supply ≤ min (emitted_through (epoch_of_height header.height)) max_supply)
  unfolding check_place
  check_place-ok header parent h = elim (Result-cases (check_header header)) [
    | inr (e, c) ↦ ground arith
    | inl (done, c) ↦
        elim (Result-cases (
          check_counter parent.emitted_supply header.emitted_supply
            (epoch_of_height header.height))) [
              | inr (e, k) ↦ ground arith
              | inl (fine, k) ↦
                  let bounds =
                    (check_counter-ok parent.emitted_supply header.emitted_supply
                        (epoch_of_height header.height)).0
                      k in
                  let consistent = check_header-ok header c in ground (arith, bounds, consistent)
            ]
  ]

  pub check_body-ok :
      (block : Block)
      → check_body n params block ≡ ok tt
      → (block.header.header.tx_root ≡ computed_tx_root n block.transactions)
        × (block.header.header.rung ≡ FinalityRung.provisional
            → (block.certificate ≡ none)
              × (check_provisional_grammar (map body_of block.transactions) ≡ ok tt))
  unfolding check_body
  check_body-ok block h =
      elim (Result-cases (check_provisional_grammar (map body_of block.transactions))) [
        | inl (done, g) ↦ elim (Option-cases block.certificate) [
          | inl x ↦ ground arith
          | inr (c, x) ↦ ground arith
        ]
        | inr (e, g) ↦ elim (Option-cases block.certificate) [
          | inl x ↦ ground arith
          | inr (c, x) ↦ ground arith
        ]
      ]

  check_commitments-ok :
      (header : BlockHeader) (ledger : Ledger) (validators : ValidatorSet)
      → check_commitments n params header ledger validators ≡ ok tt
      → (header.state_root ≡ n.state_root_of ledger)
        × (security_budget validators ≡ some header.security_budget)
  unfolding check_commitments
  check_commitments-ok header ledger validators h =
      elim (Option-cases (security_budget validators)) [
        | inl x ↦ ground arith
        | inr (b, x) ↦ ground arith
      ]

  check_proposer-ok :
      (block : Block) (validators : ValidatorSet) (committee : Committee)
      → check_proposer n params block.header validators committee ≡ ok tt
      → is_active_at committee block.header.header.proposer
          (block.header.header.height % epoch_blocks)
        ≡ true
  unfolding check_proposer
  check_proposer-ok block validators committee h = ground arith

  -- A block that is accepted is of the chain, one above its parent and names it; its proposer is on
  -- duty; it takes the finalised height no further back than the parent and no further than itself;
  -- its emission counter is at least the parent's and at most what the schedule has emitted through
  -- its epoch, and the cap; and it commits to its transactions, to the ledger that it leaves and to a
  -- third of the bonds.
  pub validate_and_apply-accepted :
      (block : Block) (parent : BlockHeader) (ledger after : Ledger)
      (validators updated : ValidatorSet) (committee : Committee) (applied : AppliedBlock)
      → validate_and_apply n params block parent (ledger, validators) committee
        ≡ (ok applied, after, updated)
      → let header = block.header.header in
        (header.chain ≡ params.chain)
        × (header.height ≡ saturating_add parent.height 1)
        × (header.parent ≡ n.crypto.block_id parent)
        × (is_active_at committee header.proposer (header.height % epoch_blocks) ≡ true)
        × (parent.finalized_height ≤ header.finalized_height)
        × (header.finalized_height ≤ header.height)
        × (parent.emitted_supply ≤ header.emitted_supply)
        × (header.emitted_supply ≤ min (emitted_through (epoch_of_height header.height)) max_supply)
        × (header.tx_root ≡ computed_tx_root n block.transactions)
        × (header.state_root ≡ n.state_root_of after)
        × (security_budget validators ≡ some header.security_budget)
  validate_and_apply-accepted block parent ledger after validators updated committee applied h =
      let (kept, reached, p, q, b, k, t, c, r, e, u) =
        run-stages n params block parent ledger after validators updated committee applied (
          validate-run n params block parent ledger after validators updated committee applied h) in
      let (chain, height, id, forwards, within, grows, bounded) =
        check_place-ok block.header.header parent p in
      let (root, grammar) = check_body-ok block b in
      let (state, budget) = check_commitments-ok block.header.header after validators c in
      (
        chain,
        height,
        id,
        check_proposer-ok block validators committee q,
        forwards,
        within,
        grows,
        bounded,
        root,
        state,
        budget,
      )

  reach-chain :
      (block : Block) (validators : ValidatorSet) (committee : Committee)
      (reached : Weight × FinalityRung)
      → reach n params block validators committee ≡ ok reached
      → reached.1 ≡ FinalityRung.chain
      → (certificate : Certificate) × (verify_certificate n.crypto committee validators
            params.allow_test_algorithms certificate block.header.header
            (block.header.header.height % epoch_blocks)
          ≡ ok reached.0)
        × (finalises reached.0
              (active_weight_at committee (block.header.header.height % epoch_blocks))
            ≡ true)
  unfolding reach
  reach-chain block validators committee reached h c = elim (Option-cases block.certificate) [
    | inl x ↦ ground arith
    | inr (k, x) ↦
        elim (Result-cases (
          verify_certificate n.crypto committee validators params.allow_test_algorithms k
            block.header.header (block.header.header.height % epoch_blocks))) [
              | inl (w, v) ↦
                  elim (Bool-cases (
                    finalises w
                      (active_weight_at committee (block.header.header.height % epoch_blocks)))) [
                        | inl f ↦ (k, ground arith, ground arith)
                        | inr f ↦ ground arith
                      ]
              | inr (e, v) ↦ ground arith
            ]
  ]

  accepted-chain :
      (block : Block) (parent : BlockHeader) (ledger after : Ledger)
      (validators updated : ValidatorSet) (committee : Committee) (applied : AppliedBlock)
      → validate_and_apply n params block parent (ledger, validators) committee
        ≡ (ok applied, after, updated)
      → applied.reached_rung ≡ FinalityRung.chain
      → (certificate : Certificate) × (w : Weight) × (verify_certificate n.crypto committee
            validators params.allow_test_algorithms certificate block.header.header
            (block.header.header.height % epoch_blocks)
          ≡ ok w)
        × (finalises w (active_weight_at committee (block.header.header.height % epoch_blocks))
            ≡ true)
  unfolding report
  accepted-chain block parent ledger after validators updated committee applied h c =
      let (kept, reached, p, q, b, k, t, m, r, e, u) =
        run-stages n params block parent ledger after validators updated committee applied (
          validate-run n params block parent ledger after validators updated committee applied h) in
      let (certificate, verified, final) =
        reach-chain block validators committee reached r (sym (ap (λ x. x.reached_rung) e) ∙ c) in
      (certificate, reached.0, verified, final)

  -- Two blocks that reach finality at one height of a chain share their signers: if two blocks of one
  -- height are accepted, by nodes with any parents and ledgers but with the same validators and the
  -- committee that is drawn from a valid validator set, and both reach the chain rung, then at least
  -- one account has signed both headers under the key that is filed for it.
  pub validate_and_apply-finality :
      (digests : SeedDigests) (seed : EpochSeed) (set validators u u' : ValidatorSet)
      (block other : Block) (parent parent' : BlockHeader) (l l' after after' : Ledger)
      (applied applied' : AppliedBlock)
      → IsValidatorSet set
      → validate_and_apply n params block parent (l, validators) (draw digests seed set)
        ≡ (ok applied, after, u)
      → validate_and_apply n params other parent' (l', validators) (draw digests seed set)
        ≡ (ok applied', after', u')
      → block.header.header.height ≡ other.header.header.height
      → applied.reached_rung ≡ FinalityRung.chain
      → applied'.reached_rung ≡ FinalityRung.chain
      → (a : AccountId) × HasSigned n.crypto validators a block.header.header
        × HasSigned n.crypto validators a other.header.header
  validate_and_apply-finality digests seed set validators u u' block other parent parent' l l' after
        after' applied applied' v h g e r s =
      let committee = draw digests seed set in
      let (k, w, c, f) = accepted-chain block parent l after validators u committee applied h r in
      let (k', w', c', f') =
        accepted-chain other parent' l' after' validators u' committee applied' g s in
      let place = ap (λ x. x % epoch_blocks) e in
      (quorum_intersection digests seed n.crypto set validators params.allow_test_algorithms k k'
        block.header.header other.header.header (block.header.header.height % epoch_blocks) w w' v c
        f
        (ap
            (λ x.
              verify_certificate n.crypto committee validators params.allow_test_algorithms k'
                other.header.header x)
            place
          ∙ c')
        (ap (λ x. finalises w' (active_weight_at committee x)) place ∙ f')).1
