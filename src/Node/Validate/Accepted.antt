-- ===== src/Node/Validate/Accepted.antt =====
-- What is known of a block that was accepted: its stages, one after the other.
use vanargand.Common.{
  ℕ, ◌≡◌, refl, sym, ap, ◌∙◌, List, ok, arith, Result-cases, and_then-ok, ok_injective, inl, inr,
}
use vanargand.Types.Window.{FinalityRung}
use vanargand.Types.Tx.{BlockHeader}
use vanargand.State.Ledger.{Ledger}
use vanargand.State.PurseBook.{Payout}
use vanargand.Consensus.Weight.{Weight}
use vanargand.Consensus.Validator.{ValidatorSet}
use vanargand.Consensus.Committee.{Committee}
use vanargand.Node.Block.{NodeCrypto, Block}
use vanargand.Node.Validate.{
  ChainParameters, AppliedBlock, check_place, check_proposer, check_body, housekeep, context_of,
  apply_transactions, check_commitments, reach, report, record_reveal, run, validate_and_apply,
}

module _ (n : NodeCrypto) (params : ChainParameters) where
  -- A block that passes every stage is accepted.
  pub stages-run :
      (block : Block) (parent : BlockHeader) (ledger after : Ledger) (validators : ValidatorSet)
      (committee : Committee) (kept : List Payout × ℕ × Ledger) (reached : Weight × FinalityRung)
      → check_place n params block.header.header parent ≡ ok tt
      → check_proposer n params block.header validators committee ≡ ok tt
      → check_body n params block ≡ ok tt
      → housekeep n params block.header.header.finalized_height ledger ≡ ok kept
      → apply_transactions n params
          (context_of n params block.header.header)
          0
          block.transactions
          kept.2
        ≡ ok after
      → check_commitments n params block.header.header after validators ≡ ok tt
      → reach n params block validators committee ≡ ok reached
      → run n params block parent ledger validators committee
        ≡ ok (
          report n params block kept.0 kept.1 reached,
          after,
          record_reveal n params block.header.header validators,
        )
  unfolding run
  stages-run block parent ledger after validators committee kept reached p q b k t c r =
      rw (run, p, q, b, k, t, c, r) refl

  -- An accepted block has passed every stage.
  pub run-stages :
      (block : Block) (parent : BlockHeader) (ledger after : Ledger)
      (validators updated : ValidatorSet) (committee : Committee) (applied : AppliedBlock)
      → run n params block parent ledger validators committee ≡ ok (applied, after, updated)
      → (kept : List Payout × ℕ × Ledger) × (reached : Weight × FinalityRung) × (check_place n
            params block.header.header parent
          ≡ ok tt)
        × (check_proposer n params block.header validators committee ≡ ok tt)
        × (check_body n params block ≡ ok tt)
        × (housekeep n params block.header.header.finalized_height ledger ≡ ok kept)
        × (apply_transactions n params
              (context_of n params block.header.header)
              0
              block.transactions
              kept.2
            ≡ ok after)
        × (check_commitments n params block.header.header after validators ≡ ok tt)
        × (reach n params block validators committee ≡ ok reached)
        × (applied ≡ report n params block kept.0 kept.1 reached)
        × (updated ≡ record_reveal n params block.header.header validators)
  unfolding run
  run-stages block parent ledger after validators updated committee applied h =
      let (placed, p, h1) = and_then-ok (check_place n params block.header.header parent) _ _ h in
      let (proposed, q, h2) =
        and_then-ok (check_proposer n params block.header validators committee) _ _ h1 in
      let (bodied, b, h3) = and_then-ok (check_body n params block) _ _ h2 in
      let (kept, k, h4) =
        and_then-ok (housekeep n params block.header.header.finalized_height ledger) _ _ h3 in
      let (later, t, h5) =
        and_then-ok
          (apply_transactions n params (context_of n params block.header.header) 0
            block.transactions kept.2)
          _ _ h4 in
      let (committed, c, h6) =
        and_then-ok (check_commitments n params block.header.header later validators) _ _ h5 in
      let (reached, r, h7) = and_then-ok (reach n params block validators committee) _ _ h6 in
      let end = ok_injective h7 in
      let same = ap (λ x. x.1) end in
      (
        kept,
        reached,
        p,
        q,
        b,
        k,
        t ∙ ap ok same,
        ap (λ l. check_commitments n params block.header.header l validators) (sym same) ∙ c,
        r,
        ap (λ x. x.0) (sym end),
        ap (λ x. x.2) (sym end),
      )

  pub run-validate :
      (block : Block) (parent : BlockHeader) (ledger after : Ledger)
      (validators updated : ValidatorSet) (committee : Committee) (applied : AppliedBlock)
      → run n params block parent ledger validators committee ≡ ok (applied, after, updated)
      → validate_and_apply n params block parent (ledger, validators) committee
        ≡ (ok applied, after, updated)
  unfolding validate_and_apply
  run-validate block parent ledger after validators updated committee applied h =
      rw (validate_and_apply, h) refl

  pub validate-run :
      (block : Block) (parent : BlockHeader) (ledger after : Ledger)
      (validators updated : ValidatorSet) (committee : Committee) (applied : AppliedBlock)
      → validate_and_apply n params block parent (ledger, validators) committee
        ≡ (ok applied, after, updated)
      → run n params block parent ledger validators committee ≡ ok (applied, after, updated)
  unfolding validate_and_apply
  validate-run block parent ledger after validators updated committee applied h =
      elim (Result-cases (run n params block parent ledger validators committee)) [
        | inl (x, e) ↦ ground (arith, e)
        | inr (x, e) ↦ ground (arith, e)
      ]
