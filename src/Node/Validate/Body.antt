-- ===== src/Node/Validate/Body.antt =====
-- What the transactions of an accepted block do.
use vanargand.Common.{
  ℕ, suc, ◌≡◌, ◌≢◌, ap, ◌∙◌, none, some, List, [], ◌∷◌, ok, arith, Result-cases, Option-cases,
  and_then-ok, inl, inr, map,
}
use vanargand.Common.Lists.{All}
use vanargand.Common.Map.{lookup}
use vanargand.Common.Map.Keys.{nat_key}
use vanargand.Types.Amount.{IsU64}
use vanargand.Types.Window.{FinalityRung}
use vanargand.Types.Tx.{BlockHeader, Transaction}
use vanargand.Types.Tx.Grammar.{check_provisional_grammar_iff, IsOffline, discriminant}
use vanargand.State.Account.{Account, Device}
use vanargand.State.Ledger.{BlockContext, Ledger, Applied}
use vanargand.State.Ledger.Apply.{apply}
use vanargand.State.Ledger.Supply.{supply, IsFiled}
use vanargand.State.Ledger.Supply.Apply.{apply-supply}
use vanargand.Consensus.Weight.{Weight}
use vanargand.Consensus.Validator.{ValidatorSet}
use vanargand.Consensus.Committee.{Committee}
use vanargand.Node.Block.{NodeCrypto, Block, body_of}
use vanargand.Node.Validate.{
  ChainParameters, AppliedBlock, admit, apply_transactions, reach, report, validate_and_apply,
  verify_transaction,
}
use vanargand.Node.Validate.Accepted.{run-stages, validate-run}
use vanargand.Node.Validate.Safety.{check_body-ok}

module _ (n : NodeCrypto) (params : ChainParameters) where
  -- A transaction that is admitted is signed with the key of a device of its account, and applied.
  admit-ok :
      (ctx : BlockContext) (index : ℕ) (tx : Transaction) (l l' : Ledger)
      → admit n params ctx index tx l ≡ ok l'
      → (account : Account) × (device : Device) × (applied : Applied) × (lookup tx.body.account
            l.accounts
          ≡ some account)
        × (lookup tx.body.device account.devices ≡ some device)
        × (verify_transaction n params tx device.key ≡ ok tt)
        × (apply n.crypto ctx tx.body l ≡ (ok applied, l'))
  unfolding admit
  admit-ok ctx index tx l l' h = elim (Option-cases (lookup tx.body.account l.accounts)) [
    | inl x ↦ ground arith
    | inr (account, a) ↦ elim (Option-cases (lookup tx.body.device account.devices)) [
      | inl x ↦ ground arith
      | inr (device, d) ↦ elim (Result-cases (verify_transaction n params tx device.key)) [
        | inr (e, v) ↦ ground arith
        | inl (done, v) ↦ elim (Result-cases (apply n.crypto ctx tx.body l).0) [
          | inr (e, r) ↦ ground arith
          | inl (applied, r) ↦ (account, device, applied, a, d, v, ground arith)
        ]
      ]
    ]
  ]

  -- A body that cannot mint: its fee has 64 bits, and it convicts no account.
  abbrev pub IsPlain : Transaction → Type 0
  IsPlain tx = IsU64 tx.body.fee × (discriminant tx.body.kind ≢ 20)

  -- The transactions of a block together create and destroy no VAN: if they all apply, on a ledger
  -- whose channels are each filed once, all with 64-bit fees and none of them the conviction of an
  -- account, then the supply is what it was, and every channel is filed once.
  pub apply_transactions-supply :
      (ctx : BlockContext) (index : ℕ) (txs : List Transaction) (l l' : Ledger)
      → IsFiled l
      → All IsPlain txs
      → apply_transactions n params ctx index txs l ≡ ok l'
      → IsFiled l' × (supply l' ≡ supply l)
  unfolding apply_transactions
  apply_transactions-supply ctx index [] l l' f p h = ground arith
  apply_transactions-supply ctx index (tx ∷ txs) l l' f (p, ps) h =
      let (middle, a, rest) = and_then-ok (admit n params ctx index tx l) _ _ h in
      let (account, device, applied, g, d, v, e) = admit-ok ctx index tx l middle a in
      let (filed, same) = apply-supply n.crypto ctx tx.body l middle applied f p.0 p.1 e in
      let (end, total) = apply_transactions-supply ctx (suc index) txs middle l' filed ps rest in
      (end, total ∙ same)

  reach-none :
      (block : Block) (validators : ValidatorSet) (committee : Committee)
      (reached : Weight × FinalityRung)
      → block.certificate ≡ none
      → reach n params block validators committee ≡ ok reached
      → reached.1 ≡ FinalityRung.provisional
  unfolding reach
  reach-none block validators committee reached x h = ground (arith, h, x)

  -- A provisional block that is accepted carries no certificate and only transfers, openings of
  -- channels and cooperative closures, and reaches no more than the provisional rung.
  pub validate_and_apply-IsOffline :
      (block : Block) (parent : BlockHeader) (ledger after : Ledger)
      (validators updated : ValidatorSet) (committee : Committee) (applied : AppliedBlock)
      → validate_and_apply n params block parent (ledger, validators) committee
        ≡ (ok applied, after, updated)
      → block.header.header.rung ≡ FinalityRung.provisional
      → All (λ b. IsOffline b.kind) (map body_of block.transactions)
        × (block.certificate ≡ none)
        × (applied.reached_rung ≡ FinalityRung.provisional)
  unfolding report
  validate_and_apply-IsOffline block parent ledger after validators updated committee applied h g =
      let (kept, reached, p, q, b, k, t, m, r, e, u) =
        run-stages n params block parent ledger after validators updated committee applied (
          validate-run n params block parent ledger after validators updated committee applied h) in
      let (none_given, grammar) = (check_body-ok n params block b).1 g in
      (
        (check_provisional_grammar_iff (map body_of block.transactions)).0 grammar,
        none_given,
        ap (λ x. x.reached_rung) e ∙ reach-none block validators committee reached none_given r,
      )
