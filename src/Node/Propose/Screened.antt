-- ===== src/Node/Propose/Screened.antt =====
-- The candidates that were taken apply one after the other.
use vanargand.Common.{
  ℕ, suc, ◌≡◌, refl, ap, true, none, List, [], ◌∷◌, not, ◌&&◌, ok, map, arith, Bool-cases,
  Option-cases, Result-cases, inl, inr,
}
use vanargand.Common.Map.{lookup}
use vanargand.Common.Map.Keys.{nat_key}
use vanargand.Types.Tx.{Transaction}
use vanargand.Types.Tx.Grammar.{allowed_in_provisional, check_provisional_grammar}
use vanargand.State.Ledger.{BlockContext, Ledger, Applied}
use vanargand.State.Ledger.Apply.{apply}
use vanargand.State.Ledger.Atomic.{apply_atomic}
use vanargand.Node.Block.{NodeCrypto, body_of}
use vanargand.Node.Validate.{
  ChainParameters, rung_is_provisional, verify_transaction, admit, apply_transactions,
}
use vanargand.Node.Propose.{screen, include, decline, select}

module _ (n : NodeCrypto) (params : ChainParameters) where
  -- A candidate that was screened and applied is admitted by whoever validates.
  screen-admit :
      (ctx : BlockContext) (index : ℕ) (tx : Transaction) (l l' : Ledger) (a : Applied)
      → screen n params ctx tx l ≡ none
      → apply n.crypto ctx tx.body l ≡ (ok a, l')
      → admit n params ctx index tx l ≡ ok l'
  unfolding screen admit
  screen-admit ctx index tx l l' a s e =
      elim (Bool-cases
        (rung_is_provisional ctx.rung && not (allowed_in_provisional tx.body.kind))) [
          | inl t ↦ ground arith
          | inr f ↦ elim (Option-cases (lookup tx.body.account l.accounts)) [
            | inl x ↦ ground arith
            | inr (account, g) ↦ elim (Option-cases (lookup tx.body.device account.devices)) [
              | inl x ↦ ground arith
              | inr (device, d) ↦ elim (Result-cases (verify_transaction n params tx device.key)) [
                | inl (done, v) ↦ rw (admit, g, d, v, ap (λ p. p.0) e) (ap (λ p. ok p.1) e)
                | inr (x, v) ↦ ground arith
              ]
            ]
          ]
        ]

  -- The ones that were taken apply in their order to the ledger that the proposer started from, and
  -- give the ledger that it ended with.
  pub select-apply_transactions :
      (ctx : BlockContext) (i j : ℕ) (txs : List Transaction) (l : Ledger)
      → apply_transactions n params ctx j (select n params ctx i txs l).included l
        ≡ ok (select n params ctx i txs l).working
  unfolding select apply_transactions include decline
  select-apply_transactions ctx i j [] l = refl
  select-apply_transactions ctx i j (tx ∷ txs) l = elim (Option-cases (screen n params ctx tx l)) [
    | inr (reason, s) ↦ rw (select, s) (select-apply_transactions ctx (suc i) j txs l)
    | inl s ↦ elim (Result-cases (apply n.crypto ctx tx.body l).0) [
      | inl (a, e) ↦
          let after = (apply n.crypto ctx tx.body l).1 in
          let admitted = screen-admit ctx j tx l after a s (ap (λ r. (r, after)) e) in
          rw (select, s, e, apply_transactions, admitted)
            (select-apply_transactions ctx (suc i) (suc j) txs after)
      | inr (x, e) ↦
          let unchanged = apply_atomic n.crypto ctx tx.body l x e in
          rw (select, s, e, unchanged) (select-apply_transactions ctx (suc i) j txs l)
    ]
  ]

  screen-allowed :
      (ctx : BlockContext) (tx : Transaction) (l : Ledger)
      → rung_is_provisional ctx.rung ≡ true
      → screen n params ctx tx l ≡ none
      → allowed_in_provisional tx.body.kind ≡ true
  unfolding screen
  screen-allowed ctx tx l p s = elim (Bool-cases (allowed_in_provisional tx.body.kind)) [
    | inl t ↦ t
    | inr f ↦ ground arith
  ]

  -- In a partition only what its grammar allows is taken.
  pub select-check_provisional_grammar :
      (ctx : BlockContext) (i : ℕ) (txs : List Transaction) (l : Ledger)
      → rung_is_provisional ctx.rung ≡ true
      → check_provisional_grammar (map body_of (select n params ctx i txs l).included) ≡ ok tt
  unfolding select check_provisional_grammar include decline screen
  select-check_provisional_grammar ctx i [] l p = refl
  select-check_provisional_grammar ctx i (tx ∷ txs) l p =
      elim (Option-cases (screen n params ctx tx l)) [
        | inr (reason, s) ↦ rw (select, s) (select-check_provisional_grammar ctx (suc i) txs l p)
        | inl s ↦
            let after = (apply n.crypto ctx tx.body l).1 in
            elim (Result-cases (apply n.crypto ctx tx.body l).0) [
              | inl (a, e) ↦
                  rw (select, s, e, check_provisional_grammar, screen-allowed ctx tx l p s)
                    (select-check_provisional_grammar ctx (suc i) txs after p)
              | inr (x, e) ↦
                  rw (select, s, e) (select-check_provisional_grammar ctx (suc i) txs after p)
            ]
      ]
