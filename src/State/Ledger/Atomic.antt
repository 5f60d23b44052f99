-- ===== src/State/Ledger/Atomic.antt =====
-- `apply` is all or nothing.
use vanargand.Common.{◌≡◌, ok, err, arith, Result-cases, inl, inr}
use vanargand.Types.Tx.{Crypto, TxBody}
use vanargand.State.Ledger.{BlockContext, Applied, Ledger, StateError}
use vanargand.State.Ledger.Apply.{Admitted, check_all, execute, apply_in_place, apply}

module _ (crypto : Crypto) where
  -- A transaction that fails leaves the ledger exactly as it was, the fee and the nonce included.
  pub apply_atomic :
      (ctx : BlockContext) (body : TxBody) (l : Ledger) (e : StateError)
      → (apply crypto ctx body l).0 ≡ err e
      → (apply crypto ctx body l).1 ≡ l
  unfolding apply
  apply_atomic ctx body l e h = elim (Result-cases (apply_in_place crypto ctx body l).0) [
    | inl (a, done) ↦ ground arith
    | inr (x, failed) ↦ ground arith
  ]

  -- What was applied passed every check on the ledger it met, and was executed.
  pub apply-ok :
      (ctx : BlockContext) (body : TxBody) (l l' : Ledger) (applied : Applied)
      → apply crypto ctx body l ≡ (ok applied, l')
      → (admitted : Admitted) × (check_all ctx body l ≡ ok admitted)
        × (execute crypto ctx body admitted.lane admitted.device_id admitted.consumed l
            ≡ (ok applied, l'))
  unfolding apply apply_in_place
  apply-ok ctx body l l' applied h = elim (Result-cases (check_all ctx body l)) [
    | inl (m, passed) ↦
        elim (Result-cases (execute crypto ctx body m.lane m.device_id m.consumed l).0) [
          | inl (a, done) ↦ (m, passed, ground arith)
          | inr (x, failed) ↦ ground arith
        ]
    | inr (x, refused) ↦ ground arith
  ]
