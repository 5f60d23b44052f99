-- ===== src/State/Ledger/Admission.antt =====
-- What a transaction has met when it is applied, and the handlers that the guards of a partition
-- and of a bond protect.
use vanargand.Common.{
  ℕ, Option, none, ◌⊎◌, refl, ◌+◌, ◌≤◌, ◌≡◌, ap, true, false, some, ok, arith, Option-cases, inl,
  inr,
}
use vanargand.Common.Map.{lookup, contains}
use vanargand.Common.Map.Keys.{nat_key}
use vanargand.Types.Amount.{fee_split_of}
use vanargand.Types.Nonce.{next_sequence, accepts}
use vanargand.Types.Tx.{Crypto, TxBody}
use vanargand.Types.Tx.Grammar.{tx_version, allowed_in_provisional}
use vanargand.State.Account.{Account, Device, nomad_remaining}
use vanargand.State.Ledger.{BlockContext, Applied, Ledger, ◌>>◌, pure, update_account}
use vanargand.State.Ledger.Apply.{
  Admitted, is_past, is_provisional, check_envelope, check_authority, extra_outflow, native_outflow,
  check_nomad, nomad_consumption, check_all, charge_fee, close_tx, execute, apply,
}
use vanargand.State.Ledger.Change.{consume_nonce, spend_nomad}
use vanargand.State.Ledger.Kinds.Dispatch.{apply_kind}
use vanargand.State.Ledger.Atomic.{apply-ok}
use vanargand.State.Ledger.Replay.{bind-ok}

-- What the checks that passed say of the body and of the account.
check_all-ok :
    (ctx : BlockContext) (body : TxBody) (l : Ledger) (m : Admitted)
    → check_all ctx body l ≡ ok m
    → (body.version ≡ tx_version)
      × (body.chain ≡ ctx.chain)
      × (is_past body.valid_until_finalized ctx.finalized_height ≡ false)
      × (a : Account) × (d : Device) × (lookup body.account l.accounts ≡ some a)
      × (contains body.device a.revoked_devices ≡ false)
      × (lookup body.device a.devices ≡ some d)
      × (d.lane ≡ body.nonce.lane)
      × (body.nonce.sequence ≡ next_sequence a.lanes body.nonce.lane)
unfolding check_all check_envelope check_authority accepts
check_all-ok ctx body l m h = elim (Option-cases (lookup body.account l.accounts)) [
  | inl absent ↦ ground arith
  | inr (a, found) ↦ elim (Option-cases (lookup body.device a.devices)) [
    | inl unknown ↦ ground arith
    | inr (d, known) ↦ (
      ground arith,
      ground arith,
      ground arith,
      a,
      d,
      found,
      ground arith,
      known,
      ground arith,
      ground arith,
    )
  ]
]

-- In a partition the offline credit that is consumed is the whole outflow, within what is left.
pub check_all-nomad :
    (ctx : BlockContext) (body : TxBody) (l : Ledger) (m : Admitted) (a : Account) (d : Device)
    → check_all ctx body l ≡ ok m
    → is_provisional ctx.rung ≡ true
    → lookup body.account l.accounts ≡ some a
    → lookup body.device a.devices ≡ some d
    → (allowed_in_provisional body.kind ≡ true)
      × (m.consumed ≡ body.fee + extra_outflow body.kind)
      × (m.consumed ≤ nomad_remaining d)
unfolding check_all check_envelope check_authority native_outflow nomad_consumption check_nomad
check_all-nomad ctx body l m a d h p found known = ground arith

check_all-settled :
    (ctx : BlockContext) (body : TxBody) (l : Ledger) (m : Admitted)
    → check_all ctx body l ≡ ok m
    → is_provisional ctx.rung ≡ false
    → m.consumed ≡ 0
unfolding check_all native_outflow nomad_consumption
check_all-settled ctx body l m h p = ground arith

close_tx-consumed :
    (body : TxBody) (m : Admitted) (l l' : Ledger) (applied : Applied)
    → close_tx body m.lane m.device_id m.consumed l ≡ (ok applied, l')
    → applied ≡ record { fee = fee_split_of body.fee; nomad_consumed = m.consumed }
unfolding close_tx
close_tx-consumed body m l l' applied h =
    let x : Applied = record { fee = fee_split_of body.fee; nomad_consumed = m.consumed } in
    let spend = update_account body.account (spend_nomad m.device_id m.consumed) in
    let (d, k, took, rest) =
      bind-ok (update_account body.account (consume_nonce m.lane body.nonce)) (λ _. spend >> pure x)
        l applied l' h in
    let (d', k', spent, last) = bind-ok spend (λ _. pure x) k applied l' rest in
    ground (arith, last)

module _ (crypto : Crypto) where
  pub execute-consumed :
      (ctx : BlockContext) (body : TxBody) (m : Admitted) (l l' : Ledger) (applied : Applied)
      → execute crypto ctx body m.lane m.device_id m.consumed l ≡ (ok applied, l')
      → applied ≡ record { fee = fee_split_of body.fee; nomad_consumed = m.consumed }
  unfolding execute
  execute-consumed ctx body m l l' applied h =
      let last = close_tx body m.lane m.device_id m.consumed in
      let charge = charge_fee ctx body (fee_split_of body.fee) in
      let (d, k, charged, rest) =
        bind-ok charge (λ _. apply_kind crypto ctx body body.kind >> last) l applied l' h in
      let (d', k', done, rest') =
        bind-ok (apply_kind crypto ctx body body.kind) (λ _. last) k applied l' rest in
      close_tx-consumed body m k' l' applied rest'

  not_expired :
      (until : Option ℕ) (height : ℕ)
      → is_past until height ≡ false
      → (until ≡ none) ⊎ ((last : ℕ) × (until ≡ some last) × (height ≤ last))
  unfolding is_past
  not_expired none height h = inl refl
  not_expired (some last) height h = inr (last, refl, ground arith)

  -- A transaction that is applied has the version of this program, is of the chain of the block,
  -- is valid for ever or until a finalised height that is not past yet, and comes from a device that its account knows and has
  -- not revoked, on the lane of that device, with the next sequence number of the lane. The fee is
  -- split as `FeeSplit::of` says.
  pub apply-admitted :
      (ctx : BlockContext) (body : TxBody) (l l' : Ledger) (applied : Applied)
      → apply crypto ctx body l ≡ (ok applied, l')
      → (body.version ≡ tx_version)
        × (body.chain ≡ ctx.chain)
        × ((body.valid_until_finalized ≡ none)
            ⊎ ((until : ℕ) × (body.valid_until_finalized ≡ some until)
                × (ctx.finalized_height ≤ until)))
        × (applied.fee ≡ fee_split_of body.fee)
        × (a : Account) × (d : Device) × (lookup body.account l.accounts ≡ some a)
        × (contains body.device a.revoked_devices ≡ false)
        × (lookup body.device a.devices ≡ some d)
        × (d.lane ≡ body.nonce.lane)
        × (body.nonce.sequence ≡ next_sequence a.lanes body.nonce.lane)
  apply-admitted ctx body l l' applied h =
      let (m, passed, done) = apply-ok crypto ctx body l l' applied h in
      let c = check_all-ok ctx body l m passed in
      let fee = ap (λ x. x.fee) (execute-consumed ctx body m l l' applied done) in
      (
        c.0,
        c.1,
        not_expired body.valid_until_finalized ctx.finalized_height c.2,
        fee,
        c.3,
        c.4,
        c.5,
        c.6,
        c.7,
        c.8,
        c.9,
      )
