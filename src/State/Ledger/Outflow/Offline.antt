-- ===== src/State/Ledger/Outflow/Offline.antt =====
-- What a transaction of a partition costs its account, and the share of the device that signed it.
use vanargand.Common.{
  ◌+◌, ◌≤◌, ◌≡◌, ◌⊎◌, refl, sym, ap, subst, ◌∙◌, none, some, ok, arith, inl, inr, Option-cases,
  Bool-cases,
}
use vanargand.Common.Map.{lookup}
use vanargand.Common.Map.Keys.{nat_key}
use vanargand.Common.Map.Laws.{lookup-insert_self}
use vanargand.Types.Amount.{Amount, fee_split_of, is_zero}
use vanargand.Types.Nonce.{Lane, Nonce}
use vanargand.Types.Tx.{Crypto, DeviceId, TxBody}
use vanargand.Types.Tx.Grammar.{IsOffline, allowed_iff}
use vanargand.Types.Window.{FinalityRung}
use vanargand.State.Account.{Account, Device, balance, nomad_remaining}
use vanargand.State.Ledger.{BlockContext, Applied, Ledger, ◌>>◌, pure, update_account}
use vanargand.State.Ledger.Change.{consume_nonce, spend_nomad}
use vanargand.State.Ledger.Kinds.Dispatch.{apply_kind}
use vanargand.State.Ledger.Apply.{
  Admitted, is_provisional, check_all, check_authority, extra_outflow, charge_fee, close_tx,
  execute, apply,
}
use vanargand.State.Ledger.Atomic.{apply-ok}
use vanargand.State.Ledger.Replay.{bind-ok, update_account-ok}
use vanargand.State.Ledger.Admission.{check_all-nomad, execute-consumed}
use vanargand.State.Ledger.Outflow.{Pays-trans}
use vanargand.State.Ledger.Outflow.Kinds.{charge_fee-Paying, apply_kind-Paying}

consume_nonce-rest :
    (lane : Lane) (nonce : Nonce) (a a' : Account)
    → consume_nonce lane nonce a ≡ ok a'
    → (a'.devices ≡ a.devices) × (balance a' none ≡ balance a none)
unfolding consume_nonce balance
consume_nonce-rest lane nonce a a' h = ground arith

-- The credit that is consumed is written to the device.
IsSpent : DeviceId → Device → Amount → Account → Type 0
IsSpent id d consumed a' =
    (d' : Device) × (lookup id a'.devices ≡ some d')
    × (d'.nomad_spent ≡ d.nomad_spent + consumed)
    × (d'.nomad_share ≡ d.nomad_share)

spend_nomad-IsSpent :
    (id : DeviceId) (consumed : Amount) (d : Device) (a a' : Account)
    → lookup id a.devices ≡ some d
    → spend_nomad id consumed a ≡ ok a'
    → IsSpent id d consumed a' × (balance a' none ≡ balance a none)
unfolding spend_nomad IsSpent balance
spend_nomad-IsSpent id consumed d a a' known h = elim (Bool-cases (is_zero consumed)) [
  | inl nothing ↦
      let same : a ≡ a' = ground arith in
      (
        (d, ap (λ q. lookup id q.devices) (sym same) ∙ known, ground arith, refl),
        ap (λ q. balance q none) (sym same),
      )
  | inr something ↦
      let spent : Device = record d { nomad_spent = d.nomad_spent + consumed } in
      (
        (spent, ground (arith, known, lookup-insert_self id spent a.devices), refl, refl),
        ground (arith, known),
      )
]

close_tx-IsSpent :
    (body : TxBody) (lane : Lane) (id : DeviceId) (consumed : Amount) (l l' : Ledger)
    (applied : Applied) (a : Account) (d : Device)
    → lookup body.account l.accounts ≡ some a
    → lookup id a.devices ≡ some d
    → close_tx body lane id consumed l ≡ (ok applied, l')
    → (a' : Account) × (lookup body.account l'.accounts ≡ some a')
      × IsSpent id d consumed a'
      × (balance a' none ≡ balance a none)
unfolding close_tx
close_tx-IsSpent body lane id consumed l l' applied a d found known h =
    let x : Applied = record { fee = fee_split_of body.fee; nomad_consumed = consumed } in
    let spend = update_account body.account (spend_nomad id consumed) in
    let (t, k, took, rest) =
      bind-ok (update_account body.account (consume_nonce lane body.nonce)) (λ _. spend >> pure x) l
        applied l' h in
    let (t', k', spent, last) = bind-ok spend (λ _. pure x) k applied l' rest in
    let (b, b', found_b, consumed_nonce, e) = update_account-ok body.account _ l k t took in
    let (c, c', found_c, spent_nomad, e') = update_account-ok body.account _ k k' t' spent in
    let there : lookup body.account l'.accounts ≡ some c' =
      ap (λ p. lookup body.account p.1.accounts) (sym last)
      ∙ ap (λ q. lookup body.account q.accounts) e'
      ∙ lookup-insert_self body.account c' k.accounts in
    let here : lookup body.account k.accounts ≡ some b' =
      ap (λ q. lookup body.account q.accounts) e ∙ lookup-insert_self body.account b' l.accounts in
    let same_a : b ≡ a = ground (arith, found, found_b) in
    let same_b : c ≡ b' = ground (arith, here, found_c) in
    let (devices, kept) = consume_nonce-rest lane body.nonce b b' consumed_nonce in
    let known_c : lookup id c.devices ≡ some d =
      ap (λ q. lookup id q.devices) same_b
      ∙ ap (λ q. lookup id q) devices
      ∙ ap (λ q. lookup id q.devices) same_a
      ∙ known in
    let (written, level) = spend_nomad-IsSpent id consumed d c c' known_c spent_nomad in
    (
      c',
      there,
      written,
      level ∙ ap (λ q. balance q none) same_b ∙ kept ∙ ap (λ q. balance q none) same_a,
    )

check_all-device :
    (ctx : BlockContext) (body : TxBody) (l : Ledger) (m : Admitted)
    → check_all ctx body l ≡ ok m
    → m.device_id ≡ body.device
unfolding check_all check_authority
check_all-device ctx body l m h = elim (Option-cases (lookup body.account l.accounts)) [
  | inl absent ↦ ground arith
  | inr (a, found) ↦ elim (Option-cases (lookup body.device a.devices)) [
    | inl unknown ↦ ground arith
    | inr (d, known) ↦ ground arith
  ]
]

within_share :
    (d : Device) (n : Amount)
    → n ≤ nomad_remaining d
    → (n ≡ 0) ⊎ (d.nomad_spent + n ≤ d.nomad_share)
unfolding nomad_remaining
within_share d n h = ground arith

module _ (crypto : Crypto) where
  execute-IsSpent :
      (ctx : BlockContext) (body : TxBody) (m : Admitted) (l l' : Ledger) (applied : Applied)
      (a : Account) (d : Device)
      → IsOffline body.kind
      → lookup body.account l.accounts ≡ some a
      → lookup m.device_id a.devices ≡ some d
      → execute crypto ctx body m.lane m.device_id m.consumed l ≡ (ok applied, l')
      → (a' : Account) × (lookup body.account l'.accounts ≡ some a')
        × IsSpent m.device_id d m.consumed a'
        × (balance a none ≤ balance a' none + (body.fee + extra_outflow body.kind))
  unfolding execute
  execute-IsSpent ctx body m l l' applied a d offline found known h =
      let last = close_tx body m.lane m.device_id m.consumed in
      let charge = charge_fee ctx body (fee_split_of body.fee) in
      let (t, k, charged, rest) =
        bind-ok charge (λ _. apply_kind crypto ctx body body.kind >> last) l applied l' h in
      let (t', k', done, rest') =
        bind-ok (apply_kind crypto ctx body body.kind) (λ _. last) k applied l' rest in
      let paid =
        Pays-trans body.account body.fee (extra_outflow body.kind) l k k'
          (charge_fee-Paying body.account ctx body (fee_split_of body.fee) l k t charged)
          (apply_kind-Paying crypto body.account ctx body body.kind offline k k' t' done) in
      let (b, here, devices, left) = paid a found in
      let (c, there, spent, level) =
        close_tx-IsSpent body m.lane m.device_id m.consumed k' l' applied b d here
          (ap (λ q. lookup m.device_id q) devices ∙ known) rest' in
      (c, there, spent, omega (arith, left, level))

  -- What a partition lets through: a transaction that is applied in a provisional block is a
  -- transfer, the opening of a channel or a cooperative closure. The offline credit that it
  -- consumes is its fee and what `extra_outflow` counts, which is at least all the VAN by which the
  -- balance of its account falls; it is nothing or within the share of the device that signed, together with
  -- what that device had spent before; and it is added to what the device has spent, while the share
  -- stays as it was.
  pub apply-IsOffline :
      (ctx : BlockContext) (body : TxBody) (l l' : Ledger) (applied : Applied) (a : Account)
      (d : Device)
      → apply crypto ctx body l ≡ (ok applied, l')
      → ctx.rung ≡ FinalityRung.provisional
      → lookup body.account l.accounts ≡ some a
      → lookup body.device a.devices ≡ some d
      → IsOffline body.kind
        × (applied.nomad_consumed ≡ body.fee + extra_outflow body.kind)
        × ((applied.nomad_consumed ≡ 0) ⊎ (d.nomad_spent + applied.nomad_consumed ≤ d.nomad_share))
        × (a' : Account) × (d' : Device) × (lookup body.account l'.accounts ≡ some a')
        × (lookup body.device a'.devices ≡ some d')
        × (balance a none ≤ balance a' none + applied.nomad_consumed)
        × (d'.nomad_spent ≡ d.nomad_spent + applied.nomad_consumed)
        × (d'.nomad_share ≡ d.nomad_share)
  unfolding IsSpent
  apply-IsOffline ctx body l l' applied a d h p found known =
      let (m, passed, done) = apply-ok crypto ctx body l l' applied h in
      let same =
        ap (λ x. x.nomad_consumed) (execute-consumed crypto ctx body m l l' applied done) in
      let (allowed, whole, within) =
        check_all-nomad ctx body l m a d passed (ap is_provisional p) found known in
      let offline = (allowed_iff body.kind).0 allowed in
      let signer = check_all-device ctx body l m passed in
      let (a', there, (d', listed, spent, share), left) =
        execute-IsSpent ctx body m l l' applied a d offline found
          (ap (λ i. lookup i a.devices) signer ∙ known) done in
      (
        offline,
        same ∙ whole,
        within_share d applied.nomad_consumed
            (subst (λ n. n ≤ nomad_remaining d) (sym same) within),
        a',
        d',
        there,
        ap (λ i. lookup i a'.devices) (sym signer) ∙ listed,
        omega (arith, left, same, whole),
        omega (arith, spent, same),
        share,
      )
