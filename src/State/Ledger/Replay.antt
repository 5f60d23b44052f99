-- ===== src/State/Ledger/Replay.antt =====
-- A slot is used at most once: what a transaction that was applied leaves of its lane.
use vanargand.Common.{
  ◌+◌, ◌≡◌, refl, sym, ap, ◌∙◌, true, false, some, Result, ok, err, Done, arith, Option-cases,
  Result-cases, Bool-cases, inl, inr,
}
use vanargand.Common.Map.{lookup}
use vanargand.Common.Map.Keys.{nat_key}
use vanargand.Common.Map.Laws.{lookup-insert_self}
use vanargand.Types.Amount.{Amount, fee_split_of}
use vanargand.Types.Nonce.{Lane, Nonce, LaneState, next_sequence, accepts, consume, collides_with}
use vanargand.Types.Nonce.Laws.{consume_lem}
use vanargand.Types.Tx.{Crypto, AccountId, DeviceId, TxBody}
use vanargand.State.Account.{Account}
use vanargand.State.Ledger.{
  BlockContext, Applied, Ledger, StateError, Action, ◌>>=◌, ◌>>◌, pure, update_account, put_account,
}
use vanargand.State.Ledger.Change.{consume_nonce, spend_nomad}
use vanargand.State.Ledger.Kinds.Dispatch.{apply_kind}
use vanargand.State.Ledger.Apply.{
  Admitted, check_authority, check_all, charge_fee, close_tx, execute, apply_in_place, apply,
}
use vanargand.State.Ledger.Atomic.{apply-ok}

bind-pair :
    {A B : Type 0} (f : A → Action B) (p : Result StateError A × Ledger) (b : B) (l' : Ledger)
    → elim p.0 [ ok a ↦ f a p.1 | err e ↦ (err e, p.1) ] ≡ (ok b, l')
    → (a : A) × (k : Ledger) × (p ≡ (ok a, k)) × (f a k ≡ (ok b, l'))
bind-pair f (ok a, k) b l' h = (a, k, refl, h)
bind-pair f (err e, k) b l' h = ground arith

-- Two steps that succeeded: the first one did, and then the second.
pub bind-ok :
    {A B : Type 0} (m : Action A) (f : A → Action B) (l : Ledger) (b : B) (l' : Ledger)
    → (m >>= f) l ≡ (ok b, l')
    → (a : A) × (k : Ledger) × (m l ≡ (ok a, k)) × (f a k ≡ (ok b, l'))
bind-ok m f l b l' h = bind-pair f (m l) b l' h

pub update_account-ok :
    (id : AccountId) (f : Account → Result StateError Account) (l l' : Ledger) (d : Done)
    → update_account id f l ≡ (ok d, l')
    → (a : Account) × (a' : Account) × (lookup id l.accounts ≡ some a)
      × (f a ≡ ok a')
      × (l' ≡ put_account id a' l)
unfolding update_account
update_account-ok id f l l' d h = elim (Option-cases (lookup id l.accounts)) [
  | inl absent ↦ ground arith
  | inr (a, found) ↦ elim (Result-cases (f a)) [
    | inl (a', changed) ↦ (a, a', found, changed, ground arith)
    | inr (x, failed) ↦ ground arith
  ]
]

consume_nonce-lanes :
    (lane : Lane) (nonce : Nonce) (a a' : Account)
    → consume_nonce lane nonce a ≡ ok a'
    → next_sequence a'.lanes nonce.lane ≡ nonce.sequence + 1
unfolding consume_nonce
consume_nonce-lanes lane nonce a a' h = elim (Bool-cases (consume a.lanes nonce).1) [
  | inl taken ↦ ground (arith, ((consume_lem a.lanes nonce).0 taken).2)
  | inr refused ↦ ground arith
]

spend_nomad-lanes :
    (id : DeviceId) (consumed : Amount) (a a' : Account)
    → spend_nomad id consumed a ≡ ok a'
    → a'.lanes ≡ a.lanes
unfolding spend_nomad
spend_nomad-lanes id consumed a a' h = ground arith

-- Whatever the transaction did, its account is there afterwards, and the lane waits for the
-- successor of the nonce.
close_tx-lanes :
    (body : TxBody) (lane : Lane) (id : DeviceId) (consumed : Amount) (l l' : Ledger)
    (applied : Applied)
    → close_tx body lane id consumed l ≡ (ok applied, l')
    → (a : Account) × (lookup body.account l'.accounts ≡ some a)
      × (next_sequence a.lanes body.nonce.lane ≡ body.nonce.sequence + 1)
unfolding close_tx
close_tx-lanes body lane id consumed l l' applied h =
    let x : Applied = record { fee = fee_split_of body.fee; nomad_consumed = consumed } in
    let spend = update_account body.account (spend_nomad id consumed) in
    let (d, k, took, rest) =
      bind-ok (update_account body.account (consume_nonce lane body.nonce)) (λ _. spend >> pure x) l
        applied l' h in
    let (d', k', spent, last) = bind-ok spend (λ _. pure x) k applied l' rest in
    let (a, a', found, consumed_nonce, e) = update_account-ok body.account _ l k d took in
    let (b, b', found', spent_nomad, e') = update_account-ok body.account _ k k' d' spent in
    let there : lookup body.account l'.accounts ≡ some b' =
      ap (λ p. lookup body.account p.1.accounts) (sym last)
      ∙ ap (λ q. lookup body.account q.accounts) e'
      ∙ lookup-insert_self body.account b' k.accounts in
    let here : lookup body.account k.accounts ≡ some a' =
      ap (λ q. lookup body.account q.accounts) e ∙ lookup-insert_self body.account a' l.accounts in
    let same : b ≡ a' = ground (arith, here, found') in
    (
      b',
      there,
      ap (λ s. next_sequence s body.nonce.lane)
            (spend_nomad-lanes id consumed b b' spent_nomad ∙ ap (λ q. q.lanes) same)
          ∙ consume_nonce-lanes lane body.nonce a a' consumed_nonce,
    )

slot-stale :
    (n n' : Nonce) (s : LaneState)
    → next_sequence s n.lane ≡ n.sequence + 1
    → collides_with n n' ≡ true
    → accepts s n' ≡ false
unfolding collides_with accepts next_sequence
slot-stale n n' s next same = ground arith

-- A nonce that is not the next of its lane fails the checks.
pub check_all-slot :
    (ctx : BlockContext) (body : TxBody) (l : Ledger) (a : Account)
    → lookup body.account l.accounts ≡ some a
    → accepts a.lanes body.nonce ≡ false
    → (e : StateError) × (check_all ctx body l ≡ err e)
unfolding check_all check_authority
check_all-slot ctx body l a found stale = elim (Result-cases (check_all ctx body l)) [
  | inl (m, passed) ↦ ground arith
  | inr (e, refused) ↦ (e, refused)
]

module _ (crypto : Crypto) where
  execute-lanes :
      (ctx : BlockContext) (body : TxBody) (m : Admitted) (l l' : Ledger) (applied : Applied)
      → execute crypto ctx body m.lane m.device_id m.consumed l ≡ (ok applied, l')
      → (a : Account) × (lookup body.account l'.accounts ≡ some a)
        × (next_sequence a.lanes body.nonce.lane ≡ body.nonce.sequence + 1)
  unfolding execute
  execute-lanes ctx body m l l' applied h =
      let last = close_tx body m.lane m.device_id m.consumed in
      let charge = charge_fee ctx body (fee_split_of body.fee) in
      let (d, k, charged, rest) =
        bind-ok charge (λ _. apply_kind crypto ctx body body.kind >> last) l applied l' h in
      let (d', k', done, rest') =
        bind-ok (apply_kind crypto ctx body body.kind) (λ _. last) k applied l' rest in
      close_tx-lanes body m.lane m.device_id m.consumed k' l' applied rest'

  -- A transaction is applied at most once: once a transaction is applied, any transaction of the
  -- same account in the same slot, itself included, is refused by the resulting ledger, in any
  -- block, and leaves it as it was.
  pub apply_once :
      (ctx ctx' : BlockContext) (body body' : TxBody) (l l' : Ledger) (applied : Applied)
      → apply crypto ctx body l ≡ (ok applied, l')
      → body'.account ≡ body.account
      → collides_with body.nonce body'.nonce ≡ true
      → (e : StateError) × (apply crypto ctx' body' l' ≡ (err e, l'))
  unfolding apply apply_in_place
  apply_once ctx ctx' body body' l l' applied h same slot =
      let (m, passed, done) = apply-ok crypto ctx body l l' applied h in
      let (a, there, next) = execute-lanes ctx body m l l' applied done in
      let (e, refused) =
        check_all-slot ctx' body' l' a (ap (λ x. lookup x l'.accounts) same ∙ there)
          (slot-stale body.nonce body'.nonce a.lanes next slot) in
      (e, ground (arith, refused))
