-- ===== src/State/Ledger/Supply/Crypto.antt =====
-- What the handlers that need a digest or a signature do to the supply.
use vanargand.Common.{
  ℕ, ◌+◌, ◌≡◌, refl, ap, sym, subst, ◌∙◌, true, none, some, Result, ok, err, Done, map_err, arith,
  Option-cases, inl, inr,
}
use vanargand.Common.Map.{lookup}
use vanargand.Common.Map.Keys.{nat_key}
use vanargand.Types.Amount.{Amount, is_zero}
use vanargand.Types.Tx.{Crypto, Hash, AccountId, AccountEquivocation, ValidatorEquivocation}
use vanargand.Bourse.Purse.{PurseId}
use vanargand.State.Account.{Account}
use vanargand.State.Recovery.{finalise}
use vanargand.State.Slashing.{
  AccountOffence, ValidatorOffence, split, is_empty, record_account, record_validator,
}
use vanargand.State.Ledger.{
  BlockContext, Ledger, StateError, Action, ◌>>=◌, ◌>>◌, lift, lift_put, lift_with, put_recoveries,
  put_offences, update_account, get_account, credit_entry, purse, recovery, slashing,
}
use vanargand.State.Ledger.Change.{recover, clear_margin, clear_bond}
use vanargand.State.Ledger.Kinds.{
  burn, pay_penalty, purse_close_unilateral, purse_dispute, recovery_finalise, signed_by_any,
  finish_recovery, offence_of, seize_margin, seize_bond, check_accused, convict_account,
  convict_validator, punish_account_equivocation, punish_validator_equivocation,
}
use vanargand.State.Ledger.Supply.{
  IsFiled, supply, Moves, Moves-bind, update_account-Moves, credit_entry-Moves,
}
use vanargand.State.Ledger.Supply.Accounts.{recover-native, clear_margin-native, clear_bond-native}
use vanargand.State.Ledger.Supply.Kinds.{
  put_purses-Moves, lift_put-even, lift_with-even, if-Moves, update_account-even, burn-Moves,
}
use vanargand.State.Ledger.Supply.Channels.{begin-sums, dispute-sums}

split-parts : (seized : Amount) → (split seized).to_denouncer + (split seized).burned ≡ seized
unfolding split
split-parts seized = ground arith

split-empty : (seized : Amount) → is_zero (split seized).seized ≡ true → seized ≡ 0
unfolding split
split-empty seized e = ground arith

-- A seizure that is paid out brings its whole value back into the supply.
pub pay_penalty-Moves :
    (seized : Amount) (denouncer : AccountId) (l : Ledger)
    → IsFiled l
    → Moves l seized 0 (pay_penalty (split seized) denouncer l)
unfolding pay_penalty is_empty
pay_penalty-Moves seized denouncer l h =
    let p = split seized in
    if-Moves (is_zero p.seized) _ _ l seized 0
      (λ empty b e. let none_seized = split-empty seized empty in (h, omega arith))
      λ some_seized.
        Moves-bind (burn p.burned) (λ _. credit_entry denouncer none p.to_denouncer) l p.burned 0
          p.to_denouncer 0 seized 0 (omega (arith, split-parts seized)) (burn-Moves p.burned l h)
          λ a l' e h'. credit_entry-Moves denouncer none p.to_denouncer l' h'

-- Reading an account, or a check, moves nothing.
pub Moves-get :
    {B : Type 0} (id : AccountId) (f : Account → Action B) (l : Ledger) (up down : ℕ)
    → ((a : Account) → lookup id l.accounts ≡ some a → Moves l up down (f a l))
    → Moves l up down ((get_account id >>= f) l)
unfolding get_account
Moves-get id f l up down k b e = elim (Option-cases (lookup id l.accounts)) [
  | inl absent ↦ ground arith
  | inr (a, found) ↦ ground (arith, k a found b)
]

pub Moves-lift :
    {A B : Type 0} (r : Result StateError A) (f : A → Action B) (l : Ledger) (up down : ℕ)
    → ((a : A) → r ≡ ok a → Moves l up down (f a l))
    → Moves l up down ((lift r >>= f) l)
Moves-lift (ok a) f l up down k b e = k a refl b e
Moves-lift (err x) f l up down k b e = ground arith

seize_margin-Moves :
    (offence : AccountOffence) (margin : Amount) (denouncer : AccountId) (l : Ledger)
    → IsFiled l
    → Moves l margin 0 (seize_margin offence margin denouncer l)
unfolding seize_margin
seize_margin-Moves offence margin denouncer l h =
    Moves-bind (lift_put put_offences (map_err slashing (record_account l.offences offence)))
      (λ _. update_account offence.account clear_margin >> pay_penalty (split margin) denouncer) l 0
      0 margin 0 margin 0 (omega arith) (lift_put-even put_offences _ l (λ x. (h, refl)))
      λ a l' e h'.
        Moves-bind (update_account offence.account clear_margin)
          (λ _. pay_penalty (split margin) denouncer) l' 0 0 margin 0 margin 0 (omega arith)
          (update_account-even offence.account clear_margin l' h' clear_margin-native)
          λ a' l'' e' h''. pay_penalty-Moves margin denouncer l'' h''

lift_put-accounts :
    {A : Type 0} (put : A → Ledger → Ledger) (r : Result StateError A) (l l' : Ledger) (a : Done)
    → ((x : A) → (put x l).accounts ≡ l.accounts)
    → lift_put put r l ≡ (ok a, l')
    → l'.accounts ≡ l.accounts
lift_put-accounts put (ok x) l l' a k e = ap (λ p. p.1.accounts) (sym e) ∙ k x
lift_put-accounts put (err x) l l' a k e = ground arith

seize_bond-Moves :
    (offence : ValidatorOffence) (account : Account) (denouncer : AccountId) (l : Ledger)
    → IsFiled l
    → lookup offence.validator l.accounts ≡ some account
    → Moves l 0 0 (seize_bond offence account.bonded denouncer l)
unfolding seize_bond
seize_bond-Moves offence account denouncer l h found =
    let bonded = account.bonded in
    Moves-bind (lift_put put_offences (map_err slashing (record_validator l.offences offence)))
      (λ _. update_account offence.validator clear_bond >> pay_penalty (split bonded) denouncer) l 0
      0 0 0 0 0 (omega arith) (lift_put-even put_offences _ l (λ x. (h, refl)))
      λ a l' e h'.
        let same = lift_put-accounts put_offences _ l l' a (λ x. refl) e in
        Moves-bind (update_account offence.validator clear_bond)
          (λ _. pay_penalty (split bonded) denouncer) l' 0 bonded bonded 0 0 0 (omega arith)
          (update_account-Moves offence.validator clear_bond l' 0 bonded h'
            λ b b' found' cleared. ground (arith, clear_bond-native b b' cleared))
          λ a' l'' e' h''. pay_penalty-Moves bonded denouncer l'' h''

module _ (crypto : Crypto) where
  open crypto use {payword_link, device_id_of}

  pub purse_close_unilateral-Moves :
      (ctx : BlockContext) (id : PurseId) (caller : AccountId) (claimed : ℕ) (token : Hash)
      (l : Ledger)
      → IsFiled l
      → Moves l 0 0 (purse_close_unilateral crypto ctx id caller claimed token l)
  unfolding purse_close_unilateral
  purse_close_unilateral-Moves ctx id caller claimed token l h =
      put_purses-Moves purse _ l 0 0 λ b' begun.
        let sums = begin-sums payword_link l.purses b' id caller claimed _ _ h begun in
        (sums.0, omega arith)

  pub purse_dispute-Moves :
      (id : PurseId) (claimed : ℕ) (token : Hash) (l : Ledger)
      → IsFiled l
      → Moves l 0 0 (purse_dispute crypto id claimed token l)
  unfolding purse_dispute
  purse_dispute-Moves id claimed token l h = put_purses-Moves purse _ l 0 0 λ b' disputed.
      let sums = dispute-sums payword_link l.purses b' id claimed _ h disputed in
      (sums.0, omega arith)

  pub recovery_finalise-Moves :
      (ctx : BlockContext) (target : AccountId) (l : Ledger)
      → IsFiled l
      → Moves l 0 0 (recovery_finalise crypto ctx target l)
  unfolding recovery_finalise get_account finish_recovery finalise
  recovery_finalise-Moves ctx target l h =
      Moves-get target (λ a. finish_recovery crypto ctx target a.guardian_threshold) l 0 0
        λ account found.
          Moves-bind
            (lift_with put_recoveries (
              map_err recovery
                (finalise l.recoveries target account.guardian_threshold ctx.finalized_height)))
            (λ key. update_account target (recover (device_id_of key) key)) l 0 0 0 0 0 0
            (omega arith) (lift_with-even put_recoveries _ l (λ x. (h, refl)))
            λ key l' e h'.
              update_account-even target (recover (device_id_of key) key) l' h'
                (recover-native (device_id_of key) key)

  -- The whole bond of a convicted validator goes to the denouncer and to the fire.
  pub punish_validator_equivocation-Moves :
      (evidence : ValidatorEquivocation) (denouncer : AccountId) (l : Ledger)
      → IsFiled l
      → Moves l 0 0 (punish_validator_equivocation crypto evidence denouncer l)
  unfolding punish_validator_equivocation convict_validator
  punish_validator_equivocation-Moves evidence denouncer l h =
      Moves-get evidence.validator (convict_validator crypto evidence denouncer) l 0 0
        λ account found.
          if-Moves (signed_by_any crypto evidence account.devices)
            (seize_bond _ account.bonded denouncer) _ l 0 0
            (λ signed. seize_bond-Moves _ account denouncer l h found)
            (λ unsigned b e. ground arith)

  -- The margin that a convicted account declared goes to the denouncer and to the fire, and was
  -- never taken from a balance: the supply grows by it.
  pub punish_account_equivocation-Moves :
      (evidence : AccountEquivocation) (denouncer : AccountId) (account : Account) (l : Ledger)
      → IsFiled l
      → lookup evidence.first.body.account l.accounts ≡ some account
      → Moves l account.nomad_margin 0 (punish_account_equivocation crypto evidence denouncer l)
  unfolding punish_account_equivocation convict_account
  punish_account_equivocation-Moves evidence denouncer account l h found =
      Moves-get evidence.first.body.account (convict_account crypto evidence denouncer) l
        account.nomad_margin 0
        λ account' found'.
          Moves-lift (check_accused crypto evidence account')
            (λ _. seize_margin (offence_of evidence) account'.nomad_margin denouncer) l
            account.nomad_margin 0
            λ a passed.
              let same : account'.nomad_margin ≡ account.nomad_margin = ground arith in
              subst
                (λ n.
                  Moves l n 0
                    (seize_margin (offence_of evidence) account'.nomad_margin denouncer l))
                same (seize_margin-Moves (offence_of evidence) account'.nomad_margin denouncer l h)

  -- Once a conviction of an account succeeds, on a ledger whose channels are each filed once, the
  -- supply is larger than before by the margin that the account holds.
  pub punish_mints :
      (evidence : AccountEquivocation) (denouncer : AccountId) (account : Account) (l l' : Ledger)
      → IsFiled l
      → lookup evidence.first.body.account l.accounts ≡ some account
      → punish_account_equivocation crypto evidence denouncer l ≡ (ok tt, l')
      → supply l' ≡ supply l + account.nomad_margin
  punish_mints evidence denouncer account l l' h found e =
      let moved =
        punish_account_equivocation-Moves evidence denouncer account l h found tt
          (ap (λ p. p.0) e) in
      ground (arith, e, moved)
