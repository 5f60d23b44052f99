-- ===== src/State/Ledger/Supply/Margin.antt =====
-- What the margin of an account is worth: it is declared for nothing and paid out in full.
use vanargand.Common.{◌+◌, ◌≡◌, sym, ap, subst, ◌∙◌, some, ok, arith}
use vanargand.Common.Map.{lookup}
use vanargand.Common.Map.Keys.{nat_key}
use vanargand.Common.Map.Laws.{lookup-insert_self}
use vanargand.Types.Amount.{Amount}
use vanargand.Types.Tx.{Crypto, AccountId, AccountEquivocation}
use vanargand.State.Account.{Account}
use vanargand.State.Ledger.{Ledger}
use vanargand.State.Ledger.Change.{set_nomad}
use vanargand.State.Ledger.Kinds.{nomad_set, punish_account_equivocation}
use vanargand.State.Ledger.Replay.{update_account-ok}
use vanargand.State.Ledger.Supply.{IsFiled, supply}
use vanargand.State.Ledger.Supply.Accounts.{set_nomad-native}
use vanargand.State.Ledger.Supply.Kinds.{update_account-even}
use vanargand.State.Ledger.Supply.Crypto.{punish_mints}

set_nomad-margin :
    (credit margin : Amount) (a a' : Account)
    → set_nomad credit margin a ≡ ok a'
    → a'.nomad_margin ≡ margin
unfolding set_nomad
set_nomad-margin credit margin a a' h = ground arith

nomad_set-margin :
    (id : AccountId) (credit margin : Amount) (l l' : Ledger)
    → nomad_set id credit margin l ≡ (ok tt, l')
    → (a : Account) × (lookup id l'.accounts ≡ some a) × (a.nomad_margin ≡ margin)
unfolding nomad_set
nomad_set-margin id credit margin l l' h =
    let (a, a', found, changed, e) = update_account-ok id (set_nomad credit margin) l l' tt h in
    (
      a',
      ap (λ q. lookup id q.accounts) e ∙ lookup-insert_self id a' l.accounts,
      set_nomad-margin credit margin a a' changed,
    )

module _ (crypto : Crypto) where
  -- Declaring a margin and being convicted for it mints: on a ledger whose channels are each filed
  -- once, an account that declares a margin with `nomad_set` leaves the supply (the balances, bonds,
  -- channels, the destroyed VAN and the pot) as it was, and a conviction of the account that
  -- succeeds afterwards raises it by that whole margin.
  pub declared_margin_mints :
      (evidence : AccountEquivocation) (denouncer : AccountId) (credit margin : Amount)
      (l declared convicted : Ledger)
      → IsFiled l
      → nomad_set evidence.first.body.account credit margin l ≡ (ok tt, declared)
      → punish_account_equivocation crypto evidence denouncer declared ≡ (ok tt, convicted)
      → (supply declared ≡ supply l) × (supply convicted ≡ supply l + margin)
  unfolding nomad_set
  declared_margin_mints evidence denouncer credit margin l declared convicted filed set punished =
      let id = evidence.first.body.account in
      let (a, found, held) = nomad_set-margin id credit margin l declared set in
      let moved =
        update_account-even id (set_nomad credit margin) l filed (set_nomad-native credit margin) tt
          (ap (λ p. p.0) set) in
      let after = ap (λ p. p.1) set in
      let level = moved.1 in
      let even : supply declared ≡ supply l = ap supply (sym after) ∙ omega (arith, level) in
      let minted =
        punish_mints crypto evidence denouncer a declared convicted (subst IsFiled after moved.0)
          found punished in
      (even, omega (arith, minted, even, held))
