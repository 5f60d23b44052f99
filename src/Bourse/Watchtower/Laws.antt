-- ===== src/Bourse/Watchtower/Laws.antt =====
-- A watchtower keeps the best token, and what it publishes defeats a stale closure.
use vanargand.Common.{
  ℕ, ◌≤◌, ◌<◌, ◌≡◌, true, false, none, some, ok, arith, Option-cases, inl, inr, ◌⊎◌,
}
use vanargand.Common.Map.{lookup}
use vanargand.Common.Map.Keys.{nat_key}
use vanargand.Common.Map.Laws.{lookup-insert}
use vanargand.Types.Tx.{Hash}
use vanargand.Types.Window.{has_elapsed}
use vanargand.Bourse.Payword.{PayWordToken, max_tranches, verify_against_root}
use vanargand.Bourse.Purse.{Purse, PurseId, PendingClosure, settle, check_claim, dispute}
use vanargand.Bourse.Watchtower.{Watchtower, publish, observe, inspect}

-- The index of the token that is held for a channel, 0 for none.
abbrev pub held_index : Watchtower → PurseId → ℕ
held_index w purse = elim (lookup purse w.best) [ none ↦ 0 | some t ↦ t.index ]

-- Observing a token never lowers what is held for any channel. It is stored exactly when its index
-- is within the longest chain and larger than the one that is held, and the store is otherwise
-- unchanged.
pub observe_best :
    (w : Watchtower) (purse other : PurseId) (token : PayWordToken)
    → (held_index w other ≤ held_index (observe w purse token).0 other)
      × ((observe w purse token).1 ≡ true
          → (held_index w purse < token.index)
            × (token.index ≤ max_tranches)
            × (lookup purse (observe w purse token).0.best ≡ some token))
      × ((observe w purse token).1 ≡ false
          → ((observe w purse token).0 ≡ w)
            × ((token.index ≤ held_index w purse) ⊎ (max_tranches < token.index)))
unfolding observe
observe_best w purse other token = elim (Option-cases (lookup purse w.best)) [
  | inl empty ↦ (
    ground (arith, empty, lookup-insert purse other token w.best),
    λ stored. ground (arith, empty, lookup-insert purse purse token w.best),
    λ refused. ground (arith, empty),
  )
  | inr (held, found) ↦ (
    ground (arith, found, lookup-insert purse other token w.best),
    λ stored. ground (arith, found, lookup-insert purse purse token w.best),
    λ refused. ground (arith, found),
  )
]

module _ (link : Hash → Hash) where
  -- A watchtower that holds a genuine token, within the capacity of the channel and larger than a
  -- pending claim, says to publish it; the
  -- dispute with that token succeeds, and once the window has elapsed the payee is paid the whole
  -- deposit.
  pub inspect-dispute :
      (w : Watchtower) (id : PurseId) (p : Purse) (pending : PendingClosure) (held : PayWordToken)
      (height : ℕ)
      → p.closing ≡ some pending
      → lookup id w.best ≡ some held
      → pending.claimed_tranches < held.index
      → held.index ≤ p.capacity
      → verify_against_root link p.payword_root held ≡ ok tt
      → has_elapsed pending.window height ≡ true
      → (disputed : Purse) × (inspect w id p ≡ publish held.index held)
        × (dispute link p held.index held ≡ ok disputed)
        × (settle disputed height ≡ ok (record { to_payer = 0; to_payee = p.deposit }))
  unfolding inspect dispute check_claim settle
  inspect-dispute w id p pending held height closing best better within good elapsed = (
    record p { closing = some (record pending { claimed_tranches = held.index; disputed = true }) },
    ground arith,
    ground arith,
    ground arith,
  )
