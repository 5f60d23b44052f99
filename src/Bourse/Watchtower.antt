-- ===== src/Bourse/Watchtower.antt =====
-- vanargand-bourse/src/watchtower.rs: the best token seen for each channel, and what to do about a
-- pending closure.
pub mod Laws
use vanargand.Common.{
  ℕ, Bool, true, false, Option, none, some, ltb, leb, ◌==◌, ◌||◌, if◌then◌else◌, [],
}
use vanargand.Common.Map.{Map, lookup, insert, remove}
use vanargand.Common.Map.Keys.{nat_key}
use vanargand.Types.Tx.{AccountId}
use vanargand.Bourse.Payword.{PayWordToken, max_tranches}
use vanargand.Bourse.Purse.{Purse, PurseId}

pub data Verdict : Type 0 where
  quiet : Verdict
  publish : ℕ → PayWordToken → Verdict
  nothing_better : ℕ → ℕ → Verdict

pub record Watchtower : Type 0 where
  pub owner : Option AccountId
  pub best : Map PurseId PayWordToken

abbrev pub new_watchtower : Watchtower
new_watchtower = record { owner = none; best = [] }

-- The new store, and whether it moved forward.
unfoldable pub observe : Watchtower → PurseId → PayWordToken → Watchtower × Bool
observe w purse token =
    if (token.index == 0) || ltb max_tranches token.index
    then (w, false)
    else elim (lookup purse w.best) [
      | none ↦ (record w { best = insert purse token w.best }, true)
      | some held ↦
          if leb token.index held.index
          then (w, false)
          else (record w { best = insert purse token w.best }, true)
    ]

unfoldable pub forget : Watchtower → PurseId → Watchtower × Option PayWordToken
forget w purse = (record w { best = remove purse w.best }, lookup purse w.best)

-- `Verdict::Dispute` is `publish` here, beside the `dispute` of a channel.
unfoldable pub inspect : Watchtower → PurseId → Purse → Verdict
inspect w purse_id purse = elim purse.closing [
  | none ↦ quiet
  | some pending ↦ elim (lookup purse_id w.best) [
    | none ↦ nothing_better pending.claimed_tranches 0
    | some held ↦
        if ltb pending.claimed_tranches held.index
        then publish held.index held
        else nothing_better pending.claimed_tranches held.index
  ]
]
