-- ===== src/Types/Nonce.antt =====
-- vanargand-types/src/nonce.rs: the nonce (lane, sequence) and the counters of an account's lanes.
-- A lane index is a `u32`, a sequence number a `u64`.
pub mod Laws
use vanargand.Common.{
  ℕ, ◌+◌, ◌^◌, Bool, true, false, Option, none, some, ltb, ◌==◌, ◌&&◌, if◌then◌else◌, bind,
  unwrap_or, not, map, List, [],
}
use vanargand.Common.Map.{Map, lookup, insert}
use vanargand.Common.Map.Keys.{nat_key}
use vanargand.Types.Amount.{checked_add}

abbrev pub u32_bound : ℕ
u32_bound = 2 ^ 32

abbrev pub Lane : Type 0
Lane = ℕ

-- `Lane::next`
unfoldable pub lane_next : Lane → Option Lane
lane_next lane = if ltb (lane + 1) u32_bound then some (lane + 1) else none

pub record Nonce : Type 0 where
  pub lane : Lane
  pub sequence : ℕ

-- `Nonce::next`
unfoldable pub nonce_next : Nonce → Option Nonce
nonce_next n = bind (checked_add n.sequence 1) λ s. some (record { lane = n.lane; sequence = s })

unfoldable pub collides_with : Nonce → Nonce → Bool
collides_with n m = (n.lane == m.lane) && (n.sequence == m.sequence)

pub record LaneState : Type 0 where
  pub next : Map Lane ℕ

abbrev pub new_lanes : LaneState
new_lanes = record { next = [] }

unfoldable pub next_sequence : LaneState → Lane → ℕ
next_sequence s lane = unwrap_or (lookup lane s.next) 0

unfoldable pub accepts : LaneState → Nonce → Bool
accepts s n = n.sequence == next_sequence s n.lane

-- The new counters, and whether the nonce was taken.
unfoldable pub consume : LaneState → Nonce → LaneState × Bool
consume s n = if not (accepts s n) then (s, false) else elim (checked_add n.sequence 1) [
  | none ↦ (s, false)
  | some next ↦ (record { next = insert n.lane next s.next }, true)
]

unfoldable pub restore : LaneState → Lane → ℕ → LaneState
restore s lane next_sequence = record { next = insert lane next_sequence s.next }
