-- ===== src/Types/Nonce/Laws.antt =====
-- A lane is strictly sequential: a nonce is taken once, and taking it moves its own lane only.
use vanargand.Common.{◌+◌, ◌<◌, ◌≡◌, ◌≢◌, true, false, arith}
use vanargand.Common.Map.Keys.{nat_key}
use vanargand.Common.Map.Laws.{lookup-insert}
use vanargand.Types.Amount.{u64_bound}
use vanargand.Types.Nonce.{Lane, Nonce, LaneState, next_sequence, accepts, consume, collides_with}

-- A nonce is taken exactly when it is the next of its lane and its successor fits 64 bits; then
-- its lane waits for the successor and every other lane waits for what it did. A refused nonce
-- changes nothing.
pub consume_lem :
    (s : LaneState) (n : Nonce)
    → ((consume s n).1 ≡ true
        → (n.sequence ≡ next_sequence s n.lane)
          × (n.sequence + 1 < u64_bound)
          × (next_sequence (consume s n).0 n.lane ≡ n.sequence + 1)
          × ((lane : Lane)
              → lane ≢ n.lane
              → next_sequence (consume s n).0 lane ≡ next_sequence s lane))
      × ((consume s n).1 ≡ false → (consume s n).0 ≡ s)
      × (n.sequence ≡ next_sequence s n.lane → n.sequence + 1 < u64_bound → (consume s n).1 ≡ true)
unfolding consume accepts next_sequence
consume_lem s n = (
  λ taken. (
    ground arith,
    ground arith,
    ground (arith, lookup-insert n.lane n.lane (n.sequence + 1) s.next),
    λ lane ne. ground (arith, lookup-insert n.lane lane (n.sequence + 1) s.next),
  ),
  λ refused. ground arith,
  λ next fits. ground arith,
)

-- A nonce that was taken is never the next of its lane again: the same slot cannot be used twice.
pub consume_once :
    (s : LaneState) (n m : Nonce)
    → (consume s n).1 ≡ true
    → collides_with n m ≡ true
    → (accepts (consume s n).0 m ≡ false) × (consume (consume s n).0 m ≡ ((consume s n).0, false))
unfolding consume accepts next_sequence collides_with
consume_once s n m taken same = ground (arith, lookup-insert n.lane m.lane (n.sequence + 1) s.next)
