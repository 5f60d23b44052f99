-- ===== src/Consensus/Seed.antt =====
-- vanargand-consensus/src/seed.rs: the seed of an epoch. The digests are parameters.
use vanargand.Common.{ℕ, ◌/◌, ◌^◌, Bool, true, false, List, [], ◌∷◌, Result, ok, and_then}
use vanargand.Common.Map.{Map}
use vanargand.Types.Tx.{Hash, AccountId}
use vanargand.Consensus.Delay.{DelayProof, DelayError, check_sampled, delay_output}

-- The digests of `mix_reveals` (the reveals and the epoch) and of `EpochSeed::draw` (the value, the
-- label and the counter).
pub record SeedDigests : Type 0 where
  pub mixed_digest : List Hash → ℕ → Hash
  pub draw_digest : Hash → List ℕ → ℕ → Hash

unfoldable pub map_values : Map AccountId Hash → List Hash
map_values [] = []
map_values ((account, reveal) ∷ reveals) = reveal ∷ map_values reveals

unfoldable pub mix_reveals : SeedDigests → ℕ → Map AccountId Hash → Hash
unfolding map_values
mix_reveals d epoch reveals = d.mixed_digest (map_values reveals) epoch

pub record EpochSeed : Type 0 where
  pub value : Hash
  pub delayed : Bool

unfoldable pub from_delay_function : Hash → EpochSeed
from_delay_function output = record { value = output; delayed = true }

unfoldable pub without_delay_function : Hash → EpochSeed
without_delay_function mixed = record { value = mixed; delayed = false }

unfoldable pub from_checked_proof :
    (Hash → Hash) → (Hash → ℕ → Hash) → Hash → DelayProof → Hash → ℕ → Result DelayError EpochSeed
unfolding check_sampled delay_output
from_checked_proof step sample_digest mixed proof challenge samples =
    and_then (check_sampled step sample_digest proof mixed challenge samples)
      λ done. ok (record { value = delay_output proof; delayed = true })

-- The first 16 of the 32 bytes of the digest.
unfoldable pub draw_u128 : SeedDigests → EpochSeed → List ℕ → ℕ → ℕ
draw_u128 d seed label counter = d.draw_digest seed.value label counter / 2 ^ 128
