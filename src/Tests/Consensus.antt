-- ===== src/Tests/Consensus.antt =====
-- A committee of four, a delay, a stretch of silence and a list of digests.
use vanargand.Common.{
  ℕ, zero, suc, ◌+◌, ◌*◌, ◌<◌, ◌≤◌, ◌≡◌, ◌&&◌, refl, true, false, some, ok, arith, List, [], ◌∷◌,
  min, inl, inr, map,
}
use vanargand.Common.Lists.{length}
use vanargand.Common.Map.{Set, lookup, insert, place}
use vanargand.Common.Map.Keys.{nat_key}
use vanargand.Types.Amount.{max_supply}
use vanargand.Types.Window.{FinalityRung}
use vanargand.Types.Merkle.{InclusionProof, list_proof, root_from_proof, list_root, fold_all}
use vanargand.Types.Merkle.Laws.{list_proof-root_from_proof, list_root-terminates}
use vanargand.Types.Tx.{Hash, AccountId, BlockHeader, Crypto}
use vanargand.Consensus.Emission.{permitted_through}
use vanargand.Consensus.Emission.Schedule.{emitted_through, permitted_through-emitted}
use vanargand.Consensus.Delay.{
  DelayParameters, new_parameters, evaluate, check_fully, delay_output, iterate,
}
use vanargand.Consensus.Delay.Laws.{check_fully-evaluate, check_fully-output}
use vanargand.Consensus.Seed.{SeedDigests, EpochSeed}
use vanargand.Consensus.Validator.{
  ValidatorRecord, ValidatorSet, eligible, IsValidatorSet, total_eligible_weight,
}
use vanargand.Consensus.Committee.{
  CommitteeMember, Committee, draw, active_at, active_weight_at, sampled, is_member,
}
use vanargand.Consensus.Committee.Draw.{Distinct}
use vanargand.Consensus.Committee.Seats.{draw-Distinct}
use vanargand.Consensus.Certificate.{Vote, Certificate, verify_certificate, finalises}
use vanargand.Consensus.Certificate.Quorum.{voted, weight_where}
use vanargand.Consensus.Certificate.Intersection.{HasSigned, quorum_intersection}
use vanargand.Consensus.Leak.{restores_finality, signing}
use vanargand.Consensus.Leak.Restore.{observe-restores_finality}
use vanargand.Consensus.Leak.Liveness.{observe_all, duties_of}
use vanargand.Tests.Ledger.{crypto}

abbrev pub twice : Hash → Hash
twice x = x * 2 + 1

abbrev pub pairing : Hash → Hash → Hash
pairing x y = x * 10 + y

abbrev three_leaves : List Hash
three_leaves = 4 ∷ 5 ∷ 6 ∷ []

list_proof-root_from_proof_example :
    (proof : InclusionProof) × (list_proof twice pairing three_leaves 2 ≡ some proof)
    × (root_from_proof twice pairing 6 proof ≡ list_root twice pairing three_leaves)
list_proof-root_from_proof_example = list_proof-root_from_proof twice pairing three_leaves 2 6 refl

list_root-terminates_example :
    length (fold_all twice pairing (length three_leaves) (map twice three_leaves)) ≤ 1
list_root-terminates_example = list_root-terminates twice pairing three_leaves

permitted_through-emitted_example :
    permitted_through 40_000 ≡ min (emitted_through 40_000) max_supply
permitted_through-emitted_example = permitted_through-emitted 40_000

abbrev short_delay : DelayParameters
short_delay = record { iterations = 6; segments = 3 }

check_fully-evaluate_example : check_fully twice (evaluate twice 5 short_delay) 5 ≡ ok tt
check_fully-evaluate_example = check_fully-evaluate twice 5 short_delay

check_fully-output_example : delay_output (evaluate twice 5 short_delay) ≡ iterate twice 5 6
unfolding new_parameters evaluate
check_fully-output_example =
    check_fully-output twice 6 3 (evaluate twice 5 short_delay) 5 refl
      (check_fully-evaluate twice 5 short_delay)

abbrev pub digests : SeedDigests
digests = record {
  mixed_digest = λ reveals epoch. epoch;
  draw_digest = λ value label counter. value + counter;
}

abbrev pub seed : EpochSeed
seed = record { value = 3; delayed = true }

abbrev pub bonded : AccountId → ValidatorRecord
bonded a = record {
  account = a;
  key = record { algorithm = 1; bytes = [] };
  bond = 100;
  multiplier = 1_000;
  commitment_root = 0;
  last_reveal = 0;
}

abbrev pub four : ValidatorSet
four = (1, bonded 1) ∷ (2, bonded 2) ∷ (3, bonded 3) ∷ (4, bonded 4) ∷ []

pub four-IsValidatorSet : IsValidatorSet four
unfolding lookup
four-IsValidatorSet = ground arith

draw-Distinct_example :
    Distinct (draw digests seed four).members
    × (length (draw digests seed four).members ≡ min sampled (length (eligible four)))
unfolding total_eligible_weight
draw-Distinct_example = draw-Distinct digests seed four 400 four-IsValidatorSet refl

abbrev header_of : ℕ → BlockHeader
header_of tx_root = record {
  version = 1;
  chain = 0;
  height = 7;
  parent = 1;
  rung = FinalityRung.provisional;
  finalized_height = 6;
  state_root = 0;
  tx_root = tx_root;
  proposer = 1;
  randomness_reveal = 0;
  archive_commitment = 0;
  emitted_supply = 0;
  security_budget = 0;
  fee_emission_ratio = record { numerator = 0; denominator = 1 };
}

abbrev by_root : Crypto
by_root = record crypto {
  block_id = λ header. header.tx_root;
  block_signing_digest = λ header. header.tx_root;
}

abbrev pub vote_for : ℕ → AccountId → Vote
vote_for digest a = record { member = a; signature = record { algorithm = digest; bytes = [] } }

abbrev this_block : Certificate
this_block = record { block = 30; votes = vote_for 30 1 ∷ vote_for 30 2 ∷ vote_for 30 3 ∷ [] }

abbrev that_block : Certificate
that_block = record { block = 40; votes = vote_for 40 2 ∷ vote_for 40 3 ∷ vote_for 40 4 ∷ [] }

quorum_intersection_example :
    (active_weight_at (draw digests seed four) 7
      < 3
        * weight_where
            (λ a. voted this_block.votes a && voted that_block.votes a)
            (active_at (draw digests seed four) 7))
    × ((a : AccountId) × HasSigned by_root four a (header_of 30)
        × HasSigned by_root four a (header_of 40))
unfolding draw verify_certificate finalises active_weight_at lookup insert place
quorum_intersection_example =
    quorum_intersection digests seed by_root four four false this_block that_block (header_of 30)
      (header_of 40) 7 300 300 four-IsValidatorSet refl refl refl refl

abbrev pub pair_committee : Committee
pair_committee = record {
  members = record { account = 1; weight = 5 } ∷ record { account = 2; weight = 900 } ∷ [];
  permutation = 0 ∷ 1 ∷ [];
  total_weight = 905;
}

abbrev only_one : Set AccountId
only_one = (1, tt) ∷ []

-- The same duty at each block of a stretch.
unfoldable stretch : ℕ → List CommitteeMember → List (List CommitteeMember)
stretch zero duty = []
stretch (suc n) duty = duty ∷ stretch n duty

duties_of-stretch :
    (n : ℕ) (a : AccountId) (duty : List CommitteeMember)
    → is_member a duty ≡ true
    → duties_of a (stretch n duty) ≡ n
unfolding stretch duties_of
duties_of-stretch zero a duty h = refl
duties_of-stretch (suc n) a duty h = ground (arith, duties_of-stretch n a duty h)

observe-restores_finality_example :
    restores_finality
      (observe_all ((1, 9) ∷ []) (stretch 10_080 pair_committee.members) only_one)
      pair_committee
      0
      only_one
    ≡ true
unfolding active_at is_member signing lookup
observe-restores_finality_example =
    observe-restores_finality ((1, 9) ∷ []) (stretch 10_080 pair_committee.members) only_one
      pair_committee 0 ((refl, (refl, tt)), (omega arith, (omega arith, tt)))
      (
        inl (refl, omega (arith, duties_of-stretch 10_080 1 pair_committee.members refl)),
        (inr (refl, omega (arith, duties_of-stretch 10_080 2 pair_committee.members refl)), tt),
      )
      (omega arith)
