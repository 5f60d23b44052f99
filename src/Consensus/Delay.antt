-- ===== src/Consensus/Delay.antt =====
-- vanargand-consensus/src/vdf.rs: the delay function, a hash that is iterated, and its proof by
-- checkpoints. The hash of a step and the digest that places a sample are parameters.
pub mod Laws
use vanargand.Common.{
  ℕ, zero, suc, ◌+◌, ◌-◌, ◌/◌, ◌%◌, ◌^◌, Bool, Option, none, some, List, [], ◌∷◌, ltb, ◌==◌, not,
  if◌then◌else◌, ◌||◌, Result, ok, err, Done, and_then, unwrap_or,
}
use vanargand.Common.Lists.{length, get_elem?}
use vanargand.Types.Tx.{Hash}

abbrev pub max_segments : ℕ
max_segments = 4_096

pub record DelayParameters : Type 0 where
  pub iterations : ℕ
  pub segments : ℕ

pub data DelayError : Type 0 where
  bad_segment_count : ℕ → DelayError
  no_work : DelayError
  indivisible malformed_proof : ℕ → ℕ → DelayError
  wrong_input : DelayError
  bad_segment : ℕ → DelayError

-- `DelayParameters::new`
unfoldable pub new_parameters : ℕ → ℕ → Result DelayError DelayParameters
new_parameters iterations segments =
    if (segments == 0) || ltb max_segments segments
    then err (bad_segment_count segments)
    else if iterations == 0
    then err no_work
    else if not (iterations % segments == 0)
    then err (indivisible iterations segments)
    else ok (record { iterations = iterations; segments = segments })

unfoldable pub segment_length : DelayParameters → ℕ
segment_length p = if p.segments == 0 then 0 else p.iterations / p.segments

pub record DelayProof : Type 0 where
  pub parameters : DelayParameters
  pub checkpoints : List Hash

-- `checkpoints.first().copied().unwrap_or(Hash::ZERO)`, and `last`
unfoldable pub delay_input : DelayProof → Hash
delay_input proof = unwrap_or (get_elem? proof.checkpoints 0) 0

unfoldable pub last_or_zero : List Hash → Hash
last_or_zero [] = 0
last_or_zero (x ∷ []) = x
last_or_zero (x ∷ y ∷ rest) = last_or_zero (y ∷ rest)

unfoldable pub delay_output : DelayProof → Hash
unfolding last_or_zero
delay_output proof = last_or_zero proof.checkpoints

unfoldable pub check_shape : DelayProof → Hash → Result DelayError Done
unfolding delay_input
check_shape proof input =
    let expected = suc proof.parameters.segments in
    if not (length proof.checkpoints == expected)
    then err (malformed_proof (length proof.checkpoints) expected)
    else if not (delay_input proof == input)
    then err wrong_input
    else ok tt

-- The first four bytes of the digest of the challenge and the sample.
unfoldable pub sample_index : (Hash → ℕ → Hash) → Hash → ℕ → ℕ → ℕ
sample_index sample_digest challenge sample segments =
    if segments == 0 then 0 else sample_digest challenge sample / 2 ^ 224 % segments

module _ (step : Hash → Hash) where
  unfoldable pub iterate : Hash → ℕ → Hash
  iterate current zero = current
  iterate current (suc remaining) = iterate (step current) remaining

  -- The loop of `DelayProof::evaluate`: what it pushes after the input.
  unfoldable pub checkpoints_from : ℕ → Hash → ℕ → List Hash
  unfolding iterate
  checkpoints_from segment current zero = []
  checkpoints_from segment current (suc count) =
      iterate current segment ∷ checkpoints_from segment (iterate current segment) count

  unfoldable pub evaluate : Hash → DelayParameters → DelayProof
  unfolding segment_length checkpoints_from
  evaluate input parameters = record {
    parameters = parameters;
    checkpoints = input ∷ checkpoints_from (segment_length parameters) input parameters.segments;
  }

  unfoldable pub check_segment : DelayProof → ℕ → Result DelayError Done
  unfolding iterate segment_length
  check_segment proof index = elim (get_elem? proof.checkpoints index) [
    | none ↦ err (bad_segment index)
    | some before ↦ elim (get_elem? proof.checkpoints (suc index)) [
      | none ↦ err (bad_segment index)
      | some after ↦
          if iterate before (segment_length proof.parameters) == after
          then ok tt
          else err (bad_segment index)
    ]
  ]

  -- The segments from `index` on, `count` of them.
  unfoldable pub check_segments : DelayProof → ℕ → ℕ → Result DelayError Done
  unfolding check_segment
  check_segments proof index zero = ok tt
  check_segments proof index (suc count) =
      and_then (check_segment proof index) λ done. check_segments proof (suc index) count

  unfoldable pub check_fully : DelayProof → Hash → Result DelayError Done
  unfolding check_shape check_segments
  check_fully proof input =
      and_then (check_shape proof input) λ done. check_segments proof 0 proof.parameters.segments

  module _ (sample_digest : Hash → ℕ → Hash) where
    unfoldable pub check_samples : DelayProof → Hash → ℕ → ℕ → Result DelayError Done
    unfolding check_segment sample_index
    check_samples proof challenge sample zero = ok tt
    check_samples proof challenge sample (suc count) =
        and_then
          (check_segment proof
            (sample_index sample_digest challenge sample proof.parameters.segments))
          λ done. check_samples proof challenge (suc sample) count

    unfoldable pub check_sampled : DelayProof → Hash → Hash → ℕ → Result DelayError Done
    unfolding check_shape check_samples
    check_sampled proof input challenge samples =
        and_then (check_shape proof input) λ done. check_samples proof challenge 0 samples
