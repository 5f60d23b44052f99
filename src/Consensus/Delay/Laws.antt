-- ===== src/Consensus/Delay/Laws.antt =====
-- What the checks of a delay proof accept.
use native.Mathlib.Nat.{add-zero, zero-add, zero-mul, mod-add-div', mul_comm, suc-mul, mod-lt}
use vanargand.Common.{
  ℕ, zero, suc, ◌+◌, ◌*◌, ◌/◌, ◌^◌, ◌≤◌, ◌<◌, ◌≡◌, refl, sym, ap, ◌∙◌, none, some, List, [], ◌∷◌,
  ok, arith, Option-cases, Result-cases, inl, inr,
}
use vanargand.Common.Lists.{length, get_elem?}
use vanargand.Types.Tx.{Hash}
use vanargand.Consensus.Delay.{
  DelayParameters, DelayProof, new_parameters, segment_length, delay_input, last_or_zero,
  delay_output, check_shape, iterate, checkpoints_from, evaluate, check_segment, check_segments,
  check_fully, sample_index, check_samples, check_sampled,
}

suc_add : (a b : ℕ) → suc (a + b) ≡ suc a + b
suc_add a b = omega arith

add-suc_left : (a b : ℕ) → a + suc b ≡ suc a + b
add-suc_left a b = omega arith

add-mul_suc : (n m : ℕ) → m + n * m ≡ suc n * m
add-mul_suc n m = omega (arith, suc-mul n m)

get-none : (xs : List Hash) → get_elem? xs 0 ≡ none → length xs ≡ 0
get-none [] h = refl
get-none (x ∷ xs) h = ground arith

sample_index-lt :
    (digest : Hash → ℕ → Hash) (challenge : Hash) (sample segments : ℕ)
    → 0 < segments
    → sample_index digest challenge sample segments < segments
unfolding sample_index
sample_index-lt digest challenge sample segments h =
    ground (arith, mod-lt (digest challenge sample / 2 ^ 224) h)

module _ (step : Hash → Hash) where
  iterate-add : (x : Hash) (a b : ℕ) → iterate step (iterate step x a) b ≡ iterate step x (a + b)
  unfolding iterate
  iterate-add x zero b = ap (iterate step x) (sym (zero-add b))
  iterate-add x (suc a) b = iterate-add (step x) a b ∙ ap (iterate step x) (suc_add a b)

  length-checkpoints_from :
      (segment : ℕ) (x : Hash) (count : ℕ) → length (checkpoints_from step segment x count) ≡ count
  unfolding checkpoints_from
  length-checkpoints_from segment x zero = refl
  length-checkpoints_from segment x (suc count) =
      ap suc (length-checkpoints_from segment (iterate step x segment) count)

  -- Each checkpoint of the prover and the one after it are a segment apart.
  checkpoints_from-next :
      (segment : ℕ) (x : Hash) (count index : ℕ)
      → index < count
      → (before : Hash) × (get_elem? (x ∷ checkpoints_from step segment x count) index
          ≡ some before)
        × (get_elem? (checkpoints_from step segment x count) index
            ≡ some (iterate step before segment))
  unfolding checkpoints_from
  checkpoints_from-next segment x zero index h = ground arith
  checkpoints_from-next segment x (suc count) zero h = (x, refl, refl)
  checkpoints_from-next segment x (suc count) (suc index) h =
      checkpoints_from-next segment (iterate step x segment) count index (omega arith)

  check_segment-evaluate :
      (input : Hash) (p : DelayParameters) (index : ℕ)
      → index < p.segments
      → check_segment step (evaluate step input p) index ≡ ok tt
  unfolding check_segment evaluate
  check_segment-evaluate input p index h =
      let (before, hb, ha) = checkpoints_from-next (segment_length p) input p.segments index h in
      ground (arith, hb, ha)

  check_segments-evaluate :
      (input : Hash) (p : DelayParameters) (index count : ℕ)
      → index + count ≤ p.segments
      → check_segments step (evaluate step input p) index count ≡ ok tt
  unfolding check_segments
  check_segments-evaluate input p index zero h = refl
  check_segments-evaluate input p index (suc count) h =
      rw (check_segment-evaluate input p index (omega arith))
        (check_segments-evaluate input p (suc index) count (omega arith))

  check_shape-evaluate :
      (input : Hash) (p : DelayParameters) → check_shape (evaluate step input p) input ≡ ok tt
  unfolding check_shape evaluate delay_input
  check_shape-evaluate input p =
      ground (arith, length-checkpoints_from (segment_length p) input p.segments)

  check_segment-ok :
      (proof : DelayProof) (index : ℕ) (before : Hash)
      → check_segment step proof index ≡ ok tt
      → get_elem? proof.checkpoints index ≡ some before
      → get_elem? proof.checkpoints (suc index)
        ≡ some (iterate step before (segment_length proof.parameters))
  unfolding check_segment
  check_segment-ok proof index before h g =
      elim (Option-cases (get_elem? proof.checkpoints (suc index))) [
        | inl n ↦ ground arith
        | inr (after, s) ↦ ground arith
      ]

  -- A checked run of segments leads from its first checkpoint to its last.
  check_segments-run :
      (proof : DelayProof) (index count : ℕ) (x : Hash)
      → check_segments step proof index count ≡ ok tt
      → get_elem? proof.checkpoints index ≡ some x
      → get_elem? proof.checkpoints (index + count)
        ≡ some (iterate step x (count * segment_length proof.parameters))
  unfolding check_segments iterate
  check_segments-run proof index zero x h g = rw (add-zero, zero-mul) g
  check_segments-run proof index (suc count) x h g =
      elim (Result-cases (check_segment step proof index)) [
        | inl (done, o) ↦
            let here = check_segment-ok proof index x o g in
            let later =
              check_segments-run proof (suc index) count
                (iterate step x (segment_length proof.parameters)) (ground arith) here in
            ap (get_elem? proof.checkpoints) (add-suc_left index count)
            ∙ later
            ∙ ap some (
                iterate-add x (segment_length proof.parameters)
                  (count * segment_length proof.parameters)
                ∙ ap (iterate step x) (add-mul_suc count (segment_length proof.parameters)))
        | inr (e, o) ↦ ground arith
      ]

  last_or_zero-get :
      (xs : List Hash) (n : ℕ) (x : Hash)
      → length xs ≡ suc n
      → get_elem? xs n ≡ some x
      → last_or_zero xs ≡ x
  unfolding last_or_zero
  last_or_zero-get [] n x h g = ground arith
  last_or_zero-get (y ∷ []) zero x h g = ground arith
  last_or_zero-get (y ∷ []) (suc n) x h g = ground arith
  last_or_zero-get (y ∷ z ∷ rest) zero x h g = ground arith
  last_or_zero-get (y ∷ z ∷ rest) (suc n) x h g = last_or_zero-get (z ∷ rest) n x (omega arith) g

  -- What `DelayParameters::new` lets through divides without rest.
  new_parameters-ok :
      (iterations segments : ℕ) (p : DelayParameters)
      → new_parameters iterations segments ≡ ok p
      → (p.segments * segment_length p ≡ iterations)
        × (0 < p.segments)
        × (p.iterations ≡ iterations)
  unfolding new_parameters segment_length
  new_parameters-ok iterations segments p h =
      ground (arith, mod-add-div' iterations segments, mul_comm segments (iterations / segments))

  check_shape-ok :
      (proof : DelayProof) (input : Hash)
      → check_shape proof input ≡ ok tt
      → (length proof.checkpoints ≡ suc proof.parameters.segments)
        × (get_elem? proof.checkpoints 0 ≡ some input)
  unfolding check_shape delay_input
  check_shape-ok proof input h = elim (Option-cases (get_elem? proof.checkpoints 0)) [
    | inl n ↦ ground (arith, get-none proof.checkpoints n)
    | inr (x, e) ↦ ground arith
  ]

  -- A proof that is accepted in full, whoever made it, and whose parameters `DelayParameters::new`
  -- let through, has the input's true output after all the iterations.
  pub check_fully-output :
      (iterations segments : ℕ) (proof : DelayProof) (input : Hash)
      → new_parameters iterations segments ≡ ok proof.parameters
      → check_fully step proof input ≡ ok tt
      → delay_output proof ≡ iterate step input iterations
  unfolding check_fully delay_output
  check_fully-output iterations segments proof input hp h =
      elim (Result-cases (check_shape proof input)) [
        | inl (done, o) ↦
            let (len, first) = check_shape-ok proof input o in
            let run =
              check_segments-run proof 0 proof.parameters.segments input (ground arith) first in
            let (divides, positive, same) =
              new_parameters-ok iterations segments proof.parameters hp in
            last_or_zero-get proof.checkpoints proof.parameters.segments
              (iterate step input (proof.parameters.segments * segment_length proof.parameters)) len
              (ap (get_elem? proof.checkpoints) (sym (zero-add proof.parameters.segments)) ∙ run)
            ∙ ap (iterate step input) divides
        | inr (e, o) ↦ ground arith
      ]

  -- The proof that `evaluate` makes is accepted in full, for any input and parameters.
  pub check_fully-evaluate :
      (input : Hash) (p : DelayParameters) → check_fully step (evaluate step input p) input ≡ ok tt
  unfolding check_fully evaluate
  check_fully-evaluate input p =
      rw (check_shape-evaluate input p) (check_segments-evaluate input p 0 p.segments (omega arith))

  module _ (sample_digest : Hash → ℕ → Hash) where
    check_samples-evaluate :
        (input challenge : Hash) (p : DelayParameters) (sample count : ℕ)
        → 0 < p.segments
        → check_samples step sample_digest (evaluate step input p) challenge sample count ≡ ok tt
    unfolding check_samples evaluate
    check_samples-evaluate input challenge p sample zero h = refl
    check_samples-evaluate input challenge p sample (suc count) h =
        rw
          (check_segment-evaluate input p (sample_index sample_digest challenge sample p.segments)
            (sample_index-lt sample_digest challenge sample p.segments h))
          (check_samples-evaluate input challenge p (suc sample) count h)

    -- The proof that `evaluate` makes passes the sampled check for every challenge and every number
    -- of samples, if there is at least one segment.
    pub check_sampled-evaluate :
        (input challenge : Hash) (p : DelayParameters) (samples : ℕ)
        → 0 < p.segments
        → check_sampled step sample_digest (evaluate step input p) input challenge samples ≡ ok tt
    unfolding check_sampled
    check_sampled-evaluate input challenge p samples h =
        rw (check_shape-evaluate input p) (check_samples-evaluate input challenge p 0 samples h)
