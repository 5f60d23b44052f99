-- ===== src/Types/Merkle.antt =====
-- vanargand-types/src/merkle.rs: the tree over a list of digests, and its inclusion proofs. The
-- hashes of a leaf and of a node are parameters.
pub mod Laws
use vanargand.Common.{
  ℕ, zero, suc, ◌+◌, ◌-◌, ◌/◌, ◌%◌, Bool, Option, none, some, List, [], ◌∷◌, ltb, leb, ◌==◌, ◌&&◌,
  if◌then◌else◌, bind, map,
}
use vanargand.Common.Lists.{length, get_elem?}
use vanargand.Types.Tx.{Hash}

-- `ProofStep`: the sibling stands on the left or on the right, or there is none.
pub data ProofStep : Type 0 where
  left_sibling right_sibling : Hash → ProofStep
  promoted : ProofStep

pub record InclusionProof : Type 0 where
  pub index : ℕ
  pub steps : List ProofStep

-- `level.first().copied().unwrap_or(Hash::ZERO)`
unfoldable pub top : List Hash → Hash
top [] = 0
top (x ∷ xs) = x

-- One round of `list_proof`: what stands beside a position.
unfoldable pub step_at : List Hash → ℕ → Option ProofStep
step_at level position =
    if (position == length level - 1) && (length level % 2 == 1)
    then some promoted
    else if position % 2 == 0
    then (bind (get_elem? level (position + 1)) λ sibling. some (right_sibling sibling))
    else bind (get_elem? level (position - 1)) λ sibling. some (left_sibling sibling)

module _ (leaf_hash : Hash → Hash) (node_hash : Hash → Hash → Hash) where
  -- Pairs are hashed; an odd node at the end is promoted.
  unfoldable pub fold_level : List Hash → List Hash
  fold_level [] = []
  fold_level (x ∷ []) = x ∷ []
  fold_level (x ∷ y ∷ rest) = node_hash x y ∷ fold_level rest

  -- The loop of `list_root`.
  unfoldable pub fold_all : ℕ → List Hash → List Hash
  fold_all zero level = level
  fold_all (suc fuel) level =
      let next = fold_all fuel (fold_level level) in if ltb 1 (length level) then next else level

  -- A level at least halves, so as many rounds as there are leaves are enough.
  unfoldable pub list_root : List Hash → Hash
  list_root leaves = top (fold_all (length leaves) (map leaf_hash leaves))

  -- The loop of `list_proof`.
  unfoldable pub climb : ℕ → List Hash → ℕ → Option (List ProofStep)
  climb zero level position = some []
  climb (suc fuel) level position =
      let rest = climb fuel (fold_level level) (position / 2) in
      if ltb 1 (length level)
      then (bind (step_at level position) λ step. bind rest λ steps. some (step ∷ steps))
      else some []

  unfoldable pub list_proof : List Hash → ℕ → Option InclusionProof
  list_proof leaves index =
      if leb (length leaves) index
      then none
      else bind (climb (length leaves) (map leaf_hash leaves) index)
          λ steps. some (record { index = index; steps = steps })

  -- One round of `root_from_proof`.
  unfoldable pub apply_step : ProofStep → Hash → Hash
  apply_step (left_sibling sibling) running = node_hash sibling running
  apply_step (right_sibling sibling) running = node_hash running sibling
  apply_step promoted running = running

  unfoldable pub apply_steps : List ProofStep → Hash → Hash
  apply_steps [] running = running
  apply_steps (step ∷ steps) running = apply_steps steps (apply_step step running)

  unfoldable pub root_from_proof : Hash → InclusionProof → Hash
  root_from_proof leaf proof = apply_steps proof.steps (leaf_hash leaf)
