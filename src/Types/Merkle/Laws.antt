-- ===== src/Types/Merkle/Laws.antt =====
-- The loops end, and the proof of every leaf gives the root of the list.
use vanargand.Common.{
  ℕ, zero, suc, ◌+◌, ◌*◌, ◌/◌, ◌≤◌, ◌<◌, ◌≡◌, refl, ◌∙◌, some, List, [], ◌∷◌, ltb, map, arith,
  Bool-cases, inl, inr,
}
use vanargand.Common.Lists.{length, get_elem?, lt-get, length-map}
use vanargand.Types.Tx.{Hash}
use vanargand.Types.Merkle.{
  ProofStep, left_sibling, right_sibling, promoted, InclusionProof, top, step_at, fold_level,
  fold_all, list_root, climb, list_proof, apply_step, apply_steps, root_from_proof,
}

get-map :
    (f : Hash → Hash) (xs : List Hash) (i : ℕ) (x : Hash)
    → get_elem? xs i ≡ some x
    → get_elem? (map f xs) i ≡ some (f x)
get-map f [] i x h = ground arith
get-map f (y ∷ ys) zero x h = ground arith
get-map f (y ∷ ys) (suc i) x h = get-map f ys i x h

-- Two places on, a round of the proof is what it was on the rest of the level.
step_at-shift :
    (a b : Hash) (rest : List Hash) (p : ℕ) (x : Hash)
    → get_elem? rest p ≡ some x
    → step_at (a ∷ b ∷ rest) (suc (suc p)) ≡ step_at rest p
unfolding step_at
step_at-shift a b rest zero x h = ground (arith, lt-get rest 0 x h)
step_at-shift a b rest (suc p) x h = ground (arith, lt-get rest (suc p) x h)

-- `position /= 2` goes one down when the position goes two down.
div_two : (p : ℕ) → suc (suc p) / 2 ≡ suc (p / 2)
div_two p = omega arith

module _ (leaf_hash : Hash → Hash) (node_hash : Hash → Hash → Hash) where
  length-fold_level :
      (level : List Hash) → length (fold_level leaf_hash node_hash level) * 2 ≤ length level + 1
  unfolding fold_level
  length-fold_level [] = omega arith
  length-fold_level (x ∷ []) = omega arith
  length-fold_level (x ∷ y ∷ rest) = omega (arith, length-fold_level rest)

  -- A node of a level and its round of the proof give the node above it.
  level_lem :
      (level : List Hash) (p : ℕ) (x : Hash)
      → get_elem? level p ≡ some x
      → 1 < length level
      → (s : ProofStep) × (step_at level p ≡ some s)
        × (get_elem? (fold_level leaf_hash node_hash level) (p / 2)
            ≡ some (apply_step leaf_hash node_hash s x))
  unfolding step_at fold_level apply_step
  level_lem [] p x h g = ground arith
  level_lem (a ∷ []) p x h g = ground arith
  level_lem (a ∷ b ∷ rest) zero x h g = (right_sibling b, ground arith, ground arith)
  level_lem (a ∷ b ∷ rest) (suc zero) x h g = (left_sibling a, ground arith, ground arith)
  level_lem (a ∷ b ∷ []) (suc (suc p)) x h g = ground arith
  level_lem (a ∷ b ∷ c ∷ []) (suc (suc zero)) x h g = (promoted, ground arith, ground arith)
  level_lem (a ∷ b ∷ c ∷ []) (suc (suc (suc p))) x h g = ground arith
  level_lem (a ∷ b ∷ c ∷ d ∷ more) (suc (suc p)) x h g =
      let (s, hs, hf) = level_lem (c ∷ d ∷ more) p x h (omega arith) in
      (s, step_at-shift a b (c ∷ d ∷ more) p x h ∙ hs, ground (arith, div_two p, hf))

  -- Fewer rounds than there are nodes leave at most one.
  fold_all-ends :
      (fuel : ℕ) (level : List Hash)
      → length level ≤ suc fuel
      → length (fold_all leaf_hash node_hash fuel level) ≤ 1
  unfolding fold_all
  fold_all-ends zero level h = h
  fold_all-ends (suc fuel) level h = elim (Bool-cases (ltb 1 (length level))) [
    | inl t ↦
        ground (
          arith,
          length-fold_level level,
          fold_all-ends fuel (fold_level leaf_hash node_hash level),
        )
    | inr f ↦ ground arith
  ]

  climb_lem :
      (fuel : ℕ) (level : List Hash) (p : ℕ) (x : Hash)
      → get_elem? level p ≡ some x
      → length level ≤ suc fuel
      → (steps : List ProofStep) × (climb leaf_hash node_hash fuel level p ≡ some steps)
        × (apply_steps leaf_hash node_hash steps x ≡ top (fold_all leaf_hash node_hash fuel level))
  unfolding climb fold_all apply_steps top
  climb_lem zero [] p x h g = ground arith
  climb_lem zero (y ∷ []) zero x h g = ([], refl, ground arith)
  climb_lem zero (y ∷ []) (suc p) x h g = ground arith
  climb_lem zero (y ∷ z ∷ rest) p x h g = ground arith
  climb_lem (suc fuel) [] p x h g = ground arith
  climb_lem (suc fuel) (y ∷ []) zero x h g = ([], ground arith, ground arith)
  climb_lem (suc fuel) (y ∷ []) (suc p) x h g = ground arith
  climb_lem (suc fuel) (y ∷ z ∷ rest) p x h g =
      let (s, hs, hf) = level_lem (y ∷ z ∷ rest) p x h (omega arith) in
      let (steps, hc, ha) =
        climb_lem fuel (fold_level leaf_hash node_hash (y ∷ z ∷ rest)) (p / 2)
          (apply_step leaf_hash node_hash s x) hf
          (omega (arith, length-fold_level (y ∷ z ∷ rest))) in
      (s ∷ steps, ground (arith, hs, hc), ground (arith, ha))

  -- The loop of the root ends for every list with at most one node left.
  pub list_root-terminates :
      (leaves : List Hash)
      → length (fold_all leaf_hash node_hash (length leaves) (map leaf_hash leaves)) ≤ 1
  list_root-terminates leaves =
      fold_all-ends (length leaves) (map leaf_hash leaves)
        (omega (arith, length-map leaf_hash leaves))

  -- For every leaf that stands at an index of a list a proof is built, and the root that this
  -- proof gives for the leaf is the root of the list.
  pub list_proof-root_from_proof :
      (leaves : List Hash) (index : ℕ) (leaf : Hash)
      → get_elem? leaves index ≡ some leaf
      → (proof : InclusionProof) × (list_proof leaf_hash node_hash leaves index ≡ some proof)
        × (root_from_proof leaf_hash node_hash leaf proof ≡ list_root leaf_hash node_hash leaves)
  unfolding list_proof root_from_proof list_root
  list_proof-root_from_proof leaves index leaf h =
      let (steps, hc, ha) =
        climb_lem (length leaves) (map leaf_hash leaves) index (leaf_hash leaf)
          (get-map leaf_hash leaves index leaf h) (omega (arith, length-map leaf_hash leaves)) in
      (record { index = index; steps = steps }, ground (arith, hc, lt-get leaves index leaf h), ha)
