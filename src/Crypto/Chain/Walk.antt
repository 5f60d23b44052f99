-- ===== src/Crypto/Chain/Walk.antt =====
-- The bounded walk of a cursor finds the first match, and only a match.
use vanargand.Common.{
  ℕ, zero, suc, ◌+◌, ◌≤◌, ◌<◌, ◌≡◌, ◌≢◌, some, arith, ◌==◌, ok, Bool-cases, inl, inr, Option-cases,
}
use vanargand.Types.Tx.{Hash}
use vanargand.Crypto.Chain.{ChainCursor, walk, advance, moved, iterate}

module _ (link : Hash → Hash) where
  walk_finds :
      (fuel steps : ℕ) (current committed n : ℕ)
      → walk link fuel steps current committed ≡ some n
      → (k : ℕ) × (n ≡ steps + suc k)
        × (k < fuel)
        × (iterate link (suc k) current ≡ committed)
        × ((j : ℕ) → j < k → iterate link (suc j) current ≢ committed)
  unfolding walk iterate
  walk_finds zero steps current committed n h = cc
  walk_finds (suc fuel) steps current committed n h =
      elim (Bool-cases (link current == committed)) [
        | inl hit ↦ (0, ground arith, omega arith, ground arith, λ j lt. absurd (omega arith))
        | inr miss ↦
            let (k, e, lt, here, before) =
              walk_finds fuel (steps + 1) (link current) committed n (ground arith) in
            (
              suc k,
              omega arith,
              omega arith,
              here,
              elim [ zero ↦ λ j0 hit. ground arith | suc j ↦ λ js. before j (omega arith) ],
            )
      ]

  walk_reaches :
      (k fuel steps : ℕ) (current committed : ℕ)
      → k < fuel
      → iterate link (suc k) current ≡ committed
      → (n : ℕ) × (walk link fuel steps current committed ≡ some n) × (n ≤ steps + suc k)
  unfolding walk iterate
  walk_reaches k zero steps current committed lt e = absurd (omega arith)
  walk_reaches zero (suc fuel) steps current committed lt e = (steps + 1, ground arith, omega arith)
  walk_reaches (suc k) (suc fuel) steps current committed lt e =
      elim (Bool-cases (link current == committed)) [
        | inl hit ↦ (steps + 1, ground arith, omega arith)
        | inr miss ↦
            let (n, found, le) =
              walk_reaches k fuel (steps + 1) (link current) committed (omega arith) e in
            (n, ground arith, omega arith)
      ]

  -- A reveal that is accepted hashes forward to what was committed in exactly the number of steps
  -- that is returned, which is positive, within the bound and the smallest such number; the cursor
  -- is then committed to the reveal.
  pub advance_sound :
      (cursor : ChainCursor) (reveal : Hash) (steps : ℕ) (cursor' : ChainCursor)
      → advance link cursor reveal ≡ ok (steps, cursor')
      → (0 < steps)
        × (steps ≤ cursor.max_steps)
        × (iterate link steps reveal ≡ cursor.committed)
        × ((j : ℕ) → 0 < j → j < steps → iterate link j reveal ≢ cursor.committed)
        × (cursor'.committed ≡ reveal)
        × (cursor'.max_steps ≡ cursor.max_steps)
  unfolding advance moved
  advance_sound cursor reveal steps cursor' h =
      elim (Option-cases (walk link cursor.max_steps 0 reveal cursor.committed)) [
        | inl lost ↦ absurd (ground (arith, lost))
        | inr (n, found) ↦
            let (k, e, lt, here, before) =
              walk_finds cursor.max_steps 0 reveal cursor.committed n found in
            let same : steps ≡ suc k = ground (arith, found) in
            (
              omega arith,
              omega arith,
              rw same here,
              elim [
                | zero ↦ λ pos lt'. absurd (omega arith)
                | suc j ↦ λ pos lt'. before j (omega arith)
              ],
              ground (arith, found),
              ground (arith, found),
            )
      ]

  -- A reveal that hashes forward to what was committed within the bound is accepted.
  pub advance_complete :
      (cursor : ChainCursor) (reveal : Hash) (k : ℕ)
      → 0 < k
      → k ≤ cursor.max_steps
      → iterate link k reveal ≡ cursor.committed
      → (steps : ℕ) × (cursor' : ChainCursor) × (advance link cursor reveal ≡ ok (steps, cursor'))
        × (steps ≤ k)
  unfolding advance
  advance_complete cursor reveal zero pos le e = absurd (omega arith)
  advance_complete cursor reveal (suc k) pos le e =
      let (n, found, small) =
        walk_reaches k cursor.max_steps 0 reveal cursor.committed (omega arith) e in
      (n, moved cursor reveal n, ground (arith, found), omega arith)
