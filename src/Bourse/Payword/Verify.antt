-- ===== src/Bourse/Payword/Verify.antt =====
-- A token proves exactly the number of tranches that it claims.
use vanargand.Common.{ℕ, ◌≤◌, ◌<◌, ◌≡◌, ◌≢◌, ok, arith, Result-cases, inl, inr}
use vanargand.Types.Tx.{Hash}
use vanargand.Crypto.Chain.{new_cursor, advance, iterate}
use vanargand.Crypto.Chain.Walk.{advance_sound, advance_complete}
use vanargand.Bourse.Payword.{PayWordToken, max_tranches, verify_against_root}

module _ (link : Hash → Hash) where
  -- A token that verifies hashes forward to the root in exactly its index of steps, and in no
  -- smaller positive number of them; its index is positive and within the longest chain.
  pub verify_against_root_sound :
      (root : Hash) (token : PayWordToken)
      → verify_against_root link root token ≡ ok tt
      → (0 < token.index)
        × (token.index ≤ max_tranches)
        × (iterate link token.index token.link ≡ root)
        × ((j : ℕ) → 0 < j → j < token.index → iterate link j token.link ≢ root)
  unfolding verify_against_root
  verify_against_root_sound root token h =
      elim (Result-cases (advance link (new_cursor root max_tranches) token.link)) [
        | inr (e, failed) ↦ absurd (ground (arith, failed))
        | inl ((steps, cursor), moved) ↦
            let (pos, small, here, before, _, _) =
              advance_sound link (new_cursor root max_tranches) token.link steps cursor moved in
            let same : steps ≡ token.index = ground (arith, moved) in
            (omega arith, omega arith, rw (← same) here, rw (← same) before)
      ]

  -- Conversely a token at the first index at which its link reaches the root verifies.
  pub verify_against_root_complete :
      (root : Hash) (token : PayWordToken)
      → 0 < token.index
      → token.index ≤ max_tranches
      → iterate link token.index token.link ≡ root
      → ((j : ℕ) → 0 < j → j < token.index → iterate link j token.link ≢ root)
      → verify_against_root link root token ≡ ok tt
  unfolding verify_against_root
  verify_against_root_complete root token pos small here before =
      let (steps, cursor, moved, le) =
        advance_complete link (new_cursor root max_tranches) token.link token.index pos small
          here in
      let (pos', small', here', before', _, _) =
        advance_sound link (new_cursor root max_tranches) token.link steps cursor moved in
      ground (arith, moved, here', before steps)
