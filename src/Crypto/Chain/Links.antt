-- ===== src/Crypto/Chain/Links.antt =====
-- A generated chain: each link hashes forward to the root in as many steps as its index.
use vanargand.Common.{ℕ, zero, ap, sym, ◌∙◌, suc, ◌+◌, ◌≤◌, ◌<◌, ◌≡◌, refl, some, arith, ok}
use Prim.Native.Nat.add
use native.Mathlib.Nat.{add-zero, add-suc}
use vanargand.Common.Lists.{length, get_elem?}
use vanargand.Types.Tx.{Hash}
use vanargand.Crypto.Chain.{
  HashChain, ChainCursor, first_or_zero, new_cursor, root, chain_len, reveal, build, generate,
  advance, iterate,
}
use vanargand.Crypto.Chain.Walk.{advance_complete}

module _ (link : Hash → Hash) where
  pub length-build : (n : ℕ) (seed : Hash) → length (build link n seed) ≡ n + 1
  unfolding build
  length-build zero seed = omega arith
  length-build (suc n) seed = omega (arith, length-build n seed)

  -- One more link at the far end of the walk.
  iterate-suc : (n : ℕ) (h : Hash) → iterate link (suc n) h ≡ link (iterate link n h)
  unfolding iterate
  iterate-suc zero h = refl
  iterate-suc (suc n) h = iterate-suc n (link h)

  pub build_links :
      (n i : ℕ) (seed : Hash)
      → i ≤ n
      → (l : Hash) × (get_elem? (build link n seed) i ≡ some l)
        × (iterate link i l ≡ first_or_zero (build link n seed))
  unfolding build iterate
  build_links zero zero seed le = (seed, refl, refl)
  build_links zero (suc i) seed le = absurd (omega arith)
  build_links (suc n) zero seed le = (link (first_or_zero (build link n seed)), refl, refl)
  build_links (suc n) (suc i) seed le =
      let (l, at, e) = build_links n i seed (omega arith) in
      (l, at, ground (arith, iterate-suc i l, e))

  pub iterate_add :
      (m n : ℕ) (h : Hash) → iterate link (m + n) h ≡ iterate link m (iterate link n h)
  unfolding iterate
  iterate_add m zero h = rw add-zero
  iterate_add m (suc n) h = rw add-suc (iterate_add m n (link h))

  build_head :
      (n d : ℕ) (seed l : Hash)
      → get_elem? (build link n seed) d ≡ some l
      → d ≤ n
      → iterate link d l ≡ first_or_zero (build link n seed)
  build_head n d seed l at le = let (l', at', e) = build_links n d seed le in ground (arith, at', e)

  build_zero :
      (n : ℕ) (seed : Hash)
      → get_elem? (build link n seed) 0 ≡ some (first_or_zero (build link n seed))
  unfolding build
  build_zero zero seed = refl
  build_zero (suc n) seed = refl

  -- From one link of a chain, a walk reaches each link nearer to the root.
  pub build_steps :
      (n i d : ℕ) (seed l : Hash)
      → get_elem? (build link n seed) (i + d) ≡ some l
      → i + d ≤ n
      → get_elem? (build link n seed) i ≡ some (iterate link d l)
  unfolding build
  build_steps n zero d seed l at le =
      build_zero n seed ∙ ap some (sym (build_head n d seed l (rw add.zero at at) (omega arith)))
  build_steps zero (suc i) d seed l at le = absurd (omega arith)
  build_steps (suc n) (suc i) d seed l at le =
      build_steps n i d seed l (rw add.suc at at) (omega arith)

  -- A chain that is generated has the length asked for, and each of its reveals, from the first to
  -- the seed, is accepted by a cursor that knows only the root and walks at least that far.
  pub generate_verifies :
      (seed : Hash) (len index : ℕ) (chain : HashChain) (max_steps : ℕ)
      → generate link seed len ≡ ok chain
      → 0 < index
      → index ≤ len
      → index ≤ max_steps
      → (l : Hash) × (chain_len chain ≡ len)
        × (reveal chain index ≡ some l)
        × (iterate link index l ≡ root chain)
        × ((steps : ℕ) × (cursor' : ChainCursor) × (advance link
                (new_cursor (root chain) max_steps)
                l
              ≡ ok (steps, cursor'))
            × (steps ≤ index))
  unfolding generate root reveal chain_len
  generate_verifies seed len index chain max_steps h pos le walks =
      let (l, at, e) = build_links len index seed le in
      let built : chain.links ≡ build link len seed = ground arith in
      (
        l,
        ground (arith, built, length-build len seed),
        ground (arith, built, at),
        rw built e,
        advance_complete link (new_cursor (first_or_zero chain.links) max_steps) l index pos walks
            (rw built e),
      )
