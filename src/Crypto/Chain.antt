-- ===== src/Crypto/Chain.antt =====
-- vanargand-crypto/src/chain.rs: hash chains, and the cursor of who verifies one. `link` is the
-- hash of a digest in the chain's domain.
pub mod Walk
pub mod Links
use vanargand.Common.{
  ℕ, zero, suc, ◌+◌, ◌-◌, ◌<◌, Bool, true, false, Option, none, some, List, [], ◌∷◌, ltb, leb, ◌==◌,
  if◌then◌else◌, Result, ok, err, unwrap_or, min, map_err,
}
use vanargand.Common.Lists.{length, get_elem?}
use vanargand.Types.Nonce.{u32_bound}
use vanargand.Types.Tx.{Hash}

abbrev pub max_chain_len : ℕ
max_chain_len = 65_536

pub data ChainError : Type 0 where
  bad_chain_link : ℕ → ChainError

pub record HashChain : Type 0 where
  pub links : List Hash

pub record ChainCursor : Type 0 where
  pub committed : Hash
  pub consumed : ℕ
  pub max_steps : ℕ

abbrev pub first_or_zero : List Hash → Hash
first_or_zero [] = 0
first_or_zero (x ∷ xs) = x

-- `ChainCursor::new`
abbrev pub new_cursor : Hash → ℕ → ChainCursor
new_cursor root max_steps = record { committed = root; consumed = 0; max_steps = max_steps }

-- `HashChain::root`, `len` and `reveal`
unfoldable pub root : HashChain → Hash
root chain = first_or_zero chain.links

unfoldable pub chain_len : HashChain → ℕ
chain_len chain =
    if ltb (length chain.links - 1) u32_bound then length chain.links - 1 else u32_bound - 1

unfoldable pub reveal : HashChain → ℕ → Option Hash
reveal chain index = if index == 0 then none else get_elem? chain.links index

-- What a successful `advance` writes.
unfoldable pub moved : ChainCursor → Hash → ℕ → ChainCursor
moved cursor reveal steps = record cursor {
  committed = reveal;
  consumed =
      if ltb (cursor.consumed + steps) u32_bound then cursor.consumed + steps else u32_bound - 1;
}

module _ (link : Hash → Hash) where
  -- The loop of `generate`, from the seed down to the root.
  unfoldable pub build : ℕ → Hash → List Hash
  build zero seed = seed ∷ []
  build (suc n) seed = let rest = build n seed in link (first_or_zero rest) ∷ rest

  unfoldable pub generate : Hash → ℕ → Result ChainError HashChain
  generate seed len =
      if ltb max_chain_len len
      then err (bad_chain_link max_chain_len)
      else ok (record { links = build len seed })

  -- The loop of `advance`: `fuel` is `max_steps - steps`.
  unfoldable pub walk : ℕ → ℕ → Hash → Hash → Option ℕ
  walk zero steps current committed = none
  walk (suc fuel) steps current committed =
      let rest = walk fuel (steps + 1) (link current) committed in
      if link current == committed then some (steps + 1) else rest

  -- The number of steps and the cursor behind the reveal. A failure leaves the cursor.
  unfoldable pub advance : ChainCursor → Hash → Result ChainError (ℕ × ChainCursor)
  advance cursor reveal = elim (walk cursor.max_steps 0 reveal cursor.committed) [
    | none ↦ err (bad_chain_link cursor.max_steps)
    | some steps ↦ ok (steps, moved cursor reveal steps)
  ]

  unfoldable pub would_advance : ChainCursor → Hash → Result ChainError ℕ
  would_advance cursor reveal = elim (advance cursor reveal) [
    | ok (steps, probe) ↦ ok steps
    | err e ↦ err e
  ]

  -- `n` links towards the root.
  unfoldable pub iterate : ℕ → Hash → Hash
  iterate zero h = h
  iterate (suc n) h = iterate n (link h)
