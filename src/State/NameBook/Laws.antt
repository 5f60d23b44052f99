-- ===== src/State/NameBook/Laws.antt =====
-- A name is registered only by whoever committed to it long enough ago, and never twice.
use vanargand.Common.{
  ℕ, ◌+◌, ◌≤◌, ◌<◌, ◌≡◌, ◌≢◌, refl, Bool, true, false, none, some, arith, ◌==◌, if◌then◌else◌, ok,
  err, Option-cases, inl, inr, List, [], ◌∷◌, Bool-cases,
}
use vanargand.Common.Lists.{length}
use vanargand.Common.Map.{Map, lookup, remove}
use vanargand.Common.Map.Keys.{nat_key, bytes_key}
use vanargand.Common.Map.Laws.{
  lookup-insert_self, lookup-insert_ne, lookup-remove, lookup-remove_self,
}
use vanargand.Types.Amount.{u64_bound, saturating_add}
use vanargand.Types.Name.{Name, is_premium}
use vanargand.Types.Tx.{Hash, AccountId}
use vanargand.State.NameBook.{
  NameBook, CommitmentRecord, no_such_commitment, owner, commit, reveal, prune_expired,
  min_reveal_delay_finalized_blocks, commitment_expiry_finalized_blocks, is_stale, stale,
  remove_all,
}

module _ (name_commitment : Name → ℕ → AccountId → Hash) where
  -- A reveal that succeeds opens a commitment that the same account staked, at least ten and at
  -- most 12 epochs of finalised blocks ago, to a name of six characters or more that nobody held.
  -- Afterwards the account owns the name, every other name has the owner that it had, and the
  -- commitment is gone. The height plus the expiry is taken to fit 64 bits.
  pub reveal-ok :
      (b b' : NameBook) (name other : Name) (salt : ℕ) (account : AccountId) (height : ℕ)
      → height + commitment_expiry_finalized_blocks < u64_bound
      → reveal name_commitment b name salt account height ≡ ok b'
      → (entry : CommitmentRecord) × (lookup (name_commitment name salt account) b.commitments
          ≡ some entry)
        × (entry.account ≡ account)
        × (entry.committed_at_finalized + min_reveal_delay_finalized_blocks ≤ height)
        × (height ≤ entry.committed_at_finalized + commitment_expiry_finalized_blocks)
        × (6 ≤ length name)
        × (owner b name ≡ none)
        × (owner b' name ≡ some account)
        × (other ≢ name → owner b' other ≡ owner b other)
        × (lookup (name_commitment name salt account) b'.commitments ≡ none)
  unfolding reveal owner is_premium
  reveal-ok b b' name other salt account height fits h =
      let digest = name_commitment name salt account in
      elim (Option-cases (lookup digest b.commitments)) [
        | inl missing ↦ absurd (ground (arith, missing))
        | inr (entry, found) ↦ (
          entry,
          found,
          ground (arith, found),
          ground (arith, found),
          ground (arith, found),
          ground (arith, found),
          ground (arith, found),
          ground (arith, found, lookup-insert_self name account b.owners),
          λ ne. ground (arith, found, lookup-insert_ne name other account b.owners),
          ground (arith, found, lookup-remove_self digest b.commitments),
        )
      ]

  -- The opening of a sealed claim cannot be stolen: another account that copies a name of six
  -- characters or more and the salt is refused, whatever the height, if no digest of its own was
  -- staked.
  pub reveal_copied :
      (b : NameBook) (name : Name) (salt : ℕ) (thief : AccountId) (height : ℕ)
      → lookup (name_commitment name salt thief) b.commitments ≡ none
      → is_premium name ≡ false
      → reveal name_commitment b name salt thief height ≡ err no_such_commitment
  unfolding reveal
  reveal_copied b name salt thief height none_staked long = ground arith

-- A commitment is staked once, by its account, at the finalised height of the call.
pub commit-ok :
    (b b' : NameBook) (digest other : Hash) (account : AccountId) (height : ℕ)
    → commit b digest account height ≡ ok b'
    → (lookup digest b.commitments ≡ none)
      × (lookup digest b'.commitments
          ≡ some (record { account = account; committed_at_finalized = height }))
      × (other ≢ digest → lookup other b'.commitments ≡ lookup other b.commitments)
      × (b'.owners ≡ b.owners)
unfolding commit
commit-ok b b' digest other account height h = elim (Option-cases (lookup digest b.commitments)) [
  | inr (old, found) ↦ absurd (ground (arith, found))
  | inl free ↦
      let entry : CommitmentRecord = record {
        account = account;
        committed_at_finalized = height;
      } in
      (
        free,
        ground (arith, free, lookup-insert_self digest entry b.commitments),
        λ ne. ground (arith, free, lookup-insert_ne digest other entry b.commitments),
        ground (arith, free),
      )
]

-- The list holds the digest.
abbrev listed : Hash → List Hash → Bool
listed d [] = false
listed d (x ∷ xs) = if x == d then true else listed d xs

lookup-remove_all :
    (digests : List Hash) (m : Map Hash CommitmentRecord) (d : Hash)
    → lookup d (remove_all digests m) ≡ (if listed d digests then none else lookup d m)
unfolding remove_all
lookup-remove_all [] m d = refl
lookup-remove_all (x ∷ xs) m d =
    ground (arith, lookup-remove_all xs (remove x m) d, lookup-remove x d m)

listed-stale :
    (height : ℕ) (m : Map Hash CommitmentRecord) (d : Hash)
    → (entry : CommitmentRecord) → lookup d m ≡ some entry
    → is_stale height entry ≡ true
    → listed d (stale height m) ≡ true
unfolding stale lookup
listed-stale height [] d entry e s = cc
listed-stale height ((x, w) ∷ m) d entry e s = ground (arith, listed-stale height m d entry)

-- No expired commitment survives the pruning, and no name changes hands by it.
pub prune_expired-none :
    (b : NameBook) (height : ℕ) (d : Hash) (entry : CommitmentRecord)
    → lookup d (prune_expired b height).0.commitments ≡ some entry
    → (lookup d b.commitments ≡ some entry)
      × (height ≤ saturating_add entry.committed_at_finalized commitment_expiry_finalized_blocks)
      × ((prune_expired b height).0.owners ≡ b.owners)
unfolding prune_expired
prune_expired-none b height d entry e =
    let gone = lookup-remove_all (stale height b.commitments) b.commitments d in
    let kept : lookup d b.commitments ≡ some entry = ground (arith, gone) in
    (kept, fresh kept gone, refl)
  where
    fresh :
        lookup d b.commitments ≡ some entry
        → lookup d (remove_all (stale height b.commitments) b.commitments)
          ≡ (if listed d (stale height b.commitments) then none else lookup d b.commitments)
        → height ≤ saturating_add entry.committed_at_finalized commitment_expiry_finalized_blocks
    fresh kept gone = elim (Bool-cases (is_stale height entry)) [
      | inl old ↦ absurd (ground (arith, gone, listed-stale height b.commitments d entry kept old))
      | inr new ↦ unfold is_stale in ground (arith, new)
    ]
