-- ===== src/State/NameBook.antt =====
-- vanargand-state/src/name_book.rs: registering names by commit and reveal.
pub mod Laws
use vanargand.Common.{
  ℕ, ◌*◌, Bool, true, false, Option, none, some, ltb, ◌==◌, if◌then◌else◌, Result, ok, err, not,
  List, [], ◌∷◌, map,
}
use vanargand.Common.Map.{Map, lookup, contains, insert, remove}
use vanargand.Common.Map.Keys.{nat_key, bytes_key}
use vanargand.Common.Lists.{length}
use vanargand.Types.Amount.{saturating_add}
use vanargand.Types.Name.{Name, is_premium}
use vanargand.Types.Tx.{Hash, AccountId}
use vanargand.Types.Window.{epoch_blocks}

abbrev pub min_reveal_delay_finalized_blocks : ℕ
min_reveal_delay_finalized_blocks = 10

abbrev pub commitment_expiry_finalized_blocks : ℕ
commitment_expiry_finalized_blocks = 12 * epoch_blocks

pub record CommitmentRecord : Type 0 where
  pub account : AccountId
  pub committed_at_finalized : ℕ

pub data NameError : Type 0 where
  commitment_exists no_such_commitment : NameError
  too_soon commitment_expired : ℕ → ℕ → NameError
  name_taken : AccountId → NameError
  premium_not_auctioned : Name → NameError

pub record NameBook : Type 0 where
  pub owners : Map Name AccountId
  pub commitments : Map Hash CommitmentRecord

abbrev pub new_name_book : NameBook
new_name_book = record { owners = []; commitments = [] }

unfoldable pub owner : NameBook → Name → Option AccountId
owner b name = lookup name b.owners

unfoldable pub commit : NameBook → Hash → AccountId → ℕ → Result NameError NameBook
commit b commitment account finalized_height =
    if contains commitment b.commitments
    then err commitment_exists
    else ok (record b {
      commitments =
          insert commitment
            (record { account = account; committed_at_finalized = finalized_height }) b.commitments;
    })

-- `name_commitment` is the digest of a name, a salt and the claimant.
unfoldable pub reveal :
    (Name → ℕ → AccountId → Hash) → NameBook → Name → ℕ → AccountId → ℕ → Result NameError NameBook
reveal name_commitment b name salt account finalized_height =
    if is_premium name
    then err (premium_not_auctioned name)
    else elim (lookup (name_commitment name salt account) b.commitments) [
      | none ↦ err no_such_commitment
      | some entry ↦
          if not (entry.account == account)
          then err no_such_commitment
          else if ltb finalized_height
              (saturating_add entry.committed_at_finalized min_reveal_delay_finalized_blocks)
          then err (too_soon entry.committed_at_finalized finalized_height)
          else if ltb
              (saturating_add entry.committed_at_finalized commitment_expiry_finalized_blocks)
              finalized_height
          then err (commitment_expired entry.committed_at_finalized finalized_height)
          else elim (owner b name) [
            | some holder ↦ err (name_taken holder)
            | none ↦ ok (record {
              commitments = remove (name_commitment name salt account) b.commitments;
              owners = insert name account b.owners;
            })
          ]
    ]

is_stale : ℕ → CommitmentRecord → Bool
is_stale finalized_height entry =
    ltb (saturating_add entry.committed_at_finalized commitment_expiry_finalized_blocks)
      finalized_height

stale : ℕ → Map Hash CommitmentRecord → List Hash
stale finalized_height [] = []
stale finalized_height ((digest, entry) ∷ m) =
    if is_stale finalized_height entry
    then digest ∷ stale finalized_height m
    else stale finalized_height m

remove_all : List Hash → Map Hash CommitmentRecord → Map Hash CommitmentRecord
remove_all [] m = m
remove_all (digest ∷ rest) m = remove_all rest (remove digest m)

-- The book without the expired commitments, and how many they were.
unfoldable pub prune_expired : NameBook → ℕ → NameBook × ℕ
unfolding is_stale stale remove_all
prune_expired b finalized_height =
    let expired = stale finalized_height b.commitments in
    (record b { commitments = remove_all expired b.commitments }, length expired)
