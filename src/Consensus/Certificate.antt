-- ===== src/Consensus/Certificate.antt =====
-- vanargand-consensus/src/certificate.rs: the votes of members on duty for a block, and their weight.
pub mod Quorum
pub mod Intersection
use vanargand.Common.{
  ℕ, suc, ◌+◌, Bool, true, false, Option, none, some, List, [], ◌∷◌, leb, ◌==◌, not, ◌&&◌,
  if◌then◌else◌, Result, ok, err, ok_or, and_then,
}
use vanargand.Common.Lists.{length}
use vanargand.Common.Map.{Set, contains, insert}
use vanargand.Common.Map.Keys.{nat_key}
use vanargand.Types.Tx.{Hash, AccountId, Signature, BlockHeader, Crypto}
use vanargand.Types.Tx.Checks.{valid_on_live_chain}
use vanargand.Consensus.Weight.{Weight, checked_add_u128, exceeds_two_thirds_of}
use vanargand.Consensus.Validator.{ValidatorSet, get_validator}
use vanargand.Consensus.Committee.{CommitteeMember, Committee, active_at, weight_of}

pub record Vote : Type 0 where
  pub member : AccountId
  pub signature : Signature

pub record Certificate : Type 0 where
  pub block : Hash
  pub votes : List Vote

pub data CertificateError : Type 0 where
  wrong_block : Hash → Hash → CertificateError
  unordered : ℕ → CertificateError
  not_on_duty unknown_validator bad_signature test_algorithm_on_live_chain :
      AccountId → CertificateError
  overflow : CertificateError

-- `collect()` into a `BTreeSet`
unfoldable pub account_set : List CommitteeMember → Set AccountId
account_set [] = []
account_set (m ∷ ms) = insert m.account tt (account_set ms)

-- A vote that does not come after its predecessor.
unfoldable pub is_unordered : Option AccountId → AccountId → Bool
is_unordered none member = false
is_unordered (some last) member = leb member last

module _ (crypto : Crypto) (committee : Committee) (validators : ValidatorSet)
    (allow_test : Bool) where
  -- What the loop of `verify` checks of one vote, once it is in order.
  unfoldable pub check_vote : Set AccountId → Hash → Vote → Result CertificateError Weight
  unfolding get_validator weight_of valid_on_live_chain
  check_vote on_duty digest vote =
      if not (contains vote.member on_duty)
      then err (not_on_duty vote.member)
      else elim (get_validator vote.member validators) [
        | none ↦ err (unknown_validator vote.member)
        | some validator ↦
            if not allow_test && not (valid_on_live_chain validator.key.algorithm)
            then err (test_algorithm_on_live_chain vote.member)
            else if not (crypto.verify_signature validator.key digest vote.signature)
            then err (bad_signature vote.member)
            else ok_or (weight_of committee vote.member) (not_on_duty vote.member)
      ]

  -- The loop of `verify`.
  unfoldable pub verify_votes :
      Set AccountId
      → Hash
      → ℕ
      → Option AccountId
      → Weight
      → List Vote
      → Result CertificateError Weight
  unfolding is_unordered check_vote
  verify_votes on_duty digest index previous signed [] = ok signed
  verify_votes on_duty digest index previous signed (vote ∷ votes) =
      if is_unordered previous vote.member
      then err (unordered index)
      else (and_then (check_vote on_duty digest vote) λ weight.
          and_then (ok_or (checked_add_u128 signed weight) overflow)
            λ more. verify_votes on_duty digest (suc index) (some vote.member) more votes)

  unfoldable pub verify_certificate : Certificate → BlockHeader → ℕ → Result CertificateError Weight
  unfolding verify_votes active_at account_set
  verify_certificate certificate header block_in_epoch =
      if not (certificate.block == crypto.block_id header)
      then err (wrong_block certificate.block (crypto.block_id header))
      else verify_votes (account_set (active_at committee block_in_epoch))
          (crypto.block_signing_digest header) 0 none 0 certificate.votes

unfoldable pub finalises : Weight → Weight → Bool
unfolding exceeds_two_thirds_of
finalises signed active_total = exceeds_two_thirds_of signed active_total
