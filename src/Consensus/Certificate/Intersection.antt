-- ===== src/Consensus/Certificate/Intersection.antt =====
-- Two certificates that finalise at one place of one epoch.
use vanargand.Common.{
  ℕ, ◌*◌, ◌≤◌, ◌<◌, ◌≡◌, Bool, true, none, arith, ◌==◌, ◌&&◌, Bool-cases, inl, inr, ok, some,
}
use vanargand.Types.Tx.{AccountId, Signature, BlockHeader, Crypto}
use vanargand.Consensus.Weight.{Weight, exceeds_two_thirds_of-lt}
use vanargand.Consensus.Seed.{SeedDigests, EpochSeed}
use vanargand.Consensus.Validator.{ValidatorRecord, ValidatorSet, get_validator, IsValidatorSet}
use vanargand.Consensus.Committee.{Committee, active_at, active_weight_at, draw}
use vanargand.Consensus.Committee.Duty.{
  IsSeated, active_weight_at-sum, active_at-IsWeighed, draw-IsSeated,
}
use vanargand.Consensus.Certificate.{Certificate, verify_certificate, finalises}
use vanargand.Consensus.Certificate.Quorum.{
  voted, weight_where, weight_where-both, weight_where-some, verify_votes-weight,
  verify_votes-signed,
}

-- An account whose filed key verifies a signature of the header.
abbrev pub HasSigned : Crypto → ValidatorSet → AccountId → BlockHeader → Type 0
HasSigned crypto validators a header =
    (r : ValidatorRecord) × (signature : Signature) × (get_validator a validators ≡ some r)
    × (crypto.verify_signature r.key (crypto.block_signing_digest header) signature ≡ true)

module _ (crypto : Crypto) (c : Committee) (validators : ValidatorSet) (allow_test : Bool) where
  verify_certificate-votes :
      (k : Certificate) (header : BlockHeader) (b : ℕ) (w : Weight)
      → IsSeated c
      → verify_certificate crypto c validators allow_test k header b ≡ ok w
      → (w ≤ weight_where (voted k.votes) (active_at c b))
        × ((a : AccountId) → voted k.votes a ≡ true → HasSigned crypto validators a header)
  unfolding verify_certificate
  verify_certificate-votes k header b w s h =
      elim (Bool-cases (k.block == crypto.block_id header)) [
        | inl t ↦ (
          omega (
            arith,
            verify_votes-weight crypto c validators allow_test (active_at c b)
                (crypto.block_signing_digest header) 0 none 0 k.votes w (active_at-IsWeighed c b s)
                (ground arith),
          ),
          λ a v.
              verify_votes-signed crypto c validators allow_test (active_at c b)
                (crypto.block_signing_digest header) 0 none 0 k.votes w a (ground arith) v,
        )
        | inr f ↦ ground arith
      ]

  -- What two certificates that finalise have in common.
  pub common_voters :
      (k l : Certificate) (h g : BlockHeader) (b : ℕ) (w x : Weight)
      → IsSeated c
      → verify_certificate crypto c validators allow_test k h b ≡ ok w
      → finalises w (active_weight_at c b) ≡ true
      → verify_certificate crypto c validators allow_test l g b ≡ ok x
      → finalises x (active_weight_at c b) ≡ true
      → active_weight_at c b
        < 3 * weight_where (λ a. voted k.votes a && voted l.votes a) (active_at c b)
  unfolding finalises
  common_voters k l h g b w x s hk fk hl fl =
      let (lk, sk) = verify_certificate-votes k h b w s hk in
      let (ll, sl) = verify_certificate-votes l g b x s hl in
      omega (
        arith,
        lk,
        ll,
        active_weight_at-sum c b s,
        exceeds_two_thirds_of-lt w (active_weight_at c b) fk,
        exceeds_two_thirds_of-lt x (active_weight_at c b) fl,
        weight_where-both (voted k.votes) (voted l.votes) (active_at c b),
      )

  -- If they share weight, then somebody has signed both blocks.
  pub common_signer :
      (k l : Certificate) (h g : BlockHeader) (b : ℕ) (w x : Weight)
      → IsSeated c
      → verify_certificate crypto c validators allow_test k h b ≡ ok w
      → verify_certificate crypto c validators allow_test l g b ≡ ok x
      → 0 < weight_where (λ a. voted k.votes a && voted l.votes a) (active_at c b)
      → (a : AccountId) × HasSigned crypto validators a h × HasSigned crypto validators a g
  common_signer k l h g b w x s hk hl p =
      let (a, v) = weight_where-some (λ a. voted k.votes a && voted l.votes a) (active_at c b) p in
      (
        a,
        (verify_certificate-votes k h b w s hk).1 a (ground arith),
        (verify_certificate-votes l g b x s hl).1 a (ground arith),
      )

module _ (digests : SeedDigests) (seed : EpochSeed) (crypto : Crypto) where
  -- Two blocks cannot both be finalised at one place of an epoch without a third of the weight on
  -- duty signing twice: if two certificates verify for two headers, against the committee that is
  -- drawn from a valid validator set, at the same block of the epoch, and the weight of each
  -- finalises, then the members on duty who voted in both have more than a third of the weight on
  -- duty, and at least one account signed both blocks under the key that is filed for it.
  pub quorum_intersection :
      (set validators : ValidatorSet) (allow_test : Bool) (k l : Certificate) (h g : BlockHeader)
      (b : ℕ) (w x : Weight)
      → IsValidatorSet set
      → verify_certificate crypto (draw digests seed set) validators allow_test k h b ≡ ok w
      → finalises w (active_weight_at (draw digests seed set) b) ≡ true
      → verify_certificate crypto (draw digests seed set) validators allow_test l g b ≡ ok x
      → finalises x (active_weight_at (draw digests seed set) b) ≡ true
      → (active_weight_at (draw digests seed set) b
          < 3
            * weight_where
                (λ a. voted k.votes a && voted l.votes a)
                (active_at (draw digests seed set) b))
        × ((a : AccountId) × HasSigned crypto validators a h × HasSigned crypto validators a g)
  quorum_intersection set validators allow_test k l h g b w x v hk fk hl fl =
      let c = draw digests seed set in
      let seated = draw-IsSeated digests seed set v in
      let shared = common_voters crypto c validators allow_test k l h g b w x seated hk fk hl fl in
      (
        shared,
        common_signer crypto c validators allow_test k l h g b w x seated hk hl
            (omega (arith, shared)),
      )
