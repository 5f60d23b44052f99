-- ===== src/Types/Tx/Checks.antt =====
-- Verification of a transaction, of account evidence (tx.rs), of a header and of validator evidence
-- (block.rs), over the digests and the signature backend of `Crypto`.
use vanargand.Common.{
  ℕ, ◌≡◌, ◌≢◌, ◌≤◌, Bool, true, false, ltb, ◌==◌, if◌then◌else◌, Result, ok, err, Done, and_then,
  arith, ◌&&◌, ◌||◌, not, ◌⊎◌,
}
use vanargand.Types.Amount.{within_cap, max_supply}
use vanargand.Types.Nonce.{collides_with}
use vanargand.Types.Window.{FinalityRung, claimable_by_a_header}
use vanargand.Types.Tx.{
  Transaction, AccountEquivocation, BlockHeader, SignedHeader, ValidatorEquivocation, VerifyingKey,
  Crypto,
}
use vanargand.Types.Tx.Grammar.{
  TxError, bad_signature, wrong_device_key, test_algorithm_on_live_chain, evidence_about_evidence,
  different_chains, different_accounts, not_both_by_the_accused_device, nonces_do_not_collide,
  the_same_transaction_twice, is_evidence,
}

-- `AlgorithmId::InsecureTest` is 0x10, and the only one that a live chain refuses.
abbrev pub insecure_test : ℕ
insecure_test = 0x10

unfoldable pub valid_on_live_chain : ℕ → Bool
valid_on_live_chain algorithm = not (algorithm == insecure_test)

pub data HeaderError : Type 0 where
  unsupported_version : ℕ → HeaderError
  unclaimable_rung : FinalityRung → HeaderError
  finalized_ahead : ℕ → ℕ → HeaderError
  genesis_has_parent missing_parent : HeaderError
  supply_over_cap : ℕ → HeaderError
  bad_header_signature header_test_algorithm : HeaderError
  other_chains other_heights not_both_by_the_accused the_same_block_twice : HeaderError

abbrev pub header_version : ℕ
header_version = 1

abbrev is_chain : FinalityRung → Bool
is_chain FinalityRung.chain = true
is_chain FinalityRung.provisional = false
is_chain FinalityRung.federal = false

-- `BlockHeader::check_self_consistent`
unfoldable pub check_header : BlockHeader → Result HeaderError Done
unfolding claimable_by_a_header
check_header h =
    if not (h.version == header_version)
    then err (unsupported_version h.version)
    else if not (claimable_by_a_header h.rung)
    then err (unclaimable_rung h.rung)
    else if ltb h.height h.finalized_height
    then err (finalized_ahead h.finalized_height h.height)
    else if is_chain h.rung && not (h.finalized_height == h.height)
    then err (finalized_ahead h.finalized_height h.height)
    else if (h.height == 0) && not (h.parent == 0)
    then err genesis_has_parent
    else if not (h.height == 0) && (h.parent == 0)
    then err missing_parent
    else if not (within_cap h.emitted_supply)
    then err (supply_over_cap h.emitted_supply)
    else ok tt

-- A header that passes claims a rung that a header may claim, a finalised height of at most its
-- own, equal to it at chain finality, a parent exactly when it is not the genesis, and an emission
-- counter within the cap.
pub check_header-ok :
    (h : BlockHeader)
    → check_header h ≡ ok tt
    → (h.rung ≢ FinalityRung.federal)
      × (h.finalized_height ≤ h.height)
      × (h.rung ≡ FinalityRung.chain → h.finalized_height ≡ h.height)
      × (h.height ≡ 0 → h.parent ≡ 0)
      × (h.parent ≡ 0 → h.height ≡ 0)
      × (h.emitted_supply ≤ max_supply)
unfolding check_header
check_header-ok h e = ground arith

module _ (crypto : Crypto) where
  open crypto use {
    device_id_of, tx_id, tx_signing_digest, block_id, block_signing_digest, verify_signature,
  }

  -- `Transaction::verify_allowing_test_algorithms`
  unfoldable pub verify_allowing_test_algorithms : Transaction → VerifyingKey → Result TxError Done
  verify_allowing_test_algorithms tx device_key =
      if not (device_id_of device_key == tx.body.device)
      then err wrong_device_key
      else if verify_signature device_key (tx_signing_digest tx.body) tx.signature
      then ok tt
      else err bad_signature

  -- `Transaction::verify`
  unfoldable pub verify : Transaction → VerifyingKey → Result TxError Done
  unfolding valid_on_live_chain verify_allowing_test_algorithms
  verify tx device_key =
      if not (valid_on_live_chain device_key.algorithm)
      then err test_algorithm_on_live_chain
      else verify_allowing_test_algorithms tx device_key

  -- `AccountEquivocation::check`
  unfoldable pub check_account_equivocation :
      AccountEquivocation → VerifyingKey → Result TxError Done
  check_account_equivocation e device_key =
      let first = e.first.body in
      let second = e.second.body in
      if is_evidence first.kind || is_evidence second.kind
      then err evidence_about_evidence
      else if not (first.chain == second.chain)
      then err different_chains
      else if not (first.account == second.account)
      then err different_accounts
      else if not (first.device == e.device) || not (second.device == e.device)
      then err not_both_by_the_accused_device
      else if not (collides_with first.nonce second.nonce)
      then err nonces_do_not_collide
      else if tx_id first == tx_id second
      then err the_same_transaction_twice
      else and_then (verify_allowing_test_algorithms e.first device_key)
          λ _. verify_allowing_test_algorithms e.second device_key

  -- `SignedHeader::verify_allowing_test_algorithms`
  unfoldable pub verify_header : SignedHeader → VerifyingKey → Result HeaderError Done
  verify_header h key =
      if verify_signature key (block_signing_digest h.header) h.signature
      then ok tt
      else err bad_header_signature

  -- `ValidatorEquivocation::check`
  unfoldable pub check_validator_equivocation :
      ValidatorEquivocation → VerifyingKey → Result HeaderError Done
  unfolding verify_header
  check_validator_equivocation e key =
      let first = e.first.header in
      let second = e.second.header in
      if not (first.chain == second.chain)
      then err other_chains
      else if not (first.height == second.height)
      then err other_heights
      else if not (first.proposer == e.validator) || not (second.proposer == e.validator)
      then err not_both_by_the_accused
      else if block_id first == block_id second
      then err the_same_block_twice
      else and_then (verify_header e.first key) λ _. verify_header e.second key

  -- Evidence that passes convicts one device: two bodies of one account on one chain, in one slot
  -- of that device, with different identifiers, neither of them evidence, and both signed under
  -- the key, whose identifier is that device.
  pub check_account_equivocation-ok :
      (e : AccountEquivocation) (key : VerifyingKey)
      → check_account_equivocation e key ≡ ok tt
      → (e.first.body.chain ≡ e.second.body.chain)
        × (e.first.body.account ≡ e.second.body.account)
        × (device_id_of key ≡ e.device)
        × (e.first.body.nonce.lane ≡ e.second.body.nonce.lane)
        × (e.first.body.nonce.sequence ≡ e.second.body.nonce.sequence)
        × (tx_id e.first.body ≢ tx_id e.second.body)
        × (is_evidence e.first.body.kind ≡ false)
        × (is_evidence e.second.body.kind ≡ false)
        × (verify_signature key (tx_signing_digest e.first.body) e.first.signature ≡ true)
        × (verify_signature key (tx_signing_digest e.second.body) e.second.signature ≡ true)
  unfolding check_account_equivocation verify_allowing_test_algorithms collides_with
  check_account_equivocation-ok e key h = ground arith

  -- Two honest devices never convict each other: evidence whose bodies differ in the lane, the
  -- sequence or the device passes under no key.
  pub check_account_equivocation-honest :
      (e : AccountEquivocation) (key : VerifyingKey)
      → ((e.first.body.nonce.lane ≢ e.second.body.nonce.lane)
          ⊎ (e.first.body.nonce.sequence ≢ e.second.body.nonce.sequence)
          ⊎ (e.first.body.device ≢ e.second.body.device))
      → check_account_equivocation e key ≢ ok tt
  unfolding check_account_equivocation collides_with
  check_account_equivocation-honest e key differ = ground arith
