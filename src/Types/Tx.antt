-- ===== src/Types/Tx.antt =====
-- vanargand-types/src/tx.rs: what a transaction can say, and evidence that one device signed twice
-- in one slot; with the block header and the validator evidence of vanargand-types/src/block.rs.
-- Identifiers and digests are 32 bytes, read as one number.
pub mod Checks
pub mod Grammar
use vanargand.Common.{ℕ, Bool, true, false, Option, List}
use vanargand.Common.Map.{Set}
use vanargand.Types.Amount.{Amount, Ratio}
use vanargand.Types.Nonce.{Lane, Nonce}
use vanargand.Types.Name.{Name}
use vanargand.Types.Window.{FinalityRung}

abbrev pub Hash : Type 0
Hash = ℕ

abbrev pub AccountId : Type 0
AccountId = Hash

abbrev pub DeviceId : Type 0
DeviceId = Hash

abbrev pub ChainId : Type 0
ChainId = Hash

abbrev pub TxId : Type 0
TxId = Hash

abbrev pub AssetId : Type 0
AssetId = Hash

-- A key and a signature carry the number of their algorithm.
pub record VerifyingKey : Type 0 where
  pub algorithm : ℕ
  pub bytes : List ℕ

pub record Signature : Type 0 where
  pub algorithm : ℕ
  pub bytes : List ℕ

pub record BlockHeader : Type 0 where
  pub version : ℕ
  pub chain : ChainId
  pub height : ℕ
  pub parent : Hash
  pub rung : FinalityRung
  pub finalized_height : ℕ
  pub state_root : Hash
  pub tx_root : Hash
  pub proposer : AccountId
  pub randomness_reveal : Hash
  pub archive_commitment : Hash
  pub emitted_supply : Amount
  pub security_budget : Amount
  pub fee_emission_ratio : Ratio

pub record SignedHeader : Type 0 where
  pub header : BlockHeader
  pub signature : Signature

pub record ValidatorEquivocation : Type 0 where
  pub validator : AccountId
  pub first : SignedHeader
  pub second : SignedHeader

-- The kinds, with their fields in the source's order. The body of a transaction inside account
-- evidence is boxed: `open_body` takes it out.
mutual
  pub data TxKind : Type 0 where
    transfer : AccountId → Option AssetId → Amount → TxKind
    nomad_set : Amount → Amount → TxKind
    device_add : VerifyingKey → Lane → Amount → TxKind
    device_revoke : DeviceId → TxKind
    name_commit : Hash → TxKind
    name_reveal : Name → ℕ → TxKind
    guardian_set : Set AccountId → ℕ → TxKind
    recovery_start : AccountId → VerifyingKey → TxKind
    recovery_cancel : AccountId → TxKind
    recovery_finalise : AccountId → TxKind
    bond : Amount → Hash → TxKind
    unbond : Amount → TxKind
    purse_open : AccountId → Option AssetId → Amount → Hash → Amount → ℕ → TxKind
    purse_close_cooperative : TxId → Amount → Amount → Signature → TxKind
    purse_close_unilateral : TxId → ℕ → Hash → TxKind
    purse_dispute : TxId → ℕ → Hash → TxKind
    asset_create : Name → ℕ → Bool → TxKind
    asset_mint : AssetId → AccountId → Amount → TxKind
    asset_burn : AssetId → Amount → TxKind
    account_equivocation : BoxedEquivocation → TxKind
    validator_equivocation : ValidatorEquivocation → TxKind

  pub data BoxedBody : Type 0 where
    boxed_body : ℕ → ChainId → AccountId → DeviceId → Nonce → Amount → Option ℕ → TxKind → BoxedBody

  pub data BoxedEquivocation : Type 0 where
    boxed_equivocation :
        DeviceId → BoxedBody → Signature → BoxedBody → Signature → BoxedEquivocation

pub record TxBody : Type 0 where
  pub version : ℕ
  pub chain : ChainId
  pub account : AccountId
  pub device : DeviceId
  pub nonce : Nonce
  pub fee : Amount
  pub valid_until_finalized : Option ℕ
  pub kind : TxKind

pub record Transaction : Type 0 where
  pub body : TxBody
  pub signature : Signature

pub record AccountEquivocation : Type 0 where
  pub device : DeviceId
  pub first : Transaction
  pub second : Transaction

abbrev pub open_body : BoxedBody → TxBody
open_body (boxed_body version chain account device nonce fee valid_until kind) = record {
  version = version;
  chain = chain;
  account = account;
  device = device;
  nonce = nonce;
  fee = fee;
  valid_until_finalized = valid_until;
  kind = kind;
}

abbrev pub open_equivocation : BoxedEquivocation → AccountEquivocation
open_equivocation (boxed_equivocation device b s b' s') = record {
  device = device;
  first = record { body = open_body b; signature = s };
  second = record { body = open_body b'; signature = s' };
}

-- What the program takes from blake3 and the signature backends: digests of canonical bytes in
-- their domains, and whether a signature of a digest verifies under a key.
pub record Crypto : Type 0 where
  -- `H[payword](link)`
  pub payword_link : Hash → Hash
  -- `DeviceId::of_device_key`
  pub device_id_of : VerifyingKey → DeviceId
  -- `TxBody::id` and `TxBody::signing_digest`
  pub tx_id : TxBody → TxId
  pub tx_signing_digest : TxBody → Hash
  -- `BlockHeader::id` and `BlockHeader::signing_digest`
  pub block_id : BlockHeader → Hash
  pub block_signing_digest : BlockHeader → Hash
  -- `asset_id_of` and `name_commitment`
  pub asset_id_of : AccountId → TxId → AssetId
  pub name_commitment : Name → ℕ → AccountId → Hash
  -- `sign::verify`
  pub verify_signature : VerifyingKey → Hash → Signature → Bool
