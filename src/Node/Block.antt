-- ===== src/Node/Block.antt =====
-- vanargand-node/src/block.rs: a block, and what its node takes from the hashes.
use vanargand.Common.{Option, List, map}
use vanargand.Types.Merkle.{list_root}
use vanargand.Types.Tx.{Hash, TxId, SignedHeader, Transaction, TxBody, Crypto}
use vanargand.State.Ledger.{Ledger}
use vanargand.Consensus.Certificate.{Certificate}

-- The digests of a block: of a signature, as `Crypto`, of the two levels of the transaction tree, of
-- a link of a proposer's commitment chain, and of the whole ledger.
pub record NodeCrypto : Type 0 where
  pub crypto : Crypto
  pub leaf_hash : Hash → Hash
  pub node_hash : Hash → Hash → Hash
  pub commitment_link : Hash → Hash
  pub state_root_of : Ledger → Hash

pub record Block : Type 0 where
  pub header : SignedHeader
  pub transactions : List Transaction
  pub certificate : Option Certificate

abbrev pub body_of : Transaction → TxBody
body_of tx = tx.body

unfoldable pub tx_ids : NodeCrypto → List Transaction → List TxId
tx_ids n txs = map (λ tx. n.crypto.tx_id tx.body) txs

unfoldable pub computed_tx_root : NodeCrypto → List Transaction → Hash
unfolding tx_ids list_root
computed_tx_root n txs = list_root n.leaf_hash n.node_hash (tx_ids n txs)
