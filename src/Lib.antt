-- ===== src/Lib.antt =====
-- Vanargand, a ledger that keeps working through a partition of the network: accounts whose devices
-- sign on lanes of their own, payment channels over PayWord hash chains, local assets, names that
-- are claimed by commit and reveal, social recovery, and penalties for whoever signs twice.
--
-- The parts, and the files that model them (paths from the repository's root):
--   Common      Rust's results, ordered maps (`BTreeMap` as an association list in ascending order
--               of keys), lists, and the sums of maps.
--   Types       vanargand-types/src: Amount (amount.rs), Nonce (nonce.rs), Name (name.rs), Tx (tx.rs,
--               with the header and validator evidence of block.rs), Window (the rungs and the
--               contestation window of block.rs), Merkle (merkle.rs), Codec (codec.rs: the numbers and byte
--               strings; Codec/Items the options, sequences, sets and whole objects).
--   Crypto      vanargand-crypto/src/chain.rs: hash chains and cursors.
--   Bourse      vanargand-bourse/src: Payword (payword.rs), Purse (purse.rs), Watchtower
--               (watchtower.rs).
--   State       vanargand-state/src: Account, Asset, NameBook, PurseBook, Recovery and Slashing
--               model the file of their name, and Recovery/Quorum is about a whole
--               recovery. Ledger is ledger.rs: `Ledger` is the state, an `Action`
--               is a method on `&mut self` that may fail (what was written before an error stays
--               written), Ledger/Change holds what is done to one account, Ledger/Kinds the handler
--               of each kind of transaction, Ledger/Kinds/Dispatch is `apply_kind`, and Ledger/Apply
--               is `apply` with its checks, the fee, and a block's housekeeping. The proofs are in
--               Ledger/Supply (value), Ledger/Replay, Ledger/Admission, Ledger/Outflow (what a
--               transaction of a partition costs) and Ledger/Atomic.
--   Consensus   vanargand-consensus/src: Weight, Emission, Seed, Validator, Committee, Certificate and
--               Leak model the file of their name, and Delay is vdf.rs. Emission/Schedule compares
--               the ceiling with the sum over the epochs, Committee/Draw and Committee/Seats are
--               about the draw, Certificate/Intersection about two quorums, Leak/Restore about the
--               end of a stall, Delay/Laws about the proofs of a delay.
--   Node        vanargand-node/src: Block (block.rs), Validate (validate.rs, whose `run` is a chain of
--               functions, one for each of its stages), Propose (propose.rs).
--   Tests       runs on concrete inputs.
--
-- How the parts meet: a transaction's body is checked against its block and its account, its fee is
-- shared out, its kind is applied through the books, and its nonce is consumed last, on a working
-- copy that replaces the ledger only if nothing failed. Every deadline is a finalised height. A block
-- is checked against its parent, its proposer and its body, the elapsed channels settle, its
-- transactions apply one after the other, and the ledger that they leave is compared with what the
-- header commits to; a certificate then says how final the block is. A proposer goes the same way
-- with candidates that it may leave out.
--
-- Numbers: an integer of w bits is a native number, and what does not fit is the `None` of the
-- checked operations, as in the source. Identifiers and digests are numbers. What the program takes
-- from blake3 and the signature backends is the record `Crypto`: digests of canonical bytes, and
-- whether a signature verifies. No property of a digest is assumed but where a theorem says so.
-- The loops are structural: a number's bytes run on the nine groups of seven bits that can precede
-- the last one of 64 bits; `walk`, the search of a cursor, runs on the steps that are left, which
-- the source bounds by the same `max_steps`; the levels of a transaction tree run on the number of
-- its leaves, which is enough since a level at least halves; the draw of a committee runs on the
-- seats that are free; the schedule's loop runs on the periods, of which 64 can emit anything. The
-- hashes of the trees, of the seeds, of a delay's step and of the whole ledger are parameters.
--
-- Not modelled: the encodings of the types, text strings of the codec, the sparse tree
-- that holds the state, addresses, key exchange and key derivation, and the crates that are
-- documentation only. Display and the accessors that only read a field are left out everywhere.
pub mod Common
pub mod Types
pub mod Crypto
pub mod Bourse
pub mod State
pub mod Consensus
pub mod Node
pub mod Tests
