-- ===== src/Lib.antt =====
-- blockhain-core: verification of the node's core logic.
--
-- The program is a blockchain node. A block carries transactions between accounts; the account state
-- holds balances, nonces, validators with stake and the queue of stake that is being released; a mempool
-- holds transactions that wait for a block; a consensus engine says who may propose a block; a finality
-- gadget collects prevotes and precommits of validators on checkpoint blocks and turns them into
-- certificates; the blockchain object adds blocks, applies their transactions, slashes validators for
-- evidence, advances epochs, accepts certificates and changes to a better chain.
--
-- Files and the source they model (paths from the repository's root):
--   Prelude       shared helpers: the interface Eq of Boolean equality with its lemmas, lists over the
--                 native numbers, Result with do blocks, the arithmetic of u64 with wrap-around
--                 written out, bytes of strings and numbers
--   Map           association lists for HashMap and BTreeMap: insert, remove, modify, get (Map/Laws,
--                 Map/Sums, Map/Ordered)
--   Crypto        src/crypto.rs and src/hash.rs: the third-party SHA-256, hexadecimal coding and Ed25519 are
--                 fields of the record Crypto, a parameter of all that use them
--   Transaction   src/transaction.rs (Transaction/New: constructors, hash and signing;
--                 Transaction/Preimage: what a signature leaves open)
--   Account       src/account.rs: State (data and accessors), Validate (validate_transaction), Apply
--                 (apply_transaction, apply_block), Epoch (advance_epoch, apply_slashing); the theorems
--                 are in Supply, Conserve, EpochSupply, EpochKept, Effects, Replay, Slashed, Unstake and
--                 Unbonded
--   Mempool       src/mempool.rs: Pool (the operations), Indices (lemmas), Invariant, Preserve, Bounds, Fees
--   Finality      src/consensus/finality.rs and the constants of src/chain_config.rs: Snapshot, Aggregator,
--                 Cert; the theorems are in Voters, Intersection, Phases, Bits and RoundTrip
--   Merkle        the pairing loop of src/block.rs (Merkle/Laws), the transaction root (Merkle/Root)
--   Block         src/block.rs: blocks, headers, their hashes and signatures
--   Consensus     src/consensus/mod.rs: the trait ConsensusEngine as a record of its required methods,
--                 the default methods as functions of such a record; Consensus/Authority is src/consensus/poa.rs,
--                 Consensus/Work is src/consensus/pow.rs, with the mining loop in Consensus/Mining;
--                 Consensus/Stake (state, evidence) and Consensus/Election (the lot, blocks) are
--                 src/consensus/pos.rs, with the theorems in Recorded, DoubleSign, Caught and Lost
--   Chain         src/blockchain.rs: State (the object, submitting transactions, certificates), Add
--                 (validate_and_add_block), Reorg (try_reorg), Produce (produce_block), Genesis (the
--                 genesis block of src/genesis.rs), Start (new); the theorems are in Guards, Finalized, Depth,
--                 Coins, Submit, Foreign, Unsigned, Genesis and Forget
--   Pruning       src/snapshot.rs: which blocks PruningManager may delete; Pruning/Snapshot: the snapshot
--   Storage       src/storage.rs: blocks and certificates in the key-value database (Storage/Reload: the chain
--                 is loaded again)
--   Wire          src/network/protocol.rs, src/network/proto_conversions.rs and proto/protocol.proto: Message
--                 (NetworkMessage), Proto (the generated types), Convert and Codec (the conversions and the
--                 bytes), RoundTrip
--   Encoding      src/encoding.rs: bytes with a version
--   Qc            src/consensus/qc.rs (Qc/Inclusion: Merkle paths)
--   Slashing      src/slashing.rs (Slashing/Verdict)
--   Peers         src/network/peer_manager.rs (Peers/Bans)
--   Node          src/network/node.rs: Sync (the state, slices, requests for blocks), Handle (the handler of each
--                 message and the checks before it), Gate; it composes Wire, Peers, Chain and Storage
-- Concrete runs and the theorems at concrete inputs are in the Tests module of each part.
--
-- Conventions. A method that changes its object takes the object and returns the new one, beside a
-- Result when the source returns one; an object is returned also on an error, since some methods change
-- it before they fail. Numbers are the native natural numbers; the u64 arithmetic of the source is
-- add64, sub64 and mul64, which wrap around modulo 2^64 as a release build does. Hash maps are association
-- lists: an order of iteration is the order of the list, and nothing is stated that depends on
-- it, save where a comment says so. Error strings are constructors named for them. The time that the
-- source reads from the system clock is an argument. Prints and writes to the database are left
-- out of the other parts, since the source ignores the results of these writes; Storage has the
-- operations of the database and what is written for an added block.
--
-- Bounds and fuel. The pairing loop of Merkle runs on fuel, the number of its nodes; each turn leaves
-- fewer nodes, so the fuel is enough (loop_total in Merkle/Laws). The mining loop of Consensus/Work
-- runs on a number of turns that is an argument; the source loops until a hash has enough zeros, and
-- the fuel is enough if one of that many nonces leads to such a hash. The loop that loads the chain
-- from the database runs on a number of turns too; the number of blocks is enough (Storage/Reload).
-- All other loops of the source that are modelled run over a list, or as often as the source bounds
-- them, and are structural recursion.
--
-- Not modelled: the swarm of the network node, files and JSON, the command line and main, since they
-- are input and output around third-party libraries. Arithmetic on floating-point numbers is a
-- parameter: the penalty of slashing as a function of the stake, the new difficulty of proof of work,
-- the tokens of the rate limits (the record Floats). So are the decimal numbers of the standard
-- library (Decimal), the encoding of generated messages by prost (Prost), the VRF of schnorrkel with
-- its threshold in floats (Vrf), signing with a key pair (KeyPair) and the database with its JSON
-- (Disk).
pub mod Prelude
pub mod Map
pub mod Crypto
pub mod Transaction
pub mod Account
pub mod Mempool
pub mod Finality
pub mod Merkle
pub mod Block
pub mod Consensus
pub mod Chain
pub mod Pruning
pub mod Wire
pub mod Qc
pub mod Slashing
pub mod Peers
pub mod Storage
pub mod Node
pub mod Encoding
