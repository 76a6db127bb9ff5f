-- ===== src/Chain.antt =====
-- blockchain.rs: the chain of blocks, its state, its mempool and its finality.
pub mod State
pub mod Add
pub mod Reorg
pub mod Guards
pub mod Finalized
pub mod Depth
pub mod Produce
pub mod Foreign
pub mod Coins
pub mod Genesis
pub mod Unsigned
pub mod Submit
mod Tests
pub mod Start
pub mod Forget
