-- ===== src/Mempool.antt =====
-- mempool.rs: the pool of pending transactions with its indices by sender and by fee.
pub mod Pool
pub mod Indices
pub mod Invariant
pub mod Preserve
pub mod Bounds
pub mod Fees
pub mod Tests
