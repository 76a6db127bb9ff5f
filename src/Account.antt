-- ===== src/Account.antt =====
-- account.rs: balances, nonces, validators, the unbonding queue and the transitions on them.
pub mod State
pub mod Validate
pub mod Apply
pub mod Epoch
pub mod Supply
pub mod Conserve
pub mod EpochSupply
pub mod EpochKept
pub mod Effects
pub mod Replay
pub mod Slashed
pub mod Unstake
pub mod Unbonded
pub mod Tests
