-- ===== src/Finality.antt =====
-- consensus/finality.rs: validator snapshots, votes, the aggregator and finality certificates.
pub mod Snapshot
pub mod Aggregator
pub mod Cert
pub mod Voters
pub mod Intersection
pub mod Phases
pub mod Bits
pub mod RoundTrip
pub mod Tests
