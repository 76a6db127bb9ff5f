-- ===== src/Node.antt =====
-- network/node.rs: what a node does with a message of a peer, of the loop of `run`. Publishing is the answer that is
-- returned; the locks, the log and the swarm of libp2p are left out.
pub mod Sync
pub mod Handle
pub mod Gate
mod Tests
