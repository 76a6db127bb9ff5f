-- ===== src/Wire.antt =====
-- network/protocol.rs and network/proto_conversions.rs: the messages of the network and their wire format.
pub mod Message
pub mod Proto
pub mod Convert
pub mod Codec
pub mod RoundTrip
mod Tests
