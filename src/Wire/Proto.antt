-- ===== src/Wire/Proto.antt =====
-- The messages of proto/protocol.proto, as prost generates them: a missing sub-message is `none`, a missing string or
-- list of bytes is empty, an enumeration is an i32, written here as its 32 bits.
use blockhain_core.Prelude.{ℕ, String, Bool, List, ℕ-Eq, String-Eq, Bytes-Eq, Option-Eq}

pub record ProtoTransaction : Type 0 where
  pub from : String
  pub to : String
  pub amount : ℕ
  pub fee : ℕ
  pub nonce : ℕ
  pub payload : List ℕ
  pub timestamp : String
  pub hash : String
  pub signature : List ℕ
  pub chain_id : ℕ
  pub tx_type : ℕ

-- `ProtoBlockHeader` but its evidence.
pub record ProtoFields : Type 0 where
  pub index : ℕ
  pub timestamp : String
  pub previous_hash : String
  pub hash : String
  pub producer : String
  pub chain_id : ℕ
  pub state_root : String
  pub tx_root : String
  pub nonce : ℕ
  pub epoch : ℕ
  pub slot : ℕ
  pub vrf_output : List ℕ
  pub vrf_proof : List ℕ
  pub validator_set_hash : String

mutual
  pub data ProtoBlockHeader : Type 0 where
    proto_header : ProtoFields → ProtoEvidences → ProtoBlockHeader

  pub data OptionalHeader : Type 0 where
    missing : OptionalHeader
    present : ProtoBlockHeader → OptionalHeader

  pub data ProtoSlashingEvidence : Type 0 where
    proto_evidence : OptionalHeader → OptionalHeader → List ℕ → List ℕ → ProtoSlashingEvidence

  pub data ProtoEvidences : Type 0 where
    proto_end : ProtoEvidences
    proto_more : ProtoSlashingEvidence → ProtoEvidences → ProtoEvidences

pub record ProtoBlock : Type 0 where
  pub index : ℕ
  pub timestamp : String
  pub previous_hash : String
  pub hash : String
  pub transactions : List ProtoTransaction
  pub nonce : ℕ
  pub producer : String
  pub signature : List ℕ
  pub chain_id : ℕ
  pub slashing_evidence : ProtoEvidences
  pub state_root : String
  pub tx_root : String
  pub epoch : ℕ
  pub slot : ℕ
  pub vrf_output : List ℕ
  pub vrf_proof : List ℕ
  pub validator_set_hash : String

pub record ProtoHandshake : Type 0 where
  pub version_major : ℕ
  pub version_minor : ℕ
  pub chain_id : ℕ
  pub best_height : ℕ
  pub validator_set_hash : String
  pub supported_schemes : List String

pub record ProtoHandshakeAck : Type 0 where
  pub version_major : ℕ
  pub version_minor : ℕ
  pub chain_id : ℕ
  pub best_height : ℕ
  pub validator_set_hash : String
  pub supported_schemes : List String

pub record ProtoGetHeaders : Type 0 where
  pub locator : List String
  pub limit : ℕ

pub record ProtoGetBlocksRange : Type 0 where
  pub from_index : ℕ
  pub to_index : ℕ

pub record ProtoGetBlocksByHeight : Type 0 where
  pub from_height : ℕ
  pub to_height : ℕ

pub record ProtoStateSnapshotResponse : Type 0 where
  pub height : ℕ
  pub state_root : String
  pub is_ok : Bool

pub record ProtoNewTip : Type 0 where
  pub height : ℕ
  pub hash : String

pub record ProtoGetStateSnapshot : Type 0 where
  pub height : ℕ

pub record ProtoSnapshotChunk : Type 0 where
  pub height : ℕ
  pub index : ℕ
  pub total : ℕ
  pub bytes : List ℕ

pub record ProtoPrevote : Type 0 where
  pub epoch : ℕ
  pub checkpoint_height : ℕ
  pub checkpoint_hash : String
  pub voter_id : String
  pub sig_bls : List ℕ

pub record ProtoPrecommit : Type 0 where
  pub epoch : ℕ
  pub checkpoint_height : ℕ
  pub checkpoint_hash : String
  pub voter_id : String
  pub sig_bls : List ℕ

pub record ProtoFinalityCert : Type 0 where
  pub epoch : ℕ
  pub checkpoint_height : ℕ
  pub checkpoint_hash : String
  pub agg_sig_bls : List ℕ
  pub bitmap : List ℕ
  pub set_hash : String

pub record ProtoGetQcBlob : Type 0 where
  pub epoch : ℕ
  pub checkpoint_height : ℕ

pub record ProtoQcBlobResponse : Type 0 where
  pub epoch : ℕ
  pub checkpoint_height : ℕ
  pub checkpoint_hash : String
  pub blob_data : List ℕ
  pub found : Bool

-- The `oneof` of `ProtoNetworkMessage`; a message of one repeated field (`ProtoHeaders`, `ProtoBlocks`) is its list.
pub data Payload : Type 0 where
  handshake_payload : ProtoHandshake → Payload
  handshake_ack_payload : ProtoHandshakeAck → Payload
  block_payload : ProtoBlock → Payload
  transaction_payload : ProtoTransaction → Payload
  get_headers_payload : ProtoGetHeaders → Payload
  headers_payload : List ProtoBlockHeader → Payload
  get_blocks_range_payload : ProtoGetBlocksRange → Payload
  blocks_payload : List ProtoBlock → Payload
  get_blocks_by_height_payload : ProtoGetBlocksByHeight → Payload
  blocks_by_height_payload : List ProtoBlock → Payload
  state_snapshot_response_payload : ProtoStateSnapshotResponse → Payload
  new_tip_payload : ProtoNewTip → Payload
  get_state_snapshot_payload : ProtoGetStateSnapshot → Payload
  snapshot_chunk_payload : ProtoSnapshotChunk → Payload
  prevote_payload : ProtoPrevote → Payload
  precommit_payload : ProtoPrecommit → Payload
  finality_cert_payload : ProtoFinalityCert → Payload
  get_qc_blob_payload : ProtoGetQcBlob → Payload
  qc_blob_response_payload : ProtoQcBlobResponse → Payload
