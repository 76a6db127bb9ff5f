-- ===== src/Wire/Message.antt =====
-- network/protocol.rs: the messages of the network, with the constructors of `NetworkMessage` (suffix `_msg`)
-- and their fields in order, and the limits on sizes.
use blockhain_core.Prelude.{ℕ, ◌*◌, String, Bool, List, ℕ-Eq, String-Eq, Bytes-Eq, Option-Eq}
use blockhain_core.Transaction.{Transaction}
use blockhain_core.Block.{BlockHeader, Block}

abbrev pub max_message_size : ℕ
max_message_size = 10 * 1024 * 1024

abbrev pub max_block_size : ℕ
max_block_size = 1 * 1024 * 1024

abbrev pub max_tx_size : ℕ
max_tx_size = 100 * 1024

pub data NetworkMessage : Type 0 where
  handshake_msg :
      (version_major : ℕ) (version_minor : ℕ) (chain_id : ℕ) (best_height : ℕ)
      (validator_set_hash : String) (supported_schemes : List String)
      → NetworkMessage
  handshake_ack_msg :
      (version_major : ℕ) (version_minor : ℕ) (chain_id : ℕ) (best_height : ℕ)
      (validator_set_hash : String) (supported_schemes : List String)
      → NetworkMessage
  block_msg : Block → NetworkMessage
  transaction_msg : Transaction → NetworkMessage
  get_headers_msg : (locator : List String) (limit : ℕ) → NetworkMessage
  headers_msg : List BlockHeader → NetworkMessage
  get_blocks_range_msg : (from_index : ℕ) (to_index : ℕ) → NetworkMessage
  blocks_msg : List Block → NetworkMessage
  get_blocks_by_height_msg : (from_height : ℕ) (to_height : ℕ) → NetworkMessage
  blocks_by_height_msg : List Block → NetworkMessage
  state_snapshot_response_msg : (height : ℕ) (state_root : String) (is_ok : Bool) → NetworkMessage
  new_tip_msg : (height : ℕ) (hash : String) → NetworkMessage
  get_state_snapshot_msg : (height : ℕ) → NetworkMessage
  snapshot_chunk_msg : (height : ℕ) (index : ℕ) (total : ℕ) (bytes : List ℕ) → NetworkMessage
  prevote_msg :
      (epoch : ℕ) (checkpoint_height : ℕ) (checkpoint_hash : String) (voter_id : String)
      (sig_bls : List ℕ)
      → NetworkMessage
  precommit_msg :
      (epoch : ℕ) (checkpoint_height : ℕ) (checkpoint_hash : String) (voter_id : String)
      (sig_bls : List ℕ)
      → NetworkMessage
  finality_cert_msg :
      (epoch : ℕ) (checkpoint_height : ℕ) (checkpoint_hash : String) (agg_sig_bls : List ℕ)
      (bitmap : List ℕ) (set_hash : String)
      → NetworkMessage
  get_qc_blob_msg : (epoch : ℕ) (checkpoint_height : ℕ) → NetworkMessage
  qc_blob_response_msg :
      (epoch : ℕ) (checkpoint_height : ℕ) (checkpoint_hash : String) (blob_data : List ℕ)
      (found : Bool)
      → NetworkMessage
