-- ===== src/Wire/Codec.antt =====
-- network/proto_conversions.rs and network/protocol.rs: the conversions of whole messages, and the bytes of a message.
use blockhain_core.Prelude.{
  ℕ, Option, none, some, List, map, ltb, if◌then◌else◌, ℕ-Eq, String-Eq, Bytes-Eq, Option-Eq,
  length, Result, ok, err, ◌>>=◌, fail_if, or_fail, is_ok, map_err,
}
use blockhain_core.Transaction.{Transaction}
use blockhain_core.Block.{Block}
use blockhain_core.Wire.Message.{
  max_message_size, max_block_size, max_tx_size, NetworkMessage, handshake_msg, handshake_ack_msg,
  block_msg, transaction_msg, get_headers_msg, headers_msg, get_blocks_range_msg, blocks_msg,
  get_blocks_by_height_msg, blocks_by_height_msg, state_snapshot_response_msg, new_tip_msg,
  get_state_snapshot_msg, snapshot_chunk_msg, prevote_msg, precommit_msg, finality_cert_msg,
  get_qc_blob_msg, qc_blob_response_msg,
}
use blockhain_core.Wire.Proto.{
  ProtoTransaction, ProtoBlock, Payload, handshake_payload, handshake_ack_payload, block_payload,
  transaction_payload, get_headers_payload, headers_payload, get_blocks_range_payload,
  blocks_payload, get_blocks_by_height_payload, blocks_by_height_payload,
  state_snapshot_response_payload, new_tip_payload, get_state_snapshot_payload,
  snapshot_chunk_payload, prevote_payload, precommit_payload, finality_cert_payload,
  get_qc_blob_payload, qc_blob_response_payload,
}
use blockhain_core.Wire.Convert.{
  Decimal, WireError, empty_payload, transaction_to_proto, transaction_from_proto, header_to_proto,
  header_from_proto, block_to_proto, all_from_proto, block_from_proto,
}

unfoldable pub to_payload : Decimal → NetworkMessage → Payload
to_payload d
      (handshake_msg version_major version_minor chain_id best_height validator_set_hash
        supported_schemes) =
    handshake_payload (record {
      version_major = version_major;
      version_minor = version_minor;
      chain_id = chain_id;
      best_height = best_height;
      validator_set_hash = validator_set_hash;
      supported_schemes = supported_schemes;
    })
to_payload d
      (handshake_ack_msg version_major version_minor chain_id best_height validator_set_hash
        supported_schemes) =
    handshake_ack_payload (record {
      version_major = version_major;
      version_minor = version_minor;
      chain_id = chain_id;
      best_height = best_height;
      validator_set_hash = validator_set_hash;
      supported_schemes = supported_schemes;
    })
to_payload d (block_msg x) = block_payload (block_to_proto d x)
to_payload d (transaction_msg x) = transaction_payload (transaction_to_proto d x)
to_payload d (get_headers_msg locator limit) =
    get_headers_payload (record { locator = locator; limit = limit })
to_payload d (headers_msg x) = headers_payload (map (header_to_proto d) x)
to_payload d (get_blocks_range_msg from_index to_index) =
    get_blocks_range_payload (record { from_index = from_index; to_index = to_index })
to_payload d (blocks_msg x) = blocks_payload (map (block_to_proto d) x)
to_payload d (get_blocks_by_height_msg from_height to_height) =
    get_blocks_by_height_payload (record { from_height = from_height; to_height = to_height })
to_payload d (blocks_by_height_msg x) = blocks_by_height_payload (map (block_to_proto d) x)
to_payload d (state_snapshot_response_msg height state_root is_ok) =
    state_snapshot_response_payload
      (record { height = height; state_root = state_root; is_ok = is_ok })
to_payload d (new_tip_msg height hash) = new_tip_payload (record { height = height; hash = hash })
to_payload d (get_state_snapshot_msg height) =
    get_state_snapshot_payload (record { height = height })
to_payload d (snapshot_chunk_msg height index total bytes) =
    snapshot_chunk_payload (record { height = height; index = index; total = total; bytes = bytes })
to_payload d (prevote_msg epoch checkpoint_height checkpoint_hash voter_id sig_bls) =
    prevote_payload (record {
      epoch = epoch;
      checkpoint_height = checkpoint_height;
      checkpoint_hash = checkpoint_hash;
      voter_id = voter_id;
      sig_bls = sig_bls;
    })
to_payload d (precommit_msg epoch checkpoint_height checkpoint_hash voter_id sig_bls) =
    precommit_payload (record {
      epoch = epoch;
      checkpoint_height = checkpoint_height;
      checkpoint_hash = checkpoint_hash;
      voter_id = voter_id;
      sig_bls = sig_bls;
    })
to_payload d
      (finality_cert_msg epoch checkpoint_height checkpoint_hash agg_sig_bls bitmap set_hash) =
    finality_cert_payload (record {
      epoch = epoch;
      checkpoint_height = checkpoint_height;
      checkpoint_hash = checkpoint_hash;
      agg_sig_bls = agg_sig_bls;
      bitmap = bitmap;
      set_hash = set_hash;
    })
to_payload d (get_qc_blob_msg epoch checkpoint_height) =
    get_qc_blob_payload (record { epoch = epoch; checkpoint_height = checkpoint_height })
to_payload d (qc_blob_response_msg epoch checkpoint_height checkpoint_hash blob_data found) =
    qc_blob_response_payload (record {
      epoch = epoch;
      checkpoint_height = checkpoint_height;
      checkpoint_hash = checkpoint_hash;
      blob_data = blob_data;
      found = found;
    })

unfoldable pub from_payload : Decimal → Payload → Result WireError NetworkMessage
from_payload d (handshake_payload p) = ok (
    handshake_msg p.version_major p.version_minor p.chain_id p.best_height p.validator_set_hash
      p.supported_schemes)
from_payload d (handshake_ack_payload p) = ok (
    handshake_ack_msg p.version_major p.version_minor p.chain_id p.best_height p.validator_set_hash
      p.supported_schemes)
from_payload d (block_payload x) = do y ← block_from_proto d x; ok (block_msg y)
from_payload d (transaction_payload x) = do y ← transaction_from_proto d x; ok (transaction_msg y)
from_payload d (get_headers_payload p) = ok (get_headers_msg p.locator p.limit)
from_payload d (headers_payload x) = do
  y ← all_from_proto (header_from_proto d) x
  ok (headers_msg y)
from_payload d (get_blocks_range_payload p) = ok (get_blocks_range_msg p.from_index p.to_index)
from_payload d (blocks_payload x) = do y ← all_from_proto (block_from_proto d) x; ok (blocks_msg y)
from_payload d (get_blocks_by_height_payload p) =
    ok (get_blocks_by_height_msg p.from_height p.to_height)
from_payload d (blocks_by_height_payload x) = do
  y ← all_from_proto (block_from_proto d) x
  ok (blocks_by_height_msg y)
from_payload d (state_snapshot_response_payload p) =
    ok (state_snapshot_response_msg p.height p.state_root p.is_ok)
from_payload d (new_tip_payload p) = ok (new_tip_msg p.height p.hash)
from_payload d (get_state_snapshot_payload p) = ok (get_state_snapshot_msg p.height)
from_payload d (snapshot_chunk_payload p) = ok (snapshot_chunk_msg p.height p.index p.total p.bytes)
from_payload d (prevote_payload p) =
    ok (prevote_msg p.epoch p.checkpoint_height p.checkpoint_hash p.voter_id p.sig_bls)
from_payload d (precommit_payload p) =
    ok (precommit_msg p.epoch p.checkpoint_height p.checkpoint_hash p.voter_id p.sig_bls)
from_payload d (finality_cert_payload p) = ok (
    finality_cert_msg p.epoch p.checkpoint_height p.checkpoint_hash p.agg_sig_bls p.bitmap
      p.set_hash)
from_payload d (get_qc_blob_payload p) = ok (get_qc_blob_msg p.epoch p.checkpoint_height)
from_payload d (qc_blob_response_payload p) =
    ok (qc_blob_response_msg p.epoch p.checkpoint_height p.checkpoint_hash p.blob_data p.found)

-- `From<&NetworkMessage>` and `TryFrom<ProtoNetworkMessage>`
abbrev pub message_to_proto : Decimal → NetworkMessage → Option Payload
message_to_proto d m = some (to_payload d m)

abbrev pub message_from_proto : Decimal → Option Payload → Result WireError NetworkMessage
message_from_proto d none = err empty_payload
message_from_proto d (some p) = from_payload d p

-- `encode_to_vec` and `decode` of prost, and `encoded_len` of blocks and transactions.
pub record Prost : Type 0 where
  pub encode_to_vec : Option Payload → List ℕ
  pub decode : List ℕ → Option (Option Payload)
  pub block_len : ProtoBlock → ℕ
  pub transaction_len : ProtoTransaction → ℕ

pub data MessageError : Type 0 where
  too_large : ℕ → MessageError
  decode_error : MessageError
  parse_error : WireError → MessageError

unfoldable pub to_bytes : Decimal → Prost → NetworkMessage → List ℕ
to_bytes d prost m = prost.encode_to_vec (message_to_proto d m)

unfoldable pub from_bytes : Decimal → Prost → List ℕ → Result MessageError NetworkMessage
from_bytes d prost bytes = do
  p ← or_fail (prost.decode bytes) decode_error
  map_err parse_error (message_from_proto d p)

unfoldable pub from_bytes_validated : Decimal → Prost → List ℕ → Result MessageError NetworkMessage
from_bytes_validated d prost bytes =
    if ltb max_message_size (length bytes)
    then err (too_large (length bytes))
    else from_bytes d prost bytes

unfoldable pub validate_block_size : Decimal → Prost → Block → Result MessageError (Unit {0})
validate_block_size d prost block =
    let size = prost.block_len (block_to_proto d block) in
    fail_if (ltb max_block_size size) (too_large size)

unfoldable pub validate_tx_size : Decimal → Prost → Transaction → Result MessageError (Unit {0})
validate_tx_size d prost tx =
    let size = prost.transaction_len (transaction_to_proto d tx) in
    fail_if (ltb max_tx_size size) (too_large size)
