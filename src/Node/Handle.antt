-- ===== src/Node/Handle.antt =====
-- network/node.rs: the handler of each message, and what comes before it.
use blockhain_core.Prelude.{
  ℕ, min, String, Bool, true, false, not, ◌&&◌, Option, none, some, List, [], ◌∷◌, ltb,
  if◌then◌else◌, ◌==◌, ℕ-Eq, String-Eq, Bytes-Eq, Option-Eq, length, get_elem?, get_last?, Result,
  ok, err, is_ok, add64,
}
use blockhain_core.Map.{Map}
use blockhain_core.Crypto.{Crypto}
use blockhain_core.Transaction.{Transaction}
use blockhain_core.Block.{BlockHeader, fields_of, Block, Codec}
use blockhain_core.Consensus.{ConsensusEngine}
use blockhain_core.Finality.Cert.{FinalityCert}
use blockhain_core.Chain.State.{
  Blockchain, ChainError, get_validator_set_hash, submit_transaction, handle_finality_cert,
}
use blockhain_core.Peers.{
  Floats, PeerScore, check_rate_limit, check_vote_rate_limit, check_blob_rate_limit, ban_peer,
  report_invalid_block, report_invalid_tx, report_oversized_message, report_bad_behavior,
  report_good_behavior, is_banned, is_handshaked, set_handshaked,
}
use blockhain_core.Qc.{QcBlob}
use blockhain_core.Storage.{Disk, StorageError, get_qc_blob}
use blockhain_core.Wire.Message.{
  NetworkMessage, handshake_msg, handshake_ack_msg, block_msg, transaction_msg, get_headers_msg,
  headers_msg, get_blocks_range_msg, blocks_msg, get_blocks_by_height_msg, blocks_by_height_msg,
  state_snapshot_response_msg, new_tip_msg, get_state_snapshot_msg, snapshot_chunk_msg, prevote_msg,
  precommit_msg, finality_cert_msg, get_qc_blob_msg, qc_blob_response_msg,
}
use blockhain_core.Wire.Convert.{Decimal}
use blockhain_core.Wire.Codec.{
  Prost, MessageError, from_bytes_validated, validate_block_size, validate_tx_size,
}
use blockhain_core.Node.Sync.{
  max_chain_sync_blocks, max_headers_per_request, max_snap_batch, Node, Clock, NodePanic,
  text_slice, block_slice, sliceable, shortened, slice, headers_after, locator_of, blocks_by_height,
  root_in, add_now, add_above, take_blocks,
}
use blockhain_core.Encoding.{protocol_version_major, protocol_version_minor}

abbrev pub is_handshake_msg : NetworkMessage → Bool
is_handshake_msg (handshake_msg _ _ _ _ _ _) = true
is_handshake_msg (handshake_ack_msg _ _ _ _ _ _) = true
is_handshake_msg _ = false

-- The node and what it publishes.
abbrev pub Turn : Type 0 → Type 0 → Type 0
Turn E F = Result NodePanic (Node E F × Option NetworkMessage)

abbrev pub quiet : {E F : Type 0} → Node E F → Turn E F
quiet node = ok (node, none)

-- `store` is the database at the time of the message, if there is one.
module _ {E F D : Type 0} (c : Crypto) (k : Codec) (engine : ConsensusEngine E) (penalty : ℕ → ℕ)
    (fl : Floats F) (d : Decimal) (prost : Prost) (disk : Disk D) (store : Option D) (t : Clock)
    (p : String) where
  abbrev pub scored :
      (ℕ → String → Map String (PeerScore F) → Map String (PeerScore F)) → Node E F → Node E F
  scored report node = record node { peers = report t.instant p node.peers }

  abbrev pub added :
      Blockchain E × Result ChainError (Unit {0})
      → (ℕ → String → Map String (PeerScore F) → Map String (PeerScore F))
      → Node E F
      → Turn E F
  added (bc, err e) report node = quiet (scored report (record node { blockchain = bc }))
  added (bc, ok _) report node =
      quiet (scored (report_good_behavior fl) (record node { blockchain = bc }))

  abbrev pub handle_block : Block → Node E F → Turn E F
  handle_block block node =
      if not (is_ok (validate_block_size d prost block))
      then quiet (scored (report_oversized_message fl) node)
      else if not (sliceable 8 block.hash)
      then err text_slice
      else if block.index == length node.blockchain.chain
      then added (add_now c k engine penalty t block node.blockchain) (report_invalid_block fl) node
      else quiet node

  abbrev pub handle_transaction : Transaction → Node E F → Turn E F
  handle_transaction tx node =
      if not (is_ok (validate_tx_size d prost tx))
      then quiet (scored (report_oversized_message fl) node)
      else if not (sliceable 8 tx.from && sliceable 8 tx.to)
      then err text_slice
      else added (submit_transaction c t.millis tx node.blockchain) (report_invalid_tx fl) node

  abbrev pub range_request : Option BlockHeader → Option BlockHeader → Option NetworkMessage
  range_request (some first) (some last) =
      some (get_blocks_range_msg (fields_of first).index (fields_of last).index)
  range_request _ _ = none

  abbrev pub handle_headers : List BlockHeader → Node E F → Turn E F
  handle_headers headers node =
      if ltb max_headers_per_request (length headers)
      then quiet (scored (report_invalid_block fl) node)
      else ok (
        scored (report_good_behavior fl) node,
        range_request (get_elem? headers 0) (get_last? headers),
      )

  abbrev pub handle_get_blocks_range : ℕ → ℕ → Node E F → Turn E F
  handle_get_blocks_range from to node =
      let chain = node.blockchain.chain in
      let end = min (min to (length chain)) (add64 from max_chain_sync_blocks) in
      if ltb from (length chain)
      then if ltb end from
        then err block_slice
        else ok (node, some (blocks_msg (slice from end chain)))
      else quiet node

  abbrev pub handle_blocks : List Block → Node E F → Turn E F
  handle_blocks blocks node =
      if ltb max_chain_sync_blocks (length blocks)
      then quiet (scored (report_invalid_block fl) node)
      else quiet (
          scored (report_good_behavior fl)
            (record node { blockchain = take_blocks c k engine penalty t blocks node.blockchain }))

  abbrev pub handle_new_tip : ℕ → Node E F → Turn E F
  handle_new_tip height node =
      let chain = node.blockchain.chain in
      if ltb (length chain) height
      then ok (node, some (get_headers_msg (locator_of chain) 500))
      else quiet node

  abbrev pub snapshot_reply : ℕ → Option String → NetworkMessage
  snapshot_reply height none = state_snapshot_response_msg height "" false
  snapshot_reply height (some root) = state_snapshot_response_msg height root true

  abbrev pub blocks_reply : Node E F → Result NodePanic (List Block) → Turn E F
  blocks_reply node (err e) = err e
  blocks_reply node (ok blocks) = ok (node, some (blocks_by_height_msg blocks))

  abbrev pub handle_get_blocks_by_height : ℕ → ℕ → Node E F → Turn E F
  handle_get_blocks_by_height from to node =
      blocks_reply node (
        blocks_by_height disk from (min to (add64 from max_snap_batch)) store node.blockchain.chain)

  abbrev pub handle_blocks_by_height : List Block → Node E F → Turn E F
  handle_blocks_by_height blocks node =
      if ltb max_snap_batch (length blocks)
      then quiet (scored (report_invalid_block fl) node)
      else quiet (
          scored (report_good_behavior fl)
            (record node { blockchain = add_above c k engine penalty t blocks node.blockchain }))

  abbrev pub handshaken : Node E F → Node E F
  handshaken node = record node { peers = set_handshaked fl t.instant p true node.peers }

  abbrev pub handle_handshake : ℕ → Node E F → Turn E F
  handle_handshake chain_id node =
      if not (chain_id == node.blockchain.chain_id)
      then quiet (scored (ban_peer fl) node)
      else ok (
        handshaken node,
        some (
            handshake_ack_msg protocol_version_major protocol_version_minor node.blockchain.chain_id
              (length node.blockchain.chain) (get_validator_set_hash c node.blockchain)
              ("ED25519" ∷ "BLS" ∷ "DILITHIUM" ∷ [])),
      )

  abbrev pub handle_handshake_ack : ℕ → Node E F → Turn E F
  handle_handshake_ack chain_id node =
      if not (chain_id == node.blockchain.chain_id)
      then quiet (scored (ban_peer fl) node)
      else quiet (scored (report_good_behavior fl) (handshaken node))

  -- The rate limit of votes, and the log of the first characters of the hash.
  abbrev pub limited_vote :
      Map String (PeerScore F) × Bool → String → Node E F → (Node E F → Turn E F) → Turn E F
  limited_vote (peers, allowed) hash node next =
      let counted = record node { peers = peers } in
      if not allowed
      then quiet counted
      else if not (shortened hash)
      then err text_slice
      else next counted

  abbrev pub on_vote : String → Node E F → (Node E F → Turn E F) → Turn E F
  on_vote hash node next =
      limited_vote (check_vote_rate_limit fl t.instant p node.peers) hash node next

  abbrev pub handle_cert : FinalityCert → Node E F → Turn E F
  handle_cert cert node =
      added (handle_finality_cert c cert node.blockchain) (report_bad_behavior fl) node

  abbrev pub blob_reply : ℕ → ℕ → Result StorageError (Option QcBlob) → NetworkMessage
  blob_reply epoch height (ok (some blob)) =
      qc_blob_response_msg blob.epoch blob.checkpoint_height blob.checkpoint_hash
        (disk.blob_json blob) true
  blob_reply epoch height _ = qc_blob_response_msg epoch height "" [] false

  abbrev pub blob_answer : ℕ → ℕ → Option D → Option NetworkMessage
  blob_answer epoch height none = none
  blob_answer epoch height (some db) = some (blob_reply epoch height (get_qc_blob disk height db))

  abbrev pub handle_get_qc_blob : ℕ → ℕ → Map String (PeerScore F) × Bool → Node E F → Turn E F
  handle_get_qc_blob epoch height (peers, allowed) node =
      let counted = record node { peers = peers } in
      if not allowed then quiet counted else ok (counted, blob_answer epoch height store)

  abbrev pub handle_qc_blob_response : Bool → Map String (PeerScore F) × Bool → Node E F → Turn E F
  handle_qc_blob_response found (peers, allowed) node =
      let counted = record node { peers = peers } in
      if not allowed
      then quiet counted
      else quiet (if found then scored (report_good_behavior fl) counted else counted)

  unfoldable pub handle : NetworkMessage → Node E F → Turn E F
  handle (block_msg block) node = handle_block block node
  handle (transaction_msg tx) node = handle_transaction tx node
  handle (get_headers_msg locator limit) node =
      ok (node, some (headers_msg (headers_after locator limit node.blockchain.chain)))
  handle (headers_msg headers) node = handle_headers headers node
  handle (get_blocks_range_msg from to) node = handle_get_blocks_range from to node
  handle (blocks_msg blocks) node = handle_blocks blocks node
  handle (new_tip_msg height hash) node = handle_new_tip height node
  handle (get_state_snapshot_msg height) node =
      ok (node, some (snapshot_reply height (root_in disk height store)))
  handle (state_snapshot_response_msg height root is_known) node =
      if is_known && not (shortened root) then err text_slice else quiet node
  handle (get_blocks_by_height_msg from to) node = handle_get_blocks_by_height from to node
  handle (blocks_by_height_msg blocks) node = handle_blocks_by_height blocks node
  handle (snapshot_chunk_msg height index total bytes) node = quiet node
  handle (handshake_msg _ _ chain_id _ _ _) node = handle_handshake chain_id node
  handle (handshake_ack_msg _ _ chain_id _ _ _) node = handle_handshake_ack chain_id node
  handle (prevote_msg epoch height hash voter sig) node = on_vote hash node (λ n. quiet n)
  handle (precommit_msg epoch height hash voter sig) node = on_vote hash node (λ n. quiet n)
  handle (finality_cert_msg epoch height hash sig bits set) node = on_vote hash node (
      handle_cert (record {
        epoch = epoch;
        checkpoint_height = height;
        checkpoint_hash = hash;
        agg_sig_bls = sig;
        bitmap = bits;
        set_hash = set;
      }))
  handle (get_qc_blob_msg epoch height) node =
      handle_get_qc_blob epoch height (check_rate_limit fl t.instant p node.peers) node
  handle (qc_blob_response_msg epoch height hash blob found) node =
      handle_qc_blob_response found (check_blob_rate_limit fl t.instant p node.peers) node

  -- A peer that has not shaken hands may only do so.
  abbrev pub handle_decoded : Result MessageError NetworkMessage → Node E F → Turn E F
  handle_decoded (err e) node = quiet (scored (report_oversized_message fl) node)
  handle_decoded (ok msg) node =
      if not (is_handshake_msg msg) && not (is_handshaked fl p node.peers)
      then quiet (scored (report_invalid_tx fl) node)
      else handle msg node

  abbrev pub handle_limited : List ℕ → Map String (PeerScore F) × Bool → Node E F → Turn E F
  handle_limited bytes (peers, allowed) node =
      let counted = record node { peers = peers } in
      if not allowed
      then quiet counted
      else handle_decoded (from_bytes_validated d prost bytes) counted

  -- A message of the peer `p`.
  unfoldable pub receive : List ℕ → Node E F → Turn E F
  receive bytes node =
      if is_banned fl t.instant p node.peers
      then quiet node
      else handle_limited bytes (check_rate_limit fl t.instant p node.peers) node
