-- ===== src/Node/Gate.antt =====
-- What a peer that has not shaken hands can do to a node (network/node.rs).
use blockhain_core.Prelude.{
  ℕ, String, ◌≡◌, refl, ◌∙◌, inl, inr, Bool, true, false, Option, none, some, List, Bool-cases,
  ◌==◌, ℕ-Eq, String-Eq, Bytes-Eq, Option-Eq, Result, ok, err,
}
use blockhain_core.Map.{Map, get, insert}
use blockhain_core.Map.Laws.{get-insert_self}
use blockhain_core.Crypto.{Crypto}
use blockhain_core.Block.{Codec}
use blockhain_core.Consensus.{ConsensusEngine}
use blockhain_core.Chain.State.{Blockchain}
use blockhain_core.Peers.{
  Floats, PeerScore, new_score, refill_tokens, consume_token, peer_at, check_rate_limit, is_banned,
  handshaked_entry, is_handshaked,
}
use blockhain_core.Storage.{Disk}
use blockhain_core.Wire.Message.{
  NetworkMessage, handshake_msg, handshake_ack_msg, block_msg, transaction_msg, get_headers_msg,
  headers_msg, get_blocks_range_msg, blocks_msg, get_blocks_by_height_msg, blocks_by_height_msg,
  state_snapshot_response_msg, new_tip_msg, get_state_snapshot_msg, snapshot_chunk_msg, prevote_msg,
  precommit_msg, finality_cert_msg, get_qc_blob_msg, qc_blob_response_msg,
}
use blockhain_core.Wire.Convert.{Decimal}
use blockhain_core.Wire.Codec.{Prost, MessageError, from_bytes_validated}
use blockhain_core.Node.Sync.{Node, Clock}
use blockhain_core.Node.Handle.{
  Turn, handle_handshake, handle_handshake_ack, handle, handle_decoded, handle_limited, receive,
}

-- No panic, and the blockchain given.
abbrev pub IsHarmless : {E F : Type 0} → Blockchain E → Turn E F → Type 0
IsHarmless bc (err e) = ⊥
IsHarmless bc (ok (node, reply)) = node.blockchain ≡ bc

module _ {F : Type 0} (fl : Floats F) where
  stored_handshake :
      (now : ℕ) (o : Option (PeerScore F))
      → (elim o as (λ _. PeerScore F) [ none ↦ new_score fl now | some v ↦ v ]).handshaked
        ≡ handshaked_entry fl o
  stored_handshake now none = refl
  stored_handshake now (some v) = refl

  insert-handshaked :
      (now : ℕ) (p : String) (s : PeerScore F) (peers : Map String (PeerScore F))
      → s.handshaked ≡ (peer_at fl now p peers).handshaked
      → is_handshaked fl p (insert p s peers) ≡ is_handshaked fl p peers
  unfolding is_handshaked
  insert-handshaked now p s peers h =
      rw (get-insert_self p s peers) (h ∙ stored_handshake now (get p peers))

  -- The rate limit does not shake hands.
  rate_limit-handshaked :
      (now : ℕ) (p : String) (peers : Map String (PeerScore F))
      → is_handshaked fl p (check_rate_limit fl now p peers).0 ≡ is_handshaked fl p peers
  unfolding check_rate_limit consume_token refill_tokens
  rate_limit-handshaked now p peers =
      elim (Bool-cases
        (fl.at_least (refill_tokens fl now (peer_at fl now p peers)).rate_tokens (fl.tokens 1))) [
          | inl e ↦ rw e (insert-handshaked now p _ peers refl)
          | inr e ↦ rw e (insert-handshaked now p _ peers refl)
        ]

module _ {E F D : Type 0} (c : Crypto) (k : Codec) (engine : ConsensusEngine E) (penalty : ℕ → ℕ)
    (fl : Floats F) (d : Decimal) (prost : Prost) (disk : Disk D) (store : Option D) (t : Clock)
    (p : String) where
  handshake_keeps :
      (chain_id : ℕ) (node : Node E F)
      → IsHarmless node.blockchain
          (handle_handshake c k engine penalty fl d prost disk store t p chain_id node)
  handshake_keeps chain_id node = elim (Bool-cases (chain_id == node.blockchain.chain_id)) [
    | inl e ↦ rw e refl
    | inr e ↦ rw e refl
  ]

  ack_keeps :
      (chain_id : ℕ) (node : Node E F)
      → IsHarmless node.blockchain
          (handle_handshake_ack c k engine penalty fl d prost disk store t p chain_id node)
  ack_keeps chain_id node = elim (Bool-cases (chain_id == node.blockchain.chain_id)) [
    | inl e ↦ rw e refl
    | inr e ↦ rw e refl
  ]

  gate :
      (msg : NetworkMessage) (node : Node E F)
      → is_handshaked fl p node.peers ≡ false
      → IsHarmless node.blockchain
          (handle_decoded c k engine penalty fl d prost disk store t p (ok msg) node)
  unfolding handle
  gate (handshake_msg a b chain_id e f g) node u = handshake_keeps chain_id node
  gate (handshake_ack_msg a b chain_id e f g) node u = ack_keeps chain_id node
  gate (block_msg b) node u = rw u refl
  gate (transaction_msg tx) node u = rw u refl
  gate (get_headers_msg l n) node u = rw u refl
  gate (headers_msg hs) node u = rw u refl
  gate (get_blocks_range_msg f g) node u = rw u refl
  gate (blocks_msg bs) node u = rw u refl
  gate (get_blocks_by_height_msg f g) node u = rw u refl
  gate (blocks_by_height_msg bs) node u = rw u refl
  gate (state_snapshot_response_msg h r o) node u = rw u refl
  gate (new_tip_msg h s) node u = rw u refl
  gate (get_state_snapshot_msg h) node u = rw u refl
  gate (snapshot_chunk_msg h i j bs) node u = rw u refl
  gate (prevote_msg e h s v g) node u = rw u refl
  gate (precommit_msg e h s v g) node u = rw u refl
  gate (finality_cert_msg e h s g b t) node u = rw u refl
  gate (get_qc_blob_msg e h) node u = rw u refl
  gate (qc_blob_response_msg e h s b f) node u = rw u refl

  decoded_keeps :
      (r : Result MessageError NetworkMessage) (node : Node E F)
      → is_handshaked fl p node.peers ≡ false
      → IsHarmless node.blockchain
          (handle_decoded c k engine penalty fl d prost disk store t p r node)
  decoded_keeps (err e) node u = refl
  decoded_keeps (ok msg) node u = gate msg node u

  limited_keeps :
      (bytes : List ℕ) (limit : Map String (PeerScore F) × Bool) (node : Node E F)
      → is_handshaked fl p limit.0 ≡ false
      → IsHarmless node.blockchain
          (handle_limited c k engine penalty fl d prost disk store t p bytes limit node)
  limited_keeps bytes (peers, false) node u = refl
  limited_keeps bytes (peers, true) node u =
      decoded_keeps (from_bytes_validated d prost bytes) (record node { peers = peers }) u

  -- Whatever bytes come from a peer that has not shaken hands: the node does not panic, and its blockchain stays
  -- as it was.
  pub stranger_keeps_chain :
      (bytes : List ℕ) (node : Node E F)
      → is_handshaked fl p node.peers ≡ false
      → IsHarmless node.blockchain (receive c k engine penalty fl d prost disk store t p bytes node)
  unfolding receive
  stranger_keeps_chain bytes node h = elim (Bool-cases (is_banned fl t.instant p node.peers)) [
    | inl e ↦ rw e refl
    | inr e ↦ rw e (
        limited_keeps bytes (check_rate_limit fl t.instant p node.peers) node
          (rate_limit-handshaked fl t.instant p node.peers ∙ h))
  ]
