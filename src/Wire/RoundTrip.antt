-- ===== src/Wire/RoundTrip.antt =====
-- A message survives the way over the network (network/proto_conversions.rs, network/protocol.rs).
use blockhain_core.Prelude.{
  ℕ, ◌^◌, ◌≤◌, ◌<◌, String, ◌≡◌, refl, ◌≢◌, Option, none, some, List, [], ◌∷◌, map, arith, ne→false,
  ℕ-Eq, String-Eq, Bytes-Eq, Option-Eq, length, All, Result, ok, is_ok,
}
use blockhain_core.Transaction.{TransactionType, Transaction}
use blockhain_core.Block.{
  HeaderFields, BlockHeader, plain_header, accusing_header, SlashingEvidence, evidence, Evidences,
  no_more, more, Block,
}
use blockhain_core.Wire.Message.{
  max_message_size, NetworkMessage, handshake_msg, handshake_ack_msg, block_msg, transaction_msg,
  get_headers_msg, headers_msg, get_blocks_range_msg, blocks_msg, get_blocks_by_height_msg,
  blocks_by_height_msg, state_snapshot_response_msg, new_tip_msg, get_state_snapshot_msg,
  snapshot_chunk_msg, prevote_msg, precommit_msg, finality_cert_msg, get_qc_blob_msg,
  qc_blob_response_msg,
}
use blockhain_core.Wire.Convert.{
  Decimal, WireError, or_empty, or_empty_text, bytes_from, text_from, tx_type_to_proto,
  tx_type_from_proto, transaction_to_proto, transaction_from_proto, header_to_proto,
  evidence_to_proto, evidences_to_proto, evidences_from, header_from_proto, evidence_from_proto,
  evidences_from_proto, evidences_or_empty, block_to_proto, all_from_proto, block_from_proto,
}
use blockhain_core.Wire.Codec.{
  to_payload, from_payload, message_to_proto, Prost, to_bytes, from_bytes, from_bytes_validated,
}

abbrev pub u128_bound : ℕ
u128_bound = 2 ^ 128

-- The standard library's decimal numbers read back.
abbrev pub ReadsBack : Decimal → Type 0
ReadsBack d = (n : ℕ) → n < u128_bound → d.parse (d.to_string n) ≡ some n

-- No `Some` of something empty, which the wire format cannot tell from `None`.
abbrev pub BytesAreCanonical : Option (List ℕ) → Type 0
BytesAreCanonical none = Unit
BytesAreCanonical (some []) = ⊥
BytesAreCanonical (some (b ∷ bs)) = Unit

abbrev pub TextIsCanonical : Option String → Type 0
TextIsCanonical none = Unit
TextIsCanonical (some s) = s ≢ ""

abbrev pub TransactionIsCanonical : Transaction → Type 0
TransactionIsCanonical tx = (tx.timestamp < u128_bound) × BytesAreCanonical tx.signature

abbrev pub FieldsAreCanonical : HeaderFields → Type 0
FieldsAreCanonical h = (h.timestamp < u128_bound) × TextIsCanonical h.producer

unfoldable mutual
  pub HeaderIsCanonical : BlockHeader → Type 0
  HeaderIsCanonical (plain_header h) = FieldsAreCanonical h
  HeaderIsCanonical (accusing_header h no_more) = ⊥
  HeaderIsCanonical (accusing_header h (more e es)) =
      FieldsAreCanonical h × EvidenceIsCanonical e × EvidencesAreCanonical es

  pub EvidenceIsCanonical : SlashingEvidence → Type 0
  EvidenceIsCanonical (evidence h1 h2 s1 s2) = HeaderIsCanonical h1 × HeaderIsCanonical h2

  pub EvidencesAreCanonical : Evidences → Type 0
  EvidencesAreCanonical no_more = Unit
  EvidencesAreCanonical (more e es) = EvidenceIsCanonical e × EvidencesAreCanonical es

abbrev pub EvidenceListIsCanonical : Option Evidences → Type 0
EvidenceListIsCanonical none = Unit
EvidenceListIsCanonical (some no_more) = ⊥
EvidenceListIsCanonical (some (more e es)) = EvidenceIsCanonical e × EvidencesAreCanonical es

abbrev pub BlockIsCanonical : Block → Type 0
BlockIsCanonical b =
    (b.timestamp < u128_bound)
    × TextIsCanonical b.producer
    × BytesAreCanonical b.signature
    × EvidenceListIsCanonical b.slashing_evidence
    × All TransactionIsCanonical b.transactions

abbrev pub MessageIsCanonical : NetworkMessage → Type 0
MessageIsCanonical (handshake_msg _ _ _ _ _ _) = Unit
MessageIsCanonical (handshake_ack_msg _ _ _ _ _ _) = Unit
MessageIsCanonical (block_msg x) = BlockIsCanonical x
MessageIsCanonical (transaction_msg x) = TransactionIsCanonical x
MessageIsCanonical (get_headers_msg _ _) = Unit
MessageIsCanonical (headers_msg x) = All HeaderIsCanonical x
MessageIsCanonical (get_blocks_range_msg _ _) = Unit
MessageIsCanonical (blocks_msg x) = All BlockIsCanonical x
MessageIsCanonical (get_blocks_by_height_msg _ _) = Unit
MessageIsCanonical (blocks_by_height_msg x) = All BlockIsCanonical x
MessageIsCanonical (state_snapshot_response_msg _ _ _) = Unit
MessageIsCanonical (new_tip_msg _ _) = Unit
MessageIsCanonical (get_state_snapshot_msg _) = Unit
MessageIsCanonical (snapshot_chunk_msg _ _ _ _) = Unit
MessageIsCanonical (prevote_msg _ _ _ _ _) = Unit
MessageIsCanonical (precommit_msg _ _ _ _ _) = Unit
MessageIsCanonical (finality_cert_msg _ _ _ _ _ _) = Unit
MessageIsCanonical (get_qc_blob_msg _ _) = Unit
MessageIsCanonical (qc_blob_response_msg _ _ _ _ _) = Unit

bytes_from-or_empty : (o : Option (List ℕ)) → BytesAreCanonical o → bytes_from (or_empty o) ≡ o
bytes_from-or_empty none h = refl
bytes_from-or_empty (some []) h = absurd h
bytes_from-or_empty (some (b ∷ bs)) h = refl

text_from-or_empty : (o : Option String) → TextIsCanonical o → text_from (or_empty_text o) ≡ o
text_from-or_empty none h = refl
text_from-or_empty (some s) h = rw (ne→false s "" h) refl

tx_type_from-to : (k : TransactionType) → tx_type_from_proto (tx_type_to_proto k) ≡ ok k
tx_type_from-to TransactionType.transfer = refl
tx_type_from-to TransactionType.stake = refl
tx_type_from-to TransactionType.unstake = refl
tx_type_from-to TransactionType.vote = refl

module _ (d : Decimal) (law : ReadsBack d) where
  transaction_from-to :
      (tx : Transaction)
      → TransactionIsCanonical tx
      → transaction_from_proto d (transaction_to_proto d tx) ≡ ok tx
  unfolding transaction_from_proto transaction_to_proto
  transaction_from-to tx (t, s) =
      rw (law tx.timestamp t, tx_type_from-to tx.tx_type, bytes_from-or_empty tx.signature s) refl

  list_from-to :
      {A B : Type 0} (f : A → Result WireError B) (g : B → A) (P : B → Type 0)
      → ((x : B) → P x → f (g x) ≡ ok x)
      → (xs : List B) → All P xs
      → all_from_proto f (map g xs) ≡ ok xs
  unfolding all_from_proto
  list_from-to f g P h [] c = refl
  list_from-to f g P h (x ∷ xs) (c, cs) = rw (h x c, list_from-to f g P h xs cs) refl

  mutual
    unfolding header_to_proto header_from_proto HeaderIsCanonical

    header_from-to :
        (h : BlockHeader) → HeaderIsCanonical h → header_from_proto d (header_to_proto d h) ≡ ok h
    header_from-to (plain_header h) (t, p) =
        rw (law h.timestamp t, text_from-or_empty h.producer p) refl
    header_from-to (accusing_header h no_more) c = absurd c
    header_from-to (accusing_header h (more e es)) ((t, p), ce, ces) =
        rw
          (
            law h.timestamp t,
            evidence_from-to e ce,
            evidences_from-to es ces,
            text_from-or_empty h.producer p,
          )
          refl

    evidence_from-to :
        (e : SlashingEvidence)
        → EvidenceIsCanonical e
        → evidence_from_proto d (evidence_to_proto d e) ≡ ok e
    evidence_from-to (evidence h1 h2 s1 s2) (c1, c2) =
        rw (header_from-to h1 c1, header_from-to h2 c2) refl

    evidences_from-to :
        (es : Evidences)
        → EvidencesAreCanonical es
        → evidences_from_proto d (evidences_to_proto d es) ≡ ok es
    evidences_from-to no_more c = refl
    evidences_from-to (more e es) (ce, ces) =
        rw (evidence_from-to e ce, evidences_from-to es ces) refl

  evidence_list_from-to :
      (o : Option Evidences)
      → EvidenceListIsCanonical o
      → (es : Evidences) × ((evidences_from_proto d (evidences_or_empty d o) ≡ ok es)
          × (evidences_from es ≡ o))
  unfolding evidences_from_proto evidences_to_proto
  evidence_list_from-to none c = (no_more, (refl, refl))
  evidence_list_from-to (some no_more) c = absurd c
  evidence_list_from-to (some (more e es)) (ce, ces) =
      (more e es, (rw (evidence_from-to e ce, evidences_from-to es ces) refl, refl))

  block_from-to : (b : Block) → BlockIsCanonical b → block_from_proto d (block_to_proto d b) ≡ ok b
  unfolding block_from_proto block_to_proto
  block_from-to b (t, p, s, e, txs) =
      let (es, (q, r)) = evidence_list_from-to b.slashing_evidence e in
      rw
        (
          law b.timestamp t,
          q,
          list_from-to (transaction_from_proto d) (transaction_to_proto d) TransactionIsCanonical
              transaction_from-to b.transactions txs,
          text_from-or_empty b.producer p,
          bytes_from-or_empty b.signature s,
          r,
        )
        refl

  payload_from-to :
      (m : NetworkMessage) → MessageIsCanonical m → from_payload d (to_payload d m) ≡ ok m
  unfolding from_payload to_payload
  payload_from-to
        (handshake_msg version_major version_minor chain_id best_height validator_set_hash
          supported_schemes)
        h =
      refl
  payload_from-to
        (handshake_ack_msg version_major version_minor chain_id best_height validator_set_hash
          supported_schemes)
        h =
      refl
  payload_from-to (block_msg x) h = rw (block_from-to x h) refl
  payload_from-to (transaction_msg x) h = rw (transaction_from-to x h) refl
  payload_from-to (get_headers_msg locator limit) h = refl
  payload_from-to (headers_msg x) h =
      rw
        (list_from-to (header_from_proto d) (header_to_proto d) HeaderIsCanonical header_from-to x
          h)
        refl
  payload_from-to (get_blocks_range_msg from_index to_index) h = refl
  payload_from-to (blocks_msg x) h =
      rw (list_from-to (block_from_proto d) (block_to_proto d) BlockIsCanonical block_from-to x h)
        refl
  payload_from-to (get_blocks_by_height_msg from_height to_height) h = refl
  payload_from-to (blocks_by_height_msg x) h =
      rw (list_from-to (block_from_proto d) (block_to_proto d) BlockIsCanonical block_from-to x h)
        refl
  payload_from-to (state_snapshot_response_msg height state_root is_ok) h = refl
  payload_from-to (new_tip_msg height hash) h = refl
  payload_from-to (get_state_snapshot_msg height) h = refl
  payload_from-to (snapshot_chunk_msg height index total bytes) h = refl
  payload_from-to (prevote_msg epoch checkpoint_height checkpoint_hash voter_id sig_bls) h = refl
  payload_from-to (precommit_msg epoch checkpoint_height checkpoint_hash voter_id sig_bls) h = refl
  payload_from-to
        (finality_cert_msg epoch checkpoint_height checkpoint_hash agg_sig_bls bitmap set_hash) h =
      refl
  payload_from-to (get_qc_blob_msg epoch checkpoint_height) h = refl
  payload_from-to (qc_blob_response_msg epoch checkpoint_height checkpoint_hash blob_data found) h =
      refl

  -- If prost decodes the bytes that it makes of a message, these are at most 10 MiB, no timestamp of the
  -- message exceeds 128 bits and nothing in it is a `Some` of something empty, then `from_bytes_validated`
  -- gives the message back from its `to_bytes`.
  pub from_bytes-to_bytes :
      (prost : Prost) (m : NetworkMessage)
      → MessageIsCanonical m
      → prost.decode (to_bytes d prost m) ≡ some (message_to_proto d m)
      → length (to_bytes d prost m) ≤ max_message_size
      → from_bytes_validated d prost (to_bytes d prost m) ≡ ok m
  unfolding from_bytes_validated from_bytes
  from_bytes-to_bytes prost m c e size = ground (arith, e, payload_from-to m c)
