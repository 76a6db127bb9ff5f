-- ===== src/Block.antt =====
-- block.rs: blocks, headers, their hashes and signatures, and the evidence of consensus/pos.rs.
use blockhain_core.Prelude.{
  ℕ, String, Bool, false, not, Option, none, some, List, [], ◌∷◌, ◌++◌, map, if◌then◌else◌, ◌==◌,
  ℕ-Eq, String-Eq, Bytes-Eq, Option-Eq, le_bytes, as_bytes,
}
use blockhain_core.Crypto.{Crypto, verify_signature, calculate_hash, hash_fields, KeyPair}
use blockhain_core.Transaction.{Transaction}
use blockhain_core.Merkle.{merkle_root}

-- The fields of a `BlockHeader` but its `slashing_evidence`, which holds headers again.
pub record HeaderFields : Type 0 where
  pub index : ℕ
  pub timestamp : ℕ
  pub previous_hash : String
  pub hash : String
  pub producer : Option String
  pub chain_id : ℕ
  pub state_root : String
  pub tx_root : String
  pub nonce : ℕ
  pub epoch : ℕ
  pub slot : ℕ
  pub vrf_output : List ℕ
  pub vrf_proof : List ℕ
  pub validator_set_hash : String

-- `BlockHeader`, without evidence and with it, `SlashingEvidence` of consensus/pos.rs (the two headers
-- and their signatures) and `Vec<SlashingEvidence>`.
mutual
  pub data BlockHeader : Type 0 where
    plain_header : HeaderFields → BlockHeader
    accusing_header : HeaderFields → Evidences → BlockHeader

  pub data SlashingEvidence : Type 0 where
    evidence : BlockHeader → BlockHeader → List ℕ → List ℕ → SlashingEvidence

  pub data Evidences : Type 0 where
    no_more : Evidences
    more : SlashingEvidence → Evidences → Evidences

abbrev pub fields_of : BlockHeader → HeaderFields
fields_of (plain_header h) = h
fields_of (accusing_header h es) = h

abbrev pub evidence_in : BlockHeader → Option Evidences
evidence_in (plain_header h) = none
evidence_in (accusing_header h es) = some es

abbrev pub header1 : SlashingEvidence → BlockHeader
header1 (evidence h1 h2 s1 s2) = h1

abbrev pub header2 : SlashingEvidence → BlockHeader
header2 (evidence h1 h2 s1 s2) = h2

pub record Block : Type 0 where
  pub index : ℕ
  pub timestamp : ℕ
  pub previous_hash : String
  pub hash : String
  pub transactions : List Transaction
  pub nonce : ℕ
  pub producer : Option String
  pub signature : Option (List ℕ)
  pub chain_id : ℕ
  pub slashing_evidence : Option Evidences
  pub state_root : String
  pub tx_root : String
  pub epoch : ℕ
  pub slot : ℕ
  pub vrf_output : List ℕ
  pub vrf_proof : List ℕ
  pub validator_set_hash : String

-- Third-party serialisers: `bincode::serialize` of evidence, and the length of `serde_json::to_vec` of a
-- block.
pub record Codec : Type 0 where
  pub bincode : Evidences → List ℕ
  pub json_size : Block → ℕ

abbrev pub bytes_or_empty : Option String → List ℕ
bytes_or_empty none = []
bytes_or_empty (some p) = as_bytes p

abbrev pub evidence_of : Codec → Option Evidences → List ℕ
evidence_of k none = []
evidence_of k (some e) = k.bincode e

abbrev pub with_evidence : Option Evidences → HeaderFields → BlockHeader
with_evidence none h = plain_header h
with_evidence (some es) h = accusing_header h es

-- `BlockHeader::from_block`
unfoldable pub from_block : Block → BlockHeader
from_block b = with_evidence b.slashing_evidence (record {
  index = b.index;
  timestamp = b.timestamp;
  previous_hash = b.previous_hash;
  hash = b.hash;
  producer = b.producer;
  chain_id = b.chain_id;
  state_root = b.state_root;
  tx_root = b.tx_root;
  nonce = b.nonce;
  epoch = b.epoch;
  slot = b.slot;
  vrf_output = b.vrf_output;
  vrf_proof = b.vrf_proof;
  validator_set_hash = b.validator_set_hash;
})

-- `BlockHeader::calculate_hash`
unfoldable pub header_hash : Crypto → Codec → BlockHeader → String
header_hash c k header =
    let h = fields_of header in
    hash_fields c (
      as_bytes "BDLM_BLOCK_V2"
      ∷ le_bytes 8 h.index
      ∷ le_bytes 16 h.timestamp
      ∷ as_bytes h.previous_hash
      ∷ as_bytes h.tx_root
      ∷ le_bytes 8 h.nonce
      ∷ bytes_or_empty h.producer
      ∷ evidence_of k (evidence_in header)
      ∷ le_bytes 8 h.chain_id
      ∷ as_bytes h.state_root
      ∷ le_bytes 8 h.epoch
      ∷ le_bytes 8 h.slot
      ∷ h.vrf_output
      ∷ h.vrf_proof
      ∷ as_bytes h.validator_set_hash
      ∷ [])

-- `Block::calculate_hash`
unfoldable pub block_hash : Crypto → Codec → Block → String
block_hash c k b = hash_fields c (
    as_bytes "BDLM_BLOCK_V2"
    ∷ le_bytes 8 b.index
    ∷ le_bytes 16 b.timestamp
    ∷ as_bytes b.previous_hash
    ∷ as_bytes b.tx_root
    ∷ le_bytes 8 b.nonce
    ∷ bytes_or_empty b.producer
    ∷ evidence_of k b.slashing_evidence
    ∷ le_bytes 8 b.chain_id
    ∷ as_bytes b.state_root
    ∷ le_bytes 8 b.epoch
    ∷ le_bytes 8 b.slot
    ∷ b.vrf_output
    ∷ b.vrf_proof
    ∷ as_bytes b.validator_set_hash
    ∷ [])

-- `"0".repeat(64)`
abbrev pub zero_hash : String
zero_hash = "0000000000000000000000000000000000000000000000000000000000000000"

-- The hash of two children: the hexadecimal digits of a hexadecimal digest.
unfoldable pub combine_hashes : Crypto → String → String → String
combine_hashes c left right =
    c.hex_encode (as_bytes (calculate_hash c (as_bytes left ++ as_bytes right)))

abbrev pub root_or_zero : Option String → String
root_or_zero none = zero_hash
root_or_zero (some r) = r

-- `calculate_tx_root`
unfoldable pub tx_root_of : Crypto → List Transaction → String
tx_root_of c txs = root_or_zero (merkle_root (combine_hashes c) (map (λ tx. tx.hash) txs))

abbrev pub check_key : Crypto → Option (List ℕ) → String → List ℕ → Bool
check_key c none hash signature = false
check_key c (some key) hash signature = verify_signature c (as_bytes hash) signature key

-- `Block::verify_signature`
abbrev pub verify_block_at : Crypto → Option String → Option (List ℕ) → String → Bool
verify_block_at c none signature hash = false
verify_block_at c (some producer) none hash = false
verify_block_at c (some producer) (some signature) hash =
    check_key c (c.hex_decode producer) hash signature

unfoldable pub verify_block_signature : Crypto → Block → Bool
verify_block_signature c b = verify_block_at c b.producer b.signature b.hash

abbrev pub check_header : Crypto → Codec → Option (List ℕ) → BlockHeader → List ℕ → Bool
check_header c k none h signature = false
check_header c k (some key) h signature =
    if not (header_hash c k h == (fields_of h).hash)
    then false
    else verify_signature c (as_bytes (fields_of h).hash) signature key

-- `BlockHeader::verify_signature`
abbrev pub verify_header_at : Crypto → Codec → Option String → BlockHeader → List ℕ → Bool
verify_header_at c k none h signature = false
verify_header_at c k (some producer) h signature =
    check_header c k (c.hex_decode producer) h signature

unfoldable pub verify_header_signature : Crypto → Codec → BlockHeader → List ℕ → Bool
verify_header_signature c k h signature = verify_header_at c k (fields_of h).producer h signature

-- `Block::sign`
unfoldable pub sign_block : Crypto → Codec → KeyPair → Block → Block
sign_block c k keys b =
    let named = record b { producer = some keys.public_key_hex } in
    let hashed = record named { hash = block_hash c k named } in
    record hashed { signature = some (keys.sign (as_bytes hashed.hash)) }
