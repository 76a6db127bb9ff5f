-- ===== src/Encoding.antt =====
-- encoding.rs: bytes of transactions and headers with a version, which nothing else of the program reads.
use blockhain_core.Prelude.{
  ℕ, String, Bool, false, not, Option, none, some, List, [], ◌∷◌, ◌++◌, leb, if◌then◌else◌, ◌==◌,
  ℕ-Eq, String-Eq, Bytes-Eq, Option-Eq, length, le_bytes, as_bytes,
}
use blockhain_core.Transaction.{Transaction}
use blockhain_core.Block.{BlockHeader, fields_of, Block}

abbrev pub protocol_version_major : ℕ
protocol_version_major = 1

abbrev pub protocol_version_minor : ℕ
protocol_version_minor = 0

abbrev pub network_magic : List ℕ
network_magic = 0xBD ∷ 0x4C ∷ 0x4D ∷ 0x01 ∷ []

unfoldable pub joined : List (List ℕ) → List ℕ
joined [] = []
joined (field ∷ fields) = field ++ joined fields

-- A text with a zero byte after it.
abbrev pub text_field : String → List ℕ
text_field s = as_bytes s ++ 0 ∷ []

-- `len() as u32`
abbrev pub sized_field : List ℕ → List ℕ
sized_field bytes = le_bytes 4 (length bytes) ++ bytes

abbrev pub signature_field : Option (List ℕ) → List ℕ
signature_field none = 0 ∷ []
signature_field (some sig) = 1 ∷ sized_field sig

abbrev pub producer_field : Option String → List ℕ
producer_field none = 0 ∷ []
producer_field (some producer) = 1 ∷ text_field producer

unfoldable pub encode_transaction : Transaction → List ℕ
encode_transaction tx = joined (
    le_bytes 4 protocol_version_major
    ∷ text_field tx.from
    ∷ text_field tx.to
    ∷ le_bytes 8 tx.amount
    ∷ le_bytes 8 tx.fee
    ∷ le_bytes 8 tx.nonce
    ∷ le_bytes 16 tx.timestamp
    ∷ sized_field tx.payload
    ∷ text_field tx.hash
    ∷ signature_field tx.signature
    ∷ [])

unfoldable pub encode_block_header : BlockHeader → List ℕ
encode_block_header header =
    let h = fields_of header in
    joined (
      le_bytes 4 protocol_version_major
      ∷ le_bytes 8 h.index
      ∷ le_bytes 16 h.timestamp
      ∷ text_field h.previous_hash
      ∷ text_field h.hash
      ∷ le_bytes 8 h.chain_id
      ∷ text_field h.state_root
      ∷ text_field h.tx_root
      ∷ producer_field h.producer
      ∷ [])

unfoldable pub encode_block_summary : Block → List ℕ
encode_block_summary b = joined (
    le_bytes 4 protocol_version_major
    ∷ le_bytes 8 b.index
    ∷ le_bytes 16 b.timestamp
    ∷ text_field b.previous_hash
    ∷ le_bytes 8 b.nonce
    ∷ le_bytes 8 b.chain_id
    ∷ text_field b.state_root
    ∷ le_bytes 4 (length b.transactions)
    ∷ [])

unfoldable pub is_compatible_version : ℕ → ℕ → Bool
is_compatible_version remote_major remote_minor =
    if not (remote_major == protocol_version_major)
    then false
    else leb remote_minor protocol_version_minor

unfoldable pub create_version_message : List ℕ
create_version_message =
    network_magic ++ (le_bytes 4 protocol_version_major ++ le_bytes 4 protocol_version_minor)
