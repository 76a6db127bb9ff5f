-- ===== src/Wire/Convert.antt =====
-- network/proto_conversions.rs: the conversions between the program's messages and the generated ones.
use blockhain_core.Prelude.{
  ℕ, String, Option, none, some, List, [], ◌∷◌, map, if◌then◌else◌, ◌==◌, ℕ-Eq, String-Eq, Bytes-Eq,
  Option-Eq, Result, ok, err, ◌>>=◌, or_fail,
}
use blockhain_core.Transaction.{TransactionType, Transaction}
use blockhain_core.Block.{
  HeaderFields, BlockHeader, plain_header, accusing_header, SlashingEvidence, evidence, Evidences,
  no_more, more, Block, with_evidence,
}
use blockhain_core.Wire.Proto.{
  ProtoTransaction, ProtoFields, ProtoBlockHeader, proto_header, missing, present,
  ProtoSlashingEvidence, proto_evidence, ProtoEvidences, proto_end, proto_more, ProtoBlock,
}

-- `u128::to_string` and `str::parse::<u128>` of the standard library.
pub record Decimal : Type 0 where
  pub to_string : ℕ → String
  pub parse : String → Option ℕ

pub data WireError : Type 0 where
  invalid_timestamp invalid_tx_type missing_header empty_payload : WireError

abbrev pub or_empty : Option (List ℕ) → List ℕ
or_empty none = []
or_empty (some bs) = bs

abbrev pub or_empty_text : Option String → String
or_empty_text none = ""
or_empty_text (some s) = s

abbrev pub bytes_from : List ℕ → Option (List ℕ)
bytes_from [] = none
bytes_from (b ∷ bs) = some (b ∷ bs)

abbrev pub text_from : String → Option String
text_from s = if s == "" then none else some s

abbrev pub tx_type_to_proto : TransactionType → ℕ
tx_type_to_proto TransactionType.transfer = 0
tx_type_to_proto TransactionType.stake = 1
tx_type_to_proto TransactionType.unstake = 2
tx_type_to_proto TransactionType.vote = 3

abbrev pub tx_type_from_proto : ℕ → Result WireError TransactionType
tx_type_from_proto n =
    if n == 0
    then ok TransactionType.transfer
    else if n == 1
    then ok TransactionType.stake
    else if n == 2
    then ok TransactionType.unstake
    else if n == 3
    then ok TransactionType.vote
    else err invalid_tx_type

unfoldable pub transaction_to_proto : Decimal → Transaction → ProtoTransaction
transaction_to_proto d tx = record {
  from = tx.from;
  to = tx.to;
  amount = tx.amount;
  fee = tx.fee;
  nonce = tx.nonce;
  payload = tx.payload;
  timestamp = d.to_string tx.timestamp;
  hash = tx.hash;
  signature = or_empty tx.signature;
  chain_id = tx.chain_id;
  tx_type = tx_type_to_proto tx.tx_type;
}

unfoldable pub transaction_from_proto : Decimal → ProtoTransaction → Result WireError Transaction
transaction_from_proto d p = do
  t ← or_fail (d.parse p.timestamp) invalid_timestamp
  kind ← tx_type_from_proto p.tx_type
  ok (record {
    from = p.from;
    to = p.to;
    amount = p.amount;
    fee = p.fee;
    nonce = p.nonce;
    payload = p.payload;
    timestamp = t;
    hash = p.hash;
    signature = bytes_from p.signature;
    chain_id = p.chain_id;
    tx_type = kind;
  })

abbrev pub fields_to_proto : Decimal → HeaderFields → ProtoFields
fields_to_proto d h = record {
  index = h.index;
  timestamp = d.to_string h.timestamp;
  previous_hash = h.previous_hash;
  hash = h.hash;
  producer = or_empty_text h.producer;
  chain_id = h.chain_id;
  state_root = h.state_root;
  tx_root = h.tx_root;
  nonce = h.nonce;
  epoch = h.epoch;
  slot = h.slot;
  vrf_output = h.vrf_output;
  vrf_proof = h.vrf_proof;
  validator_set_hash = h.validator_set_hash;
}

abbrev pub fields_from_proto : ℕ → ProtoFields → HeaderFields
fields_from_proto t p = record {
  index = p.index;
  timestamp = t;
  previous_hash = p.previous_hash;
  hash = p.hash;
  producer = text_from p.producer;
  chain_id = p.chain_id;
  state_root = p.state_root;
  tx_root = p.tx_root;
  nonce = p.nonce;
  epoch = p.epoch;
  slot = p.slot;
  vrf_output = p.vrf_output;
  vrf_proof = p.vrf_proof;
  validator_set_hash = p.validator_set_hash;
}

unfoldable mutual
  pub header_to_proto : Decimal → BlockHeader → ProtoBlockHeader
  header_to_proto d (plain_header h) = proto_header (fields_to_proto d h) proto_end
  header_to_proto d (accusing_header h es) =
      proto_header (fields_to_proto d h) (evidences_to_proto d es)

  pub evidence_to_proto : Decimal → SlashingEvidence → ProtoSlashingEvidence
  evidence_to_proto d (evidence h1 h2 s1 s2) =
      proto_evidence (present (header_to_proto d h1)) (present (header_to_proto d h2)) s1 s2

  pub evidences_to_proto : Decimal → Evidences → ProtoEvidences
  evidences_to_proto d no_more = proto_end
  evidences_to_proto d (more e es) = proto_more (evidence_to_proto d e) (evidences_to_proto d es)

-- An empty list of evidence is read as none.
abbrev pub evidences_from : Evidences → Option Evidences
evidences_from no_more = none
evidences_from (more e es) = some (more e es)

unfoldable mutual
  pub header_from_proto : Decimal → ProtoBlockHeader → Result WireError BlockHeader
  header_from_proto d (proto_header p es) = do
    t ← or_fail (d.parse p.timestamp) invalid_timestamp
    evidences ← evidences_from_proto d es
    ok (with_evidence (evidences_from evidences) (fields_from_proto t p))

  pub evidence_from_proto : Decimal → ProtoSlashingEvidence → Result WireError SlashingEvidence
  evidence_from_proto d (proto_evidence missing p2 s1 s2) = err missing_header
  evidence_from_proto d (proto_evidence (present p1) missing s1 s2) = err missing_header
  evidence_from_proto d (proto_evidence (present p1) (present p2) s1 s2) = do
    h1 ← header_from_proto d p1
    h2 ← header_from_proto d p2
    ok (evidence h1 h2 s1 s2)

  pub evidences_from_proto : Decimal → ProtoEvidences → Result WireError Evidences
  evidences_from_proto d proto_end = ok no_more
  evidences_from_proto d (proto_more p ps) = do
    e ← evidence_from_proto d p
    es ← evidences_from_proto d ps
    ok (more e es)

abbrev pub evidences_or_empty : Decimal → Option Evidences → ProtoEvidences
evidences_or_empty d none = proto_end
evidences_or_empty d (some es) = evidences_to_proto d es

unfoldable pub block_to_proto : Decimal → Block → ProtoBlock
block_to_proto d b = record {
  index = b.index;
  timestamp = d.to_string b.timestamp;
  previous_hash = b.previous_hash;
  hash = b.hash;
  transactions = map (transaction_to_proto d) b.transactions;
  nonce = b.nonce;
  producer = or_empty_text b.producer;
  signature = or_empty b.signature;
  chain_id = b.chain_id;
  slashing_evidence = evidences_or_empty d b.slashing_evidence;
  state_root = b.state_root;
  tx_root = b.tx_root;
  epoch = b.epoch;
  slot = b.slot;
  vrf_output = b.vrf_output;
  vrf_proof = b.vrf_proof;
  validator_set_hash = b.validator_set_hash;
}

-- A loop that converts each element and stops at the first error.
unfoldable pub all_from_proto :
    {A B : Type 0} → (A → Result WireError B) → List A → Result WireError (List B)
all_from_proto f [] = ok []
all_from_proto f (p ∷ ps) = do x ← f p; xs ← all_from_proto f ps; ok (x ∷ xs)

unfoldable pub block_from_proto : Decimal → ProtoBlock → Result WireError Block
block_from_proto d p = do
  t ← or_fail (d.parse p.timestamp) invalid_timestamp
  evidences ← evidences_from_proto d p.slashing_evidence
  txs ← all_from_proto (transaction_from_proto d) p.transactions
  ok (record {
    index = p.index;
    timestamp = t;
    previous_hash = p.previous_hash;
    hash = p.hash;
    transactions = txs;
    nonce = p.nonce;
    producer = text_from p.producer;
    signature = bytes_from p.signature;
    chain_id = p.chain_id;
    slashing_evidence = evidences_from evidences;
    state_root = p.state_root;
    tx_root = p.tx_root;
    epoch = p.epoch;
    slot = p.slot;
    vrf_output = p.vrf_output;
    vrf_proof = p.vrf_proof;
    validator_set_hash = p.validator_set_hash;
  })
