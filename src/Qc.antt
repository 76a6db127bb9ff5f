-- ===== src/Qc.antt =====
-- consensus/qc.rs: blobs of post-quantum signatures, their Merkle root, and proofs that an entry is in one.
pub mod Inclusion
mod Tests
use blockhain_core.Prelude.{
  ℕ, ◌+◌, ◌/◌, ◌%◌, String, Bool, not, Option, none, some, List, [], ◌∷◌, ◌++◌, map, ltb,
  if◌then◌else◌, ◌==◌, ℕ-Eq, String-Eq, Bytes-Eq, Option-Eq, length, is_empty, Result, ◌>>◌,
  fail_if, add64, le_bytes, as_bytes,
}
use blockhain_core.Crypto.{Crypto}
use blockhain_core.Merkle.{merkle_root}

abbrev pub qc_blob_ttl_epochs : ℕ
qc_blob_ttl_epochs = 10

abbrev pub max_qc_blob_bytes : ℕ
max_qc_blob_bytes = 1_048_576

pub record PqSignatureEntry : Type 0 where
  pub validator_index : ℕ
  pub validator_address : String
  pub dilithium_signature : List ℕ

pub record QcBlob : Type 0 where
  pub epoch : ℕ
  pub checkpoint_height : ℕ
  pub checkpoint_hash : String
  pub pq_signatures : List PqSignatureEntry
  pub merkle_root : String
  pub created_epoch : ℕ

pub record PqFraudProof : Type 0 where
  pub epoch : ℕ
  pub validator_index : ℕ
  pub validator_address : String
  pub claimed_bls_sig : List ℕ
  pub dilithium_signature : List ℕ
  pub merkle_proof : List (List ℕ)
  pub leaf_index : ℕ

-- The digest of an entry and of two nodes.
unfoldable pub leaf_hash : Crypto → ℕ → String → List ℕ → List ℕ
leaf_hash c index address signature =
    c.sha3_256 (le_bytes 4 index ++ (as_bytes address ++ signature))

abbrev pub entry_hash : Crypto → PqSignatureEntry → List ℕ
entry_hash c e = leaf_hash c e.validator_index e.validator_address e.dilithium_signature

unfoldable pub node_hash : Crypto → List ℕ → List ℕ → List ℕ
node_hash c left right = c.sha3_256 (left ++ right)

abbrev pub hex_root : Crypto → Option (List ℕ) → String
hex_root c none = "0000000000000000000000000000000000000000000000000000000000000000"
hex_root c (some r) = c.hex_encode r

unfoldable pub compute_merkle_root : Crypto → List PqSignatureEntry → String
compute_merkle_root c signatures =
    hex_root c (merkle_root (node_hash c) (map (entry_hash c) signatures))

-- `QcBlob::new`
unfoldable pub new_blob : Crypto → ℕ → ℕ → String → List PqSignatureEntry → QcBlob
new_blob c epoch height hash signatures = record {
  epoch = epoch;
  checkpoint_height = height;
  checkpoint_hash = hash;
  pq_signatures = signatures;
  merkle_root = compute_merkle_root c signatures;
  created_epoch = epoch;
}

-- Epochs are u64.
abbrev pub is_expired_blob : QcBlob → ℕ → Bool
is_expired_blob b current_epoch = ltb (add64 b.created_epoch qc_blob_ttl_epochs) current_epoch

pub data QcError : Type 0 where
  blob_too_large invalid_merkle_proof empty_dilithium empty_bls empty_proof : QcError

unfoldable pub estimated_size : List PqSignatureEntry → ℕ
estimated_size [] = 0
estimated_size (e ∷ es) =
    length e.dilithium_signature + length (as_bytes e.validator_address) + 8 + estimated_size es

unfoldable pub validate_size : QcBlob → Result QcError (Unit {0})
validate_size b = fail_if (ltb max_qc_blob_bytes (estimated_size b.pq_signatures)) blob_too_large

unfoldable pub verify_merkle_root : Crypto → QcBlob → Bool
verify_merkle_root c b = compute_merkle_root c b.pq_signatures == b.merkle_root

-- The loop of `verify_inclusion` from a node and its index on.
module _ {A : Type 0} (combine : A → A → A) where
  unfoldable pub climb : ℕ → A → List A → A
  climb idx current [] = current
  climb idx current (p ∷ ps) =
      climb (idx / 2) (if idx % 2 == 0 then combine current p else combine p current) ps

unfoldable pub verify_inclusion : Crypto → PqFraudProof → String → Result QcError (Unit {0})
verify_inclusion c p root =
    let leaf = leaf_hash c p.validator_index p.validator_address p.dilithium_signature in
    let current = climb (node_hash c) p.leaf_index leaf p.merkle_proof in
    fail_if (not (c.hex_encode current == root)) invalid_merkle_proof

unfoldable pub validate : PqFraudProof → Result QcError (Unit {0})
validate p = do
  fail_if (is_empty p.dilithium_signature) empty_dilithium
  fail_if (is_empty p.claimed_bls_sig) empty_bls
  fail_if (is_empty p.merkle_proof) empty_proof

unfoldable pub pq_signing_message : ℕ → String → ℕ → List ℕ
pq_signing_message epoch checkpoint_hash validator_index =
    as_bytes "BUDLUM_PQ_QC"
    ++ (le_bytes 8 epoch ++ (as_bytes checkpoint_hash ++ le_bytes 4 validator_index))
