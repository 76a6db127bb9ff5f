-- ===== src/Consensus/Authority.antt =====
-- consensus/poa.rs: proof of authority. The engine has no interior state; its key pair is an argument of
-- `prepare_authority`.
use blockhain_core.Prelude.{
  ℕ, ◌%◌, String, not, Option, none, some, List, if◌then◌else◌, ◌==◌, ℕ-Eq, String-Eq, Bytes-Eq,
  Option-Eq, length, get_elem?, get_last?, is_empty, Result, ok, err, ◌>>=◌, ◌>>◌, fail_if, or_fail,
}
use blockhain_core.Crypto.{Crypto, KeyPair}
use blockhain_core.Block.{Block, Codec, block_hash, verify_block_signature, sign_block}
use blockhain_core.Account.State.{Validator, AccountState, get_active_validators}
use blockhain_core.Consensus.{
  ConsensusError, invalid_genesis_hash, previous_hash_mismatch, no_proposer, no_producer,
  wrong_proposer, invalid_signature, invalid_hash, no_active_validators, ConsensusEngine,
}

unfoldable pub expected_proposer : ℕ → List Validator → Option Validator
expected_proposer block_index active =
    if is_empty active then none else get_elem? active (block_index % length active)

abbrev pub check_link : Option Block → Block → Result ConsensusError (Unit {0})
check_link none block = ok tt
check_link (some prev) block =
    fail_if (not (block.previous_hash == prev.hash)) previous_hash_mismatch

abbrev pub check_producer : Crypto → Block → Validator → Result ConsensusError (Unit {0})
check_producer c block expected = do
  producer ← or_fail block.producer no_producer
  fail_if (not (producer == expected.address)) wrong_proposer
  fail_if (not (verify_block_signature c block)) invalid_signature

unfoldable pub validate_authority :
    Crypto → Codec → Block → List Block → AccountState → Result ConsensusError (Unit {0})
validate_authority c k block chain state =
    if block.index == 0
    then fail_if (not (block.hash == block_hash c k block)) invalid_genesis_hash
    else do
      check_link (get_last? chain) block
      (let active = get_active_validators state in
          if is_empty active
          then fail_if (not (block.hash == block_hash c k block)) invalid_hash
          else do
            expected ← or_fail (expected_proposer block.index active) no_proposer
            check_producer c block expected)

-- `PoAEngine` with any `prepare_block`.
abbrev pub authority_engine :
    Crypto
    → Codec
    → (Block → AccountState → Unit {0} → Unit {0} × Result ConsensusError Block)
    → ConsensusEngine (Unit {0})
authority_engine c k prepare = record {
  prepare_block = prepare;
  validate_block = λ block chain state e. (e, validate_authority c k block chain state);
  record_block = λ block e. (e, ok tt);
  fork_choice_score = λ chain e. length chain;
}

abbrev pub signed_by : Crypto → Codec → Option KeyPair → String → Block → Block
signed_by c k none expected block = block
signed_by c k (some keys) expected block =
    if keys.public_key_hex == expected then sign_block c k keys block else block

abbrev pub hashed_unless_signed : Crypto → Codec → Option (List ℕ) → Block → Block
hashed_unless_signed c k none block = record block { hash = block_hash c k block }
hashed_unless_signed c k (some signature) block = block

abbrev pub signer_address : Option Validator → Block → Result ConsensusError String
signer_address (some expected) block = ok expected.address
signer_address none block = if block.index == 0 then ok "" else err no_active_validators

-- `prepare_block` with the key pair of the node.
unfoldable pub prepare_authority :
    Crypto → Codec → Option KeyPair → Block → AccountState → Result ConsensusError Block
prepare_authority c k keys block state = do
  expected ← signer_address (expected_proposer block.index (get_active_validators state)) block
  (let signed = if expected == "" then block else signed_by c k keys expected block in
      ok (hashed_unless_signed c k signed.signature signed))

-- `PoAEngine` with its key pair.
abbrev pub signing_engine : Crypto → Codec → Option KeyPair → ConsensusEngine (Unit {0})
signing_engine c k keys =
    authority_engine c k (λ block state e. (e, prepare_authority c k keys block state))
