-- ===== src/Consensus/Election.antt =====
-- consensus/pos.rs: the lot that elects the proposer of a slot, preparing and validating blocks. The VRF of the
-- crate schnorrkel is a parameter.
use blockhain_core.Prelude.{
  ℕ, ◌+◌, ◌*◌, ◌/◌, String, Bool, false, not, ◌&&◌, ◌||◌, Option, none, some, List, [], ◌∷◌, ltb,
  leb, if◌then◌else◌, ◌==◌, ℕ-Eq, String-Eq, Bytes-Eq, Option-Eq, length, take, get_last?, is_empty,
  Result, ok, err, ◌>>=◌, ◌>>◌, fail_if, or_fail, le_bytes, as_bytes,
}
use blockhain_core.Map.{keys}
use blockhain_core.Crypto.{Crypto, concat, KeyPair}
use blockhain_core.Block.{
  Evidences, no_more, more, fields_of, header1, Block, Codec, block_hash, verify_block_signature,
  sign_block,
}
use blockhain_core.Account.State.{
  Validator, AccountState, get_total_stake, get_active_validators, get_validator,
}
use blockhain_core.Consensus.{
  ConsensusError, invalid_genesis_hash, no_producer, invalid_signature, invalid_hash,
  before_checkpoint, unknown_producer, inactive_producer, no_vrf_key, invalid_vrf_key,
  invalid_vrf_output_length, invalid_vrf_output, invalid_vrf_proof, vrf_failed, below_threshold,
  invalid_evidence, evidence_without_producer, not_leader, ConsensusEngine,
}
use blockhain_core.Consensus.Authority.{check_link}
use blockhain_core.Consensus.Stake.{
  PosConfig, SeenKey-Eq, PosEngine, is_named, verify_evidence, is_before_checkpoint, stake_score,
  record_block,
}

-- `from_bytes` of keys, outputs and proofs succeeds; `vrf_verify` in the context "BUDLUM_VRF" of key, seed,
-- output and proof; `threshold stake total_stake` is the product of the largest u64 and the probability, in f64.
pub record Vrf : Type 0 where
  pub is_public_key : List ℕ → Bool
  pub is_output : List ℕ → Bool
  pub is_proof : List ℕ → Bool
  pub vrf_verify : List ℕ → List ℕ → List ℕ → List ℕ → Bool
  pub threshold : ℕ → ℕ → ℕ

-- The keys of the node's validator; `vrf_sign` gives output and proof for a seed.
pub record ValidatorKeys : Type 0 where
  pub sig_key : KeyPair
  pub vrf_sign : List ℕ → List ℕ × List ℕ

abbrev pub epoch_len : ℕ
epoch_len = 100

unfoldable pub calculate_seed : Crypto → ℕ → ℕ → ℕ → String → PosEngine → List ℕ
calculate_seed c chain_id epoch slot validator_set_hash e = c.sha3_256 (
    concat (
      le_bytes 8 chain_id
      ∷ le_bytes 8 epoch
      ∷ le_bytes 8 slot
      ∷ e.epoch_seed
      ∷ as_bytes validator_set_hash
      ∷ []))

unfoldable pub calculate_vrf_threshold : Vrf → ℕ → ℕ → ℕ
calculate_vrf_threshold v stake total_stake =
    if total_stake == 0 || stake == 0 then 0 else v.threshold stake total_stake

-- `u64::from_le_bytes`
unfoldable pub from_le_bytes : List ℕ → ℕ
from_le_bytes [] = 0
from_le_bytes (b ∷ bs) = b + 256 * from_le_bytes bs

unfoldable pub check_vrf_threshold : Crypto → List ℕ → ℕ → Bool
check_vrf_threshold c vrf_output threshold =
    ltb (from_le_bytes (take 8 (c.sha3_256 vrf_output))) threshold

abbrev pub may_lead : PosConfig → Validator → Bool
may_lead cfg v = v.active && not v.slashed && leb cfg.min_stake v.stake

unfoldable pub is_validator : PosConfig → String → AccountState → Bool
is_validator cfg pubkey state = elim (get_validator state pubkey) [
  | none ↦ false
  | some v ↦ may_lead cfg v
]

module _ (c : Crypto) (k : Codec) (vrf : Vrf) (cfg : PosConfig) where
  abbrev pub take_evidence : Evidences → Block → Block
  take_evidence no_more block = block
  take_evidence (more e es) block = record block { slashing_evidence = some (more e es) }

  -- The block with its place and the evidence of the pool, which is emptied.
  abbrev pub placed : Block → PosEngine → Block × PosEngine
  placed block e = (
    take_evidence e.evidence_pool
        (record block { epoch = block.index / epoch_len; slot = block.index }),
    record e { evidence_pool = no_more },
  )

  abbrev pub drawn_block :
      ValidatorKeys → Validator → Block → AccountState → PosEngine → Result ConsensusError Block
  drawn_block keys v block state e =
      let seed =
        calculate_seed c block.chain_id block.epoch block.slot block.validator_set_hash e in
      let (output, proof) = keys.vrf_sign seed in
      if check_vrf_threshold c output (calculate_vrf_threshold vrf v.stake (get_total_stake state))
      then ok
          (sign_block c k keys.sig_key (record block { vrf_output = output; vrf_proof = proof }))
      else err not_leader

  abbrev pub led_by :
      ValidatorKeys
      → Option Validator
      → Block
      → AccountState
      → PosEngine
      → Result ConsensusError Block
  led_by keys none block state e = err not_leader
  led_by keys (some v) block state e =
      if may_lead cfg v then drawn_block keys v block state e else err not_leader

  abbrev pub lead :
      Option ValidatorKeys → Block → AccountState → PosEngine → Result ConsensusError Block
  lead none block state e = err not_leader
  lead (some keys) block state e =
      led_by keys (get_validator state keys.sig_key.public_key_hex) block state e

  unfoldable pub prepare_stake :
      Option ValidatorKeys
      → Block
      → AccountState
      → PosEngine
      → PosEngine × Result ConsensusError Block
  prepare_stake keys block state e =
      let (b, emptied) = placed block e in
      if is_empty (get_active_validators state)
      then (emptied, ok (record b { hash = block_hash c k b }))
      else (emptied, lead keys b state emptied)

  abbrev pub check_vrf : Block → Validator → PosEngine → Result ConsensusError (Unit {0})
  check_vrf block v e = do
    fail_if (is_empty v.vrf_public_key) no_vrf_key
    fail_if (not (vrf.is_public_key v.vrf_public_key)) invalid_vrf_key
    fail_if (not (length block.vrf_output == 32)) invalid_vrf_output_length
    fail_if (not (vrf.is_output block.vrf_output)) invalid_vrf_output
    fail_if (not (vrf.is_proof block.vrf_proof)) invalid_vrf_proof
    fail_if
        (not (
          vrf.vrf_verify v.vrf_public_key
            (calculate_seed c block.chain_id block.epoch block.slot block.validator_set_hash e)
            block.vrf_output block.vrf_proof))
        vrf_failed

  unfoldable pub check_evidences : Evidences → Result ConsensusError (Unit {0})
  check_evidences no_more = ok tt
  check_evidences (more e es) = do
    fail_if (not (verify_evidence c k e)) invalid_evidence
    fail_if (not (is_named (fields_of (header1 e)).producer)) evidence_without_producer
    check_evidences es

  abbrev pub check_carried : Option Evidences → Result ConsensusError (Unit {0})
  check_carried none = ok tt
  check_carried (some es) = check_evidences es

  abbrev pub check_leader : Block → AccountState → PosEngine → Result ConsensusError (Unit {0})
  check_leader block state e = do
    producer ← or_fail block.producer no_producer
    v ← or_fail (get_validator state producer) unknown_producer
    fail_if (not (may_lead cfg v)) inactive_producer
    check_vrf block v e
    fail_if
        (not (
          check_vrf_threshold c block.vrf_output
            (calculate_vrf_threshold vrf v.stake (get_total_stake state))))
        below_threshold
    fail_if (not (verify_block_signature c block)) invalid_signature
    check_carried block.slashing_evidence

  unfoldable pub validate_stake :
      Block → List Block → AccountState → PosEngine → Result ConsensusError (Unit {0})
  validate_stake block chain state e =
      if block.index == 0
      then fail_if (not (block.hash == block_hash c k block)) invalid_genesis_hash
      else do
        check_link (get_last? chain) block
        fail_if (is_before_checkpoint block e) before_checkpoint
        (if is_empty (get_active_validators state)
            then fail_if (not (block.hash == block_hash c k block)) invalid_hash
            else check_leader block state e)

  -- `PoSEngine`
  abbrev pub stake_engine : Option ValidatorKeys → ConsensusEngine PosEngine
  stake_engine keys = record {
    prepare_block = λ block state e. prepare_stake keys block state e;
    validate_block = λ block chain state e. (e, validate_stake block chain state e);
    record_block = λ block e. record_block c cfg block e;
    fork_choice_score = λ chain e. stake_score chain e;
  }
