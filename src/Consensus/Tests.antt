-- ===== src/Consensus/Tests.antt =====
-- A block mined at once (every hash is "00") and runs of the proof-of-stake engine.
use blockhain_core.Prelude.{
  ℕ, ◌≡◌, refl, true, none, some, [], ◌∷◌, arith, ltb, if◌then◌else◌, false→ne, ℕ-Eq, String-Eq,
  Bytes-Eq, Option-Eq, length, replicate, ok, u64_max, le_bytes, as_bytes,
}
use blockhain_core.Crypto.{Crypto, verify_signature, hash_fields}
use blockhain_core.Block.{
  evidence, no_more, more, Block, Codec, from_block, block_hash, zero_hash, verify_block_signature,
}
use blockhain_core.Consensus.Work.{
  default_pow_config, starts_with, target, meets_difficulty, mine, rehashed, validate_work,
}
use blockhain_core.Consensus.Mining.{after, IsRehash, IsFirst, mined_is_valid}
use blockhain_core.Consensus.Stake.{
  PosConfig, SeenKey-Eq, PosEngine, new_engine, push_evidence, mixed, record_block,
}
use blockhain_core.Consensus.Election.{Vrf, prepare_stake}
use blockhain_core.Consensus.Recorded.{record_all}
use blockhain_core.Consensus.DoubleSign.{AllVerify, recorded_evidence_verifies}
use blockhain_core.Consensus.Caught.{Accuses, double_sign_caught}
use blockhain_core.Consensus.Lost.{evidence_lost}
use blockhain_core.Account.State.{AccountState, new_state, sort_by_address, get_active_validators}
use blockhain_core.Map.{get, insert}
use blockhain_core.Account.Tests.{toy}

abbrev mining_codec : Codec
mining_codec = record { bincode = λ e. []; json_size = λ b. 100 }

abbrev parent_block : Block
parent_block = record {
  index = 0;
  timestamp = 0;
  previous_hash = zero_hash;
  hash = "00";
  transactions = [];
  nonce = 0;
  producer = none;
  signature = none;
  chain_id = 1337;
  slashing_evidence = none;
  state_root = "";
  tx_root = zero_hash;
  epoch = 0;
  slot = 0;
  vrf_output = [];
  vrf_proof = [];
  validator_set_hash = "";
}

abbrev unmined : Block
unmined = record parent_block { index = 1; timestamp = 2000; previous_hash = "00"; hash = "f" }

abbrev kept : ℕ → ℕ → ℕ → ℕ
kept d expected actual = d

mined_is_valid_example :
    (n : ℕ) × ((mine toy mining_codec 2 1000 (rehashed toy mining_codec unmined)
        ≡ some (after toy mining_codec n (rehashed toy mining_codec unmined)))
      × IsFirst toy mining_codec 2 n (rehashed toy mining_codec unmined)
      × IsRehash toy mining_codec unmined
          (after toy mining_codec n (rehashed toy mining_codec unmined))
      × (validate_work toy mining_codec kept default_pow_config
            (after toy mining_codec n (rehashed toy mining_codec unmined))
            (parent_block ∷ [])
            2
          ≡ (2, ok tt)))
unfolding after block_hash hash_fields meets_difficulty starts_with target
mined_is_valid_example =
    mined_is_valid toy mining_codec kept default_pow_config (parent_block ∷ []) 2 1000 0 unmined
      (omega arith) (omega arith) refl (omega arith) refl

abbrev stake_config : PosConfig
stake_config = record { min_stake = 1000; slot_duration = 6; epoch_length = 32; unbonding = 7 }

abbrev signed_block : Block
signed_block = record parent_block {
  index = 1;
  producer = some "val";
  signature = some (replicate 64 0);
}

-- A hash that tells blocks by the length of what is hashed.
abbrev lengthy : Crypto
lengthy = record toy { hex_encode = λ b. if ltb (length b) 300 then "00" else "11" }

-- Two signed blocks of one producer at one index, each with the hash of its fields.
abbrev twin_block : Block
twin_block = record signed_block { hash = "11"; vrf_output = replicate 300 0 }

recorded_evidence_verifies_example :
    AllVerify lengthy mining_codec stake_config
      (record_all lengthy stake_config (signed_block ∷ twin_block ∷ []) new_engine).evidence_pool
unfolding verify_block_signature verify_signature block_hash hash_fields as_bytes le_bytes
recorded_evidence_verifies_example =
    recorded_evidence_verifies lengthy mining_codec stake_config (signed_block ∷ twin_block ∷ [])
      ((refl, refl), ((refl, refl), tt))

-- The second one is found out: the pool of that run is not empty.
twins_accused :
    (record_all lengthy stake_config (signed_block ∷ twin_block ∷ []) new_engine).evidence_pool
    ≡ more
        (evidence
          (from_block signed_block)
          (from_block twin_block)
          (replicate 64 0)
          (replicate 64 0))
        no_more
unfolding record_all record_block get insert mixed from_block push_evidence
twins_accused = refl

abbrev forked_block : Block
forked_block = record signed_block { hash = "f" }

double_sign_caught_example :
    Accuses "val" 1
      (record_all toy stake_config
        (parent_block ∷ signed_block ∷ (parent_block ∷ forked_block ∷ []))
        new_engine).evidence_pool
double_sign_caught_example =
    double_sign_caught toy stake_config (parent_block ∷ []) (parent_block ∷ []) [] signed_block
      forked_block "val" refl refl refl (false→ne "00" "f" refl)

-- Every output wins.
abbrev sure_vrf : Vrf
sure_vrf = record {
  is_public_key = λ b. true;
  is_output = λ b. true;
  is_proof = λ b. true;
  vrf_verify = λ key seed output proof. true;
  threshold = λ stake total. u64_max;
}

-- A state with no validator, where each node may prepare a block.
abbrev open_state : AccountState
open_state = new_state

abbrev found : PosEngine
found = record new_engine {
  evidence_pool = more (evidence (from_block signed_block) (from_block forked_block) [] []) no_more;
}

evidence_lost_example :
    (record unmined { epoch = 0; slot = 1; hash = "00" }).slashing_evidence ≡ none
unfolding prepare_stake get_active_validators block_hash hash_fields sort_by_address
evidence_lost_example =
    evidence_lost toy mining_codec sure_vrf stake_config none none unmined unmined
      (record unmined { epoch = 0; slot = 1; hash = "00" }) open_state open_state found refl
