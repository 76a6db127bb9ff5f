-- ===== src/Consensus/Work.antt =====
-- consensus/pow.rs: proof of work. The engine's interior state is its current difficulty; the product of a
-- difficulty and a ratio of times, computed with floats, is a parameter.
use blockhain_core.Prelude.{
  ℕ, zero, suc, ◌+◌, ◌-◌, ◌/◌, ◌%◌, ◌^◌, max, String, Bool, true, false, not, ◌&&◌, Option, none,
  some, List, [], ◌∷◌, ltb, if◌then◌else◌, ◌==◌, ℕ-Eq, String-Eq, Bytes-Eq, Option-Eq, length,
  get_elem?, get_last?, Result, ok, err, ◌>>◌, fail_if, add64, mul64,
}
use Prim.Native.Char.{code}
use Prim.Native.String
use blockhain_core.Crypto.{Crypto}
use blockhain_core.Block.{Block, Codec, block_hash}
use blockhain_core.Consensus.{
  ConsensusError, invalid_genesis_hash, invalid_hash, invalid_work, still_mining, ConsensusEngine,
}
use blockhain_core.Consensus.Authority.{check_link}

pub record PowConfig : Type 0 where
  pub difficulty : ℕ
  pub target_block_time : ℕ
  pub adjustment_interval : ℕ
  pub block_reward : ℕ

abbrev pub default_pow_config : PowConfig
default_pow_config = record {
  difficulty = 2;
  target_block_time = 10;
  adjustment_interval = 100;
  block_reward = 50;
}

-- `str::starts_with`
unfoldable pub starts_with : String → String → Bool
starts_with s String.[] = true
starts_with String.[] (String.◌∷◌ c t) = false
starts_with (String.◌∷◌ d s) (String.◌∷◌ c t) = code d == code c && starts_with s t

-- `"0".repeat(difficulty)`
unfoldable pub target : ℕ → String
target zero = String.[]
target (suc difficulty) = String.◌++◌ "0" (target difficulty)

unfoldable pub meets_difficulty : ℕ → String → Bool
meets_difficulty difficulty hash = starts_with hash (target difficulty)

abbrev pub clamp : ℕ → ℕ → ℕ → ℕ
clamp low high n = if ltb n low then low else if ltb high n then high else n

-- `scale difficulty expected actual` is `(difficulty as f64 * (expected as f64 / actual as f64)) as usize`.
-- Timestamps are u128; the subtraction wraps in a release build.
abbrev pub u128_size : ℕ
u128_size = 2 ^ 128

abbrev pub new_difficulty_at : (ℕ → ℕ → ℕ → ℕ) → PowConfig → Option Block → Option Block → ℕ → ℕ
new_difficulty_at scale cfg (some last) (some first) d =
    let actual_time = (last.timestamp + u128_size - first.timestamp) % u128_size / 1000 in
    let expected_time = mul64 cfg.target_block_time cfg.adjustment_interval in
    clamp 1 32 (scale d expected_time (max actual_time 1))
new_difficulty_at scale cfg _ _ d = d

unfoldable pub calculate_new_difficulty : (ℕ → ℕ → ℕ → ℕ) → PowConfig → List Block → ℕ → ℕ
calculate_new_difficulty scale cfg chain d =
    if ltb (length chain) cfg.adjustment_interval
    then d
    else new_difficulty_at scale cfg (get_last? chain)
        (get_elem? chain (length chain - cfg.adjustment_interval)) d

-- The difficulty after a block at an index that the interval divides.
abbrev pub adjusted : (ℕ → ℕ → ℕ → ℕ) → PowConfig → Block → List Block → ℕ → ℕ
adjusted scale cfg block chain d =
    if block.index % cfg.adjustment_interval == 0
    then calculate_new_difficulty scale cfg chain d
    else d

-- The fuel counts the turns of the loop of `mine`; `none` means that it ran out, where the source goes on.
module _ (c : Crypto) (k : Codec) where
  abbrev pub next_nonce : Block → Block
  next_nonce block =
      let bumped = record block { nonce = add64 block.nonce 1 } in
      record bumped { hash = block_hash c k bumped }

  unfoldable pub mine : ℕ → ℕ → Block → Option Block
  mine difficulty zero block = if meets_difficulty difficulty block.hash then some block else none
  mine difficulty (suc fuel) block =
      let rest = mine difficulty fuel (next_nonce block) in
      if meets_difficulty difficulty block.hash then some block else rest

  abbrev pub rehashed : Block → Block
  rehashed block = record block { hash = block_hash c k block }

  abbrev pub validate_linked :
      (ℕ → ℕ → ℕ → ℕ) → PowConfig → Block → List Block → ℕ → ℕ × Result ConsensusError (Unit {0})
  validate_linked scale cfg block chain d =
      let d1 = adjusted scale cfg block chain d in
      (d1, fail_if (not (meets_difficulty d1 block.hash)) invalid_work)

  abbrev pub hash_checked : Block → List Block → Result ConsensusError (Unit {0})
  hash_checked block chain = do
    check_link (get_last? chain) block
    fail_if (not (block.hash == block_hash c k block)) invalid_hash

  unfoldable pub validate_work :
      (ℕ → ℕ → ℕ → ℕ) → PowConfig → Block → List Block → ℕ → ℕ × Result ConsensusError (Unit {0})
  validate_work scale cfg block chain d =
      if block.index == 0
      then (d, fail_if (not (block.hash == block_hash c k block)) invalid_genesis_hash)
      else elim (hash_checked block chain) [
        | err e ↦ (d, err e)
        | ok _ ↦ validate_linked scale cfg block chain d
      ]

-- `take_while(|c| *c == '0').count()`
unfoldable pub leading_zeros : String → ℕ
leading_zeros String.[] = 0
leading_zeros (String.◌∷◌ c s) =
    let more = leading_zeros s in if code c == b'0' then suc more else 0

-- The sum stays far below 2^128: hashes have 64 digits.
unfoldable pub work_score : List Block → ℕ
work_score [] = 0
work_score (b ∷ bs) = max (leading_zeros b.hash) 1 + work_score bs

abbrev pub mined_or_stuck : Option Block → Result ConsensusError Block
mined_or_stuck none = err still_mining
mined_or_stuck (some b) = ok b

-- `PoWEngine`, with the fuel of the mining.
abbrev pub work_engine : Crypto → Codec → (ℕ → ℕ → ℕ → ℕ) → PowConfig → ℕ → ConsensusEngine ℕ
work_engine c k scale cfg fuel = record {
  prepare_block = λ block state d. (d, mined_or_stuck (mine c k d fuel (rehashed c k block)));
  validate_block = λ block chain state d. validate_work c k scale cfg block chain d;
  record_block = λ block d. (d, ok tt);
  fork_choice_score = λ chain d. work_score chain;
}
