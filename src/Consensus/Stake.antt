-- ===== src/Consensus/Stake.antt =====
-- consensus/pos.rs: the state of the proof-of-stake engine, evidence of double signatures and its detection.
use blockhain_core.Prelude.{
  ℕ, zero, suc, ◌+◌, ◌*◌, ◌/◌, ◌%◌, String, ◌≡◌, ap, ◌↔◌, Bool, true, false, not, ◌&&◌, Option,
  none, some, List, [], ◌∷◌, ◌++◌, arith, ltb, if◌then◌else◌, Eq, ◌==◌, eq→path, path→eq, ℕ-Eq,
  String-Eq, Bytes-Eq, Option-Eq, length, replicate, get_last?, Result, ok, err, as_bytes,
}
use blockhain_core.Map.{Map, get, insert}
use blockhain_core.Crypto.{Crypto}
use blockhain_core.Block.{
  BlockHeader, SlashingEvidence, evidence, Evidences, no_more, more, fields_of, Block, Codec,
  from_block, verify_header_signature,
}
use blockhain_core.Consensus.{ConsensusError, no_producer, best_from}

-- `PoSConfig` without its three rates, floats that nothing modelled here reads.
pub record PosConfig : Type 0 where
  pub min_stake : ℕ
  pub slot_duration : ℕ
  pub epoch_length : ℕ
  pub unbonding : ℕ

pub record Checkpoint : Type 0 where
  pub block_index : ℕ
  pub block_hash : String
  pub timestamp : ℕ

-- The key of `seen_blocks`, a producer and an index.
abbrev pub SeenKey : Type 0
SeenKey = String × ℕ

abbrev pub same_key : SeenKey → SeenKey → Bool
same_key x y = (x.0 == y.0) && (x.1 == y.1)

pub same_key_iff : (x y : SeenKey) → (same_key x y ≡ true) ↔ (x ≡ y)
same_key_iff x y = (
  λ h.
      let p = eq→path x.0 y.0 (ground (arith, h)) in
      let q = eq→path x.1 y.1 (ground (arith, h)) in cc (p, q),
  λ h. ground (
    arith,
    path→eq x.0 y.0 (ap (λ (z : SeenKey). z.0) h),
    path→eq x.1 y.1 (ap (λ (z : SeenKey). z.1) h),
  ),
)

instance abbrev pub SeenKey-Eq : Eq SeenKey
SeenKey-Eq = record { test = same_key; test_iff = same_key_iff }

-- The interior state of `PoSEngine`; the seed is 32 bytes.
pub record PosEngine : Type 0 where
  pub seen_blocks : Map SeenKey (BlockHeader × List ℕ)
  pub evidence_pool : Evidences
  pub checkpoints : List Checkpoint
  pub epoch_seed : List ℕ

abbrev pub zero_seed : List ℕ
zero_seed = replicate 32 0

-- `PoSEngine::new`
abbrev pub new_engine : PosEngine
new_engine = record {
  seen_blocks = [];
  evidence_pool = no_more;
  checkpoints = [];
  epoch_seed = zero_seed;
}

-- `Vec::push`
unfoldable pub push_evidence : SlashingEvidence → Evidences → Evidences
push_evidence e no_more = more e no_more
push_evidence e (more x es) = more x (push_evidence e es)

abbrev pub is_named : Option String → Bool
is_named none = false
is_named (some p) = true

unfoldable pub verify_evidence : Crypto → Codec → SlashingEvidence → Bool
verify_evidence c k (evidence h1 h2 s1 s2) =
    if not ((fields_of h1).index == (fields_of h2).index)
    then false
    else if not ((fields_of h1).producer == (fields_of h2).producer)
    then false
    else if not (is_named (fields_of h1).producer)
    then false
    else if not (verify_header_signature c k h1 s1)
    then false
    else if not (verify_header_signature c k h2 s2)
    then false
    else if (fields_of h1).hash == (fields_of h2).hash
    then false
    else true

abbrev pub add_checkpoint : Block → PosEngine → PosEngine
add_checkpoint block e = record e {
  checkpoints =
      e.checkpoints
      ++ (record {
        block_index = block.index;
        block_hash = block.hash;
        timestamp = block.timestamp;
      })
        ∷ [];
}

abbrev pub before_last : Option Checkpoint → Block → Bool
before_last none block = false
before_last (some last_cp) block = ltb block.index last_cp.block_index

unfoldable pub is_before_checkpoint : Block → PosEngine → Bool
is_before_checkpoint block e = before_last (get_last? e.checkpoints) block

abbrev pub height_of : Option Checkpoint → ℕ
height_of none = 0
height_of (some cp) = cp.block_index

-- The score, a u128 that stays below 2^128: the index is a u64.
unfoldable pub stake_score : List Block → PosEngine → ℕ
stake_score chain e = height_of (get_last? e.checkpoints) * 1000 + length chain

-- `select_best_chain` of `PoSEngine`
unfoldable pub select_best_stake : List (List Block) → PosEngine → Option (List Block)
select_best_stake [] e = none
select_best_stake (chain ∷ chains) e = some (best_from (λ c. stake_score c e) chain chains)

-- `^` on bytes, bit by bit.
unfoldable pub xor_bits : ℕ → ℕ → ℕ → ℕ
xor_bits zero a b = 0
xor_bits (suc n) a b = (a + b) % 2 + 2 * xor_bits n (a / 2) (b / 2)

unfoldable pub mix_seed : List ℕ → List ℕ → List ℕ
mix_seed [] contribution = []
mix_seed (s ∷ ss) [] = s ∷ ss
mix_seed (s ∷ ss) (x ∷ xs) = xor_bits 8 s x ∷ mix_seed ss xs

abbrev pub hash_bytes_or_text : Option (List ℕ) → String → List ℕ
hash_bytes_or_text none hash = as_bytes hash
hash_bytes_or_text (some bytes) hash = bytes

-- The hash of the block enters the seed.
unfoldable pub mixed : Crypto → Block → PosEngine → PosEngine
mixed c block e = record e {
  epoch_seed =
      mix_seed e.epoch_seed (c.sha3_256 (hash_bytes_or_text (c.hex_decode block.hash) block.hash));
}

abbrev pub sig_or_empty : Option (List ℕ) → List ℕ
sig_or_empty none = []
sig_or_empty (some s) = s

-- The first block of its producer at its index: remembered, and a checkpoint at the end of an epoch.
abbrev pub remember : PosConfig → String → Block → PosEngine → PosEngine
remember cfg producer block e =
    let seen = record e {
      seen_blocks =
          insert (producer, block.index) (from_block block, sig_or_empty block.signature)
            e.seen_blocks;
    } in
    if ltb 0 block.index && block.index % cfg.epoch_length == 0
    then add_checkpoint block (record seen { epoch_seed = zero_seed })
    else seen

-- Another block of its producer at its index: evidence if its hash is another one.
abbrev pub accuse : BlockHeader × List ℕ → Block → PosEngine → PosEngine
accuse (seen, signature) block e =
    if not ((fields_of seen).hash == block.hash)
    then record e {
      evidence_pool =
          push_evidence (evidence seen (from_block block) signature (sig_or_empty block.signature))
            e.evidence_pool;
    }
    else e

abbrev pub detect :
    PosConfig → Option (BlockHeader × List ℕ) → String → Block → PosEngine → PosEngine
detect cfg none producer block e = remember cfg producer block e
detect cfg (some existing) producer block e = accuse existing block e

abbrev pub record_by :
    Crypto
    → PosConfig
    → Option String
    → Block
    → PosEngine
    → PosEngine × Result ConsensusError (Unit {0})
record_by c cfg none block e = (e, err no_producer)
record_by c cfg (some producer) block e =
    let m = mixed c block e in
    (detect cfg (get (producer, block.index) m.seen_blocks) producer block m, ok tt)

unfoldable pub record_block :
    Crypto → PosConfig → Block → PosEngine → PosEngine × Result ConsensusError (Unit {0})
record_block c cfg block e = record_by c cfg block.producer block e
