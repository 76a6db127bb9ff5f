-- ===== src/Consensus.antt =====
-- consensus/mod.rs: the `ConsensusEngine` trait, its constants and its default methods.
pub mod Authority
pub mod Work
pub mod Mining
pub mod Stake
pub mod Election
pub mod Recorded
pub mod DoubleSign
pub mod Caught
pub mod Lost
mod Tests
use blockhain_core.Prelude.{
  ℕ, ◌+◌, ◌-◌, ◌*◌, String, Bool, true, false, Option, none, some, List, [], ◌∷◌, ltb, leb,
  if◌then◌else◌, ◌==◌, ℕ-Eq, String-Eq, Bytes-Eq, Option-Eq, length, get_last?, any, Result, ok,
  err, ◌>>◌, fail_if, sub64,
}
use blockhain_core.Block.{Block, Codec}
use blockhain_core.Account.State.{AccountState}

abbrev pub max_future_block_time_ms : ℕ
max_future_block_time_ms = 15 * 1000

abbrev pub max_past_block_time_ms : ℕ
max_past_block_time_ms = 2 * 60 * 60 * 1000

abbrev pub min_block_interval_ms : ℕ
min_block_interval_ms = 1000

abbrev pub max_block_size : ℕ
max_block_size = 1_000_000

abbrev pub max_transactions_per_block : ℕ
max_transactions_per_block = 5000

abbrev pub max_reorg_depth : ℕ
max_reorg_depth = 100

-- The errors of the default methods and of the engines, by the text of their messages.
pub data ConsensusError : Type 0 where
  too_far_in_future too_old not_monotonic too_fast too_many_transactions block_too_large :
      ConsensusError
  invalid_genesis_hash previous_hash_mismatch no_proposer no_producer wrong_proposer :
      ConsensusError
  invalid_signature invalid_hash no_active_validators invalid_work still_mining : ConsensusError
  before_checkpoint unknown_producer inactive_producer no_vrf_key invalid_vrf_key : ConsensusError
  invalid_vrf_output_length invalid_vrf_output invalid_vrf_proof vrf_failed : ConsensusError
  below_threshold invalid_evidence evidence_without_producer not_leader : ConsensusError
  engine_error : String → ConsensusError

-- The required methods. An engine has interior state of type `E` (locks in the source); a method
-- returns its new value. `prepare_block` returns the prepared block.
pub record ConsensusEngine (E : Type 0) : Type 0 where
  pub prepare_block : Block → AccountState → E → E × Result ConsensusError Block
  pub validate_block : Block → List Block → AccountState → E → E × Result ConsensusError (Unit {0})
  pub record_block : Block → E → E × Result ConsensusError (Unit {0})
  pub fork_choice_score : List Block → E → ℕ

abbrev pub check_previous : Option Block → Block → Result ConsensusError (Unit {0})
check_previous none block = ok tt
check_previous (some prev) block = do
  fail_if (leb block.timestamp prev.timestamp) not_monotonic
  fail_if (ltb (block.timestamp - prev.timestamp) min_block_interval_ms) too_fast

-- `now` is the system time in milliseconds.
unfoldable pub validate_timestamp : ℕ → Block → Option Block → Result ConsensusError (Unit {0})
validate_timestamp now block prev = do
  fail_if (ltb (now + max_future_block_time_ms) block.timestamp) too_far_in_future
  fail_if (ltb (block.timestamp + max_past_block_time_ms) now) too_old
  check_previous prev block

unfoldable pub validate_block_size : Codec → Block → Result ConsensusError (Unit {0})
validate_block_size k block = do
  fail_if (ltb max_transactions_per_block (length block.transactions)) too_many_transactions
  fail_if (ltb max_block_size (k.json_size block)) block_too_large

module _ {E : Type 0} (engine : ConsensusEngine E) where
  unfoldable pub full_validate :
      Codec → ℕ → Block → List Block → AccountState → E → E × Result ConsensusError (Unit {0})
  full_validate k now block chain state e =
      if block.index == 0
      then engine.validate_block block chain state e
      else elim (do validate_timestamp now block (get_last? chain); validate_block_size k block) [
        | err x ↦ (e, err x)
        | ok _ ↦ engine.validate_block block chain state e
      ]

  unfoldable pub is_better_chain : List Block → List Block → E → Bool
  is_better_chain current candidate e =
      ltb (engine.fork_choice_score current e) (engine.fork_choice_score candidate e)

-- `current_chain.iter().rev().find(..)`: the last block of the current chain that the new one has.
unfoldable pub common_ancestor : List Block → List Block → Option Block
common_ancestor [] new_chain = none
common_ancestor (b ∷ bs) new_chain = elim (common_ancestor bs new_chain) [
  | some a ↦ some a
  | none ↦ if any (λ nb. nb.hash == b.hash) new_chain then some b else none
]

abbrev pub depth_allowed : Option Block → List Block → Bool
depth_allowed none current = true
depth_allowed (some a) current = leb (sub64 (sub64 (length current) a.index) 1) max_reorg_depth

unfoldable pub can_reorg : List Block → List Block → Bool
can_reorg current new_chain =
    if leb (length new_chain) (length current)
    then false
    else depth_allowed (common_ancestor current new_chain) current

-- `max_by_key`, the last of the best ones.
unfoldable pub best_from : (List Block → ℕ) → List Block → List (List Block) → List Block
best_from score best [] = best
best_from score best (chain ∷ chains) =
    best_from score (if leb (score best) (score chain) then chain else best) chains

unfoldable pub select_best_chain : List (List Block) → Option (List Block)
select_best_chain [] = none
select_best_chain (chain ∷ chains) = some (best_from length chain chains)
