-- ===== src/Chain/Tests.antt =====
-- A small chain under proof of authority: runs of blockchain.rs, and the theorems at them.
use blockhain_core.Prelude.{
  ℕ, ◌+◌, ◌/◌, ◌≤◌, ◌<◌, ◌≡◌, refl, ◌≢◌, ◌⊎◌, inr, true, none, some, List, [], ◌∷◌, ◌++◌, map,
  arith, false→ne, ℕ-Eq, String-Eq, Bytes-Eq, Option-Eq, length, replicate, Result, ok,
}
use blockhain_core.Map.{get, insert}
use blockhain_core.Crypto.{verify_signature, hash_fields}
use blockhain_core.Transaction.{verify_with_key, verify}
use blockhain_core.Merkle.{merkle_loop, merkle_root}
use blockhain_core.Block.{Block, Codec, block_hash, zero_hash, tx_root_of, verify_block_signature}
use blockhain_core.Consensus.{
  ConsensusError, ConsensusEngine, validate_timestamp, validate_block_size, full_validate,
  is_better_chain,
}
use blockhain_core.Consensus.Authority.{expected_proposer, validate_authority, authority_engine}
use blockhain_core.Account.State.{
  AccountState, sort_by_address, get_active_validators, modify_account,
}
use blockhain_core.Account.Validate.{validate_transaction}
use blockhain_core.Account.Apply.{apply_transfer, apply_transaction, apply_all, apply_block}
use blockhain_core.Account.Supply.{supply}
use blockhain_core.Account.Tests.{toy, transfer_tx, ledger}
use blockhain_core.Mempool.Pool.{default_config, new_pool, admit, make_room, add_transaction}
use blockhain_core.Chain.State.{Blockchain, ChainError, calculate_state_root, submit_transaction}
use blockhain_core.Chain.Add.{
  check_finalized, try_transactions, commit_transactions, validate_and_add_block,
}
use blockhain_core.Chain.Reorg.{
  fork_from, find_fork_point, rebuild_from, rebuild_state, validate_all, is_valid_chain, try_reorg,
}
use blockhain_core.Chain.Produce.{produce_block}
use blockhain_core.Chain.Guards.{Added, validate_and_add_block-Added}
use blockhain_core.Chain.Finalized.{Extends, block_added, start, then_step, finalized_stays}
use blockhain_core.Chain.Depth.{
  hash_at, reorg_keeps, extension_refused, marked, try_reorg_ignores_finality,
}
use blockhain_core.Chain.Foreign.{KeepsChainId, produced_refused}
use blockhain_core.Chain.Coins.{add_block-supply}
use blockhain_core.Chain.Genesis.{build_genesis_block, genesis_added_again}
use blockhain_core.Chain.Unsigned.{unsign, unsigned_chain_valid}
use blockhain_core.Chain.Submit.{submitted_applies}
use blockhain_core.Chain.Start.{restored, replayed}
use blockhain_core.Chain.Forget.{epochs_forgotten}
use blockhain_core.Pruning.Snapshot.{StateSnapshot}

abbrev codec : Codec
codec = record { bincode = λ e. []; json_size = λ b. 100 }

abbrev unprepared : Block → AccountState → Unit {0} → Unit {0} × Result ConsensusError Block
unprepared b s e = (e, ok b)

abbrev engine : ConsensusEngine (Unit {0})
engine = authority_engine toy codec unprepared

abbrev tenth : ℕ → ℕ
tenth n = n / 10

-- Hashes are all "00" under `toy`.
abbrev first_block : Block
first_block = record {
  index = 0;
  timestamp = 0;
  previous_hash = zero_hash;
  hash = "00";
  transactions = [];
  nonce = 0;
  producer = none;
  signature = none;
  chain_id = 1337;
  slashing_evidence = none;
  state_root = "";
  tx_root = zero_hash;
  epoch = 0;
  slot = 0;
  vrf_output = [];
  vrf_proof = [];
  validator_set_hash = "";
}

abbrev next_block : Block
next_block = record first_block {
  index = 1;
  timestamp = 2000;
  previous_hash = "00";
  producer = some "val";
  signature = some (replicate 64 0);
  state_root = "00";
}

abbrev paying_block : Block
paying_block = record next_block { transactions = transfer_tx ∷ []; tx_root = "t1" }

abbrev small_chain : Blockchain (Unit {0})
small_chain = record {
  chain = first_block ∷ [];
  engine_state = tt;
  mempool = new_pool default_config;
  state = ledger;
  chain_id = 1337;
  finalized_height = 0;
  finalized_hash = "00";
}

abbrev after_payment : Blockchain (Unit {0}) × Result ChainError (Unit {0})
after_payment = validate_and_add_block toy codec engine tenth 2500 2 paying_block small_chain

payment_added : after_payment.1 ≡ ok tt
unfolding validate_and_add_block check_finalized tx_root_of merkle_root merkle_loop block_hash
    hash_fields full_validate validate_timestamp validate_block_size validate_authority
    get_active_validators sort_by_address expected_proposer verify_block_signature verify_signature
    commit_transactions try_transactions validate_transaction verify verify_with_key
    apply_transaction apply_transfer apply_block apply_all modify_account get insert
    calculate_state_root
payment_added = refl

validate_and_add_block-Added_example :
    Added toy codec engine tenth 2 paying_block small_chain
      (validate_and_add_block toy codec engine tenth 2500 2 paying_block small_chain)
validate_and_add_block-Added_example =
    validate_and_add_block-Added toy codec engine tenth 2500 2 paying_block small_chain

finalized_stays_example :
    Extends small_chain
      (validate_and_add_block toy codec engine tenth 2500 2 paying_block small_chain).0
finalized_stays_example =
    finalized_stays toy codec engine tenth (then_step start (block_added 2500 2 paying_block))
      (first_block, (refl, refl))

add_block-supply_example :
    supply (validate_and_add_block toy codec engine tenth 2500 2 paying_block small_chain).0.state
    ≤ supply ledger
add_block-supply_example =
    add_block-supply toy codec engine tenth 2500 2 paying_block small_chain (omega arith)

submitted_applies_example :
    (transfer_tx.chain_id ≡ small_chain.chain_id)
    × (verify toy transfer_tx ≡ true)
    × (transfer_tx.from ≢ "genesis")
    × ((apply_transaction transfer_tx ledger).1 ≡ ok tt)
unfolding submit_transaction verify verify_with_key verify_signature validate_transaction get insert
    add_transaction make_room admit
submitted_applies_example = submitted_applies toy 5 transfer_tx small_chain (omega arith) refl

abbrev foreign_chain : Blockchain (Unit {0})
foreign_chain = record small_chain { chain_id = 1 }

unprepared-KeepsChainId : KeepsChainId engine
unprepared-KeepsChainId b b' s e p = cc

produced_refused_example :
    ((produce_block toy codec engine 2000 "val" foreign_chain).chain ≡ first_block ∷ [])
    ⊎ ((b : Block) × (((produce_block toy codec engine 2000 "val" foreign_chain).chain
            ≡ first_block ∷ b ∷ [])
          × ((now' now_secs : ℕ) (other : Blockchain (Unit {0}))
              → other.chain_id ≡ 1
              → (validate_and_add_block toy codec engine tenth now' now_secs b other).1 ≢ ok tt)))
produced_refused_example =
    produced_refused toy codec engine tenth 2000 "val" foreign_chain unprepared-KeepsChainId
      (false→ne 1 1337 refl)

abbrev old_blocks : List Block
old_blocks = first_block ∷ (replicate 50 next_block ++ record next_block { hash = "x" } ∷ [])

abbrev new_blocks : List Block
new_blocks = first_block ∷ replicate 52 next_block

abbrev long_chain : Blockchain (Unit {0})
long_chain = record small_chain { chain = old_blocks }

reorg_keeps_example :
    ((try_reorg toy codec engine 5 new_blocks long_chain).0.chain ≡ new_blocks)
    × ((i : ℕ) → i + 50 < length old_blocks → hash_at new_blocks i ≡ hash_at old_blocks i)
unfolding try_reorg is_valid_chain validate_all validate_authority block_hash hash_fields
    get_active_validators sort_by_address find_fork_point fork_from rebuild_state rebuild_from
    apply_block apply_all is_better_chain
reorg_keeps_example = reorg_keeps toy codec engine 5 new_blocks long_chain refl

extension_refused_example :
    (try_reorg toy codec engine 5 (old_blocks ++ next_block ∷ []) long_chain).1 ≢ ok true
extension_refused_example =
    extension_refused toy codec engine 5 (next_block ∷ []) long_chain (omega arith)

try_reorg_ignores_finality_example :
    try_reorg toy codec engine 5 new_blocks
      (record long_chain { finalized_height = 51; finalized_hash = "x" })
    ≡ marked toy codec engine 51 "x" (try_reorg toy codec engine 5 new_blocks long_chain)
try_reorg_ignores_finality_example =
    try_reorg_ignores_finality toy codec engine 5 51 "x" new_blocks long_chain

unsigned_chain_valid_example :
    is_valid_chain toy codec engine (map unsign new_blocks) long_chain
    ≡ is_valid_chain toy codec engine new_blocks long_chain
unsigned_chain_valid_example = unsigned_chain_valid toy codec unprepared new_blocks long_chain

abbrev genesis_chain : Blockchain (Unit {0})
genesis_chain = record small_chain { chain = build_genesis_block toy codec 1337 ∷ [] }

genesis_added_again_example :
    ((validate_and_add_block toy codec engine tenth 9 9
        (build_genesis_block toy codec 1337)
        genesis_chain).1
      ≡ ok tt)
    × ((validate_and_add_block toy codec engine tenth 9 9
          (build_genesis_block toy codec 1337)
          genesis_chain).0.chain
        ≡ build_genesis_block toy codec 1337 ∷ build_genesis_block toy codec 1337 ∷ [])
genesis_added_again_example =
    genesis_added_again toy codec unprepared tenth 9 9 genesis_chain [] refl refl

abbrev old_snapshot : StateSnapshot
old_snapshot = record {
  height = 7;
  block_hash = "00";
  chain_id = 1337;
  created_at = 100;
  balances = ("alice", 60) ∷ [];
  nonces = ("alice", 2) ∷ [];
  finalized_height = 0;
  finalized_hash = "00";
  snapshot_hash = "00";
}

-- The state that a start with the snapshot gives.
abbrev started : AccountState
started = restored (some old_snapshot)

epochs_forgotten_example : (started.epoch_index ≡ 0) × (started.last_epoch_time ≡ 0)
unfolding replayed rebuild_from apply_block apply_all
epochs_forgotten_example =
    epochs_forgotten (first_block ∷ next_block ∷ []) (some old_snapshot) started (inr refl)
