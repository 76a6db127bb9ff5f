-- ===== src/Chain/Add.antt =====
-- blockchain.rs: `validate_and_add_block`. Times are arguments: `now` in milliseconds for the engine's check,
-- `now_secs` in seconds for the jail of slashed validators. Saving and pruning on disk is left out.
use blockhain_core.Prelude.{
  ℕ, ◌%◌, String, not, ◌&&◌, Option, none, some, List, [], ◌∷◌, ◌++◌, map, ltb, leb, if◌then◌else◌,
  ◌==◌, ℕ-Eq, String-Eq, Bytes-Eq, Option-Eq, get_elem?, Result, ok, err, ◌>>=◌, ◌>>◌, fail_if,
  map_err,
}
use blockhain_core.Crypto.{Crypto}
use blockhain_core.Transaction.{Transaction}
use blockhain_core.Block.{
  Evidences, no_more, more, fields_of, header1, Block, Codec, block_hash, tx_root_of,
}
use blockhain_core.Consensus.{ConsensusError, ConsensusEngine, full_validate}
use blockhain_core.Account.State.{AccountState}
use blockhain_core.Account.Validate.{validate_transaction}
use blockhain_core.Account.Apply.{Outcome, apply_transaction, apply_block}
use blockhain_core.Account.Epoch.{advance_epoch, apply_slashing}
use blockhain_core.Mempool.Pool.{invalid_transaction, remove_all}
use blockhain_core.Chain.State.{
  epoch_length, Blockchain, ChainError, conflicts_with_finalized, below_finalized, invalid_chain_id,
  tx_root_mismatch, block_hash_mismatch, missing_state_root, genesis_forbidden, state_root_mismatch,
  consensus_failed, invalid_transaction, apply_failed, calculate_state_root,
}

abbrev pub check_path : Option Block → Block → Result ChainError (Unit {0})
check_path none block = err below_finalized
check_path (some known) block = fail_if (not (known.hash == block.hash)) conflicts_with_finalized

-- The guard for a block at or below the finalized height.
unfoldable pub check_finalized : {E : Type 0} → Block → Blockchain E → Result ChainError (Unit {0})
check_finalized block bc =
    if leb block.index bc.finalized_height && not (block.hash == bc.finalized_hash)
    then check_path (get_elem? bc.chain block.index) block
    else ok tt

-- What is checked before the engine is asked.
abbrev pub check_block :
    {E : Type 0} → Crypto → Codec → Block → Blockchain E → Result ChainError (Unit {0})
check_block c k block bc = do
  check_finalized block bc
  fail_if (not (block.chain_id == bc.chain_id)) invalid_chain_id
  fail_if (not (block.tx_root == tx_root_of c block.transactions)) tx_root_mismatch
  fail_if (not (block.hash == block_hash c k block)) block_hash_mismatch
  fail_if (ltb 0 block.index && (block.state_root == "")) missing_state_root

abbrev pub check_transaction :
    Crypto → Block → Transaction → AccountState → Result ChainError (Unit {0})
check_transaction c block tx s = do
  fail_if (not (tx.chain_id == block.chain_id)) invalid_chain_id
  fail_if (ltb 0 block.index && (tx.from == "genesis")) genesis_forbidden
  (if ltb 0 block.index then map_err invalid_transaction (validate_transaction c s tx) else ok tt)

-- The loop over the transactions on `temp_state`, which is thrown away.
unfoldable pub try_transactions :
    Crypto → Block → List Transaction → AccountState → Result ChainError (Unit {0})
try_transactions c block [] s = ok tt
try_transactions c block (tx ∷ txs) s =
    let (s1, r) = apply_transaction tx s in
    let rest = try_transactions c block txs s1 in
    check_transaction c block tx s >> (map_err apply_failed r >> rest)

abbrev pub applied : Outcome → Result ChainError AccountState
applied (s, ok _) = ok s
applied (s, err e) = err (apply_failed e)

-- `commit_state` after `apply_block` and the comparison of the state roots.
unfoldable pub commit_transactions : Crypto → Block → AccountState → Result ChainError AccountState
commit_transactions c block s = do
  try_transactions c block block.transactions s
  commit_state ← applied (apply_block block.transactions block.producer s)
  fail_if (ltb 0 block.index && not (calculate_state_root c commit_state == block.state_root))
      state_root_mismatch
  ok commit_state

unfoldable pub producers_of : Evidences → List (Option String)
producers_of no_more = []
producers_of (more e es) = (fields_of (header1 e)).producer ∷ producers_of es

abbrev pub evidence_producers : Option Evidences → List (Option String)
evidence_producers none = []
evidence_producers (some es) = producers_of es

-- Slashing and the change of the epoch.
unfoldable pub end_block : (ℕ → ℕ) → ℕ → Block → AccountState → AccountState
end_block penalty now_secs block s =
    let slashed = apply_slashing penalty now_secs (evidence_producers block.slashing_evidence) s in
    if ltb 0 block.index && (block.index % epoch_length == 0)
    then advance_epoch block.timestamp slashed
    else slashed

abbrev pub tx_hashes : Block → List String
tx_hashes block = map (λ tx. tx.hash) block.transactions

module _ {E : Type 0} (c : Crypto) (k : Codec) (engine : ConsensusEngine E) (penalty : ℕ → ℕ) where
  -- An error of `record_block` is only printed.
  unfoldable pub push_block : ℕ → Block → AccountState → Blockchain E → Blockchain E
  push_block now_secs block s bc = record bc {
    chain = bc.chain ++ block ∷ [];
    engine_state = (engine.record_block block bc.engine_state).0;
    mempool = remove_all (tx_hashes block) bc.mempool;
    state = end_block penalty now_secs block s;
  }

  abbrev pub add_committed :
      ℕ
      → Block
      → Blockchain E
      → Result ChainError AccountState
      → Blockchain E × Result ChainError (Unit {0})
  add_committed now_secs block bc (err e) = (bc, err e)
  add_committed now_secs block bc (ok s) = (push_block now_secs block s bc, ok tt)

  abbrev pub add_validated :
      ℕ
      → Block
      → Blockchain E
      → E × Result ConsensusError (Unit {0})
      → Blockchain E × Result ChainError (Unit {0})
  add_validated now_secs block bc (e1, err e) =
      (record bc { engine_state = e1 }, err (consensus_failed e))
  add_validated now_secs block bc (e1, ok _) =
      add_committed now_secs block (record bc { engine_state = e1 })
        (commit_transactions c block bc.state)

  abbrev pub add_checked :
      ℕ
      → ℕ
      → Block
      → Blockchain E
      → Result ChainError (Unit {0})
      → Blockchain E × Result ChainError (Unit {0})
  add_checked now now_secs block bc (err e) = (bc, err e)
  add_checked now now_secs block bc (ok _) =
      add_validated now_secs block bc
        (full_validate engine k now block bc.chain bc.state bc.engine_state)

  unfoldable pub validate_and_add_block :
      ℕ → ℕ → Block → Blockchain E → Blockchain E × Result ChainError (Unit {0})
  validate_and_add_block now now_secs block bc =
      add_checked now now_secs block bc (check_block c k block bc)
