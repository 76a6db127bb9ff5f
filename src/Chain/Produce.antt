-- ===== src/Chain/Produce.antt =====
-- blockchain.rs: `produce_block`, with `Block::new` of block.rs. `now` is the time of the new block; saving to
-- the database is left out.
use blockhain_core.Prelude.{
  ℕ, ◌%◌, String, ◌&&◌, Option, none, some, List, [], ◌∷◌, ◌++◌, ltb, if◌then◌else◌, ◌==◌, ℕ-Eq,
  String-Eq, Bytes-Eq, Option-Eq, length, get_last?, Result, ok, err, is_ok,
}
use blockhain_core.Crypto.{Crypto}
use blockhain_core.Transaction.{Transaction, default_chain_id}
use blockhain_core.Block.{Block, Codec, block_hash, tx_root_of}
use blockhain_core.Consensus.{ConsensusError, ConsensusEngine}
use blockhain_core.Account.State.{AccountState}
use blockhain_core.Account.Validate.{validate_transaction}
use blockhain_core.Account.Apply.{Outcome, apply_transaction, apply_block}
use blockhain_core.Account.Epoch.{advance_epoch}
use blockhain_core.Mempool.Pool.{index, get_sorted_transactions, remove_all}
use blockhain_core.Chain.State.{epoch_length, Blockchain, calculate_state_root}
use blockhain_core.Chain.Add.{tx_hashes}

-- `Block::new_with_chain_id`
unfoldable pub new_with_chain_id : Crypto → Codec → ℕ → ℕ → String → List Transaction → ℕ → Block
new_with_chain_id c k now index previous_hash txs chain_id =
    let unhashed : Block = record {
      index = index;
      timestamp = now;
      previous_hash = previous_hash;
      hash = "";
      transactions = txs;
      nonce = 0;
      producer = none;
      signature = none;
      chain_id = chain_id;
      slashing_evidence = none;
      state_root = "";
      tx_root = tx_root_of c txs;
      epoch = 0;
      slot = 0;
      vrf_output = [];
      vrf_proof = [];
      validator_set_hash = "";
    } in
    record unhashed { hash = block_hash c k unhashed }

-- `Block::new`
unfoldable pub new_block : Crypto → Codec → ℕ → ℕ → String → List Transaction → Block
unfolding new_with_chain_id
new_block c k now index previous_hash txs =
    new_with_chain_id c k now index previous_hash txs default_chain_id

-- The loop over the pending transactions with its `temp_state`.
unfoldable pub select_valid : Crypto → List Transaction → AccountState → List Transaction
select_valid c [] s = []
select_valid c (tx ∷ txs) s =
    let (s1, r) = apply_transaction tx s in
    let discarded = select_valid c txs s in
    let applied_rest = select_valid c txs s1 in
    if is_ok (validate_transaction c s tx)
    then if is_ok r then tx ∷ applied_rest else applied_rest
    else discarded

abbrev pub last_hash : Option Block → String
last_hash none = ""
last_hash (some b) = b.hash

-- The new block before its state root and the engine's preparation.
abbrev pub draft_block : {E : Type 0} → Crypto → Codec → ℕ → String → Blockchain E → Block
draft_block c k now producer_address bc =
    record (new_block c k now (length bc.chain) (last_hash (get_last? bc.chain))
      (select_valid c (get_sorted_transactions 1000 bc.mempool) bc.state)) {
        producer = some producer_address;
      }

abbrev pub end_epoch : Block → AccountState → AccountState
end_epoch block s =
    if ltb 0 block.index && (block.index % epoch_length == 0)
    then advance_epoch block.timestamp s
    else s

module _ {E : Type 0} where
  -- The block is applied to the canonical state; a failure is only printed, and leaves the state as far
  -- as the transactions came.
  abbrev pub append_applied : Block → Blockchain E → Outcome → Blockchain E
  append_applied block bc (s, err e) = record bc { state = s }
  append_applied block bc (s, ok _) = record bc {
    state = end_epoch block s;
    chain = bc.chain ++ block ∷ [];
    mempool = remove_all (tx_hashes block) bc.mempool;
  }

  abbrev pub append_prepared : Blockchain E → E × Result ConsensusError Block → Blockchain E
  append_prepared bc (e1, err x) = record bc { engine_state = e1 }
  append_prepared bc (e1, ok block) =
      append_applied block (record bc { engine_state = e1 })
        (apply_block block.transactions block.producer bc.state)

  -- With the state for the root.
  abbrev pub append_drafted :
      Crypto → ConsensusEngine E → Block → Blockchain E → Outcome → Blockchain E
  append_drafted c engine block bc (s, err e) = bc
  append_drafted c engine block bc (s, ok _) = append_prepared bc (
      engine.prepare_block (record block { state_root = calculate_state_root c s }) bc.state
        bc.engine_state)

  -- The chain is never empty in the source, which panics otherwise.
  unfoldable pub produce_block :
      Crypto → Codec → ConsensusEngine E → ℕ → String → Blockchain E → Blockchain E
  produce_block c k engine now producer_address bc =
      let block = draft_block c k now producer_address bc in
      append_drafted c engine block bc (apply_block block.transactions block.producer bc.state)
