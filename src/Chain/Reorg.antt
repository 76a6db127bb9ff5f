-- ===== src/Chain/Reorg.antt =====
-- blockchain.rs: `is_valid_chain`, `find_fork_point`, `rebuild_state` and `try_reorg`. Saving to the
-- database is left out.
use blockhain_core.Prelude.{
  ℕ, suc, ◌-◌, String, Bool, true, false, not, ◌&&◌, Option, none, some, List, [], ◌∷◌, ◌++◌, ltb,
  if◌then◌else◌, ◌==◌, ℕ-Eq, String-Eq, Bytes-Eq, Option-Eq, length, filter, any, Result, ok, err,
  ◌>>◌, fail_if, is_ok, map_err,
}
use blockhain_core.Crypto.{Crypto}
use blockhain_core.Transaction.{Transaction, genesis}
use blockhain_core.Block.{Block, Codec, block_hash, zero_hash}
use blockhain_core.Consensus.{max_reorg_depth, ConsensusEngine, is_better_chain}
use blockhain_core.Account.State.{AccountState, new_state}
use blockhain_core.Account.Validate.{validate_transaction}
use blockhain_core.Account.Apply.{apply_block}
use blockhain_core.Mempool.Pool.{
  default_config, Mempool, new_pool, add_transaction, get_sorted_transactions,
}
use blockhain_core.Chain.State.{
  finality_depth, Blockchain, ChainError, invalid_chain, reorg_too_deep, past_finality_depth,
  apply_failed,
}

-- genesis.rs
abbrev pub genesis_timestamp : ℕ
genesis_timestamp = 0

abbrev pub is_valid_genesis : {E : Type 0} → Crypto → Codec → Block → Blockchain E → Bool
is_valid_genesis c k genesis bc =
    genesis.index == 0
    && (genesis.previous_hash == zero_hash
        && (genesis.timestamp == genesis_timestamp
            && (genesis.hash == block_hash c k genesis && genesis.chain_id == bc.chain_id)))

-- `find_fork_point`, from position `i` on; the arguments are the current and the other chain.
unfoldable pub fork_from : ℕ → List Block → List Block → Option ℕ
fork_from i [] others = none
fork_from i (b ∷ bs) [] = none
fork_from i (b ∷ bs) (o ∷ others) =
    let rest = fork_from (suc i) bs others in if b.hash == o.hash then rest else some i

unfoldable pub find_fork_point : {E : Type 0} → Blockchain E → List Block → Option ℕ
find_fork_point bc other_chain = fork_from 0 bc.chain other_chain

unfoldable pub rebuild_from : List Block → AccountState → Result ChainError AccountState
rebuild_from [] s = ok s
rebuild_from (b ∷ bs) s =
    let (s1, r) = apply_block b.transactions b.producer s in
    let rest = rebuild_from bs s1 in map_err apply_failed r >> rest

unfoldable pub rebuild_state : List Block → Result ChainError AccountState
rebuild_state blocks = rebuild_from blocks new_state

-- `unwrap_or(0)`
abbrev pub or_zero : Option ℕ → ℕ
or_zero none = 0
or_zero (some n) = n

abbrev pub check_depth : List Block → ℕ → Result ChainError (Unit {0})
check_depth current fork_point = do
  fail_if (ltb max_reorg_depth (length current - fork_point)) reorg_too_deep
  fail_if (ltb fork_point (length current - finality_depth)) past_finality_depth

unfoldable pub contains_tx : List Block → String → Bool
contains_tx blocks hash = any (λ b. any (λ tx. tx.hash == hash) b.transactions) blocks

-- The transactions of the old pool that go into the new one.
abbrev pub still_pending : Crypto → List Block → AccountState → Transaction → Bool
still_pending c blocks s tx =
    not (contains_tx blocks tx.hash) && is_ok (validate_transaction c s tx)

unfoldable pub add_all : ℕ → List Transaction → Mempool → Mempool
add_all now [] pool = pool
add_all now (tx ∷ txs) pool = add_all now txs (add_transaction now tx pool).0

unfoldable pub rebuild_mempool : Crypto → ℕ → List Block → AccountState → Mempool → Mempool
rebuild_mempool c now blocks s pool =
    add_all now (filter (still_pending c blocks s) (get_sorted_transactions 1000 pool))
      (new_pool default_config)

module _ {E : Type 0} (c : Crypto) (k : Codec) (engine : ConsensusEngine E) where
  -- Each block is validated after those before it and an empty state.
  unfoldable pub validate_all : List Block → List Block → E → E × Bool
  validate_all previous [] e = (e, true)
  validate_all previous (b ∷ bs) e =
      let (e1, r) = engine.validate_block b previous new_state e in
      let rest = validate_all (previous ++ b ∷ []) bs e1 in if is_ok r then rest else (e1, false)

  unfoldable pub is_valid_chain : List Block → Blockchain E → E × Bool
  is_valid_chain [] bc = (bc.engine_state, false)
  is_valid_chain (genesis ∷ blocks) bc =
      if is_valid_genesis c k genesis bc
      then validate_all [] (genesis ∷ blocks) bc.engine_state
      else (bc.engine_state, false)

  unfoldable pub adopt_chain : ℕ → List Block → AccountState → Blockchain E → Blockchain E
  adopt_chain now new_chain s bc = record bc {
    chain = new_chain;
    state = s;
    mempool = rebuild_mempool c now new_chain s bc.mempool;
  }

  -- The checks on a better chain, and its state.
  abbrev pub check_reorg : List Block → Blockchain E → Bool → Result ChainError AccountState
  check_reorg new_chain bc valid = do
    fail_if (not valid) invalid_chain
    check_depth bc.chain (or_zero (find_fork_point bc new_chain))
    rebuild_state new_chain

  abbrev pub reorg_checked :
      ℕ
      → List Block
      → Blockchain E
      → Result ChainError AccountState
      → Blockchain E × Result ChainError Bool
  reorg_checked now new_chain bc (err x) = (bc, err x)
  reorg_checked now new_chain bc (ok s) = (adopt_chain now new_chain s bc, ok true)

  abbrev pub reorg_if : Bool → ℕ → List Block → Blockchain E → Blockchain E × Result ChainError Bool
  reorg_if false now new_chain bc = (bc, ok false)
  reorg_if true now new_chain bc =
      let (e1, valid) = is_valid_chain new_chain bc in
      reorg_checked now new_chain (record bc { engine_state = e1 }) (check_reorg new_chain bc valid)

  unfoldable pub try_reorg : ℕ → List Block → Blockchain E → Blockchain E × Result ChainError Bool
  try_reorg now new_chain bc =
      reorg_if (is_better_chain engine bc.chain new_chain bc.engine_state) now new_chain bc
