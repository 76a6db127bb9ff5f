-- ===== src/Chain/Genesis.antt =====
-- genesis.rs: the genesis block, and what `validate_and_add_block` of blockchain.rs does with it when it comes
-- again.
use blockhain_core.Prelude.{
  ℕ, ◌≡◌, refl, sym, ap, none, some, List, [], ◌∷◌, ◌++◌, arith, eq_refl, path→eq, ℕ-Eq, String-Eq,
  Bytes-Eq, Option-Eq, get_elem?, Result, ok,
}
use blockhain_core.Crypto.{Crypto}
use blockhain_core.Transaction.{default_chain_id, genesis}
use blockhain_core.Block.{Block, Codec, block_hash, zero_hash, tx_root_of}
use blockhain_core.Consensus.{ConsensusError, full_validate}
use blockhain_core.Consensus.Authority.{validate_authority, authority_engine}
use blockhain_core.Account.State.{AccountState}
use blockhain_core.Account.Apply.{apply_transaction, apply_all, apply_block}
use blockhain_core.Chain.State.{Blockchain}
use blockhain_core.Chain.Add.{
  check_finalized, check_block, try_transactions, commit_transactions, push_block,
  validate_and_add_block,
}
use blockhain_core.Chain.Reorg.{genesis_timestamp}

-- `GenesisConfig::build_genesis_block`, which reads only the chain id of the configuration.
unfoldable pub build_genesis_block : Crypto → Codec → ℕ → Block
build_genesis_block c k id =
    let unhashed : Block = record {
      index = 0;
      timestamp = genesis_timestamp;
      previous_hash = zero_hash;
      hash = "";
      transactions = genesis ∷ [];
      nonce = 0;
      producer = none;
      signature = none;
      chain_id = id;
      slashing_evidence = none;
      state_root = "";
      tx_root = tx_root_of c (genesis ∷ []);
      epoch = 0;
      slot = 0;
      vrf_output = [];
      vrf_proof = [];
      validator_set_hash = "";
    } in
    record unhashed { hash = block_hash c k unhashed }

module _ (c : Crypto) (k : Codec)
    (prepare : Block → AccountState → Unit {0} → Unit {0} × Result ConsensusError Block)
    (penalty : ℕ → ℕ) where
  known_checked :
      (g : Block) (bc : Blockchain (Unit {0}))
      → get_elem? bc.chain g.index ≡ some g
      → g.index ≡ 0
      → g.chain_id ≡ bc.chain_id
      → g.tx_root ≡ tx_root_of c g.transactions
      → g.hash ≡ block_hash c k g
      → check_block c k g bc ≡ ok tt
  unfolding check_finalized
  known_checked g bc p z i t h = ground (
    arith,
    eq_refl g.hash,
    path→eq g.tx_root (tx_root_of c g.transactions) t,
    path→eq g.hash (block_hash c k g) h,
  )

  genesis_known :
      (bc : Blockchain (Unit {0})) (rest : List Block)
      → bc.chain ≡ build_genesis_block c k default_chain_id ∷ rest
      → bc.chain_id ≡ default_chain_id
      → check_block c k (build_genesis_block c k default_chain_id) bc ≡ ok tt
  unfolding build_genesis_block block_hash
  genesis_known bc rest h i =
      known_checked (build_genesis_block c k default_chain_id) bc
        (ap (λ (bs : List Block). get_elem? bs 0) h) refl (sym i) refl refl

  genesis_valid :
      (chain : List Block) (s : AccountState)
      → validate_authority c k (build_genesis_block c k default_chain_id) chain s ≡ ok tt
  unfolding build_genesis_block validate_authority block_hash
  genesis_valid chain s =
      let g = build_genesis_block c k default_chain_id in rw (eq_refl (block_hash c k g)) refl

  genesis_committed :
      (s : AccountState) → commit_transactions c (build_genesis_block c k default_chain_id) s ≡ ok s
  unfolding build_genesis_block commit_transactions try_transactions apply_transaction apply_block
      apply_all
  genesis_committed s = refl

  genesis_validated :
      (now : ℕ) (chain : List Block) (s : AccountState) (e : Unit {0})
      → full_validate
          (authority_engine c k prepare)
          k
          now
          (build_genesis_block c k default_chain_id)
          chain
          s
          e
        ≡ (e, ok tt)
  unfolding full_validate build_genesis_block
  genesis_validated now chain s e =
      ap (λ (r : Result ConsensusError (Unit {0})). (e, r)) (genesis_valid chain s)

  -- With proof of authority on a chain with the default id that starts with the genesis block, the genesis
  -- block is accepted again and appended.
  pub genesis_added_again :
      (now now_secs : ℕ) (bc : Blockchain (Unit {0})) (rest : List Block)
      → bc.chain ≡ build_genesis_block c k default_chain_id ∷ rest
      → bc.chain_id ≡ default_chain_id
      → (let g = build_genesis_block c k default_chain_id in
          let (bc', r) =
            validate_and_add_block c k (authority_engine c k prepare) penalty now now_secs g bc in
          (r ≡ ok tt) × (bc'.chain ≡ bc.chain ++ g ∷ []))
  unfolding validate_and_add_block push_block
  genesis_added_again now now_secs bc rest h i =
      rw
        (
          genesis_known bc rest h i,
          genesis_validated now bc.chain bc.state bc.engine_state,
          genesis_committed bc.state,
        )
        (refl, refl)
