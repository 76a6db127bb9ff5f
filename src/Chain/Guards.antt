-- ===== src/Chain/Guards.antt =====
-- What `validate_and_add_block` (blockchain.rs) promises on each outcome.
use blockhain_core.Prelude.{
  ℕ, ◌<◌, String, ◌≡◌, refl, Bool, true, false, not, ◌&&◌, [], ◌∷◌, ◌++◌, arith, ltb, ◌==◌, eq→path,
  ℕ-Eq, String-Eq, Bytes-Eq, Option-Eq, Result, ok, err, ◌>>=◌, ◌>>◌, fail_if, >>-eq-ok,
  fail_if-eq-ok,
}
use blockhain_core.Crypto.{Crypto}
use blockhain_core.Block.{Block, Codec, block_hash, tx_root_of}
use blockhain_core.Consensus.{ConsensusError, ConsensusEngine, full_validate}
use blockhain_core.Account.State.{AccountState}
use blockhain_core.Account.Apply.{Outcome, apply_block}
use blockhain_core.Chain.State.{Blockchain, ChainError, state_root_mismatch, calculate_state_root}
use blockhain_core.Chain.Add.{
  check_finalized, check_block, applied, commit_transactions, end_block, push_block, add_committed,
  add_validated, add_checked, validate_and_add_block,
}

-- All but the interior state of the engine is the same.
abbrev pub Unchanged : {E : Type 0} → Blockchain E → Blockchain E → Type 0
Unchanged a b =
    (a.chain ≡ b.chain)
    × (a.state ≡ b.state)
    × (a.mempool ≡ b.mempool)
    × (a.chain_id ≡ b.chain_id)
    × (a.finalized_height ≡ b.finalized_height)
    × (a.finalized_hash ≡ b.finalized_hash)

not-false : (b : Bool) → not b ≡ false → b ≡ true
not-false true h = refl
not-false false h = cc

pub fail_unless_eq : (a b : String) (e : ChainError) → fail_if (not (a == b)) e ≡ ok tt → a ≡ b
fail_unless_eq a b e h = eq→path a b (not-false (a == b) (fail_if-eq-ok _ e h))

module _ {E : Type 0} (c : Crypto) (k : Codec) (engine : ConsensusEngine E) (penalty : ℕ → ℕ) where
  -- The block is well-formed, and `s` is the state after its transactions.
  abbrev pub Accepted : Block → Blockchain E → AccountState → Type 0
  Accepted block bc s =
      (block.chain_id ≡ bc.chain_id)
      × (block.tx_root ≡ tx_root_of c block.transactions)
      × (block.hash ≡ block_hash c k block)
      × (apply_block block.transactions block.producer bc.state ≡ (s, ok tt))
      × (0 < block.index → calculate_state_root c s ≡ block.state_root)

  abbrev pub Added : ℕ → Block → Blockchain E → Blockchain E × Result ChainError (Unit {0}) → Type 0
  Added now_secs block bc (bc', err _) = Unchanged bc' bc
  Added now_secs block bc (bc', ok _) =
      (s : AccountState) × (Accepted block bc s
        × (bc'.chain ≡ bc.chain ++ block ∷ [])
        × (bc'.state ≡ end_block penalty now_secs block s)
        × (bc'.chain_id ≡ bc.chain_id)
        × (bc'.finalized_height ≡ bc.finalized_height)
        × (bc'.finalized_hash ≡ bc.finalized_hash))

  check_block-ok :
      (block : Block) (bc : Blockchain E)
      → check_block c k block bc ≡ ok tt
      → (check_finalized block bc ≡ ok tt)
        × (block.chain_id ≡ bc.chain_id)
        × (block.tx_root ≡ tx_root_of c block.transactions)
        × (block.hash ≡ block_hash c k block)
  check_block-ok block bc h =
      let (h1, t1) = >>-eq-ok _ _ h in
      let (h2, t2) = >>-eq-ok _ _ t1 in
      let (h3, t3) = >>-eq-ok _ _ t2 in
      let (h4, t4) = >>-eq-ok _ _ t3 in
      (
        h1,
        eq→path block.chain_id bc.chain_id
            (not-false (block.chain_id == bc.chain_id) (fail_if-eq-ok _ _ h2)),
        fail_unless_eq _ _ _ h3,
        fail_unless_eq _ _ _ h4,
      )

  applied-eq-ok : (o : Outcome) (s : AccountState) → applied o ≡ ok s → o ≡ (s, ok tt)
  applied-eq-ok (s1, ok tt) s h = cc
  applied-eq-ok (s1, err e) s h = cc

  named_root :
      (block : Block) (root : String)
      → fail_if (ltb 0 block.index && not (root == block.state_root)) state_root_mismatch ≡ ok tt
      → 0 < block.index
      → root ≡ block.state_root
  named_root block root h p =
      eq→path root block.state_root (ground (arith, fail_if-eq-ok _ state_root_mismatch h))

  check_root :
      (o : Result ChainError AccountState) (block : Block) (s : AccountState)
      → (do
        commit_state ← o
        fail_if
            (ltb 0 block.index && not (calculate_state_root c commit_state == block.state_root))
            state_root_mismatch
        ok commit_state)
        ≡ ok s
      → (o ≡ ok s) × (0 < block.index → calculate_state_root c s ≡ block.state_root)
  check_root (err e) block s h = cc
  check_root (ok s1) block s h =
      let (h1, t) = >>-eq-ok _ _ h in
      (t, λ p. cc (t, named_root block (calculate_state_root c s1) h1 p))

  commit_transactions-ok :
      (block : Block) (st s : AccountState)
      → commit_transactions c block st ≡ ok s
      → (apply_block block.transactions block.producer st ≡ (s, ok tt))
        × (0 < block.index → calculate_state_root c s ≡ block.state_root)
  unfolding commit_transactions
  commit_transactions-ok block st s h =
      let (h1, t1) = >>-eq-ok _ _ h in
      let (h2, r) =
        check_root (applied (apply_block block.transactions block.producer st)) block s t1 in
      (applied-eq-ok _ s h2, r)

  add_committed_lem :
      (now_secs : ℕ) (block : Block) (bc : Blockchain E) (e1 : E)
      (m : Result ChainError AccountState)
      → check_block c k block bc ≡ ok tt
      → commit_transactions c block bc.state ≡ m
      → Added now_secs block bc
          (add_committed c k engine penalty now_secs block (record bc { engine_state = e1 }) m)
  unfolding push_block
  add_committed_lem now_secs block bc e1 (err e) h h' = (refl, refl, refl, refl, refl, refl)
  add_committed_lem now_secs block bc e1 (ok s) h h' =
      let (h1, h2, h3, h4) = check_block-ok block bc h in
      let (a, r) = commit_transactions-ok block bc.state s h' in
      (s, ((h2, h3, h4, a, r), refl, refl, refl, refl, refl))

  add_validated_lem :
      (now_secs : ℕ) (block : Block) (bc : Blockchain E) (v : E × Result ConsensusError (Unit {0}))
      → check_block c k block bc ≡ ok tt
      → Added now_secs block bc (add_validated c k engine penalty now_secs block bc v)
  add_validated_lem now_secs block bc (e1, err e) h = (refl, refl, refl, refl, refl, refl)
  add_validated_lem now_secs block bc (e1, ok tt) h =
      add_committed_lem now_secs block bc e1 (commit_transactions c block bc.state) h refl

  add_checked_lem :
      (now now_secs : ℕ) (block : Block) (bc : Blockchain E) (m : Result ChainError (Unit {0}))
      → check_block c k block bc ≡ m
      → Added now_secs block bc (add_checked c k engine penalty now now_secs block bc m)
  add_checked_lem now now_secs block bc (err e) h = (refl, refl, refl, refl, refl, refl)
  add_checked_lem now now_secs block bc (ok tt) h =
      add_validated_lem now_secs block bc
        (full_validate engine k now block bc.chain bc.state bc.engine_state) h

  -- A block that is refused leaves chain, state, mempool and finality as they were. A block that is
  -- accepted has the right chain id, transaction root and hash, its transactions apply, with the state
  -- root that it names if it is not at index 0, and it is appended to the chain; the state is the one after its
  -- transactions, slashing and epoch change, and the finality is unchanged.
  pub validate_and_add_block-Added :
      (now now_secs : ℕ) (block : Block) (bc : Blockchain E)
      → Added now_secs block bc (validate_and_add_block c k engine penalty now now_secs block bc)
  unfolding validate_and_add_block
  validate_and_add_block-Added now now_secs block bc =
      add_checked_lem now now_secs block bc (check_block c k block bc) refl
