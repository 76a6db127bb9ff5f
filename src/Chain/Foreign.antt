-- ===== src/Chain/Foreign.antt =====
-- The chain id of the blocks that `produce_block` (blockchain.rs) makes.
use blockhain_core.Prelude.{
  ℕ, String, ◌≡◌, refl, sym, ◌∙◌, ◌≢◌, ◌⊎◌, inl, inr, [], ◌∷◌, ◌++◌, ℕ-Eq, String-Eq, Bytes-Eq,
  Option-Eq, Result, ok, err,
}
use blockhain_core.Crypto.{Crypto}
use blockhain_core.Transaction.{default_chain_id}
use blockhain_core.Block.{Block, Codec}
use blockhain_core.Consensus.{ConsensusError, ConsensusEngine}
use blockhain_core.Account.State.{AccountState}
use blockhain_core.Account.Apply.{Outcome, apply_block}
use blockhain_core.Chain.State.{Blockchain, ChainError, calculate_state_root}
use blockhain_core.Chain.Add.{validate_and_add_block}
use blockhain_core.Chain.Guards.{Added, validate_and_add_block-Added}
use blockhain_core.Chain.Produce.{
  new_block, draft_block, append_applied, append_prepared, append_drafted, produce_block,
}

-- The preparation of a block leaves its chain id, as that of each engine of the source does.
abbrev pub KeepsChainId : {E : Type 0} → ConsensusEngine E → Type 0
KeepsChainId {E} engine =
    (b b' : Block) (s : AccountState) (e : E)
    → (engine.prepare_block b s e).1 ≡ ok b'
    → b'.chain_id ≡ b.chain_id

-- No block is added, or the one that is added has the default chain id.
abbrev HasDefaultId : {E : Type 0} → Blockchain E → Blockchain E → Type 0
HasDefaultId bc bc' =
    (bc'.chain ≡ bc.chain)
    ⊎ ((b : Block) × ((bc'.chain ≡ bc.chain ++ b ∷ []) × (b.chain_id ≡ default_chain_id)))

module _ {E : Type 0} (c : Crypto) (k : Codec) (engine : ConsensusEngine E) (penalty : ℕ → ℕ) where
  applied-HasDefaultId :
      (b : Block) (bc : Blockchain E) (o : Outcome)
      → b.chain_id ≡ default_chain_id
      → HasDefaultId bc (append_applied b bc o)
  applied-HasDefaultId b bc (s, err e) h = inl refl
  applied-HasDefaultId b bc (s, ok _) h = inr (b, (refl, h))

  prepared-HasDefaultId :
      (bc : Blockchain E) (o : E × Result ConsensusError Block)
      → ((b : Block) → o.1 ≡ ok b → b.chain_id ≡ default_chain_id)
      → HasDefaultId bc (append_prepared bc o)
  prepared-HasDefaultId bc (e1, err x) h = inl refl
  prepared-HasDefaultId bc (e1, ok b) h =
      applied-HasDefaultId b (record bc { engine_state = e1 })
        (apply_block b.transactions b.producer bc.state) (h b refl)

  drafted-HasDefaultId :
      (b : Block) (bc : Blockchain E) (o : Outcome)
      → KeepsChainId engine
      → b.chain_id ≡ default_chain_id
      → HasDefaultId bc (append_drafted c engine b bc o)
  drafted-HasDefaultId b bc (s, err e) keeps h = inl refl
  drafted-HasDefaultId b bc (s, ok _) keeps h =
      let drafted = record b { state_root = calculate_state_root c s } in
      prepared-HasDefaultId bc (engine.prepare_block drafted bc.state bc.engine_state)
        (λ b' p. keeps drafted b' bc.state bc.engine_state p ∙ h)

  Added-chain_id :
      (now_secs : ℕ) (b : Block) (bc : Blockchain E)
      (o : Blockchain E × Result ChainError (Unit {0}))
      → Added c k engine penalty now_secs b bc o
      → o.1 ≡ ok tt
      → b.chain_id ≡ bc.chain_id
  Added-chain_id now_secs b bc (bc', err e) h p = cc
  Added-chain_id now_secs b bc (bc', ok _) (s, ((q, _, _, _, _), _, _, _, _, _)) p = q

  foreign_refused :
      (now now_secs : ℕ) (b : Block) (bc : Blockchain E)
      → b.chain_id ≢ bc.chain_id
      → (validate_and_add_block c k engine penalty now now_secs b bc).1 ≢ ok tt
  foreign_refused now now_secs b bc ne h = ne (
      Added-chain_id now_secs b bc (validate_and_add_block c k engine penalty now now_secs b bc)
        (validate_and_add_block-Added c k engine penalty now now_secs b bc) h)

  refuse :
      (bc bc' : Blockchain E)
      → bc.chain_id ≢ default_chain_id
      → HasDefaultId bc bc'
      → (bc'.chain ≡ bc.chain)
        ⊎ ((b : Block) × ((bc'.chain ≡ bc.chain ++ b ∷ [])
              × ((now' now_secs : ℕ) (other : Blockchain E)
                  → other.chain_id ≡ bc.chain_id
                  → (validate_and_add_block c k engine penalty now' now_secs b other).1 ≢ ok tt)))
  refuse bc bc' ne (inl p) = inl p
  refuse bc bc' ne (inr (b, (p, q))) = inr (
    b,
    (
      p,
      λ now' now_secs other r. foreign_refused now' now_secs b other (λ t. ne (sym r ∙ sym t ∙ q)),
    ),
  )

  -- On a chain with another id than the default one, if the engine's preparation leaves the chain id of
  -- a block: `produce_block` adds no block, or one that no node with the same chain id
  -- accepts.
  pub produced_refused :
      (now : ℕ) (producer_address : String) (bc : Blockchain E)
      → KeepsChainId engine
      → bc.chain_id ≢ default_chain_id
      → ((produce_block c k engine now producer_address bc).chain ≡ bc.chain)
        ⊎ ((b : Block) × (((produce_block c k engine now producer_address bc).chain
                ≡ bc.chain ++ b ∷ [])
              × ((now' now_secs : ℕ) (other : Blockchain E)
                  → other.chain_id ≡ bc.chain_id
                  → (validate_and_add_block c k engine penalty now' now_secs b other).1 ≢ ok tt)))
  unfolding produce_block new_block
  produced_refused now producer_address bc keeps ne =
      let b = draft_block c k now producer_address bc in
      refuse bc (append_drafted c engine b bc (apply_block b.transactions b.producer bc.state)) ne
        (drafted-HasDefaultId b bc (apply_block b.transactions b.producer bc.state) keeps refl)
