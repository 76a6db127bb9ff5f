-- ===== src/Chain/Unsigned.antt =====
-- `is_valid_chain` and `try_reorg` (blockchain.rs) under proof of authority validate each block with an empty state.
use blockhain_core.Prelude.{
  ◌≡◌, refl, sym, ap, none, List, [], ◌∷◌, ◌++◌, map, ℕ-Eq, String-Eq, Bytes-Eq, Option-Eq,
  get_last?, Result,
}
use blockhain_core.Crypto.{Crypto}
use blockhain_core.Block.{Block, Codec, block_hash}
use blockhain_core.Consensus.{ConsensusError}
use blockhain_core.Consensus.Authority.{check_link, validate_authority, authority_engine}
use blockhain_core.Account.State.{AccountState, new_state, sort_by_address, get_active_validators}
use blockhain_core.Chain.State.{Blockchain}
use blockhain_core.Chain.Reorg.{validate_all, is_valid_chain}

-- A block without its signature.
abbrev pub unsign : Block → Block
unsign b = record b { signature = none }

last_unsigned :
    (b : Block) (bs : List Block)
    → check_link (get_last? (map unsign bs)) (unsign b) ≡ check_link (get_last? bs) b
last_unsigned b [] = refl
last_unsigned b (x ∷ []) = refl
last_unsigned b (x ∷ y ∷ bs) = last_unsigned b (y ∷ bs)

map-append_one :
    (bs : List Block) (b : Block) → map unsign (bs ++ b ∷ []) ≡ map unsign bs ++ unsign b ∷ []
map-append_one [] b = refl
map-append_one (x ∷ bs) b = ap (λ r. unsign x ∷ r) (map-append_one bs b)

module _ (c : Crypto) (k : Codec)
    (prepare : Block → AccountState → Unit {0} → Unit {0} × Result ConsensusError Block) where
  block_unsigned :
      (b : Block) (previous : List Block)
      → validate_authority c k (unsign b) (map unsign previous) new_state
        ≡ validate_authority c k b previous new_state
  unfolding validate_authority block_hash get_active_validators sort_by_address
  block_unsigned b previous = rw (last_unsigned b previous) refl

  all_unsigned :
      (previous bs : List Block) (e : Unit {0})
      → (validate_all c k (authority_engine c k prepare) (map unsign previous) (map unsign bs) e)
        ≡ (validate_all c k (authority_engine c k prepare) previous bs e)
  unfolding validate_all
  all_unsigned previous [] e = refl
  all_unsigned previous (b ∷ bs) e =
      rw
        (
          block_unsigned b previous,
          sym (map-append_one previous b),
          all_unsigned (previous ++ b ∷ []) bs e,
        )
        refl

  -- With proof of authority, `is_valid_chain` gives the same answer for a chain without any
  -- signature as for the chain with them.
  pub unsigned_chain_valid :
      (blocks : List Block) (bc : Blockchain (Unit {0}))
      → is_valid_chain c k (authority_engine c k prepare) (map unsign blocks) bc
        ≡ is_valid_chain c k (authority_engine c k prepare) blocks bc
  unfolding is_valid_chain block_hash
  unsigned_chain_valid [] bc = refl
  unsigned_chain_valid (g ∷ blocks) bc = rw (all_unsigned [] (g ∷ blocks) bc.engine_state) refl
