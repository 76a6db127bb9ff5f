-- ===== src/Chain/Coins.antt =====
-- Adding a block (blockchain.rs) makes no coins.
use blockhain_core.Prelude.{
  ℕ, ◌≤◌, ◌<◌, String, ◌≡◌, ap, inl, inr, Option, none, some, List, [], ◌∷◌, arith, Option-cases,
  ℕ-Eq, String-Eq, Bytes-Eq, Option-Eq, Result, ok, err, u64_mod, u64_max,
}
use blockhain_core.Map.{Map, get}
use blockhain_core.Map.Sums.{sum_by-insert}
use blockhain_core.Crypto.{Crypto}
use blockhain_core.Transaction.{Transaction}
use blockhain_core.Block.{Block, Codec}
use blockhain_core.Consensus.{ConsensusEngine}
use blockhain_core.Account.State.{Validator, AccountState}
use blockhain_core.Account.Apply.{Outcome, apply_block}
use blockhain_core.Account.Epoch.{slash, slash_validator, apply_slashing}
use blockhain_core.Account.Supply.{supply}
use blockhain_core.Account.Conserve.{stake_sum, BlockConserves, apply_block-Conserves}
use blockhain_core.Account.EpochSupply.{advance_epoch-supply}
use blockhain_core.Chain.State.{Blockchain, ChainError}
use blockhain_core.Chain.Add.{evidence_producers, end_block, validate_and_add_block}
use blockhain_core.Chain.Guards.{Added, validate_and_add_block-Added}

stakes-slash :
    (penalty : ℕ → ℕ) (now : ℕ) (pk : String) (m : Map String Validator)
    → stake_sum (slash_validator penalty now pk m) ≤ stake_sum m
stakes-slash penalty now pk m = elim (Option-cases (get pk m)) [
  | inl e ↦ ground arith
  | inr (v, e) ↦
      ground (arith, sum_by-insert (λ (x : Validator). x.stake) pk (slash penalty now v) m)
]

supply-apply_slashing :
    (penalty : ℕ → ℕ) (now : ℕ) (producers : List (Option String)) (s : AccountState)
    → supply (apply_slashing penalty now producers s) ≤ supply s
unfolding apply_slashing
supply-apply_slashing penalty now [] s = omega arith
supply-apply_slashing penalty now (none ∷ producers) s =
    supply-apply_slashing penalty now producers s
supply-apply_slashing penalty now (some pk ∷ producers) s = omega (
  arith,
  stakes-slash penalty now pk s.validators,
  supply-apply_slashing penalty now producers
      (record s { validators = slash_validator penalty now pk s.validators }),
)

supply-end_block :
    (penalty : ℕ → ℕ) (now_secs : ℕ) (b : Block) (s : AccountState)
    → supply s < u64_mod
    → supply (end_block penalty now_secs b s) ≤ supply s
unfolding end_block
supply-end_block penalty now_secs b s h =
    let slashed = apply_slashing penalty now_secs (evidence_producers b.slashing_evidence) s in
    ground (
      arith,
      supply-apply_slashing penalty now_secs (evidence_producers b.slashing_evidence) s,
      advance_epoch-supply b.timestamp slashed,
    )

supply-applied :
    (txs : List Transaction) (producer : Option String) (st s : AccountState) (o : Outcome)
    → o ≡ (s, ok tt)
    → BlockConserves txs producer st o
    → supply s ≤ supply st
supply-applied txs none st s (s1, ok _) a h = omega (arith, ap (λ (x : Outcome). supply x.0) a)
supply-applied txs none st s (s1, err e) a h = omega (arith, ap (λ (x : Outcome). supply x.0) a)
supply-applied txs (some p) st s (s1, ok _) a h = omega (arith, ap (λ (x : Outcome). supply x.0) a)
supply-applied txs (some p) st s (s1, err e) a h = omega (arith, ap (λ (x : Outcome). supply x.0) a)

module _ {E : Type 0} (c : Crypto) (k : Codec) (engine : ConsensusEngine E) (penalty : ℕ → ℕ) where
  supply-Added :
      (now_secs : ℕ) (b : Block) (bc : Blockchain E)
      (o : Blockchain E × Result ChainError (Unit {0}))
      → supply bc.state < u64_max
      → Added c k engine penalty now_secs b bc o
      → supply o.0.state ≤ supply bc.state
  supply-Added now_secs b bc (bc', err e) room (_, p, _, _, _, _) = omega (arith, ap supply p)
  supply-Added now_secs b bc (bc', ok _) room (s, ((_, _, _, a, _), _, p, _, _, _)) =
      let le =
        supply-applied b.transactions b.producer bc.state s
          (apply_block b.transactions b.producer bc.state) a
          (apply_block-Conserves b.transactions b.producer bc.state room) in
      omega (arith, ap supply p, supply-end_block penalty now_secs b s (omega arith))

  -- From a supply below 2^64 - 1, adding a block makes no coins, whatever comes of it: also not the reward
  -- of 50 coins per block that README.md documents.
  pub add_block-supply :
      (now now_secs : ℕ) (b : Block) (bc : Blockchain E)
      → supply bc.state < u64_max
      → supply (validate_and_add_block c k engine penalty now now_secs b bc).0.state
        ≤ supply bc.state
  add_block-supply now now_secs b bc room =
      supply-Added now_secs b bc (validate_and_add_block c k engine penalty now now_secs b bc) room
        (validate_and_add_block-Added c k engine penalty now now_secs b bc)
