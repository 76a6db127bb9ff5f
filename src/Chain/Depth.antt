-- ===== src/Chain/Depth.antt =====
-- How deep `try_reorg` (blockchain.rs) reaches, and what it does with an extension of the chain.
use blockhain_core.Prelude.{
  ℕ, zero, suc, ◌+◌, ◌-◌, ◌≤◌, ◌<◌, String, ◌≡◌, refl, sym, ap, ◌≢◌, inl, inr, Bool, true, false,
  Option, none, some, List, [], ◌∷◌, ◌++◌, arith, ltb, Bool-cases, ◌==◌, eq_refl, eq→path, ℕ-Eq,
  String-Eq, Bytes-Eq, Option-Eq, length, Result, ok, err, >>-eq-ok, fail_if-eq-ok,
}
use blockhain_core.Crypto.{Crypto}
use blockhain_core.Block.{Block, Codec}
use blockhain_core.Consensus.{ConsensusEngine, is_better_chain}
use blockhain_core.Account.State.{AccountState}
use blockhain_core.Chain.State.{finality_depth, Blockchain, ChainError, past_finality_depth}
use blockhain_core.Chain.Reorg.{
  fork_from, find_fork_point, or_zero, check_depth, is_valid_chain, adopt_chain, check_reorg,
  reorg_checked, reorg_if, try_reorg,
}

abbrev pub hash_at : List Block → ℕ → Option String
hash_at [] i = none
hash_at (b ∷ bs) zero = some b.hash
hash_at (b ∷ bs) (suc i) = hash_at bs i

agree_cons :
    (i f : ℕ) (b o : Block) (bs others : List Block)
    → b.hash ≡ o.hash
    → ((j : ℕ) → suc i + j < f → hash_at others j ≡ hash_at bs j)
    → (j : ℕ) → i + j < f
    → hash_at (o ∷ others) j ≡ hash_at (b ∷ bs) j
agree_cons i f b o bs others e h zero lt = ap some (sym e)
agree_cons i f b o bs others e h (suc j) lt = h j (omega arith)

-- Before the fork point the hashes agree.
fork_from_agrees :
    (i f : ℕ) (bs others : List Block)
    → fork_from i bs others ≡ some f
    → (i ≤ f) × ((j : ℕ) → i + j < f → hash_at others j ≡ hash_at bs j)
unfolding fork_from
fork_from_agrees i f [] others h = cc
fork_from_agrees i f (b ∷ bs) [] h = cc
fork_from_agrees i f (b ∷ bs) (o ∷ others) h = elim (Bool-cases (b.hash == o.hash)) [
  | inl t ↦
      let (le, p) = fork_from_agrees (suc i) f bs others (ground arith) in
      (omega arith, agree_cons i f b o bs others (eq→path b.hash o.hash t) p)
  | inr t ↦ let e : i ≡ f = ground arith in (omega arith, λ j lt. absurd (omega arith))
]

fork_from_extension : (i : ℕ) (bs more : List Block) → fork_from i bs (bs ++ more) ≡ none
unfolding fork_from
fork_from_extension i [] more = refl
fork_from_extension i (b ∷ bs) more = rw (eq_refl b.hash, fork_from_extension (suc i) bs more)

module _ {E : Type 0} (c : Crypto) (k : Codec) (engine : ConsensusEngine E) where
  check_reorg-ok :
      (blocks : List Block) (bc : Blockchain E) (valid : Bool) {s : AccountState}
      → check_reorg c k engine blocks bc valid ≡ ok s
      → check_depth bc.chain (or_zero (find_fork_point bc blocks)) ≡ ok tt
  check_reorg-ok blocks bc valid h = let (_, t) = >>-eq-ok _ _ h in (>>-eq-ok _ _ t).0

  reorg_checked-ok :
      (now : ℕ) (blocks : List Block) (bc : Blockchain E) (r : Result ChainError AccountState)
      → (reorg_checked c k engine now blocks bc r).1 ≡ ok true
      → ((s : AccountState) × (r ≡ ok s))
        × ((reorg_checked c k engine now blocks bc r).0.chain ≡ blocks)
  unfolding adopt_chain
  reorg_checked-ok now blocks bc (err e) h = cc
  reorg_checked-ok now blocks bc (ok s) h = ((s, refl), refl)

  reorg_if_adopts :
      (better : Bool) (now : ℕ) (blocks : List Block) (bc : Blockchain E)
      → (reorg_if c k engine better now blocks bc).1 ≡ ok true
      → (check_depth bc.chain (or_zero (find_fork_point bc blocks)) ≡ ok tt)
        × ((reorg_if c k engine better now blocks bc).0.chain ≡ blocks)
  reorg_if_adopts false now blocks bc h = cc
  reorg_if_adopts true now blocks bc h =
      let (e1, valid) = is_valid_chain c k engine blocks bc in
      let ((s, e), p) =
        reorg_checked-ok now blocks (record bc { engine_state = e1 })
          (check_reorg c k engine blocks bc valid) h in
      (check_reorg-ok blocks bc valid e, p)

  depth_kept :
      (o : Option ℕ) (current : List Block)
      → check_depth current (or_zero o) ≡ ok tt
      → length current ≤ or_zero o + finality_depth
  depth_kept o current h =
      let (_, t) = >>-eq-ok _ _ h in
      ground (
        arith,
        fail_if-eq-ok (ltb (or_zero o) (length current - finality_depth)) past_finality_depth t,
      )

  fork_kept :
      (o : Option ℕ) (current blocks : List Block) (i : ℕ)
      → fork_from 0 current blocks ≡ o
      → length current ≤ or_zero o + finality_depth
      → i + finality_depth < length current
      → hash_at blocks i ≡ hash_at current i
  fork_kept none current blocks i h le lt = absurd (omega arith)
  fork_kept (some f) current blocks i h le lt =
      (fork_from_agrees 0 f current blocks h).1 i (omega arith)

  -- If `try_reorg` changes to another chain, the chain is the given one, and its blocks agree by hash with the old
  -- ones at all heights but the last 50 of the old chain.
  pub reorg_keeps :
      (now : ℕ) (blocks : List Block) (bc : Blockchain E)
      → (try_reorg c k engine now blocks bc).1 ≡ ok true
      → ((try_reorg c k engine now blocks bc).0.chain ≡ blocks)
        × ((i : ℕ) → i + finality_depth < length bc.chain → hash_at blocks i ≡ hash_at bc.chain i)
  unfolding try_reorg find_fork_point
  reorg_keeps now blocks bc h =
      let (d, p) =
        reorg_if_adopts (is_better_chain engine bc.chain blocks bc.engine_state) now blocks bc h in
      (
        p,
        λ i.
            fork_kept (fork_from 0 bc.chain blocks) bc.chain blocks i refl
              (depth_kept (fork_from 0 bc.chain blocks) bc.chain d),
      )

  -- A chain of more than 50 blocks is never given up for a chain that extends it: where no block differs
  -- the fork point counts as 0.
  pub extension_refused :
      (now : ℕ) (more : List Block) (bc : Blockchain E)
      → finality_depth < length bc.chain
      → (try_reorg c k engine now (bc.chain ++ more) bc).1 ≢ ok true
  unfolding try_reorg find_fork_point
  extension_refused now more bc lt h =
      let (d, p) =
        reorg_if_adopts (is_better_chain engine bc.chain (bc.chain ++ more) bc.engine_state) now
          (bc.chain ++ more) bc h in
      omega (
        arith,
        depth_kept (fork_from 0 bc.chain (bc.chain ++ more)) bc.chain d,
        ap or_zero (fork_from_extension 0 bc.chain more),
      )

  abbrev pub marked : {A : Type 0} → ℕ → String → Blockchain E × A → Blockchain E × A
  marked height hash (bc, r) = (record bc { finalized_height = height; finalized_hash = hash }, r)

  marked-is_valid_chain :
      (height : ℕ) (hash : String) (blocks : List Block) (bc : Blockchain E)
      → is_valid_chain c k engine blocks
          (record bc { finalized_height = height; finalized_hash = hash })
        ≡ is_valid_chain c k engine blocks bc
  unfolding is_valid_chain
  marked-is_valid_chain height hash [] bc = refl
  marked-is_valid_chain height hash (genesis ∷ blocks) bc = refl

  marked-reorg_checked :
      (now height : ℕ) (hash : String) (blocks : List Block) (bc : Blockchain E)
      (r : Result ChainError AccountState)
      → reorg_checked c k engine now blocks
          (record bc { finalized_height = height; finalized_hash = hash })
          r
        ≡ marked height hash (reorg_checked c k engine now blocks bc r)
  unfolding adopt_chain
  marked-reorg_checked now height hash blocks bc (err e) = refl
  marked-reorg_checked now height hash blocks bc (ok s) = refl

  marked-reorg_if :
      (better : Bool) (now height : ℕ) (hash : String) (blocks : List Block) (bc : Blockchain E)
      → reorg_if c k engine better now blocks
          (record bc { finalized_height = height; finalized_hash = hash })
        ≡ marked height hash (reorg_if c k engine better now blocks bc)
  unfolding find_fork_point
  marked-reorg_if false now height hash blocks bc = refl
  marked-reorg_if true now height hash blocks bc =
      let (e1, valid) = is_valid_chain c k engine blocks bc in
      rw (marked-is_valid_chain height hash blocks bc) (
        marked-reorg_checked now height hash blocks (record bc { engine_state = e1 })
          (check_reorg c k engine blocks bc valid))

  -- What `try_reorg` does to the chain, the state, the mempool and its result do not depend on the finalized
  -- height and hash, and it leaves these as they are.
  pub try_reorg_ignores_finality :
      (now height : ℕ) (hash : String) (blocks : List Block) (bc : Blockchain E)
      → try_reorg c k engine now blocks
          (record bc { finalized_height = height; finalized_hash = hash })
        ≡ marked height hash (try_reorg c k engine now blocks bc)
  unfolding try_reorg
  try_reorg_ignores_finality now height hash blocks bc =
      marked-reorg_if (is_better_chain engine bc.chain blocks bc.engine_state) now height hash
        blocks bc
