-- ===== src/Chain/Finalized.antt =====
-- Finality in blockchain.rs: blocks are added, transactions submitted and certificates handled without
-- taking a block off the chain.
use blockhain_core.Prelude.{
  ℕ, zero, suc, ◌≤◌, ◌≡◌, refl, sym, ap, ◌∙◌, inl, inr, Option, none, some, List, [], ◌∷◌, ◌++◌,
  arith, leb, leb→lt, Bool-cases, ℕ-Eq, String-Eq, Bytes-Eq, Option-Eq, get_elem?, Result, ok, err,
  ◌>>=◌, or_fail, >>-eq-ok,
}
use blockhain_core.Crypto.{Crypto}
use blockhain_core.Transaction.{Transaction}
use blockhain_core.Block.{Block, Codec}
use blockhain_core.Consensus.{ConsensusEngine}
use blockhain_core.Finality.Cert.{FinalityCert}
use blockhain_core.Chain.State.{
  Blockchain, ChainError, cert_hash_mismatch, check_submitted, submit_checked, submit_transaction,
  check_cert, certify, handle_finality_cert,
}
use blockhain_core.Chain.Add.{validate_and_add_block}
use blockhain_core.Chain.Guards.{Unchanged, fail_unless_eq, Added, validate_and_add_block-Added}

get_elem?-append :
    (bs : List Block) (b : Block) (i : ℕ) {x : Block}
    → get_elem? bs i ≡ some x
    → get_elem? (bs ++ b ∷ []) i ≡ some x
get_elem?-append [] b i h = cc
get_elem?-append (y ∷ bs) b zero h = h
get_elem?-append (y ∷ bs) b (suc i) h = get_elem?-append bs b i h

-- The finalized hash is that of the block at the finalized height.
abbrev pub IsFinal : {E : Type 0} → Blockchain E → Type 0
IsFinal bc =
    (b : Block) × ((get_elem? bc.chain bc.finalized_height ≡ some b) × (b.hash ≡ bc.finalized_hash))

-- The blocks of the first stand in the second at their places, whose finalized height is not lower and
-- belongs to a block of its chain.
abbrev pub Extends : {E : Type 0} → Blockchain E → Blockchain E → Type 0
Extends a b =
    ((i : ℕ) (x : Block) → get_elem? a.chain i ≡ some x → get_elem? b.chain i ≡ some x)
    × (a.finalized_height ≤ b.finalized_height)
    × IsFinal b

module _ {E : Type 0} (c : Crypto) (k : Codec) (engine : ConsensusEngine E) (penalty : ℕ → ℕ) where
  pub data ChainStep (bc : Blockchain E) : Blockchain E → Type 0 where
    block_added :
        (now now_secs : ℕ) (block : Block)
        → ChainStep bc (validate_and_add_block c k engine penalty now now_secs block bc).0
    submitted : (now : ℕ) (tx : Transaction) → ChainStep bc (submit_transaction c now tx bc).0
    certified : (cert : FinalityCert) → ChainStep bc (handle_finality_cert c cert bc).0

  pub data ChainReach (bc : Blockchain E) : Blockchain E → Type 0 where
    start : ChainReach bc bc
    then_step : {a b : Blockchain E} → ChainReach bc a → ChainStep a b → ChainReach bc b

  Extends-same : (a b : Blockchain E) → Unchanged b a → IsFinal a → Extends a b
  Extends-same a b (p, _, _, _, q, r) (x, (e, h)) = (
    λ i y g. ap (λ (bs : List Block). get_elem? bs i) p ∙ g,
    omega (arith, q),
    (x, (cc (p, q, e), h ∙ sym r)),
  )

  Extends-Added :
      (now_secs : ℕ) (block : Block) (a : Blockchain E)
      (o : Blockchain E × Result ChainError (Unit {0}))
      → Added c k engine penalty now_secs block a o
      → IsFinal a
      → Extends a o.0
  Extends-Added now_secs block a (b, err e) h f = Extends-same a b h f
  Extends-Added now_secs block a (b, ok _) (s, (_, p, _, _, q, r)) (x, (e, h)) = (
    λ i y g. ap (λ (bs : List Block). get_elem? bs i) p ∙ get_elem?-append a.chain block i g,
    omega (arith, q),
    (x, (cc (p, q, get_elem?-append a.chain block a.finalized_height e), h ∙ sym r)),
  )

  Extends-submitted :
      (now : ℕ) (tx : Transaction) (a : Blockchain E) (r : Result ChainError (Unit {0}))
      → IsFinal a
      → Extends a (submit_checked c now tx a r).0
  Extends-submitted now tx a (err e) f = (λ i x g. g, omega arith, f)
  Extends-submitted now tx a (ok _) f = (λ i x g. g, omega arith, f)

  found :
      (o : Option Block) (e : ChainError) (f : Block → Result ChainError (Unit {0}))
      → (or_fail o e >>= f) ≡ ok tt
      → (b : Block) × ((o ≡ some b) × (f b ≡ ok tt))
  found none e f h = cc
  found (some b) e f h = (b, (refl, h))

  check_cert-ok :
      (cert : FinalityCert) (a : Blockchain E)
      → check_cert c cert a ≡ ok tt
      → (b : Block) × ((get_elem? a.chain cert.checkpoint_height ≡ some b)
          × (b.hash ≡ cert.checkpoint_hash))
  check_cert-ok cert a h =
      let (_, t) = >>-eq-ok _ _ h in
      let (b, (e, t')) = found _ _ _ t in
      let (g, _) = >>-eq-ok _ _ t' in
      (b, (e, fail_unless_eq b.hash cert.checkpoint_hash cert_hash_mismatch g))

  Extends-certified :
      (cert : FinalityCert) (a : Blockchain E) (r : Result ChainError (Unit {0}))
      → check_cert c cert a ≡ r
      → a.finalized_height ≤ cert.checkpoint_height
      → IsFinal a
      → Extends a (certify c cert a r).0
  Extends-certified cert a (err e) h le f = (λ i x g. g, omega arith, f)
  Extends-certified cert a (ok tt) h le f = (λ i x g. g, le, check_cert-ok cert a h)

  Extends-handled :
      (cert : FinalityCert) (a : Blockchain E)
      → IsFinal a
      → Extends a (handle_finality_cert c cert a).0
  unfolding handle_finality_cert
  Extends-handled cert a f = elim (Bool-cases (leb cert.checkpoint_height a.finalized_height)) [
    | inl t ↦ rw t (λ i x g. g, omega arith, f)
    | inr t ↦
        rw t (Extends-certified cert a (check_cert c cert a) refl (omega (arith, leb→lt _ _ t)) f)
  ]

  Extends-ChainStep : {a b : Blockchain E} → ChainStep a b → IsFinal a → Extends a b
  unfolding submit_transaction
  Extends-ChainStep {a} (block_added now now_secs block) f =
      Extends-Added now_secs block a
        (validate_and_add_block c k engine penalty now now_secs block a)
        (validate_and_add_block-Added c k engine penalty now now_secs block a) f
  Extends-ChainStep {a} (submitted now tx) f = Extends-submitted now tx a (check_submitted c tx a) f
  Extends-ChainStep {a} (certified cert) f = Extends-handled cert a f

  -- If the finalized hash is that of the block at the finalized height, then whatever blocks are added,
  -- transactions submitted and certificates handled, each block stays at its place, the
  -- finalized height does not fall, and the finalized hash is that of the block at the finalized height.
  pub finalized_stays : {a b : Blockchain E} → ChainReach a b → IsFinal a → Extends a b
  finalized_stays {a} start f = (λ i x g. g, omega arith, f)
  finalized_stays (then_step r step) f =
      let (p, q, g) = finalized_stays r f in
      let (p', q', g') = Extends-ChainStep step g in (λ i x e. p' i x (p i x e), omega arith, g')
