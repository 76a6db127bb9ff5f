-- ===== src/Consensus/Recorded.antt =====
-- What `record_block` of consensus/pos.rs does to the blocks seen and to the evidence, by cases.
use blockhain_core.Prelude.{
  ℕ, ◌%◌, String, ◌≡◌, refl, sym, ap, ◌∙◌, inl, inr, ◌&&◌, Option, none, some, List, [], ◌∷◌, ltb,
  if◌then◌else◌, Bool-cases, Option-cases, ◌==◌, eq→path, ℕ-Eq, String-Eq, Bytes-Eq, Option-Eq,
}
use mathlib.Core.Option.{some-injective}
use mathlib.Core.Path.{subst}
use blockhain_core.Map.{Map, get, insert}
use blockhain_core.Map.Laws.{get-insert}
use blockhain_core.Crypto.{Crypto}
use blockhain_core.Block.{
  HeaderFields, BlockHeader, evidence, Evidences, fields_of, evidence_in, Block, Codec,
  with_evidence, from_block, header_hash, block_hash,
}
use blockhain_core.Consensus.Stake.{
  PosConfig, SeenKey, SeenKey-Eq, PosEngine, push_evidence, mixed, sig_or_empty, remember, accuse,
  record_by, record_block,
}

fields_of-with_evidence :
    (o : Option Evidences) (f : HeaderFields) → fields_of (with_evidence o f) ≡ f
fields_of-with_evidence none f = refl
fields_of-with_evidence (some es) f = refl

evidence_in-with_evidence :
    (o : Option Evidences) (f : HeaderFields) → evidence_in (with_evidence o f) ≡ o
evidence_in-with_evidence none f = refl
evidence_in-with_evidence (some es) f = refl

pub header_producer : (b : Block) → (fields_of (from_block b)).producer ≡ b.producer
unfolding from_block
header_producer b =
    ap (λ (f : HeaderFields). f.producer) (fields_of-with_evidence b.slashing_evidence _)

pub header_index : (b : Block) → (fields_of (from_block b)).index ≡ b.index
unfolding from_block
header_index b = ap (λ (f : HeaderFields). f.index) (fields_of-with_evidence b.slashing_evidence _)

pub header_text : (b : Block) → (fields_of (from_block b)).hash ≡ b.hash
unfolding from_block
header_text b = ap (λ (f : HeaderFields). f.hash) (fields_of-with_evidence b.slashing_evidence _)

-- A block and its header have the same hash.
pub header_hash-from_block :
    (c : Crypto) (k : Codec) (b : Block) → header_hash c k (from_block b) ≡ block_hash c k b
unfolding header_hash block_hash from_block
header_hash-from_block c k b =
    rw
      (
        fields_of-with_evidence b.slashing_evidence _,
        evidence_in-with_evidence b.slashing_evidence _,
      )
      refl

-- What recording a block does to the blocks seen and to the evidence.
abbrev pub accused : BlockHeader × List ℕ → Block → Evidences → Evidences
accused (h, s) b pool =
    if (fields_of h).hash == b.hash
    then pool
    else push_evidence (evidence h (from_block b) s (sig_or_empty b.signature)) pool

pub data IsRecorded (b : Block) (e e' : PosEngine) : Type 0 where
  nameless :
      b.producer ≡ none
      → e'.seen_blocks ≡ e.seen_blocks
      → e'.evidence_pool ≡ e.evidence_pool
      → IsRecorded b e e'
  first_seen :
      (p : String)
      → b.producer ≡ some p
      → e'.seen_blocks ≡ insert (p, b.index) (from_block b, sig_or_empty b.signature) e.seen_blocks
      → e'.evidence_pool ≡ e.evidence_pool
      → get (p, b.index) e.seen_blocks ≡ none
      → IsRecorded b e e'
  seen_before :
      (p : String) (v : BlockHeader × List ℕ)
      → b.producer ≡ some p
      → get (p, b.index) e.seen_blocks ≡ some v
      → e'.seen_blocks ≡ e.seen_blocks
      → e'.evidence_pool ≡ accused v b e.evidence_pool
      → IsRecorded b e e'

accused_iff :
    (h : BlockHeader) (s : List ℕ) (b : Block) (e : PosEngine)
    → (accuse (h, s) b e).evidence_pool ≡ accused (h, s) b e.evidence_pool
accused_iff h s b e = elim (Bool-cases ((fields_of h).hash == b.hash)) [
  | inl t ↦ rw t refl
  | inr t ↦ rw t refl
]

accuse-seen :
    (h : BlockHeader) (s : List ℕ) (b : Block) (e : PosEngine)
    → (accuse (h, s) b e).seen_blocks ≡ e.seen_blocks
accuse-seen h s b e = elim (Bool-cases ((fields_of h).hash == b.hash)) [
  | inl t ↦ rw t refl
  | inr t ↦ rw t refl
]

-- Every block seen has a property together with its key.
abbrev pub SeenAll : (SeenKey → BlockHeader × List ℕ → Type 0) → PosEngine → Type 0
SeenAll P e = (key : SeenKey) (v : BlockHeader × List ℕ) → get key e.seen_blocks ≡ some v → P key v

SeenAll-insert :
    (P : SeenKey → BlockHeader × List ℕ → Type 0) (j : SeenKey) (w : BlockHeader × List ℕ)
    (m : Map SeenKey (BlockHeader × List ℕ))
    → P j w
    → ((key : SeenKey) (v : BlockHeader × List ℕ) → get key m ≡ some v → P key v)
    → (key : SeenKey) (v : BlockHeader × List ℕ) → get key (insert j w m) ≡ some v
    → P key v
SeenAll-insert P j w m h rest key v g = elim (Bool-cases (j == key)) [
  | inl t ↦
      let found : some w ≡ some v = sym (rw (get-insert j key w m, t) refl) ∙ g in
      subst (λ (x : SeenKey). P x v) (eq→path j key t)
        (subst (λ x. P j x) (some-injective w v found) h)
  | inr t ↦ rest key v (sym (rw (get-insert j key w m, t) refl) ∙ g)
]

pub record-SeenAll :
    (P : SeenKey → BlockHeader × List ℕ → Type 0) (b : Block) (e e' : PosEngine)
    → ((p : String) → b.producer ≡ some p → P (p, b.index) (from_block b, sig_or_empty b.signature))
    → IsRecorded b e e'
    → SeenAll P e
    → SeenAll P e'
record-SeenAll P b e e' h (nameless _ s _) all key v g = all key v (sym (ap (get key) s) ∙ g)
record-SeenAll P b e e' h (first_seen p n s _ _) all key v g =
    SeenAll-insert P (p, b.index) (from_block b, sig_or_empty b.signature) e.seen_blocks (h p n) all
      key v (sym (ap (get key) s) ∙ g)
record-SeenAll P b e e' h (seen_before _ _ _ _ s _) all key v g =
    all key v (sym (ap (get key) s) ∙ g)

-- The header stands under its producer and index.
abbrev pub IsIndexed : SeenKey → BlockHeader × List ℕ → Type 0
IsIndexed key v = ((fields_of v.0).producer ≡ some key.0) × ((fields_of v.0).index ≡ key.1)

pub from_block-IsIndexed :
    (p : String) (b : Block)
    → b.producer ≡ some p
    → IsIndexed (p, b.index) (from_block b, sig_or_empty b.signature)
from_block-IsIndexed p b h = (header_producer b ∙ h, header_index b)

module _ (c : Crypto) (cfg : PosConfig) where
  remember_lem :
      (p : String) (b : Block) (e : PosEngine)
      → ((remember cfg p b e).seen_blocks
          ≡ insert (p, b.index) (from_block b, sig_or_empty b.signature) e.seen_blocks)
        × ((remember cfg p b e).evidence_pool ≡ e.evidence_pool)
  remember_lem p b e = elim (Bool-cases (ltb 0 b.index && b.index % cfg.epoch_length == 0)) [
    | inl t ↦ rw t (refl, refl)
    | inr t ↦ rw t (refl, refl)
  ]

  record_by-IsRecorded :
      (producer : Option String) (b : Block) (e : PosEngine)
      → b.producer ≡ producer
      → IsRecorded b e (record_by c cfg producer b e).0
  unfolding mixed
  record_by-IsRecorded none b e h = nameless h refl refl
  record_by-IsRecorded (some p) b e h = elim (Option-cases (get (p, b.index) e.seen_blocks)) [
    | inl t ↦ rw t (let (s, q) = remember_lem p b (mixed c b e) in first_seen p h s q t)
    | inr ((a, s), t) ↦ rw t (
        seen_before p (a, s) h t (accuse-seen a s b (mixed c b e))
          (accused_iff a s b (mixed c b e)))
  ]

  pub record_block-IsRecorded :
      (b : Block) (e : PosEngine) → IsRecorded b e (record_block c cfg b e).0
  unfolding record_block
  record_block-IsRecorded b e = record_by-IsRecorded b.producer b e refl

  -- The engine after a sequence of blocks.
  unfoldable pub record_all : List Block → PosEngine → PosEngine
  record_all [] e = e
  record_all (b ∷ bs) e = record_all bs (record_block c cfg b e).0
