-- ===== src/Consensus/Mining.antt =====
-- The loop of `mine` (consensus/pow.rs): it ends at the first nonce whose hash has enough zeros, and the block
-- is then valid.
use blockhain_core.Prelude.{
  ℕ, zero, suc, ◌%◌, ◌≤◌, ◌<◌, String, ◌≡◌, refl, sym, ap, ◌∙◌, ◌≢◌, inl, inr, true, false, not,
  Option, none, some, List, arith, Bool-cases, ◌==◌, path→eq, ne→false, ℕ-Eq, String-Eq, Bytes-Eq,
  Option-Eq, get_last?, ok, fail_if,
}
use blockhain_core.Crypto.{Crypto}
use blockhain_core.Block.{Block, Codec, block_hash}
use blockhain_core.Consensus.{previous_hash_mismatch}
use blockhain_core.Consensus.Authority.{check_link}
use blockhain_core.Consensus.Work.{
  PowConfig, meets_difficulty, next_nonce, mine, rehashed, hash_checked, validate_work,
}

module _ (c : Crypto) (k : Codec) where
  -- The block after a number of turns.
  unfoldable pub after : ℕ → Block → Block
  after zero block = block
  after (suc n) block = after n (next_nonce c k block)

  -- Only nonce and hash differ, and the hash is that of the block.
  abbrev pub IsRehash : Block → Block → Type 0
  IsRehash block b =
      (b.hash ≡ block_hash c k b) × (record b { nonce = block.nonce; hash = block.hash } ≡ block)

  after-IsRehash : (n : ℕ) (block b : Block) → IsRehash block b → IsRehash block (after n b)
  unfolding after block_hash
  after-IsRehash zero block b h = h
  after-IsRehash (suc n) block b (h, e) = after-IsRehash n block (next_nonce c k b) (refl, e)

  -- The first turn that meets the difficulty.
  abbrev pub IsFirst : ℕ → ℕ → Block → Type 0
  IsFirst d n block =
      (meets_difficulty d (after n block).hash ≡ true)
      × ((j : ℕ) → j < n → meets_difficulty d (after j block).hash ≡ false)

  later_first :
      (d n : ℕ) (block : Block)
      → meets_difficulty d block.hash ≡ false
      → ((j : ℕ) → j < n → meets_difficulty d (after j (next_nonce c k block)).hash ≡ false)
      → (j : ℕ) → j < suc n
      → meets_difficulty d (after j block).hash ≡ false
  unfolding after
  later_first d n block h l zero lt = h
  later_first d n block h l (suc j) lt = l j (omega arith)

  mine-IsFirst :
      (d fuel tries : ℕ) (block : Block)
      → tries ≤ fuel
      → meets_difficulty d (after tries block).hash ≡ true
      → (n : ℕ) × ((n ≤ tries) × (mine c k d fuel block ≡ some (after n block)) × IsFirst d n block)
  unfolding mine after
  mine-IsFirst d zero zero block le h =
      (0, (omega arith, rw h refl, (h, λ j lt. absurd (omega arith))))
  mine-IsFirst d zero (suc tries) block le h = absurd (omega arith)
  mine-IsFirst d (suc fuel) zero block le h =
      (0, (omega arith, rw h refl, (h, λ j lt. absurd (omega arith))))
  mine-IsFirst d (suc fuel) (suc tries) block le h =
      elim (Bool-cases (meets_difficulty d block.hash)) [
        | inl t ↦ (0, (omega arith, rw t refl, (t, λ j lt. absurd (omega arith))))
        | inr t ↦
            let (n, (m, e, (s, l))) =
              mine-IsFirst d fuel tries (next_nonce c k block) (omega arith) h in
            (suc n, (omega arith, rw t e, (s, later_first d n block t l)))
      ]

  check_link-previous :
      (prev : Option Block) (a b : Block)
      → a.previous_hash ≡ b.previous_hash
      → check_link prev a ≡ check_link prev b
  check_link-previous none a b h = refl
  check_link-previous (some p) a b h =
      ap (λ (s : String). fail_if (not (s == p.hash)) previous_hash_mismatch) h

  valid_rehash :
      (scale : ℕ → ℕ → ℕ → ℕ) (cfg : PowConfig) (chain : List Block) (d : ℕ) (block b : Block)
      → IsRehash block b
      → meets_difficulty d b.hash ≡ true
      → block.index ≢ 0
      → block.index % cfg.adjustment_interval ≢ 0
      → check_link (get_last? chain) block ≡ ok tt
      → validate_work c k scale cfg b chain d ≡ (d, ok tt)
  unfolding validate_work
  valid_rehash scale cfg chain d block b (h, e) m i r link =
      let index : b.index ≡ block.index = ap (λ (x : Block). x.index) e in
      let linked : check_link (get_last? chain) b ≡ ok tt =
        check_link-previous (get_last? chain) b block (ap (λ (x : Block). x.previous_hash) e)
        ∙ link in
      let checked : hash_checked c k b chain ≡ ok tt =
        rw (linked, path→eq b.hash (block_hash c k b) h) refl in
      rw
        (
          ne→false b.index 0 (λ z. i (sym index ∙ z)),
          checked,
          ne→false (b.index % cfg.adjustment_interval) 0
              (λ z. r (sym (ap (λ (x : ℕ). x % cfg.adjustment_interval) index) ∙ z)),
          m,
        )
        refl

  -- A block that is not at index 0 nor at the end of an adjustment interval and links to the last block of the chain: if
  -- some number of nonces up to the fuel leads to a hash with enough zeros, mining ends, at the first such
  -- nonce, with a block that differs in nonce and hash only and that `validate_block` accepts at the
  -- same difficulty.
  pub mined_is_valid :
      (scale : ℕ → ℕ → ℕ → ℕ) (cfg : PowConfig) (chain : List Block) (d fuel tries : ℕ)
      (block : Block)
      → block.index ≢ 0
      → block.index % cfg.adjustment_interval ≢ 0
      → check_link (get_last? chain) block ≡ ok tt
      → tries ≤ fuel
      → meets_difficulty d (after tries (rehashed c k block)).hash ≡ true
      → (n : ℕ) × ((mine c k d fuel (rehashed c k block) ≡ some (after n (rehashed c k block)))
          × IsFirst d n (rehashed c k block)
          × IsRehash block (after n (rehashed c k block))
          × (validate_work c k scale cfg (after n (rehashed c k block)) chain d ≡ (d, ok tt)))
  unfolding block_hash
  mined_is_valid scale cfg chain d fuel tries block i r link le h =
      let (n, (_, e, first)) = mine-IsFirst d fuel tries (rehashed c k block) le h in
      let same = after-IsRehash n block (rehashed c k block) (refl, refl) in
      (
        n,
        (
          e,
          first,
          same,
          valid_rehash scale cfg chain d block (after n (rehashed c k block)) same first.0 i r link,
        ),
      )
