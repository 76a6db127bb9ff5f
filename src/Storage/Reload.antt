-- ===== src/Storage/Reload.antt =====
-- A chain that was written block by block is loaded again (storage.rs).
use blockhain_core.Prelude.{
  ℕ, zero, suc, ◌<◌, String, ◌≡◌, refl, sym, ap, ◌∙◌, ◌≢◌, some, List, [], ◌∷◌, arith,
  if◌then◌else◌, ◌==◌, eq_refl, path→eq, ne→false, false→ne, ℕ-Eq, String-Eq, Bytes-Eq, Option-Eq,
  length, All, ok, as_bytes,
}
use blockhain_core.Prelude.{utf8}
use mathlib.Core.List.{reverse}
use blockhain_core.Block.{Block, zero_hash}
use blockhain_core.Storage.{
  Disk, height_key, state_root_key, insert_block, get_block, save_canonical_height, save_state_root,
  save_last_hash, get_last_hash, found_block, block_then, load_from, load_chain, persist,
}

module _ {D : Type 0} (disk : Disk D) where
  -- A written value is read back.
  abbrev pub InsertLaw : Type 0
  InsertLaw =
      (k j v : List ℕ) (d : D)
      → disk.get j (disk.insert k v d) ≡ (if k == j then some v else disk.get j d)

  -- JSON gives the block back and UTF-8 its hash.
  abbrev pub IsReadable : Block → Type 0
  IsReadable b =
      (disk.block_from_json (disk.block_json b) ≡ some b)
      × (disk.from_utf8 (as_bytes b.hash) ≡ some b.hash)

  -- No key that the store uses for something else.
  abbrev pub IsHashKey : String → Type 0
  IsHashKey s =
      (as_bytes s ≢ as_bytes "LAST")
      × (as_bytes s ≢ as_bytes "CANONICAL_HEIGHT")
      × ((n : ℕ) → as_bytes s ≢ height_key disk n)
      × ((n : ℕ) → as_bytes s ≢ state_root_key disk n)

  -- A chain, the newest block first: each block names the hash of the one before, the first one names the zero
  -- hash, and the hashes are distinct.
  abbrev pub IsLinked : List Block → Type 0
  IsLinked [] = ⊥
  IsLinked (b ∷ []) = b.previous_hash ≡ zero_hash
  IsLinked (b ∷ (a ∷ older)) =
      (b.previous_hash ≡ a.hash) × (a.hash ≢ zero_hash) × IsLinked (a ∷ older)

  abbrev pub HasFreshHashes : List Block → Type 0
  HasFreshHashes [] = Unit
  HasFreshHashes (b ∷ older) =
      IsHashKey b.hash
      × All (λ (a : Block). as_bytes b.hash ≢ as_bytes a.hash) older
      × HasFreshHashes older

  -- The database after the blocks of a chain were written one after another.
  unfoldable pub persist_all : List Block → D → D
  persist_all [] d = d
  persist_all (b ∷ older) d = persist disk b (persist_all older d)

  module _ (law : InsertLaw) where
    get_other : (k j v : List ℕ) (d : D) → k ≢ j → disk.get j (disk.insert k v d) ≡ disk.get j d
    get_other k j v d h = law k j v d ∙ rw (ne→false k j h) refl

    get_same : (k v : List ℕ) (d : D) → disk.get k (disk.insert k v d) ≡ some v
    get_same k v d = law k k v d ∙ rw (eq_refl k) refl

    -- The bookkeeping of `persist` leaves the hash keys alone.
    get-persist :
        (hash : String) (b : Block) (d : D)
        → IsHashKey hash
        → disk.get (as_bytes hash) (persist disk b d)
          ≡ disk.get (as_bytes hash) (disk.insert (as_bytes b.hash) (disk.block_json b) d)
    unfolding persist save_canonical_height save_state_root save_last_hash insert_block
    get-persist hash b d (l, c, h, r) =
        get_other (as_bytes "CANONICAL_HEIGHT") (as_bytes hash) _ _ (λ p. c (sym p))
        ∙ get_other (state_root_key disk b.index) (as_bytes hash) _ _ (λ p. r b.index (sym p))
        ∙ get_other (as_bytes "LAST") (as_bytes hash) _ _ (λ p. l (sym p))
        ∙ get_other (height_key disk b.index) (as_bytes hash) _ _ (λ p. h b.index (sym p))

    root_key_is_not_last : (n : ℕ) → state_root_key disk n ≢ as_bytes "LAST"
    unfolding as_bytes utf8
    root_key_is_not_last n = false→ne (state_root_key disk n) (as_bytes "LAST") refl

    height_is_not_last : as_bytes "CANONICAL_HEIGHT" ≢ as_bytes "LAST"
    unfolding as_bytes utf8
    height_is_not_last = false→ne (as_bytes "CANONICAL_HEIGHT") (as_bytes "LAST") refl

    last-persist :
        (b : Block) (d : D) → disk.get (as_bytes "LAST") (persist disk b d) ≡ some (as_bytes b.hash)
    unfolding persist save_canonical_height save_state_root save_last_hash
    last-persist b d =
        get_other (as_bytes "CANONICAL_HEIGHT") (as_bytes "LAST") _ _ height_is_not_last
        ∙ get_other (state_root_key disk b.index) (as_bytes "LAST") _ _
            (root_key_is_not_last b.index)
        ∙ get_same (as_bytes "LAST") _ _

    -- The block is found under its hash.
    abbrev IsStored : D → Block → Type 0
    IsStored d b = disk.get (as_bytes b.hash) d ≡ some (disk.block_json b)

    IsStored-persist :
        (a b : Block) (d : D)
        → IsHashKey a.hash
        → as_bytes b.hash ≢ as_bytes a.hash
        → IsStored d a
        → IsStored (persist disk b d) a
    IsStored-persist a b d k ne h =
        get-persist a.hash b d k
        ∙ get_other (as_bytes b.hash) (as_bytes a.hash) (disk.block_json b) d ne
        ∙ h

    persist-IsStored :
        (older : List Block) (b : Block) (d : D)
        → HasFreshHashes older
        → All (λ (a : Block). as_bytes b.hash ≢ as_bytes a.hash) older
        → All (IsStored d) older
        → All (IsStored (persist disk b d)) older
    persist-IsStored [] b d f ne h = tt
    persist-IsStored (a ∷ older) b d (k, _, f) (n, ne) (h, hs) =
        (IsStored-persist a b d k n h, persist-IsStored older b d f ne hs)

    persist_all-IsStored :
        (chain : List Block) (d : D)
        → HasFreshHashes chain
        → All (IsStored (persist_all chain d)) chain
    unfolding persist_all
    persist_all-IsStored [] d f = tt
    persist_all-IsStored (b ∷ older) d (k, ne, f) = (
      get-persist b.hash b (persist_all older d) k ∙ get_same (as_bytes b.hash) _ _,
      persist-IsStored older b (persist_all older d) f ne (persist_all-IsStored older d f),
    )

    get_block-stored :
        (b : Block) (d : D) → IsReadable b → IsStored d b → get_block disk b.hash d ≡ ok (some b)
    unfolding get_block
    get_block-stored b d r h = rw (h, r.0) refl

    load_from-stored :
        (fuel : ℕ) (b : Block) (older : List Block) (d : D)
        → length older < fuel
        → IsLinked (b ∷ older)
        → All IsReadable (b ∷ older)
        → All (IsStored d) (b ∷ older)
        → load_from disk fuel b.hash d ≡ b ∷ older
    unfolding load_from
    load_from-stored zero b older d le l rs s = absurd (omega arith)
    load_from-stored (suc fuel) b [] d le l (r, _) (h, _) =
        ap (λ o. block_then disk (found_block disk o) (λ hash. load_from disk fuel hash d))
          (get_block-stored b d r h)
        ∙ rw (path→eq b.previous_hash zero_hash l) refl
    load_from-stored (suc fuel) b (a ∷ older) d le (p, z, l) (r, rs) (h, hs) =
        ap (λ o. block_then disk (found_block disk o) (λ hash. load_from disk fuel hash d))
          (get_block-stored b d r h)
        ∙ rw (ne→false b.previous_hash zero_hash (λ q. z (sym p ∙ q))) (
            ap (λ (hash : String). b ∷ load_from disk fuel hash d) p
            ∙ ap (λ rest. b ∷ rest) (load_from-stored fuel a older d (omega arith) l rs hs))

    -- If the database gives back what was written, JSON the blocks of a chain and UTF-8 their hashes: a chain
    -- whose blocks are linked by their hashes back to the zero hash, with distinct hashes that are no other keys of the
    -- store, and that `validate_and_add_block` wrote block by block, is what `load_chain` reads, and as
    -- many turns of its loop as there are blocks are enough.
    pub load_chain-persist_all :
        (newest : Block) (older : List Block) (d : D) (fuel : ℕ)
        → IsLinked (newest ∷ older)
        → HasFreshHashes (newest ∷ older)
        → All IsReadable (newest ∷ older)
        → length older < fuel
        → load_chain disk fuel (persist_all (newest ∷ older) d) ≡ ok (reverse (newest ∷ older))
    unfolding load_chain get_last_hash persist_all
    load_chain-persist_all newest older d fuel l f rs le =
        rw
          (
            last-persist newest (persist_all older d),
            rs.0.1,
            load_from-stored fuel newest older (persist disk newest (persist_all older d)) le l rs
                (persist_all-IsStored (newest ∷ older) d f),
          )
          refl
