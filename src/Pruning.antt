-- ===== src/Pruning.antt =====
-- snapshot.rs: when the `PruningManager` takes a snapshot and which blocks it lets be deleted.
-- The files of the snapshots are not modelled.
pub mod Snapshot
mod Tests
use blockhain_core.Prelude.{
  ℕ, zero, suc, ◌+◌, ◌-◌, ◌%◌, ◌≤◌, ◌<◌, min, ◌≡◌, ◌↔◌, Bool, true, not, ◌&&◌, List, [], ◌∷◌, arith,
  ltb, leb, if◌then◌else◌, ◌==◌, ℕ-Eq, String-Eq, Bytes-Eq, Option-Eq, length, any,
}

pub record PruningManager : Type 0 where
  pub min_blocks_to_keep : ℕ
  pub snapshot_interval : ℕ

-- In the source an interval of 0 panics; the remainder by 0 on ℕ is the number.
unfoldable pub should_create_snapshot : PruningManager → ℕ → Bool
should_create_snapshot pm height = ltb 0 height && (height % pm.snapshot_interval == 0)

-- The range of a first number and a length.
unfoldable pub range : ℕ → ℕ → List ℕ
range a zero = []
range a (suc n) = a ∷ range (suc a) n

unfoldable pub get_prunable_blocks : PruningManager → ℕ → ℕ → ℕ → List ℕ
get_prunable_blocks pm chain_length latest_snapshot_height finalized_height =
    if leb chain_length pm.min_blocks_to_keep
    then []
    else let prune_up_to = chain_length - pm.min_blocks_to_keep in
      let safe_prune_up_to = min (min prune_up_to latest_snapshot_height) finalized_height in
      if safe_prune_up_to == 0 then [] else range 1 (safe_prune_up_to - 1)

-- A block that may be deleted: not the genesis block, below the finalized height and the last snapshot,
-- and not among the last blocks that are to be kept.
abbrev pub IsPrunable : PruningManager → ℕ → ℕ → ℕ → ℕ → Type 0
IsPrunable pm chain_length snapshot_height finalized_height i =
    (0 < i)
    × (i < finalized_height)
    × (i < snapshot_height)
    × (i + pm.min_blocks_to_keep < chain_length)

contains_range : ℕ → ℕ → ℕ → Bool
contains_range i a n = any (λ j. j == i) (range a n)

range_iff : (i a n : ℕ) → (contains_range i a n ≡ true) ↔ ((a ≤ i) × (i < a + n))
unfolding contains_range range
range_iff i a zero = ground arith
range_iff i a (suc n) = ground (arith, range_iff i (suc a) n)

-- `get_prunable_blocks` lists a height exactly if it is above 0, below the finalized height and the
-- height of the last snapshot, and not among the last blocks to keep. The blocks below the finalized
-- height, which docs/book/ch05_03_snapshots.md says are never deleted, are so the ones that may be.
pub IsPrunable-iff :
    (pm : PruningManager) (chain_length snapshot_height finalized_height i : ℕ)
    → (any (λ j. j == i) (get_prunable_blocks pm chain_length snapshot_height finalized_height)
        ≡ true)
      ↔ IsPrunable pm chain_length snapshot_height finalized_height i
unfolding get_prunable_blocks contains_range
IsPrunable-iff pm l s f i =
    let m = min (min (l - pm.min_blocks_to_keep) s) f in ground (arith, range_iff i 1 (m - 1))
