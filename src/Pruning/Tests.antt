-- ===== src/Pruning/Tests.antt =====
-- Which blocks may be deleted, at concrete numbers.
use blockhain_core.Prelude.{
  ◌≡◌, refl, ◌↔◌, true, [], ◌==◌, ℕ-Eq, String-Eq, Bytes-Eq, Option-Eq, length, any,
}
use blockhain_core.Pruning.{PruningManager, range, get_prunable_blocks, IsPrunable, IsPrunable-iff}

abbrev manager : PruningManager
manager = record { min_blocks_to_keep = 100; snapshot_interval = 1000 }

prune_none : get_prunable_blocks manager 50 0 0 ≡ []
unfolding get_prunable_blocks
prune_none = refl

prune_length : length (get_prunable_blocks manager 200 50 50) ≡ 49
unfolding get_prunable_blocks range
prune_length = refl

IsPrunable-iff_example :
    (any (λ j. j == 7) (get_prunable_blocks manager 200 50 50) ≡ true)
    ↔ IsPrunable manager 200 50 50 7
IsPrunable-iff_example = IsPrunable-iff manager 200 50 50 7
