-- ===== src/Merkle.antt =====
-- The pairing loop that block.rs (`calculate_tx_root`) and consensus/qc.rs (`compute_merkle_root`) share:
-- while more than one node is left, neighbours are combined, a last odd one with itself.
pub mod Laws
pub mod Root
mod Tests
use blockhain_core.Prelude.{ℕ, zero, suc, Option, none, some, List, [], ◌∷◌, length}

module _ {A : Type 0} (combine : A → A → A) where
  -- One turn of the loop.
  unfoldable pub pair_level : List A → List A
  pair_level [] = []
  pair_level (x ∷ []) = combine x x ∷ []
  pair_level (x ∷ y ∷ rest) = combine x y ∷ pair_level rest

  -- The loop, with fuel for its turns; `none` means that there was no node or the fuel ran out.
  unfoldable pub merkle_loop : ℕ → List A → Option A
  merkle_loop zero xs = none
  merkle_loop (suc fuel) [] = none
  merkle_loop (suc fuel) (x ∷ []) = some x
  merkle_loop (suc fuel) (x ∷ y ∷ rest) = merkle_loop fuel (pair_level (x ∷ y ∷ rest))

  -- As many turns as there are nodes are enough (`merkle_root_total`).
  unfoldable pub merkle_root : List A → Option A
  merkle_root xs = merkle_loop (length xs) xs
