-- ===== src/Merkle/Root.antt =====
-- The transaction root of block.rs (`calculate_tx_root`) for a list with its last transaction written twice.
use blockhain_core.Prelude.{
  ℕ, suc, ◌*◌, ◌≡◌, refl, ap, ◌∙◌, List, [], ◌∷◌, ◌++◌, map, ℕ-Eq, String-Eq, Bytes-Eq, Option-Eq,
  length,
}
use blockhain_core.Crypto.{Crypto}
use blockhain_core.Transaction.{Transaction}
use blockhain_core.Block.{combine_hashes, root_or_zero, tx_root_of}
use blockhain_core.Merkle.Laws.{root_duplicate}

hashes_append :
    (txs more : List Transaction)
    → map (λ tx. tx.hash) (txs ++ more) ≡ map (λ tx. tx.hash) txs ++ map (λ tx. tx.hash) more
hashes_append [] more = refl
hashes_append (x ∷ txs) more = ap (λ r. x.hash ∷ r) (hashes_append txs more)

length-hashes : (txs : List Transaction) → length (map (λ tx. tx.hash) txs) ≡ length txs
length-hashes [] = refl
length-hashes (x ∷ txs) = ap suc (length-hashes txs)

-- An even number of transactions, at least two, and one more have the same transaction root as these with
-- the last one written twice.
pub tx_root_duplicate :
    (c : Crypto) (n : ℕ) (y z : Transaction) (txs : List Transaction) (x : Transaction)
    → length txs ≡ 2 * n
    → tx_root_of c ((y ∷ z ∷ txs) ++ x ∷ []) ≡ tx_root_of c ((y ∷ z ∷ txs) ++ x ∷ x ∷ [])
unfolding tx_root_of
tx_root_duplicate c n y z txs x h =
    rw (hashes_append txs (x ∷ []), hashes_append txs (x ∷ x ∷ []))
      (ap root_or_zero (
        root_duplicate (combine_hashes c) n y.hash z.hash (map (λ tx. tx.hash) txs) x.hash
          (length-hashes txs ∙ h)))
