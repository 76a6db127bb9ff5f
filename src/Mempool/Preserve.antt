-- ===== src/Mempool/Preserve.antt =====
-- Every operation of the pool (mempool.rs) keeps the indices and the table consistent.
use blockhain_core.Prelude.{
  ℕ, String, ◌≡◌, refl, ap, ◌⊎◌, inl, inr, true, none, some, List, [], ◌∷◌, arith, ℕ-Eq, String-Eq,
  Bytes-Eq, Option-Eq,
}
use blockhain_core.Map.{Map, get}
use blockhain_core.Map.Laws.{get-remove}
use blockhain_core.Map.Ordered.{contains}
use blockhain_core.Transaction.{Transaction}
use blockhain_core.Mempool.Pool.{
  MempoolConfig, PendingTx, Mempool, new_pool, find_tx_by_sender_nonce, remove_transaction,
  evict_lowest, evict_lowest_fee, admit, make_room, add_transaction, remove_all, expired_hashes,
  cleanup_expired,
}
use blockhain_core.Mempool.Invariant.{
  IsConsistent, remove_transaction-IsConsistent, make_room-IsConsistent, admit_at-IsConsistent,
}

fresh-remove_transaction :
    (hash h : String) (pool : Mempool)
    → get h pool.transactions ≡ none
    → get h (remove_transaction hash pool).0.transactions ≡ none
unfolding remove_transaction
fresh-remove_transaction hash h pool e = ground (arith, get-remove hash h pool.transactions)

fresh-evict_lowest :
    (fees : Map ℕ (List String)) (tx : Transaction) (h : String) (pool : Mempool)
    → get h pool.transactions ≡ none
    → get h (evict_lowest fees tx pool).0.transactions ≡ none
fresh-evict_lowest [] tx h pool e = e
fresh-evict_lowest ((f, []) ∷ rest) tx h pool e = ground arith
fresh-evict_lowest ((f, x ∷ xs) ∷ rest) tx h pool e =
    ground (arith, fresh-remove_transaction x h pool)

pub fresh-make_room :
    (tx : Transaction) (h : String) (pool : Mempool)
    → get h pool.transactions ≡ none
    → get h (make_room tx pool).0.transactions ≡ none
unfolding make_room evict_lowest_fee
fresh-make_room tx h pool e = ground (arith, fresh-evict_lowest pool.by_fee tx h pool)

admit-IsConsistent :
    (now : ℕ) (tx : Transaction) (pool : Mempool)
    → IsConsistent pool
    → get tx.hash pool.transactions ≡ none
    → IsConsistent (admit now tx pool).0
unfolding admit
admit-IsConsistent now tx pool good fresh =
    admit_at-IsConsistent now tx pool (find_tx_by_sender_nonce pool tx.from tx.nonce) good fresh
      refl

-- The ways through `add_transaction`: an early return, no room, or the pool with room made.
pub add_transaction_cases :
    (now : ℕ) (tx : Transaction) (pool : Mempool)
    → ((add_transaction now tx pool).0 ≡ pool)
      ⊎ ((get tx.hash pool.transactions ≡ none)
          × ((add_transaction now tx pool).0 ≡ (make_room tx pool).0))
      ⊎ ((get tx.hash pool.transactions ≡ none)
          × ((make_room tx pool).1 ≡ true)
          × (add_transaction now tx pool ≡ admit now tx (make_room tx pool).0))
unfolding add_transaction
add_transaction_cases now tx pool = ground arith

-- Adding a transaction, whatever comes of it, keeps the table and both indices in agreement.
pub add_transaction-IsConsistent :
    (now : ℕ) (tx : Transaction) (pool : Mempool)
    → IsConsistent pool
    → IsConsistent (add_transaction now tx pool).0
add_transaction-IsConsistent now tx pool good = elim (add_transaction_cases now tx pool) [
  | inl same ↦ rw same good
  | inr (inl (fresh, full)) ↦ rw full (make_room-IsConsistent tx pool good)
  | inr (inr (fresh, room, admitted)) ↦ rw admitted (
      admit-IsConsistent now tx (make_room tx pool).0 (make_room-IsConsistent tx pool good)
        (fresh-make_room tx tx.hash pool fresh))
]

remove_all-IsConsistent :
    (hashes : List String) (pool : Mempool)
    → IsConsistent pool
    → IsConsistent (remove_all hashes pool)
unfolding remove_all
remove_all-IsConsistent [] pool good = good
remove_all-IsConsistent (h ∷ hs) pool good =
    remove_all-IsConsistent hs (remove_transaction h pool).0
      (remove_transaction-IsConsistent h pool good)

-- So does the removal of expired transactions.
pub cleanup_expired-IsConsistent :
    (now : ℕ) (pool : Mempool) → IsConsistent pool → IsConsistent (cleanup_expired now pool).0
unfolding cleanup_expired
cleanup_expired-IsConsistent now pool good =
    remove_all-IsConsistent (expired_hashes now pool pool.transactions) pool good

pub new_pool-IsConsistent : (config : MempoolConfig) → IsConsistent (new_pool config)
unfolding get contains
new_pool-IsConsistent config = record {
  listed = λ h p e. ground arith;
  sender_sound = λ s n h e. ground arith;
  fee_sound = λ f h e. ground arith;
}

-- In a consistent pool a sender has one transaction for each nonce.
pub one_per_nonce :
    (pool : Mempool)
    → IsConsistent pool
    → (h k : String) (p q : PendingTx) → get h pool.transactions ≡ some p
    → get k pool.transactions ≡ some q
    → p.tx.from ≡ q.tx.from
    → p.tx.nonce ≡ q.tx.nonce
    → h ≡ k
one_per_nonce pool good h k p q e f same_sender same_nonce = ground (
  arith,
  good.listed h p e,
  good.listed k q f,
  ap (λ (s : String). find_tx_by_sender_nonce pool s p.tx.nonce) same_sender,
)
