-- ===== src/Mempool/Fees.antt =====
-- Replace-by-fee and eviction in `add_transaction` (mempool.rs).
use blockhain_core.Prelude.{
  ℕ, ◌≤◌, ◌<◌, String, ◌≡◌, ◌≢◌, inl, inr, true, false, none, some, List, ◌∷◌, arith, Option-cases,
  ◌==◌, eq_refl, ne→false, ℕ-Eq, String-Eq, Bytes-Eq, Option-Eq, length, ok, err,
}
use blockhain_core.Map.{Map, get, remove}
use blockhain_core.Map.Laws.{get-insert, get-insert_self, get-remove, get_of_eq}
use blockhain_core.Transaction.{Transaction}
use blockhain_core.Mempool.Pool.{
  sender_limit_reached, rbf_fee_too_low, PendingTx, Mempool, find_tx_by_sender_nonce, index,
  unindex_sender, unindex, evict_lowest_fee, sender_count, min_new_fee, PoolOutcome, admit,
  make_room, add_transaction,
}
use blockhain_core.Mempool.Invariant.{remove_some}

-- In a pool with a free place that holds a transaction of the same sender and nonce: if a new one is
-- accepted, then it pays at least the old fee and the bump on it, a percentage rounded down, the old one is gone and the new one is there;
-- if it is refused for its fee, it pays less and the pool is unchanged.
abbrev pub Replaced : ℕ → Transaction → Mempool → String → PendingTx → PoolOutcome → Type 0
Replaced now tx pool old_hash old (pool', ok _) =
    (min_new_fee pool.config old.tx ≤ tx.fee)
    × (get old_hash pool'.transactions ≡ none)
    × (get tx.hash pool'.transactions ≡ some (record { tx = tx; added_at = now }))
Replaced now tx pool old_hash old (pool', err e) =
    (e ≡ rbf_fee_too_low) × (tx.fee < min_new_fee pool.config old.tx) × (pool' ≡ pool)

module _ (now : ℕ) (tx : Transaction) (pool : Mempool) (old_hash : String) (old : PendingTx)
    (fresh : get tx.hash pool.transactions ≡ none) (fee : pool.config.min_fee ≤ tx.fee)
    (found : find_tx_by_sender_nonce pool tx.from tx.nonce ≡ some old_hash)
    (there : get old_hash pool.transactions ≡ some old) where
  hash_differs : (tx.hash == old_hash) ≡ false
  hash_differs = ground (arith, get_of_eq tx.hash old_hash pool.transactions)

  admit-Replaced : Replaced now tx pool old_hash old (admit now tx pool)
  unfolding admit index
  admit-Replaced =
      let after = unindex old_hash old pool in
      ground (
        arith,
        remove_some old_hash pool there,
        get-insert tx.hash old_hash (record { tx = tx; added_at = now }) after.transactions,
        get-insert_self tx.hash (record { tx = tx; added_at = now }) after.transactions,
        get-remove old_hash old_hash pool.transactions,
        eq_refl old_hash,
        hash_differs,
      )

  -- A transaction with a new hash and at least the minimum fee of the pool, for a sender and nonce that are
  -- in the pool with a place free: if it is accepted, then it pays at least the old fee and the bump on it,
  -- a percentage rounded down in 64-bit arithmetic (so that with 10 percent an equal fee is enough below
  -- 10, where README.md asks for a higher one), the old one is gone and it is in the pool; if it is refused,
  -- it pays less and the pool is unchanged.
  pub replace_by_fee :
      length pool.transactions < pool.config.max_size
      → Replaced now tx pool old_hash old (add_transaction now tx pool)
  unfolding add_transaction make_room
  replace_by_fee room = ground (arith, admit-Replaced)

get-unindex_sender_ne :
    (from : String) (nonce : ℕ) (s : String) (m : Map String (Map ℕ String))
    → from ≢ s
    → get s (unindex_sender from nonce m) ≡ get s m
unfolding unindex_sender
get-unindex_sender_ne from nonce s m ne = elim (Option-cases (get from m)) [
  | inl e ↦ ground arith
  | inr (inner, e) ↦
      ground
        (arith, get-remove from s m, get-insert from s (remove nonce inner) m, ne→false from s ne)
]

evicting_room :
    (tx : Transaction) (pool : Mempool) (f : ℕ) (victim : String) (hashes : List String)
    (rest : Map ℕ (List String)) (p : PendingTx)
    → pool.config.max_size ≤ length pool.transactions
    → pool.by_fee ≡ (f, victim ∷ hashes) ∷ rest
    → f < tx.fee
    → get victim pool.transactions ≡ some p
    → make_room tx pool ≡ (unindex victim p pool, true)
unfolding make_room evict_lowest_fee
evicting_room tx pool f victim hashes rest p full lowest higher there =
    ground (arith, remove_some victim pool there)

-- A rejected transaction can cost another one its place. The pool is full, the transaction at the head of
-- its lowest fee is in the table and of another sender, the new transaction pays more than that fee and at
-- least the minimum fee, its hash is not yet in the pool, its sender has no transaction of its nonce there
-- and is at its limit: the call returns `SenderLimitReached` and the evicted transaction is gone.
pub rejected_evicts :
    (now : ℕ) (tx : Transaction) (pool : Mempool) (f : ℕ) (victim : String) (hashes : List String)
    (rest : Map ℕ (List String)) (p : PendingTx)
    → pool.config.max_size ≤ length pool.transactions
    → pool.by_fee ≡ (f, victim ∷ hashes) ∷ rest
    → f < tx.fee
    → pool.config.min_fee ≤ tx.fee
    → get tx.hash pool.transactions ≡ none
    → get victim pool.transactions ≡ some p
    → p.tx.from ≢ tx.from
    → find_tx_by_sender_nonce pool tx.from tx.nonce ≡ none
    → pool.config.max_per_sender ≤ sender_count pool tx.from
    → ((add_transaction now tx pool).1 ≡ err sender_limit_reached)
      × (get victim (add_transaction now tx pool).0.transactions ≡ none)
unfolding add_transaction admit
rejected_evicts now tx pool f victim hashes rest p full lowest higher fee fresh there other free
      limit =
    let pool1 = unindex victim p pool in
    ground (
      arith,
      evicting_room tx pool f victim hashes rest p full lowest higher there,
      get-unindex_sender_ne p.tx.from p.tx.nonce tx.from pool.by_sender other,
      get-remove victim victim pool.transactions,
      eq_refl victim,
    )
