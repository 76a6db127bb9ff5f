-- ===== src/Mempool/Invariant.antt =====
-- The two indices of the pool agree with its table (mempool.rs), and every operation keeps it so.
use blockhain_core.Prelude.{
  ℕ, String, ◌≡◌, refl, inl, inr, true, Option, none, some, List, [], ◌∷◌, arith, ltb, leb,
  Bool-cases, Option-cases, eq_refl, eq→path, path→eq, false→ne, ℕ-Eq, String-Eq, Bytes-Eq,
  Option-Eq, length,
}
use blockhain_core.Map.{Map, get}
use blockhain_core.Map.Laws.{get-insert, get-remove, get_of_eq}
use blockhain_core.Transaction.{Transaction}
use blockhain_core.Mempool.Pool.{
  PendingTx, Mempool, find_tx_by_sender_nonce, index, unindex, remove_transaction, evict_first,
  evict_lowest, evict_lowest_fee, sender_count, min_new_fee, replace, admit_at, make_room,
}
use blockhain_core.Mempool.Indices.{
  fee_has, find-index_sender, find-unindex_sender, fee_has-index_fee, fee_has-unindex_fee,
}

-- The entry stands for this sender and nonce; for this fee.
abbrev pub IsAt : String → ℕ → Option PendingTx → Type 0
IsAt s n none = ⊥
IsAt s n (some p) = (p.tx.from ≡ s) × (p.tx.nonce ≡ n)

abbrev pub HasFee : ℕ → Option PendingTx → Type 0
HasFee f none = ⊥
HasFee f (some p) = p.tx.fee ≡ f

-- The entry is stored under its own hash and is found through both indices.
abbrev pub IsListed : Mempool → String → PendingTx → Type 0
IsListed pool h p =
    (p.tx.hash ≡ h)
    × (find_tx_by_sender_nonce pool p.tx.from p.tx.nonce ≡ some h)
    × (fee_has p.tx.fee h pool.by_fee ≡ true)

pub record IsConsistent (pool : Mempool) : Type 0 where
  pub listed : (h : String) (p : PendingTx) → get h pool.transactions ≡ some p → IsListed pool h p
  pub sender_sound :
      (s : String) (n : ℕ) (h : String)
      → find_tx_by_sender_nonce pool s n ≡ some h
      → IsAt s n (get h pool.transactions)
  pub fee_sound :
      (f : ℕ) (h : String) → fee_has f h pool.by_fee ≡ true → HasFee f (get h pool.transactions)

module _ (now : ℕ) (tx : Transaction) (pool : Mempool) (good : IsConsistent pool)
    (fresh : get tx.hash pool.transactions ≡ none)
    (free : find_tx_by_sender_nonce pool tx.from tx.nonce ≡ none) where
  index-IsListed :
      (h : String) (p : PendingTx)
      → get h (index now tx pool).transactions ≡ some p
      → IsListed (index now tx pool) h p
  unfolding index
  index-IsListed h p e = ground (
    arith,
    get-insert tx.hash h (record { tx = tx; added_at = now }) pool.transactions,
    good.listed h p,
    find-index_sender tx.from tx.nonce tx.hash p.tx.from p.tx.nonce pool.by_sender,
    fee_has-index_fee tx.fee tx.hash p.tx.fee h pool.by_fee,
    eq→path tx.hash h,
    eq_refl tx.from,
    eq_refl tx.hash,
    get_of_eq tx.from p.tx.from pool.by_sender,
  )

  index_sender_sound :
      (s : String) (n : ℕ) (h : String)
      → find_tx_by_sender_nonce (index now tx pool) s n ≡ some h
      → IsAt s n (get h (index now tx pool).transactions)
  unfolding index
  index_sender_sound s n h e = ground (
    arith,
    get-insert tx.hash h (record { tx = tx; added_at = now }) pool.transactions,
    find-index_sender tx.from tx.nonce tx.hash s n pool.by_sender,
    good.sender_sound s n h,
    get_of_eq tx.hash h pool.transactions,
    eq→path tx.from s,
    eq_refl tx.hash,
  )

  index_fee_sound :
      (f : ℕ) (h : String)
      → fee_has f h (index now tx pool).by_fee ≡ true
      → HasFee f (get h (index now tx pool).transactions)
  unfolding index
  index_fee_sound f h e = ground (
    arith,
    get-insert tx.hash h (record { tx = tx; added_at = now }) pool.transactions,
    fee_has-index_fee tx.fee tx.hash f h pool.by_fee,
    good.fee_sound f h,
    get_of_eq tx.hash h pool.transactions,
  )

  pub index-IsConsistent : IsConsistent (index now tx pool)
  index-IsConsistent = record {
    listed = index-IsListed;
    sender_sound = index_sender_sound;
    fee_sound = index_fee_sound;
  }

module _ (hash : String) (pool : Mempool) (good : IsConsistent pool) (old : PendingTx)
    (there : get hash pool.transactions ≡ some old) where
  unindex-IsListed :
      (h : String) (p : PendingTx)
      → get h (unindex hash old pool).transactions ≡ some p
      → IsListed (unindex hash old pool) h p
  unindex-IsListed h p e = ground (
    arith,
    get-remove hash h pool.transactions,
    good.listed h p,
    good.listed hash old there,
    find-unindex_sender old.tx.from old.tx.nonce p.tx.from p.tx.nonce pool.by_sender,
    fee_has-unindex_fee old.tx.fee hash p.tx.fee h pool.by_fee,
    eq→path old.tx.from p.tx.from,
    false→ne hash h,
  )

  unindex_sender_sound :
      (s : String) (n : ℕ) (h : String)
      → find_tx_by_sender_nonce (unindex hash old pool) s n ≡ some h
      → IsAt s n (get h (unindex hash old pool).transactions)
  unindex_sender_sound s n h e = ground (
    arith,
    get-remove hash h pool.transactions,
    good.sender_sound s n h,
    find-unindex_sender old.tx.from old.tx.nonce s n pool.by_sender,
    get_of_eq hash h pool.transactions,
    path→eq old.tx.from s,
  )

  unindex_fee_sound :
      (f : ℕ) (h : String)
      → fee_has f h (unindex hash old pool).by_fee ≡ true
      → HasFee f (get h (unindex hash old pool).transactions)
  unindex_fee_sound f h e = ground (
    arith,
    get-remove hash h pool.transactions,
    good.fee_sound f h,
    fee_has-unindex_fee old.tx.fee hash f h pool.by_fee,
    get_of_eq hash h pool.transactions,
  )

  pub unindex-IsConsistent : IsConsistent (unindex hash old pool)
  unindex-IsConsistent = record {
    listed = unindex-IsListed;
    sender_sound = unindex_sender_sound;
    fee_sound = unindex_fee_sound;
  }

pub remove_some :
    (hash : String) (pool : Mempool) {p : PendingTx}
    → get hash pool.transactions ≡ some p
    → remove_transaction hash pool ≡ (unindex hash p pool, some p.tx)
unfolding remove_transaction
remove_some hash pool e = ground arith

pub remove_none :
    (hash : String) (pool : Mempool)
    → get hash pool.transactions ≡ none
    → remove_transaction hash pool ≡ (pool, none)
unfolding remove_transaction
remove_none hash pool e = ground arith

pub remove_transaction-IsConsistent :
    (hash : String) (pool : Mempool)
    → IsConsistent pool
    → IsConsistent (remove_transaction hash pool).0
remove_transaction-IsConsistent hash pool good = elim (Option-cases (get hash pool.transactions)) [
  | inl e ↦ rw (remove_none hash pool e) good
  | inr (p, e) ↦ rw (remove_some hash pool e) (unindex-IsConsistent hash pool good p e)
]

evict_first-IsConsistent :
    (hashes : List String) (pool : Mempool)
    → IsConsistent pool
    → IsConsistent (evict_first hashes pool).0
evict_first-IsConsistent [] pool good = good
evict_first-IsConsistent (h ∷ hs) pool good = remove_transaction-IsConsistent h pool good

evict_lowest-IsConsistent :
    (fees : Map ℕ (List String)) (tx : Transaction) (pool : Mempool)
    → IsConsistent pool
    → IsConsistent (evict_lowest fees tx pool).0
evict_lowest-IsConsistent [] tx pool good = good
evict_lowest-IsConsistent ((f, hashes) ∷ rest) tx pool good = elim (Bool-cases (ltb f tx.fee)) [
  | inl e ↦ rw e (evict_first-IsConsistent hashes pool good)
  | inr e ↦ rw e good
]

pub make_room-IsConsistent :
    (tx : Transaction) (pool : Mempool) → IsConsistent pool → IsConsistent (make_room tx pool).0
unfolding make_room evict_lowest_fee
make_room-IsConsistent tx pool good =
    elim (Bool-cases (leb pool.config.max_size (length pool.transactions))) [
      | inl e ↦ rw e (evict_lowest-IsConsistent pool.by_fee tx pool good)
      | inr e ↦ rw e good
    ]

-- A removed hash is gone, and its slot in the sender index is free.
removed_fresh :
    (hash h : String) (old : PendingTx) (pool : Mempool)
    → get h pool.transactions ≡ none
    → get h (unindex hash old pool).transactions ≡ none
removed_fresh hash h old pool e = ground (arith, get-remove hash h pool.transactions)

removed_free :
    (hash : String) (old : PendingTx) (pool : Mempool)
    → find_tx_by_sender_nonce (unindex hash old pool) old.tx.from old.tx.nonce ≡ none
removed_free hash old pool = ground (
  arith,
  find-unindex_sender old.tx.from old.tx.nonce old.tx.from old.tx.nonce pool.by_sender,
  eq_refl old.tx.from,
)

replace-IsConsistent :
    (now : ℕ) (tx : Transaction) (pool : Mempool) (old_hash : String) (o : Option PendingTx)
    → IsConsistent pool
    → get tx.hash pool.transactions ≡ none
    → get old_hash pool.transactions ≡ o
    → IsAt tx.from tx.nonce o
    → IsConsistent (replace o old_hash now tx pool).0
replace-IsConsistent now tx pool old_hash none good fresh e at = absurd at
replace-IsConsistent now tx pool old_hash (some old) good fresh e at =
    elim (Bool-cases (ltb tx.fee (min_new_fee pool.config old.tx))) [
      | inl low ↦ rw low good
      | inr high ↦
          rw (high, remove_some old_hash pool e)
            (index-IsConsistent now tx (unindex old_hash old pool)
              (unindex-IsConsistent old_hash pool good old e)
              (removed_fresh old_hash tx.hash old pool fresh)
              (rw (← at.0, ← at.1) (removed_free old_hash old pool)))
    ]

pub admit_at-IsConsistent :
    (now : ℕ) (tx : Transaction) (pool : Mempool) (o : Option String)
    → IsConsistent pool
    → get tx.hash pool.transactions ≡ none
    → find_tx_by_sender_nonce pool tx.from tx.nonce ≡ o
    → IsConsistent (admit_at o now tx pool).0
admit_at-IsConsistent now tx pool none good fresh e =
    elim (Bool-cases (leb pool.config.max_per_sender (sender_count pool tx.from))) [
      | inl full ↦ rw full good
      | inr room ↦ rw room (index-IsConsistent now tx pool good fresh e)
    ]
admit_at-IsConsistent now tx pool (some old_hash) good fresh e =
    replace-IsConsistent now tx pool old_hash (get old_hash pool.transactions) good fresh refl
      (good.sender_sound tx.from tx.nonce old_hash e)
