-- ===== src/Mempool/Bounds.antt =====
-- The limits of the pool (mempool.rs): its size, and the number of transactions of one sender.
use blockhain_core.Prelude.{
  ℕ, ◌+◌, ◌≤◌, String, ◌≡◌, refl, ap, ◌≢◌, inl, inr, true, Option, none, some, List, [], ◌∷◌, arith,
  ltb, leb, if◌then◌else◌, leb→lt, tests, Bool-cases, Option-cases, ◌==◌, eq_refl, ℕ-Eq, String-Eq,
  Bytes-Eq, Option-Eq, length,
}
use blockhain_core.Map.{Map, get, remove, get_or}
use blockhain_core.Map.Laws.{get-insert, get-remove, get_of_eq}
use blockhain_core.Map.Ordered.{
  insert_ordered, length-insert_ordered, length-remove-le, length-remove, length-insert, contains,
}
use blockhain_core.Transaction.{Transaction}
use blockhain_core.Mempool.Pool.{
  PendingTx, Mempool, find_nonce, find_tx_by_sender_nonce, index_sender, index, unindex_sender,
  unindex, remove_transaction, evict_first, evict_lowest, evict_lowest_fee, sender_count,
  min_new_fee, admit_at, admit, make_room, add_transaction,
}
use blockhain_core.Mempool.Invariant.{
  IsAt, IsConsistent, remove_some, remove_none, make_room-IsConsistent,
}
use blockhain_core.Mempool.Preserve.{add_transaction_cases}

pub record IsBounded (pool : Mempool) : Type 0 where
  pub size : length pool.transactions ≤ pool.config.max_size
  pub per_sender : (s : String) → sender_count pool s ≤ pool.config.max_per_sender

count-index_sender :
    (from : String) (nonce : ℕ) (hash s : String) (m : Map String (Map ℕ String))
    → length (get_or s [] (index_sender from nonce hash m))
      ≤ (if from == s then length (get_or s [] m) + 1 else length (get_or s [] m))
unfolding index_sender
count-index_sender from nonce hash s m =
    let inner = get_or from [] m in
    ground (
      arith,
      get-insert from s (insert_ordered nonce hash inner) m,
      length-insert_ordered nonce hash inner,
      get_of_eq from s m,
    )

count-unindex_sender :
    (from : String) (nonce : ℕ) (s : String) (m : Map String (Map ℕ String))
    → length (get_or s [] (unindex_sender from nonce m)) ≤ length (get_or s [] m)
unfolding unindex_sender
count-unindex_sender from nonce s m = elim (Option-cases (get from m)) [
  | inl e ↦ ground arith
  | inr (inner, e) ↦ ground (
    arith,
    get-remove from s m,
    get-insert from s (remove nonce inner) m,
    length-remove-le nonce inner,
    get_of_eq from s m,
  )
]

count-unindex_present :
    (from : String) (nonce : ℕ) {h : String} (m : Map String (Map ℕ String))
    → find_nonce (get from m) nonce ≡ some h
    → length (get_or from [] (unindex_sender from nonce m)) + 1 ≤ length (get_or from [] m)
unfolding unindex_sender
count-unindex_present from nonce {h} m e = elim (Option-cases (get from m)) [
  | inl f ↦ ground arith
  | inr (inner, f) ↦ ground (
    arith,
    get-remove from from m,
    get-insert from from (remove nonce inner) m,
    length-remove nonce {v = h} inner,
    eq_refl from,
  )
]

remove_transaction-IsBounded :
    (hash : String) (pool : Mempool) → IsBounded pool → IsBounded (remove_transaction hash pool).0
remove_transaction-IsBounded hash pool good = elim (Option-cases (get hash pool.transactions)) [
  | inl e ↦ rw (remove_none hash pool e) good
  | inr (p, e) ↦ rw (remove_some hash pool e) (record {
    size = omega (arith, good.size, length-remove-le hash pool.transactions);
    per_sender = λ s.
        omega
          (arith, good.per_sender s, count-unindex_sender p.tx.from p.tx.nonce s pool.by_sender);
  })
]

index-IsBounded :
    (now : ℕ) (tx : Transaction) (pool : Mempool)
    → IsBounded pool
    → length pool.transactions + 1 ≤ pool.config.max_size
    → sender_count pool tx.from + 1 ≤ pool.config.max_per_sender
    → IsBounded (index now tx pool)
unfolding index
index-IsBounded now tx pool good room count = record {
  size =
      omega (arith, length-insert tx.hash (record { tx = tx; added_at = now }) pool.transactions);
  per_sender = λ s. ground (
    arith,
    good.per_sender s,
    count-index_sender tx.from tx.nonce tx.hash s pool.by_sender,
    get_of_eq tx.from s pool.by_sender,
  );
}

replaced_count :
    (tx : Transaction) (pool : Mempool)
    → IsConsistent pool
    → IsBounded pool
    → (old_hash : String) (old : PendingTx) → get old_hash pool.transactions ≡ some old
    → IsAt tx.from tx.nonce (some old)
    → sender_count (unindex old_hash old pool) tx.from + 1 ≤ pool.config.max_per_sender
replaced_count tx pool good b old_hash old f at = omega (
  arith,
  count-unindex_present old.tx.from old.tx.nonce pool.by_sender (good.listed old_hash old f).1,
  ap (λ (s : String). sender_count (unindex old_hash old pool) s) at.0,
  b.per_sender old.tx.from,
)

first_contained : (x : String) (xs : List String) → contains x (x ∷ xs) ≡ true
unfolding contains
first_contained x xs = rw (eq_refl x)

admit_at-IsBounded :
    (now : ℕ) (tx : Transaction) (pool : Mempool) (o : Option String)
    → IsConsistent pool
    → IsBounded pool
    → length pool.transactions + 1 ≤ pool.config.max_size
    → find_tx_by_sender_nonce pool tx.from tx.nonce ≡ o
    → IsBounded (admit_at o now tx pool).0
admit_at-IsBounded now tx pool none good b room e =
    elim (Bool-cases (leb pool.config.max_per_sender (sender_count pool tx.from))) [
      | inl full ↦ rw full b
      | inr free ↦ rw free (index-IsBounded now tx pool b room (ground arith))
    ]
admit_at-IsBounded now tx pool (some old_hash) good b room e =
    elim (Option-cases (get old_hash pool.transactions)) [
      | inl f ↦ rw f b
      | inr (old, f) ↦ rw f (elim (Bool-cases (ltb tx.fee (min_new_fee pool.config old.tx))) [
        | inl low ↦ rw low b
        | inr high ↦
            rw (high, remove_some old_hash pool f)
              (index-IsBounded now tx (unindex old_hash old pool)
                (let b' = remove_transaction-IsBounded old_hash pool b in
                  rw (remove_some old_hash pool f) at b')
                (omega (arith, length-remove-le old_hash pool.transactions))
                (replaced_count tx pool good b old_hash old f (at old f)))
      ])
    ]
  where
    at :
        (old : PendingTx)
        → get old_hash pool.transactions ≡ some old
        → IsAt tx.from tx.nonce (some old)
    at old f = rw f at (good.sender_sound tx.from tx.nonce old_hash e)

evict_first_room :
    (hashes : List String) (tx : Transaction) (pool : Mempool)
    → ((h : String) → contains h hashes ≡ true → get h pool.transactions ≢ none)
    → (evict_first hashes pool).1 ≡ true
    → length (evict_first hashes pool).0.transactions + 1 ≤ length pool.transactions
evict_first_room [] tx pool there h = cc
evict_first_room (x ∷ xs) tx pool there h = elim (Option-cases (get x pool.transactions)) [
  | inl e ↦ absurd (there x (first_contained x xs) e)
  | inr (p, e) ↦ rw (remove_some x pool e) (length-remove x {v = p} pool.transactions e)
]

evict_first-IsBounded :
    (hashes : List String) (pool : Mempool) → IsBounded pool → IsBounded (evict_first hashes pool).0
evict_first-IsBounded [] pool b = b
evict_first-IsBounded (x ∷ xs) pool b = remove_transaction-IsBounded x pool b

listed_hash :
    (f : ℕ) (hashes : List String) (rest : Map ℕ (List String)) (pool : Mempool)
    → IsConsistent pool
    → pool.by_fee ≡ (f, hashes) ∷ rest
    → (h : String) → contains h hashes ≡ true
    → get h pool.transactions ≢ none
unfolding get
listed_hash f hashes rest pool good e h c absent =
    let fact = good.fee_sound f h (rw e (ground arith)) in ground (arith, fact)

config-remove_transaction :
    (hash : String) (pool : Mempool) → (remove_transaction hash pool).0.config ≡ pool.config
unfolding remove_transaction
config-remove_transaction hash pool = ground arith

-- Making room succeeds only with a free place, within the limits.
make_room-IsBounded :
    (tx : Transaction) (pool : Mempool)
    → IsConsistent pool
    → IsBounded pool
    → IsBounded (make_room tx pool).0
      × ((make_room tx pool).1 ≡ true
          → length (make_room tx pool).0.transactions + 1 ≤ (make_room tx pool).0.config.max_size)
unfolding make_room evict_lowest_fee
make_room-IsBounded tx pool good b =
    elim (Bool-cases (leb pool.config.max_size (length pool.transactions))) [
      | inr free ↦
          rw free
            (b, λ _. omega (tests, leb→lt pool.config.max_size (length pool.transactions) free))
      | inl full ↦ rw full (evicted pool.by_fee refl)
    ]
  where
    evicted :
        (fees : Map ℕ (List String))
        → pool.by_fee ≡ fees
        → IsBounded (evict_lowest fees tx pool).0
          × ((evict_lowest fees tx pool).1 ≡ true
              → length (evict_lowest fees tx pool).0.transactions + 1
                ≤ (evict_lowest fees tx pool).0.config.max_size)
    evicted [] e = (b, λ h. cc)
    evicted ((f, []) ∷ rest) e = elim (Bool-cases (ltb f tx.fee)) [
      | inl high ↦ rw high (b, λ h. cc)
      | inr low ↦ rw low (b, λ h. cc)
    ]
    evicted ((f, x ∷ xs) ∷ rest) e = elim (Bool-cases (ltb f tx.fee)) [
      | inr low ↦ rw low (b, λ h. cc)
      | inl high ↦ rw high (
        remove_transaction-IsBounded x pool b,
        λ h. rw (config-remove_transaction x pool) (
            omega (
              arith,
              b.size,
              evict_first_room (x ∷ xs) tx pool (listed_hash f (x ∷ xs) rest pool good e) refl,
            )),
      )
    ]

-- In a consistent pool within its limits, adding a transaction keeps the pool within its limits: the
-- size stays below `max_size` and no sender has more than `max_per_sender` transactions.
pub add_transaction-IsBounded :
    (now : ℕ) (tx : Transaction) (pool : Mempool)
    → IsConsistent pool
    → IsBounded pool
    → IsBounded (add_transaction now tx pool).0
unfolding admit
add_transaction-IsBounded now tx pool good b =
    let (b1, room) = make_room-IsBounded tx pool good b in
    let pool1 = (make_room tx pool).0 in
    elim (add_transaction_cases now tx pool) [
      | inl same ↦ rw same b
      | inr (inl (fresh, full)) ↦ rw full b1
      | inr (inr (fresh, made, admitted)) ↦ rw admitted (
          admit_at-IsBounded now tx pool1 (find_tx_by_sender_nonce pool1 tx.from tx.nonce)
            (make_room-IsConsistent tx pool good) b1 (room made) refl)
    ]
