-- ===== src/Mempool/Pool.antt =====
-- mempool.rs: the state of the pool and its operations. The system time that `add_transaction` and
-- `cleanup_expired` read is the argument `now`, in milliseconds.
use blockhain_core.Prelude.{
  ℕ, zero, suc, ◌+◌, ◌-◌, ◌*◌, ◌/◌, ◌%◌, ◌^◌, String, Bool, true, false, Option, none, some, List,
  [], ◌∷◌, ◌++◌, map, ltb, leb, if◌then◌else◌, ℕ-Eq, String-Eq, Bytes-Eq, Option-Eq, length,
  is_empty, Result, ok, err, add64, mul64,
}
use blockhain_core.Map.{Map, get, contains_key, insert, remove, get_or, values}
use blockhain_core.Map.Ordered.{insert_ordered, set_insert, set_remove}
use mathlib.Core.List.{reverse}
use blockhain_core.Transaction.{Transaction}

pub record MempoolConfig : Type 0 where
  pub max_size : ℕ
  pub max_per_sender : ℕ
  pub min_fee : ℕ
  pub tx_ttl_secs : ℕ
  pub rbf_bump_percent : ℕ

abbrev pub default_config : MempoolConfig
default_config = record {
  max_size = 5000;
  max_per_sender = 16;
  min_fee = 1;
  tx_ttl_secs = 3600;
  rbf_bump_percent = 10;
}

-- `panicked` stands for the `unwrap` of a hash that the sender index holds and the table does not.
pub data MempoolError : Type 0 where
  pool_full duplicate_transaction fee_too_low sender_limit_reached invalid_nonce : MempoolError
  transaction_expired rbf_fee_too_low invalid_transaction panicked : MempoolError

pub record PendingTx : Type 0 where
  pub tx : Transaction
  pub added_at : ℕ

pub record Mempool : Type 0 where
  pub config : MempoolConfig
  pub transactions : Map String PendingTx
  pub by_sender : Map String (Map ℕ String)
  pub by_fee : Map ℕ (List String)

-- `Mempool::new`
abbrev pub new_pool : MempoolConfig → Mempool
new_pool config = record { config = config; transactions = []; by_sender = []; by_fee = [] }

abbrev pub find_nonce : Option (Map ℕ String) → ℕ → Option String
find_nonce none nonce = none
find_nonce (some nonces) nonce = get nonce nonces

abbrev pub find_tx_by_sender_nonce : Mempool → String → ℕ → Option String
find_tx_by_sender_nonce pool sender nonce = find_nonce (get sender pool.by_sender) nonce

-- The three writes at the end of `add_transaction`.
unfoldable pub index_sender :
    String → ℕ → String → Map String (Map ℕ String) → Map String (Map ℕ String)
index_sender from nonce hash m = insert from (insert_ordered nonce hash (get_or from [] m)) m

unfoldable pub index_fee : ℕ → String → Map ℕ (List String) → Map ℕ (List String)
index_fee fee hash m = insert_ordered fee (set_insert hash (get_or fee [] m)) m

unfoldable pub index : ℕ → Transaction → Mempool → Mempool
index now tx pool = record pool {
  transactions = insert tx.hash (record { tx = tx; added_at = now }) pool.transactions;
  by_sender = index_sender tx.from tx.nonce tx.hash pool.by_sender;
  by_fee = index_fee tx.fee tx.hash pool.by_fee;
}

-- The two clean-ups in `remove_transaction`.
unfoldable pub unindex_sender : String → ℕ → Map String (Map ℕ String) → Map String (Map ℕ String)
unindex_sender from nonce m = elim (get from m) [
  | none ↦ m
  | some nonces ↦
      if is_empty (remove nonce nonces) then remove from m else insert from (remove nonce nonces) m
]

unfoldable pub unindex_fee : ℕ → String → Map ℕ (List String) → Map ℕ (List String)
unindex_fee fee hash m = elim (get fee m) [
  | none ↦ m
  | some hashes ↦
      if is_empty (set_remove hash hashes)
      then remove fee m
      else insert_ordered fee (set_remove hash hashes) m
]

abbrev pub unindex : String → PendingTx → Mempool → Mempool
unindex hash p pool = record pool {
  transactions = remove hash pool.transactions;
  by_sender = unindex_sender p.tx.from p.tx.nonce pool.by_sender;
  by_fee = unindex_fee p.tx.fee hash pool.by_fee;
}

unfoldable pub remove_transaction : String → Mempool → Mempool × Option Transaction
remove_transaction hash pool = elim (get hash pool.transactions) [
  | none ↦ (pool, none)
  | some p ↦ (unindex hash p pool, some p.tx)
]

abbrev pub evict_first : List String → Mempool → Mempool × Bool
evict_first [] pool = (pool, false)
evict_first (hash ∷ _) pool = ((remove_transaction hash pool).0, true)

abbrev pub evict_lowest : Map ℕ (List String) → Transaction → Mempool → Mempool × Bool
evict_lowest [] tx pool = (pool, false)
evict_lowest ((lowest_fee, hashes) ∷ _) tx pool =
    if ltb lowest_fee tx.fee then evict_first hashes pool else (pool, false)

unfoldable pub evict_lowest_fee : Transaction → Mempool → Mempool × Bool
evict_lowest_fee tx pool = evict_lowest pool.by_fee tx pool

abbrev pub sender_count : Mempool → String → ℕ
sender_count pool sender = length (get_or sender [] pool.by_sender)

abbrev pub min_new_fee : MempoolConfig → Transaction → ℕ
min_new_fee config old = add64 old.fee (mul64 old.fee config.rbf_bump_percent / 100)

abbrev pub PoolOutcome : Type 0
PoolOutcome = Mempool × Result MempoolError (Unit {0})

-- Replace-by-fee, for the entry that holds the sender's nonce.
abbrev pub replace : Option PendingTx → String → ℕ → Transaction → Mempool → PoolOutcome
replace none old_hash now tx pool = (pool, err panicked)
replace (some existing) old_hash now tx pool =
    if ltb tx.fee (min_new_fee pool.config existing.tx)
    then (pool, err rbf_fee_too_low)
    else (index now tx (remove_transaction old_hash pool).0, ok tt)

-- `add_transaction` from the look at the sender's entries on.
abbrev pub admit_at : Option String → ℕ → Transaction → Mempool → PoolOutcome
admit_at none now tx pool =
    if leb pool.config.max_per_sender (sender_count pool tx.from)
    then (pool, err sender_limit_reached)
    else (index now tx pool, ok tt)
admit_at (some old_hash) now tx pool = replace (get old_hash pool.transactions) old_hash now tx pool

unfoldable pub admit : ℕ → Transaction → Mempool → PoolOutcome
admit now tx pool = admit_at (find_tx_by_sender_nonce pool tx.from tx.nonce) now tx pool

unfoldable pub make_room : Transaction → Mempool → Mempool × Bool
make_room tx pool =
    if leb pool.config.max_size (length pool.transactions)
    then evict_lowest_fee tx pool
    else (pool, true)

unfoldable pub add_transaction : ℕ → Transaction → Mempool → PoolOutcome
add_transaction now tx pool =
    if contains_key tx.hash pool.transactions
    then (pool, err duplicate_transaction)
    else if ltb tx.fee pool.config.min_fee
    then (pool, err fee_too_low)
    else let (pool1, room) = make_room tx pool in
      if room then admit now tx pool1 else (pool1, err pool_full)

-- The two loops of `get_sorted_transactions`, with the places left in `result`.
unfoldable pub collect_hashes : List String → ℕ → Mempool → List Transaction
collect_hashes [] room pool = []
collect_hashes (hash ∷ hashes) zero pool = []
collect_hashes (hash ∷ hashes) (suc room) pool =
    let found = collect_hashes hashes room pool in
    let missing = collect_hashes hashes (suc room) pool in
    elim (get hash pool.transactions) [ none ↦ missing | some p ↦ p.tx ∷ found ]

unfoldable pub collect : List (ℕ × List String) → ℕ → Mempool → List Transaction
unfolding collect_hashes
collect [] room pool = []
collect ((fee, hashes) ∷ rest) room pool =
    let here = collect_hashes hashes room pool in here ++ collect rest (room - length here) pool

-- `by_fee.iter().rev()`: the highest fee first.
unfoldable pub get_sorted_transactions : ℕ → Mempool → List Transaction
unfolding collect
get_sorted_transactions limit pool = collect (reverse pool.by_fee) limit pool

abbrev pub u128_mod : ℕ
u128_mod = 2 ^ 128

-- `now - added_at > ttl_ms` on `u128`, which wraps when the clock has gone back.
abbrev pub is_expired : ℕ → Mempool → PendingTx → Bool
is_expired now pool p =
    ltb (pool.config.tx_ttl_secs * 1000) ((now + u128_mod - p.added_at) % u128_mod)

unfoldable pub remove_all : List String → Mempool → Mempool
unfolding remove_transaction
remove_all [] pool = pool
remove_all (hash ∷ hashes) pool = remove_all hashes (remove_transaction hash pool).0

unfoldable pub expired_hashes : ℕ → Mempool → Map String PendingTx → List String
expired_hashes now pool [] = []
expired_hashes now pool ((hash, p) ∷ m) =
    if is_expired now pool p then hash ∷ expired_hashes now pool m else expired_hashes now pool m

unfoldable pub cleanup_expired : ℕ → Mempool → Mempool × ℕ
unfolding remove_all expired_hashes
cleanup_expired now pool =
    let expired = expired_hashes now pool pool.transactions in
    (remove_all expired pool, length expired)

unfoldable pub drain : Mempool → Mempool × List Transaction
drain pool = (
  record pool { transactions = []; by_sender = []; by_fee = [] },
  map (λ p. p.tx) (values pool.transactions),
)
