-- ===== src/Mempool/Tests.antt =====
-- Small pools: runs of mempool.rs, and the theorems at inputs that meet their hypotheses.
use blockhain_core.Prelude.{
  ◌≡◌, refl, none, [], ◌∷◌, arith, false→ne, ℕ-Eq, String-Eq, Bytes-Eq, Option-Eq, ok, err,
}
use blockhain_core.Map.{get, insert}
use blockhain_core.Map.Ordered.{insert_ordered, contains, set_insert}
use blockhain_core.Transaction.{Transaction}
use blockhain_core.Account.Tests.{transfer_tx}
use blockhain_core.Mempool.Pool.{
  MempoolConfig, default_config, sender_limit_reached, Mempool, new_pool, index_sender, index_fee,
  index, admit, make_room, add_transaction, collect_hashes, collect, get_sorted_transactions,
}
use blockhain_core.Mempool.Invariant.{IsConsistent}
use blockhain_core.Mempool.Preserve.{add_transaction-IsConsistent, new_pool-IsConsistent}
use blockhain_core.Mempool.Bounds.{IsBounded, add_transaction-IsBounded}
use blockhain_core.Mempool.Fees.{Replaced, replace_by_fee, rejected_evicts}

abbrev tight : MempoolConfig
tight = record default_config { max_size = 2; max_per_sender = 1 }

-- From "alice", nonce 0; from "carol", nonce 4.
abbrev carol_tx : Transaction
carol_tx = record transfer_tx { from = "carol"; fee = 2; nonce = 4; hash = "t2" }

abbrev bumped_tx : Transaction
bumped_tx = record transfer_tx { fee = 6; hash = "t3" }

abbrev extra_tx : Transaction
extra_tx = record transfer_tx { fee = 9; nonce = 1; hash = "t4" }

abbrev one : Mempool
one = record {
  config = tight;
  transactions = ("t1", record { tx = transfer_tx; added_at = 5 }) ∷ [];
  by_sender = ("alice", (0, "t1") ∷ []) ∷ [];
  by_fee = (5, "t1" ∷ []) ∷ [];
}

abbrev two : Mempool
two = record {
  config = tight;
  transactions =
      ("t1", record { tx = transfer_tx; added_at = 5 })
      ∷ ("t2", record { tx = carol_tx; added_at = 6 })
      ∷ [];
  by_sender = ("alice", (0, "t1") ∷ []) ∷ ("carol", (4, "t2") ∷ []) ∷ [];
  by_fee = (2, "t2" ∷ []) ∷ (5, "t1" ∷ []) ∷ [];
}

one_lem : add_transaction 5 transfer_tx (new_pool tight) ≡ (one, ok tt)
unfolding add_transaction make_room admit index index_sender index_fee insert insert_ordered
    set_insert contains get
one_lem = refl

two_lem : add_transaction 6 carol_tx one ≡ (two, ok tt)
unfolding add_transaction make_room admit index index_sender index_fee insert insert_ordered
    set_insert contains get
two_lem = refl

sorted_run : get_sorted_transactions 10 two ≡ transfer_tx ∷ carol_tx ∷ []
unfolding get_sorted_transactions collect collect_hashes get
sorted_run = refl

one-IsConsistent : IsConsistent one
one-IsConsistent =
    rw one_lem at
      (add_transaction-IsConsistent 5 transfer_tx (new_pool tight) (new_pool-IsConsistent tight))

add_transaction-IsConsistent_example : IsConsistent (add_transaction 6 carol_tx one).0
add_transaction-IsConsistent_example = add_transaction-IsConsistent 6 carol_tx one one-IsConsistent

new_pool-IsBounded : IsBounded (new_pool tight)
unfolding get
new_pool-IsBounded = record { size = omega arith; per_sender = λ s. omega arith }

one-IsBounded : IsBounded one
one-IsBounded = rw one_lem at (
    add_transaction-IsBounded 5 transfer_tx (new_pool tight) (new_pool-IsConsistent tight)
      new_pool-IsBounded)

add_transaction-IsBounded_example : IsBounded (add_transaction 6 carol_tx one).0
add_transaction-IsBounded_example =
    add_transaction-IsBounded 6 carol_tx one one-IsConsistent one-IsBounded

replace_by_fee_example :
    Replaced 7 bumped_tx one "t1"
      (record { tx = transfer_tx; added_at = 5 })
      (add_transaction 7 bumped_tx one)
unfolding get
replace_by_fee_example =
    replace_by_fee 7 bumped_tx one "t1" (record { tx = transfer_tx; added_at = 5 }) refl
      (omega arith) refl refl (omega arith)

-- A tenth of 5 is rounded down to 0: the same fee is enough.
equal_fee_replaces : (add_transaction 7 (record bumped_tx { fee = 5 }) one).1 ≡ ok tt
unfolding add_transaction make_room admit index index_sender index_fee insert insert_ordered
    set_insert contains get
equal_fee_replaces = refl

rejected_evicts_example :
    ((add_transaction 8 extra_tx two).1 ≡ err sender_limit_reached)
    × (get "t2" (add_transaction 8 extra_tx two).0.transactions ≡ none)
unfolding get
rejected_evicts_example =
    rejected_evicts 8 extra_tx two 2 "t2" [] ((5, "t1" ∷ []) ∷ [])
      (record { tx = carol_tx; added_at = 6 }) (omega arith) refl (omega arith) (omega arith) refl
      refl (false→ne "carol" "alice" refl) refl (omega arith)
