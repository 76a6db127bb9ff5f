-- ===== src/Account/Conserve.antt =====
-- Conservation of coins by `apply_transaction` and `apply_block` (account.rs): no coin is made or lost,
-- and no 64-bit addition or subtraction on the way wraps.
use blockhain_core.Prelude.{
  ℕ, ◌+◌, ◌≤◌, ◌<◌, String, ◌≡◌, ap, inl, inr, true, false, Option, none, some, List, [], ◌∷◌, ◌++◌,
  arith, if◌then◌else◌, Bool-cases, Option-cases, ◌==◌, ℕ-Eq, String-Eq, Bytes-Eq, Option-Eq,
  sum_by, sum_by-append, Result, ok, err, u64_mod, u64_max, add64, add64_exact, sub64_exact,
}
use blockhain_core.Map.{Map, get, insert, get_or, values}
use blockhain_core.Map.Laws.{get-insert_self}
use blockhain_core.Map.Sums.{sum_by-insert, share-le-sum_by}
use blockhain_core.Transaction.{TransactionType, Transaction, total_cost}
use blockhain_core.Account.State.{
  unbonding_epochs, UnbondingEntry, Account, new_account, Validator, new_validator, AccountState,
  get_balance, get_or_create, modify_account, credit, charge,
}
use blockhain_core.Account.Validate.{TxError}
use blockhain_core.Account.Apply.{
  Outcome, apply_transfer, add_stake, apply_stake, sub_stake, queue_unstake, apply_unstake,
  apply_vote, apply_typed, apply_transaction, apply_all, pay_producer, apply_block,
}
use blockhain_core.Account.Supply.{
  supply, get_balance-le-balances, validators-modify, queue-modify, balances-charge,
  balances-credit,
}

abbrev pub stake_sum : Map String Validator → ℕ
stake_sum m = sum_by (λ v. v.stake) (values m)

stake_sum-add_stake :
    (a : String) (amount : ℕ) (m : Map String Validator)
    → stake_sum m + amount < u64_mod
    → stake_sum (add_stake a amount m) ≡ stake_sum m + amount
stake_sum-add_stake a amount m h =
    let v = get_or a (new_validator a 0) m in
    let w = record v { stake = add64 v.stake amount; active = true } in
    ground (
      arith,
      sum_by-insert (λ (x : Validator). x.stake) a w m,
      share-le-sum_by (λ (x : Validator). x.stake) a m,
      add64_exact v.stake amount,
    )

stake_sum-sub_stake :
    (a : String) (amount : ℕ) (v : Validator) (m : Map String Validator)
    → get a m ≡ some v
    → amount ≤ v.stake
    → stake_sum m < u64_mod
    → stake_sum (insert a (sub_stake amount v) m) + amount ≡ stake_sum m
stake_sum-sub_stake a amount v m e h k = ground (
  arith,
  sum_by-insert (λ (x : Validator). x.stake) a (sub_stake amount v) m,
  share-le-sum_by (λ (x : Validator). x.stake) a m,
  sub64_exact v.stake amount,
)

-- How a transition that may fail changes the supply: by the fee, or not at all.
abbrev pub Conserves : ℕ → AccountState → Outcome → Type 0
Conserves fee s (s', ok _) = supply s' + fee ≡ supply s
Conserves fee s (s', err _) = supply s' ≡ supply s

module _ (tx : Transaction) (s : AccountState) (covered : total_cost tx ≤ get_balance s tx.from)
    (room : supply s < u64_max) where
  apply_transfer-Conserves : Conserves tx.fee s (apply_transfer tx s)
  unfolding apply_transfer
  apply_transfer-Conserves =
      let s1 = modify_account tx.from (charge (total_cost tx)) s in
      omega (
        arith,
        balances-charge tx.from (total_cost tx) s covered,
        get_balance-le-balances tx.from s,
        balances-credit tx.to tx.amount s1,
        ap stake_sum (validators-modify tx.from (charge (total_cost tx)) s),
        ap stake_sum (validators-modify tx.to (credit tx.amount) s1),
        ap (sum_by (λ e. e.amount)) (queue-modify tx.from (charge (total_cost tx)) s),
        ap (sum_by (λ e. e.amount)) (queue-modify tx.to (credit tx.amount) s1),
      )

  apply_stake-Conserves : Conserves tx.fee s (apply_stake tx s)
  unfolding apply_stake
  apply_stake-Conserves =
      let s1 = modify_account tx.from (charge (total_cost tx)) s in
      omega (
        arith,
        balances-charge tx.from (total_cost tx) s covered,
        get_balance-le-balances tx.from s,
        ap stake_sum (validators-modify tx.from (charge (total_cost tx)) s),
        stake_sum-add_stake tx.from tx.amount s1.validators,
        ap (sum_by (λ e. e.amount)) (queue-modify tx.from (charge (total_cost tx)) s),
      )

  apply_vote-Conserves : Conserves tx.fee s (apply_vote tx s)
  unfolding apply_vote
  apply_vote-Conserves = omega (
    arith,
    balances-charge tx.from tx.fee s,
    get_balance-le-balances tx.from s,
    ap stake_sum (validators-modify tx.from (charge tx.fee) s),
    ap (sum_by (λ e. e.amount)) (queue-modify tx.from (charge tx.fee) s),
  )

  queue_unstake-Conserves :
      (v : Validator)
      → get tx.from s.validators ≡ some v
      → tx.amount ≤ v.stake
      → supply (queue_unstake tx s v) + tx.fee ≡ supply s
  queue_unstake-Conserves v e h =
      let entry : UnbondingEntry = record {
        address = tx.from;
        amount = tx.amount;
        release_epoch = add64 s.epoch_index unbonding_epochs;
      } in
      let s1 : AccountState = record s {
        validators = insert tx.from (sub_stake tx.amount v) s.validators;
        unbonding_queue = s.unbonding_queue ++ entry ∷ [];
      } in
      omega (
        arith,
        balances-charge tx.from tx.fee s1,
        get_balance-le-balances tx.from s,
        ap stake_sum (validators-modify tx.from (charge tx.fee) s1),
        ap (sum_by (λ e. e.amount)) (queue-modify tx.from (charge tx.fee) s1),
        sum_by-append (λ (e : UnbondingEntry). e.amount) s.unbonding_queue (entry ∷ []),
        stake_sum-sub_stake tx.from tx.amount v s.validators e h,
      )

  apply_unstake-Conserves : Conserves tx.fee s (apply_unstake tx s)
  unfolding apply_unstake
  apply_unstake-Conserves = elim (Option-cases (get tx.from s.validators)) [
    | inl e ↦ rw e (ground arith)
    | inr (v, e) ↦ rw e (ground (arith, queue_unstake-Conserves v e))
  ]

apply_typed-Conserves :
    (kind : TransactionType) (tx : Transaction) (s : AccountState)
    → total_cost tx ≤ get_balance s tx.from
    → supply s < u64_max
    → Conserves tx.fee s (apply_typed kind tx s)
apply_typed-Conserves TransactionType.transfer = apply_transfer-Conserves
apply_typed-Conserves TransactionType.stake = apply_stake-Conserves
apply_typed-Conserves TransactionType.unstake = apply_unstake-Conserves
apply_typed-Conserves TransactionType.vote = apply_vote-Conserves

-- `get_or_create` adds an empty account at most.
pub get_or_create_lem :
    (pk : String) (s : AccountState)
    → let (s1, a) = get_or_create pk s in
      (supply s1 ≡ supply s)
      × (get_balance s1 pk ≡ get_balance s pk)
      × (a.balance ≡ get_balance s pk)
unfolding get_or_create
get_or_create_lem pk s = elim (Option-cases (get pk s.accounts)) [
  | inl e ↦ ground (
    arith,
    sum_by-insert (λ (x : Account). x.balance) pk (new_account pk) s.accounts,
    get-insert_self pk (new_account pk) s.accounts,
  )
  | inr (a, e) ↦ ground arith
]

-- A transaction that does not come from "genesis" lowers the supply by its fee, to be paid out later,
-- or fails and leaves the supply as it was; this needs that the supply lies below 2^64 - 1.
pub apply_transaction-Conserves :
    (tx : Transaction) (s : AccountState)
    → supply s < u64_max
    → (tx.from == "genesis") ≡ false
    → Conserves tx.fee s (apply_transaction tx s)
unfolding apply_transaction
apply_transaction-Conserves tx s room ne =
    let (s1, a) = get_or_create tx.from s in
    rw ne (ground (arith, get_or_create_lem tx.from s, apply_typed-Conserves tx.tx_type tx s1))

-- The fees that a block pays to its producer.
abbrev pub fees_of : List Transaction → ℕ
fees_of [] = 0
fees_of (tx ∷ txs) = (if tx.from == "genesis" then 0 else tx.fee) + fees_of txs

-- What the loop of `apply_block` does to the supply and to the fee counter.
abbrev pub AllConserves :
    List Transaction → ℕ → AccountState → AccountState × Result TxError ℕ → Type 0
AllConserves txs fees s (s', ok fees') =
    (supply s' + fees_of txs ≡ supply s) × (fees' ≡ fees + fees_of txs)
AllConserves txs fees s (s', err _) = supply s' ≤ supply s

apply_all-AllConserves :
    (txs : List Transaction) (fees : ℕ) (s : AccountState)
    → supply s + fees < u64_max
    → AllConserves txs fees s (apply_all txs fees s)
unfolding apply_all
apply_all-AllConserves [] fees s room = (omega arith, omega arith)
apply_all-AllConserves (tx ∷ txs) fees s room =
    let (s1, r) = apply_transaction tx s in
    elim (Bool-cases (tx.from == "genesis")) [
      | inl e ↦ rw e (ground (arith, apply_all-AllConserves txs fees s room))
      | inr e ↦ rw e (
          ground (
            arith,
            apply_transaction-Conserves tx s (omega arith) e,
            apply_all-AllConserves txs (add64 fees tx.fee) s1,
          ))
    ]

pay_producer-supply :
    (producer : String) (fees : ℕ) (s : AccountState)
    → supply s + fees < u64_mod
    → supply (pay_producer (some producer) fees s) ≡ supply s + fees
pay_producer-supply producer fees s room = ground (
  arith,
  balances-credit producer fees s,
  ap stake_sum (validators-modify producer (credit fees) s),
  ap (sum_by (λ e. e.amount)) (queue-modify producer (credit fees) s),
)

-- A block with a producer keeps the supply; without one its fees are lost; a block that fails has at
-- most taken coins out of the state, which its caller throws away.
abbrev pub BlockConserves : List Transaction → Option String → AccountState → Outcome → Type 0
BlockConserves txs (some producer) s (s', ok _) = supply s' ≡ supply s
BlockConserves txs none s (s', ok _) = supply s' + fees_of txs ≡ supply s
BlockConserves txs producer s (s', err _) = supply s' ≤ supply s

-- From a supply below 2^64 - 1, `apply_block` conserves it: with a producer the supply is unchanged,
-- without one it falls by exactly the fees of the block, and a failing block leaves no more than there was.
-- The producer so gets the fees only, none of the reward of 50 coins per block that README.md documents.
pub apply_block-Conserves :
    (txs : List Transaction) (producer : Option String) (s : AccountState)
    → supply s < u64_max
    → BlockConserves txs producer s (apply_block txs producer s)
unfolding apply_block
apply_block-Conserves txs none s room = ground (arith, apply_all-AllConserves txs 0 s (omega arith))
apply_block-Conserves txs (some producer) s room =
    let (s1, r) = apply_all txs 0 s in
    ground (
      arith,
      apply_all-AllConserves txs 0 s (omega arith),
      pay_producer-supply producer (fees_of txs) s1,
    )
