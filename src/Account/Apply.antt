-- ===== src/Account/Apply.antt =====
-- account.rs: `apply_transaction` and `apply_block`. The state comes back beside an error too, since
-- what was written before an early return stays written.
use blockhain_core.Prelude.{
  ℕ, String, true, false, Option, none, some, List, [], ◌∷◌, ◌++◌, ltb, if◌then◌else◌, ◌==◌, ℕ-Eq,
  String-Eq, Bytes-Eq, Option-Eq, Result, ok, err, add64, sub64,
}
use blockhain_core.Map.{Map, get, insert, get_or}
use blockhain_core.Transaction.{Transaction, TransactionType, total_cost}
use blockhain_core.Account.State.{
  Validator, AccountState, get_balance, get_or_create, modify_account, new_validator, credit,
  charge, unbonding_epochs,
}
use blockhain_core.Account.Validate.{
  TxError, insufficient_balance, insufficient_stake, not_a_validator, balance_below_fee,
}

abbrev pub Outcome : Type 0
Outcome = AccountState × Result TxError (Unit {0})

unfoldable pub apply_transfer : Transaction → AccountState → Outcome
apply_transfer tx s =
    let s1 = modify_account tx.from (charge (total_cost tx)) s in
    (modify_account tx.to (credit tx.amount) s1, ok tt)

-- `entry(from).or_insert_with(..)`, then `stake += amount; active = true`.
abbrev pub add_stake : String → ℕ → Map String Validator → Map String Validator
add_stake a amount m =
    let v = get_or a (new_validator a 0) m in
    insert a (record v { stake = add64 v.stake amount; active = true }) m

unfoldable pub apply_stake : Transaction → AccountState → Outcome
apply_stake tx s =
    let s1 = modify_account tx.from (charge (total_cost tx)) s in
    (record s1 { validators = add_stake tx.from tx.amount s1.validators }, ok tt)

abbrev pub sub_stake : ℕ → Validator → Validator
sub_stake amount v =
    let left = sub64 v.stake amount in
    record v { stake = left; active = if left == 0 then false else v.active }

-- The queue entry and the fee, after the stake has been taken.
abbrev pub queue_unstake : Transaction → AccountState → Validator → AccountState
queue_unstake tx s v = modify_account tx.from (charge tx.fee) (record s {
  validators = insert tx.from (sub_stake tx.amount v) s.validators;
  unbonding_queue =
      s.unbonding_queue
      ++ record {
        address = tx.from;
        amount = tx.amount;
        release_epoch = add64 s.epoch_index unbonding_epochs;
      }
        ∷ [];
})

abbrev pub unstake_from : Option Validator → Transaction → AccountState → Outcome
unstake_from none tx s = (s, err not_a_validator)
unstake_from (some v) tx s =
    if ltb v.stake tx.amount
    then (s, err (insufficient_stake v.stake tx.amount))
    else (queue_unstake tx s v, ok tt)

unfoldable pub apply_unstake : Transaction → AccountState → Outcome
apply_unstake tx s =
    if ltb (get_balance s tx.from) tx.fee
    then (s, err balance_below_fee)
    else unstake_from (get tx.from s.validators) tx s

unfoldable pub apply_vote : Transaction → AccountState → Outcome
apply_vote tx s = (modify_account tx.from (charge tx.fee) s, ok tt)

abbrev pub apply_typed : TransactionType → Transaction → AccountState → Outcome
apply_typed TransactionType.transfer = apply_transfer
apply_typed TransactionType.stake = apply_stake
apply_typed TransactionType.unstake = apply_unstake
apply_typed TransactionType.vote = apply_vote

unfoldable pub apply_transaction : Transaction → AccountState → Outcome
apply_transaction tx s =
    if tx.from == "genesis"
    then (s, ok tt)
    else let (s1, sender) = get_or_create tx.from s in
      if ltb sender.balance (total_cost tx)
      then (s1, err (insufficient_balance sender.balance (total_cost tx)))
      else apply_typed tx.tx_type tx s1

-- The loop of `apply_block`, with the fees so far.
unfoldable pub apply_all : List Transaction → ℕ → AccountState → AccountState × Result TxError ℕ
apply_all [] fees s = (s, ok fees)
apply_all (tx ∷ txs) fees s =
    let skipped = apply_all txs fees s in
    let (s1, r) = apply_transaction tx s in
    if tx.from == "genesis"
    then skipped
    else elim r [ err e ↦ (s1, err e) | ok _ ↦ apply_all txs (add64 fees tx.fee) s1 ]

abbrev pub pay_producer : Option String → ℕ → AccountState → AccountState
pay_producer none fees s = s
pay_producer (some producer) fees s =
    if ltb 0 fees then modify_account producer (credit fees) s else s

unfoldable pub apply_block : List Transaction → Option String → AccountState → Outcome
apply_block txs producer s =
    let (s1, r) = apply_all txs 0 s in
    elim r [ err e ↦ (s1, err e) | ok fees ↦ (pay_producer producer fees s1, ok tt) ]
