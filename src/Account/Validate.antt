-- ===== src/Account/Validate.antt =====
-- account.rs: `validate_transaction`, the checks before a transaction is applied.
use blockhain_core.Prelude.{
  ℕ, not, Option, none, some, ltb, if◌then◌else◌, ◌==◌, ℕ-Eq, String-Eq, Bytes-Eq, Option-Eq,
  Result, ok, err, ◌>>◌, fail_if,
}
use blockhain_core.Map.{get, contains_key}
use blockhain_core.Crypto.{Crypto}
use blockhain_core.Transaction.{Transaction, TransactionType, verify, total_cost}
use blockhain_core.Account.State.{Validator, AccountState, get_nonce, get_balance, min_tx_fee}

-- The error messages, with the values that they print.
pub data TxError : Type 0 where
  invalid_signature missing_to zero_stake not_a_validator only_validators_vote : TxError
  fee_too_low : ℕ → TxError
  invalid_nonce : ℕ → ℕ → TxError
  insufficient_balance : ℕ → ℕ → TxError
  insufficient_stake : ℕ → ℕ → TxError
  balance_below_fee : TxError

abbrev pub check_unstake : Option Validator → Transaction → Result TxError (Unit {0})
check_unstake none tx = err not_a_validator
check_unstake (some v) tx = fail_if (ltb v.stake tx.amount) (insufficient_stake v.stake tx.amount)

-- The `match tx.tx_type` at the end.
abbrev pub check_type : TransactionType → Transaction → AccountState → Result TxError (Unit {0})
check_type TransactionType.transfer tx s = fail_if (tx.to == "") missing_to
check_type TransactionType.stake tx s = fail_if (tx.amount == 0) zero_stake
check_type TransactionType.unstake tx s = check_unstake (get tx.from s.validators) tx
check_type TransactionType.vote tx s =
    fail_if (not (contains_key tx.from s.validators)) only_validators_vote

unfoldable pub validate_transaction :
    Crypto → AccountState → Transaction → Result TxError (Unit {0})
validate_transaction c s tx = if tx.from == "genesis" then ok tt else do
  fail_if (not (verify c tx)) invalid_signature
  fail_if (ltb tx.fee min_tx_fee) (fee_too_low tx.fee)
  fail_if (not (tx.nonce == get_nonce s tx.from)) (invalid_nonce (get_nonce s tx.from) tx.nonce)
  fail_if (ltb (get_balance s tx.from) (total_cost tx))
      (insufficient_balance (get_balance s tx.from) (total_cost tx))
  check_type tx.tx_type tx s
