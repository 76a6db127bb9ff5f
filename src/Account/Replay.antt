-- ===== src/Account/Replay.antt =====
-- `validate_transaction` against `apply_transaction` (account.rs): what has been validated applies,
-- and what has been applied is not valid again.
use blockhain_core.Prelude.{
  ℕ, ◌≤◌, ◌<◌, String, ◌≡◌, refl, ap, ◌∙◌, ◌≢◌, inl, inr, not, [], ◌∷◌, ◌++◌, arith, Option-cases,
  eq_refl, ne→false, ℕ-Eq, String-Eq, Bytes-Eq, Option-Eq, ok, err, fail_if, u64_mod, add64,
}
use blockhain_core.Map.{Map, get, contains_key, insert}
use blockhain_core.Map.Laws.{get_of_eq}
use blockhain_core.Crypto.{Crypto}
use blockhain_core.Transaction.{TransactionType, Transaction, total_cost}
use blockhain_core.Account.State.{
  unbonding_epochs, UnbondingEntry, Validator, AccountState, get_balance, get_nonce, get_or_create,
  modify_account, credit, charge,
}
use blockhain_core.Account.Validate.{
  only_validators_vote, invalid_nonce, check_unstake, check_type, validate_transaction,
}
use blockhain_core.Account.Apply.{
  apply_transfer, apply_stake, sub_stake, queue_unstake, apply_unstake, apply_vote, apply_typed,
  apply_transaction,
}
use blockhain_core.Account.Effects.{
  get_nonce-modify, nonce-account_at, get_or_create-SameView, apply_transaction_covered,
}

nonce-queue_unstake :
    (tx : Transaction) (s : AccountState) (v : Validator)
    → get_nonce (queue_unstake tx s v) tx.from ≡ add64 (get_nonce s tx.from) 1
nonce-queue_unstake tx s v =
    let entry : UnbondingEntry = record {
      address = tx.from;
      amount = tx.amount;
      release_epoch = add64 s.epoch_index unbonding_epochs;
    } in
    let s1 : AccountState = record s {
      validators = insert tx.from (sub_stake tx.amount v) s.validators;
      unbonding_queue = s.unbonding_queue ++ entry ∷ [];
    } in
    ground (
      arith,
      get_nonce-modify tx.from tx.from (charge tx.fee) s1,
      nonce-account_at tx.from s,
      eq_refl tx.from,
    )

-- The nonce of the sender after a successful transition of each kind.
nonce-apply_typed :
    (kind : TransactionType) (tx : Transaction) (s : AccountState)
    → (apply_typed kind tx s).1 ≡ ok tt
    → get_nonce (apply_typed kind tx s).0 tx.from ≡ add64 (get_nonce s tx.from) 1
unfolding apply_transfer apply_stake apply_unstake apply_vote
nonce-apply_typed TransactionType.transfer tx s h =
    let s1 = modify_account tx.from (charge (total_cost tx)) s in
    ground (
      arith,
      get_nonce-modify tx.to tx.from (credit tx.amount) s1,
      get_nonce-modify tx.from tx.from (charge (total_cost tx)) s,
      nonce-account_at tx.from s,
      nonce-account_at tx.to s1,
      eq_refl tx.from,
      get_of_eq tx.to tx.from s1.accounts,
    )
nonce-apply_typed TransactionType.stake tx s h = ground (
  arith,
  get_nonce-modify tx.from tx.from (charge (total_cost tx)) s,
  nonce-account_at tx.from s,
  eq_refl tx.from,
)
nonce-apply_typed TransactionType.vote tx s h = ground (
  arith,
  get_nonce-modify tx.from tx.from (charge tx.fee) s,
  nonce-account_at tx.from s,
  eq_refl tx.from,
)
nonce-apply_typed TransactionType.unstake tx s h = elim (Option-cases (get tx.from s.validators)) [
  | inl e ↦ ground arith
  | inr (v, e) ↦ ground (arith, nonce-queue_unstake tx s v)
]

-- The nonce part of a successful validation.
pub validated_nonce :
    (c : Crypto) (s : AccountState) (tx : Transaction)
    → tx.from ≢ "genesis"
    → validate_transaction c s tx ≡ ok tt
    → (tx.nonce ≡ get_nonce s tx.from) × (total_cost tx ≤ get_balance s tx.from)
unfolding validate_transaction
validated_nonce c s tx ne h = ground (arith, ne→false tx.from "genesis" ne)

checked_applies :
    (kind : TransactionType) (tx : Transaction) (s : AccountState)
    → tx.fee ≤ get_balance s tx.from
    → check_type kind tx s ≡ ok tt
    → (apply_typed kind tx s).1 ≡ ok tt
unfolding apply_transfer apply_stake apply_unstake apply_vote
checked_applies TransactionType.transfer tx s k h = refl
checked_applies TransactionType.stake tx s k h = refl
checked_applies TransactionType.vote tx s k h = refl
checked_applies TransactionType.unstake tx s k h = ground arith

check_type-get_or_create :
    (kind : TransactionType) (tx : Transaction) (s : AccountState) (pk : String)
    → check_type kind tx (get_or_create pk s).0 ≡ check_type kind tx s
check_type-get_or_create TransactionType.transfer tx s pk = refl
check_type-get_or_create TransactionType.stake tx s pk = refl
check_type-get_or_create TransactionType.unstake tx s pk =
    ap (λ m. check_unstake (get tx.from m) tx) (get_or_create-SameView pk s).validators
check_type-get_or_create TransactionType.vote tx s pk =
    ap (λ (m : Map String Validator). fail_if (not (contains_key tx.from m)) only_validators_vote)
      (get_or_create-SameView pk s).validators

validated_type :
    (c : Crypto) (s : AccountState) (tx : Transaction)
    → tx.from ≢ "genesis"
    → validate_transaction c s tx ≡ ok tt
    → check_type tx.tx_type tx s ≡ ok tt
unfolding validate_transaction
validated_type c s tx ne h = ground (arith, ne→false tx.from "genesis" ne)

-- A transaction that passes validation in a state applies in that state without an error, and its
-- sender's nonce grows by one (modulo 2^64); the sender is not "genesis" and the fee is a 64-bit number.
pub validated_applies :
    (c : Crypto) (s : AccountState) (tx : Transaction)
    → tx.from ≢ "genesis"
    → tx.fee < u64_mod
    → validate_transaction c s tx ≡ ok tt
    → ((apply_transaction tx s).1 ≡ ok tt)
      × (get_nonce (apply_transaction tx s).0 tx.from ≡ add64 (get_nonce s tx.from) 1)
validated_applies c s tx ne range h =
    let s1 = (get_or_create tx.from s).0 in
    let same = get_or_create-SameView tx.from s in
    let (_, cover) = validated_nonce c s tx ne h in
    let done =
      checked_applies tx.tx_type tx s1 (omega (arith, same.balance tx.from, cover))
        (check_type-get_or_create tx.tx_type tx s tx.from ∙ validated_type c s tx ne h) in
    rw (apply_transaction_covered tx s ne cover) (
      done,
      nonce-apply_typed tx.tx_type tx s1 done ∙ ap (λ (n : ℕ). add64 n 1) (same.nonce tx.from),
    )

validate_nonce :
    (c : Crypto) (s s' : AccountState) (tx : Transaction)
    → tx.from ≢ "genesis"
    → validate_transaction c s tx ≡ ok tt
    → tx.nonce ≢ get_nonce s' tx.from
    → validate_transaction c s' tx ≡ err (invalid_nonce (get_nonce s' tx.from) tx.nonce)
unfolding validate_transaction
validate_nonce c s s' tx ne h other = ground (arith, ne→false tx.from "genesis" ne)

-- Replay protection: a transaction that was valid in a state, not from "genesis" and with
-- 64-bit nonce and fee, is refused for its
-- nonce in the state that applying it gives.
pub replay_rejected :
    (c : Crypto) (s : AccountState) (tx : Transaction)
    → tx.from ≢ "genesis"
    → tx.nonce < u64_mod
    → tx.fee < u64_mod
    → validate_transaction c s tx ≡ ok tt
    → let s' = (apply_transaction tx s).0 in
      validate_transaction c s' tx ≡ err (invalid_nonce (get_nonce s' tx.from) tx.nonce)
replay_rejected c s tx ne range fee_range h =
    validate_nonce c s (apply_transaction tx s).0 tx ne h
      (omega (arith, validated_nonce c s tx ne h, validated_applies c s tx ne fee_range h))
