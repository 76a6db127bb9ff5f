-- ===== src/Account/Effects.antt =====
-- What each transition of account.rs does to the balances, the nonces, the validators and the queue.
use blockhain_core.Prelude.{
  ℕ, ◌+◌, ◌≤◌, ◌<◌, String, ◌≡◌, refl, sym, ap, ◌∙◌, ◌≢◌, arith, if◌then◌else◌, ◌==◌, eq_refl,
  eq→path, ne→false, ℕ-Eq, String-Eq, Bytes-Eq, Option-Eq, ok, err, u64_mod, add64,
}
use blockhain_core.Map.Laws.{get-insert, get_of_eq}
use blockhain_core.Transaction.{TransactionType, Transaction, total_cost}
use blockhain_core.Account.State.{
  Account, new_account, AccountState, get_balance, get_nonce, get_or_create, modify_account, credit,
  charge,
}
use blockhain_core.Account.Validate.{TxError}
use blockhain_core.Account.Apply.{
  apply_transfer, apply_stake, apply_unstake, apply_vote, apply_typed, apply_transaction,
}
use blockhain_core.Account.Supply.{account_at, modify_account_lem, balance-account_at}
use mathlib.Core.Path.{subst}

pub get_balance-modify :
    (pk j : String) (f : Account → Account) (s : AccountState)
    → get_balance (modify_account pk f s) j
      ≡ (if pk == j then (f (account_at pk s)).balance else get_balance s j)
get_balance-modify pk j f s =
    rw (modify_account_lem pk f s)
      (ground (arith, get-insert pk j (f (account_at pk s)) s.accounts))

pub get_nonce-modify :
    (pk j : String) (f : Account → Account) (s : AccountState)
    → get_nonce (modify_account pk f s) j
      ≡ (if pk == j then (f (account_at pk s)).nonce else get_nonce s j)
get_nonce-modify pk j f s =
    rw (modify_account_lem pk f s)
      (ground (arith, get-insert pk j (f (account_at pk s)) s.accounts))

pub nonce-account_at : (pk : String) (s : AccountState) → (account_at pk s).nonce ≡ get_nonce s pk
nonce-account_at pk s = ground arith

-- Two states that every getter of the program finds equal; they may differ in empty accounts.
pub record SameView (s t : AccountState) : Type 0 where
  pub balance : (pk : String) → get_balance s pk ≡ get_balance t pk
  pub nonce : (pk : String) → get_nonce s pk ≡ get_nonce t pk
  pub validators : s.validators ≡ t.validators
  pub unbonding_queue : s.unbonding_queue ≡ t.unbonding_queue
  pub epoch_index : s.epoch_index ≡ t.epoch_index
  pub last_epoch_time : s.last_epoch_time ≡ t.last_epoch_time

pub SameView-refl : (s : AccountState) → SameView s s
SameView-refl s = record {
  balance = λ pk. refl;
  nonce = λ pk. refl;
  validators = refl;
  unbonding_queue = refl;
  epoch_index = refl;
  last_epoch_time = refl;
}

get_balance-get_or_create :
    (pk j : String) (s : AccountState) → get_balance (get_or_create pk s).0 j ≡ get_balance s j
unfolding get_or_create
get_balance-get_or_create pk j s =
    ground (arith, get-insert pk j (new_account pk) s.accounts, get_of_eq pk j s.accounts)

get_nonce-get_or_create :
    (pk j : String) (s : AccountState) → get_nonce (get_or_create pk s).0 j ≡ get_nonce s j
unfolding get_or_create
get_nonce-get_or_create pk j s =
    ground (arith, get-insert pk j (new_account pk) s.accounts, get_of_eq pk j s.accounts)

pub get_or_create-SameView : (pk : String) (s : AccountState) → SameView (get_or_create pk s).0 s
unfolding get_or_create
get_or_create-SameView pk s = record {
  balance = λ j. get_balance-get_or_create pk j s;
  nonce = λ j. get_nonce-get_or_create pk j s;
  validators = ground arith;
  unbonding_queue = ground arith;
  epoch_index = ground arith;
  last_epoch_time = ground arith;
}

pub get_or_create-balance :
    (pk : String) (s : AccountState) → (get_or_create pk s).1.balance ≡ get_balance s pk
unfolding get_or_create
get_or_create-balance pk s = ground arith

-- No typed transition fails after it has written something.
apply_typed_err :
    (kind : TransactionType) (tx : Transaction) (s : AccountState) {e : TxError}
    → (apply_typed kind tx s).1 ≡ err e
    → (apply_typed kind tx s).0 ≡ s
unfolding apply_transfer apply_stake apply_unstake apply_vote
apply_typed_err TransactionType.transfer tx s h = ground arith
apply_typed_err TransactionType.stake tx s h = ground arith
apply_typed_err TransactionType.unstake tx s h = ground arith
apply_typed_err TransactionType.vote tx s h = ground arith

failed_state :
    (tx : Transaction) (s : AccountState) {e : TxError}
    → (apply_transaction tx s).1 ≡ err e
    → (apply_transaction tx s).0 ≡ (get_or_create tx.from s).0
unfolding apply_transaction
failed_state tx s {e} h =
    ground (arith, apply_typed_err tx.tx_type tx (get_or_create tx.from s).0 {e = e})

-- A transaction that fails leaves every balance, every nonce, the validators, the unbonding queue and
-- the epoch as they were.
pub apply_transaction_err :
    (tx : Transaction) (s : AccountState) {e : TxError}
    → (apply_transaction tx s).1 ≡ err e
    → SameView (apply_transaction tx s).0 s
apply_transaction_err tx s h =
    subst (λ t. SameView t s) (sym (failed_state tx s h)) (get_or_create-SameView tx.from s)

-- What a covered transfer between two different accounts does.
pub record Transferred (tx : Transaction) (s s' : AccountState) : Type 0 where
  pub paid : get_balance s' tx.from + total_cost tx ≡ get_balance s tx.from
  pub received : get_balance s' tx.to ≡ add64 (get_balance s tx.to) tx.amount
  pub counted : get_nonce s' tx.from ≡ add64 (get_nonce s tx.from) 1
  pub others : (pk : String) → pk ≢ tx.from → pk ≢ tx.to → get_balance s' pk ≡ get_balance s pk
  pub nonces : (pk : String) → pk ≢ tx.from → get_nonce s' pk ≡ get_nonce s pk

module _ (tx : Transaction) (s : AccountState) (ne : tx.from ≢ tx.to)
    (cover : total_cost tx ≤ get_balance s tx.from) (fits : get_balance s tx.from < u64_mod) where
  apply_transfer-Transferred : Transferred tx s (apply_transfer tx s).0
  unfolding apply_transfer
  apply_transfer-Transferred =
      let s1 = modify_account tx.from (charge (total_cost tx)) s in
      record {
        paid = ground (
          arith,
          get_balance-modify tx.to tx.from (credit tx.amount) s1,
          get_balance-modify tx.from tx.from (charge (total_cost tx)) s,
          ne→false tx.to tx.from (λ e. ne (sym e)),
          eq_refl tx.from,
          balance-account_at tx.from s,
        );
        received = ground (
          arith,
          get_balance-modify tx.to tx.to (credit tx.amount) s1,
          get_balance-modify tx.from tx.to (charge (total_cost tx)) s,
          ne→false tx.from tx.to ne,
          eq_refl tx.to,
          balance-account_at tx.to s1,
        );
        counted = ground (
          arith,
          get_nonce-modify tx.to tx.from (credit tx.amount) s1,
          get_nonce-modify tx.from tx.from (charge (total_cost tx)) s,
          ne→false tx.to tx.from (λ e. ne (sym e)),
          eq_refl tx.from,
          nonce-account_at tx.from s,
        );
        others = λ pk f t. ground (
          arith,
          get_balance-modify tx.to pk (credit tx.amount) s1,
          get_balance-modify tx.from pk (charge (total_cost tx)) s,
          ne→false tx.to pk (λ e. t (sym e)),
          ne→false tx.from pk (λ e. f (sym e)),
        );
        nonces = λ pk f. ground (
          arith,
          get_nonce-modify tx.to pk (credit tx.amount) s1,
          get_nonce-modify tx.from pk (charge (total_cost tx)) s,
          ne→false tx.from pk (λ e. f (sym e)),
          nonce-account_at tx.to s1,
          eq→path tx.to pk,
          ap (λ k. get_nonce s1 k) {x = tx.to} {y = pk},
        );
      }

Transferred-SameView :
    {tx : Transaction} {s t s' : AccountState}
    → SameView s t
    → Transferred tx s s'
    → Transferred tx t s'
Transferred-SameView {tx} {s} {t} {s'} v h = record {
  paid = h.paid ∙ v.balance tx.from;
  received = h.received ∙ ap (λ (n : ℕ). add64 n tx.amount) (v.balance tx.to);
  counted = h.counted ∙ ap (λ (n : ℕ). add64 n 1) (v.nonce tx.from);
  others = λ pk f g. h.others pk f g ∙ v.balance pk;
  nonces = λ pk f. h.nonces pk f ∙ v.nonce pk;
}

-- What is applied, once the sender's balance covers the cost.
pub apply_transaction_covered :
    (tx : Transaction) (s : AccountState)
    → tx.from ≢ "genesis"
    → total_cost tx ≤ get_balance s tx.from
    → apply_transaction tx s ≡ apply_typed tx.tx_type tx (get_or_create tx.from s).0
unfolding apply_transaction
apply_transaction_covered tx s ne cover =
    ground (arith, ne→false tx.from "genesis" ne, get_or_create-balance tx.from s)

transfer_succeeds : (tx : Transaction) (s : AccountState) → (apply_transfer tx s).1 ≡ ok tt
unfolding apply_transfer
transfer_succeeds tx s = refl

-- A transfer from an account other than "genesis" to another account, whose amount and fee the sender
-- covers, succeeds: the sender pays amount and fee and its nonce grows by one, the receiver gets the
-- amount (modulo 2^64), and no other balance or nonce changes.
pub transfer_moves_funds :
    (tx : Transaction) (s : AccountState)
    → tx.tx_type ≡ TransactionType.transfer
    → tx.from ≢ "genesis"
    → tx.from ≢ tx.to
    → total_cost tx ≤ get_balance s tx.from
    → get_balance s tx.from < u64_mod
    → ((apply_transaction tx s).1 ≡ ok tt) × Transferred tx s (apply_transaction tx s).0
transfer_moves_funds tx s kind ne apart cover fits =
    let s1 = (get_or_create tx.from s).0 in
    let same = get_or_create-SameView tx.from s in
    rw (apply_transaction_covered tx s ne cover) (
      simp kind (
        transfer_succeeds tx s1,
        Transferred-SameView same (
            apply_transfer-Transferred tx s1 apart (rw (same.balance tx.from) cover)
              (rw (same.balance tx.from) fits)),
      ))
