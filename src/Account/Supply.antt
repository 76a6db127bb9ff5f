-- ===== src/Account/Supply.antt =====
-- The total of balances, stakes and unbonding entries of an account state (account.rs), and how the
-- single writes of the transitions change it.
use blockhain_core.Prelude.{
  ℕ, ◌+◌, ◌≤◌, ◌<◌, String, ◌≡◌, ap, inl, inr, arith, Option-cases, ℕ-Eq, String-Eq, Bytes-Eq,
  Option-Eq, sum_by, u64_mod, add64, sub64, add64_exact, sub64_exact,
}
use blockhain_core.Map.{get, insert, get_or, values}
use blockhain_core.Map.Laws.{insert-insert}
use blockhain_core.Map.Sums.{sum_by-insert, share-le-sum_by}
use blockhain_core.Account.State.{
  Account, new_account, AccountState, get_balance, modify_account, credit, charge,
}

abbrev pub account_at : String → AccountState → Account
account_at pk s = get_or pk (new_account pk) s.accounts

pub modify_account_lem :
    (pk : String) (f : Account → Account) (s : AccountState)
    → modify_account pk f s ≡ record s { accounts = insert pk (f (account_at pk s)) s.accounts }
unfolding modify_account
modify_account_lem pk f s =
    ground (arith, insert-insert pk (new_account pk) (f (new_account pk)) s.accounts)

abbrev pub balances : AccountState → ℕ
balances s = sum_by (λ a. a.balance) (values s.accounts)

abbrev pub stakes : AccountState → ℕ
stakes s = sum_by (λ v. v.stake) (values s.validators)

abbrev pub unbonding : AccountState → ℕ
unbonding s = sum_by (λ e. e.amount) s.unbonding_queue

-- All coins of a state.
abbrev pub supply : AccountState → ℕ
supply s = balances s + stakes s + unbonding s

pub get_balance-le-balances : (pk : String) (s : AccountState) → get_balance s pk ≤ balances s
get_balance-le-balances pk s = elim (Option-cases (get pk s.accounts)) [
  | inl e ↦ rw e (omega arith)
  | inr (a, e) ↦ ground (arith, share-le-sum_by (λ (x : Account). x.balance) pk s.accounts)
]

pub balances-modify :
    (pk : String) (f : Account → Account) (s : AccountState)
    → balances (modify_account pk f s) + get_balance s pk
      ≡ balances s + (f (account_at pk s)).balance
balances-modify pk f s =
    rw (modify_account_lem pk f s) (
      ground
        (arith, sum_by-insert (λ (x : Account). x.balance) pk (f (account_at pk s)) s.accounts))

pub balance-account_at :
    (pk : String) (s : AccountState) → (account_at pk s).balance ≡ get_balance s pk
balance-account_at pk s = ground arith

pub validators-modify :
    (pk : String) (f : Account → Account) (s : AccountState)
    → (modify_account pk f s).validators ≡ s.validators
validators-modify pk f s = rw (modify_account_lem pk f s)

pub queue-modify :
    (pk : String) (f : Account → Account) (s : AccountState)
    → (modify_account pk f s).unbonding_queue ≡ s.unbonding_queue
queue-modify pk f s = rw (modify_account_lem pk f s)

-- A covered charge takes exactly the cost.
pub balances-charge :
    (pk : String) (cost : ℕ) (s : AccountState)
    → cost ≤ get_balance s pk
    → balances s < u64_mod
    → balances (modify_account pk (charge cost) s) + cost ≡ balances s
balances-charge pk cost s h k = omega (
  arith,
  balances-modify pk (charge cost) s,
  balance-account_at pk s,
  get_balance-le-balances pk s,
  sub64_exact (get_balance s pk) cost,
  ap (λ (n : ℕ). sub64 n cost) (balance-account_at pk s),
)

-- A credit that fits adds exactly the amount.
pub balances-credit :
    (pk : String) (amount : ℕ) (s : AccountState)
    → balances s + amount < u64_mod
    → balances (modify_account pk (credit amount) s) ≡ balances s + amount
balances-credit pk amount s k = omega (
  arith,
  balances-modify pk (credit amount) s,
  balance-account_at pk s,
  get_balance-le-balances pk s,
  add64_exact (get_balance s pk) amount,
  ap (λ (n : ℕ). add64 n amount) (balance-account_at pk s),
)
