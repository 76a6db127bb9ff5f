-- ===== src/Account/Unbonded.antt =====
-- What an epoch change (account.rs) pays out of the unbonding queue, and to whom.
use blockhain_core.Prelude.{
  ℕ, ◌+◌, ◌%◌, ◌≤◌, ◌<◌, String, ◌≡◌, refl, ◌∙◌, ◌&&◌, List, [], ◌∷◌, arith, ltb, leb,
  if◌then◌else◌, ◌==◌, ℕ-Eq, String-Eq, Bytes-Eq, Option-Eq, filter, sum_by, u64_mod, add64,
  add64_exact,
}
use blockhain_core.Map.Laws.{get_of_eq}
use blockhain_core.Account.State.{
  UnbondingEntry, AccountState, get_balance, get_nonce, modify_account, credit,
}
use blockhain_core.Account.Epoch.{
  is_released, is_waiting, release_all, process_unbonding, advance_epoch,
}
use blockhain_core.Account.Supply.{
  balances, supply, get_balance-le-balances, balance-account_at, queue-modify, balances-credit,
}
use blockhain_core.Account.Effects.{get_balance-modify, get_nonce-modify, nonce-account_at}

release_all-queue :
    (entries : List UnbondingEntry) (s : AccountState)
    → (release_all entries s).unbonding_queue ≡ s.unbonding_queue
unfolding release_all
release_all-queue [] s = refl
release_all-queue (e ∷ es) s =
    release_all-queue es (modify_account e.address (credit e.amount) s)
    ∙ queue-modify e.address (credit e.amount) s

-- The coins of an account among some entries, and those that are mature at an epoch.
abbrev owed : String → List UnbondingEntry → ℕ
owed pk [] = 0
owed pk (e ∷ q) = (if e.address == pk then e.amount else 0) + owed pk q

abbrev pub matured : String → ℕ → List UnbondingEntry → ℕ
matured pk epoch [] = 0
matured pk epoch (e ∷ q) =
    (if e.address == pk && leb e.release_epoch epoch then e.amount else 0) + matured pk epoch q

owed-released :
    (pk : String) (epoch : ℕ) (q : List UnbondingEntry)
    → owed pk (filter (is_released epoch) q) ≡ matured pk epoch q
owed-released pk epoch [] = refl
owed-released pk epoch (e ∷ q) = ground (arith, owed-released pk epoch q)

sum-released :
    (epoch : ℕ) (q : List UnbondingEntry)
    → sum_by (λ e. e.amount) (filter (is_released epoch) q) ≤ sum_by (λ e. e.amount) q
sum-released epoch [] = omega arith
sum-released epoch (e ∷ q) = ground (arith, sum-released epoch q)

get_balance-credit :
    (a pk : String) (amount : ℕ) (s : AccountState)
    → balances s + amount < u64_mod
    → get_balance (modify_account a (credit amount) s) pk
      ≡ get_balance s pk + (if a == pk then amount else 0)
get_balance-credit a pk amount s h = ground (
  arith,
  get_balance-modify a pk (credit amount) s,
  balance-account_at a s,
  get_balance-le-balances a s,
  add64_exact (get_balance s a) amount,
  get_of_eq a pk s.accounts,
)

release_all-balance :
    (pk : String) (entries : List UnbondingEntry) (s : AccountState)
    → balances s + sum_by (λ e. e.amount) entries < u64_mod
    → get_balance (release_all entries s) pk ≡ get_balance s pk + owed pk entries
unfolding release_all
release_all-balance pk [] s h = omega arith
release_all-balance pk (e ∷ es) s h = omega (
  arith,
  balances-credit e.address e.amount s,
  get_balance-credit e.address pk e.amount s,
  release_all-balance pk es (modify_account e.address (credit e.amount) s),
)

release_all-nonce :
    (pk : String) (entries : List UnbondingEntry) (s : AccountState)
    → get_nonce (release_all entries s) pk ≡ get_nonce s pk
unfolding release_all
release_all-nonce pk [] s = refl
release_all-nonce pk (e ∷ es) s = ground (
  arith,
  release_all-nonce pk es (modify_account e.address (credit e.amount) s),
  get_nonce-modify e.address pk (credit e.amount) s,
  nonce-account_at e.address s,
  get_of_eq e.address pk s.accounts,
)

-- What the epoch change to an epoch does with the unbonding queue.
pub record PaysMatured (epoch : ℕ) (s s' : AccountState) : Type 0 where
  pub paid :
      (pk : String) → get_balance s' pk ≡ get_balance s pk + matured pk epoch s.unbonding_queue
  pub nonces : (pk : String) → get_nonce s' pk ≡ get_nonce s pk
  pub waiting : s'.unbonding_queue ≡ filter (λ e. ltb epoch e.release_epoch) s.unbonding_queue

filter_waiting :
    (epoch : ℕ) (q : List UnbondingEntry)
    → filter (is_waiting epoch) q ≡ filter (λ e. ltb epoch e.release_epoch) q
filter_waiting epoch [] = refl
filter_waiting epoch (e ∷ q) = ground (arith, filter_waiting epoch q)

-- An epoch change from a supply below 2^64 pays each account exactly the coins of its entries in the
-- queue whose release epoch is not after the new epoch (the old one plus 1, modulo 2^64), leaves the
-- nonces, and keeps in the queue, in order, the entries of later release epochs.
pub advance_epoch-PaysMatured :
    (timestamp : ℕ) (s : AccountState)
    → supply s < u64_mod
    → PaysMatured (add64 s.epoch_index 1) s (advance_epoch timestamp s)
unfolding advance_epoch process_unbonding
advance_epoch-PaysMatured timestamp s h =
    let epoch = add64 s.epoch_index 1 in
    let mature = filter (is_released epoch) s.unbonding_queue in
    let s1 : AccountState = record s {
      epoch_index = epoch;
      last_epoch_time = timestamp % u64_mod;
      unbonding_queue = filter (is_waiting epoch) s.unbonding_queue;
    } in
    record {
      paid = λ pk. omega (
        arith,
        sum-released epoch s.unbonding_queue,
        release_all-balance pk mature s1,
        owed-released pk epoch s.unbonding_queue,
      );
      nonces = λ pk. release_all-nonce pk mature s1;
      waiting = release_all-queue mature s1 ∙ filter_waiting epoch s.unbonding_queue;
    }
