-- ===== src/Account/EpochSupply.antt =====
-- The epoch change and slashing (account.rs) against the supply.
use blockhain_core.Prelude.{
  ℕ, ◌+◌, ◌/◌, ◌%◌, ◌<◌, String, ◌≡◌, refl, ap, List, [], ◌∷◌, arith, ℕ-Eq, String-Eq, Bytes-Eq,
  Option-Eq, filter, sum_by, u64_mod, add64,
}
use blockhain_core.Map.{Map, values}
use blockhain_core.Map.Sums.{sum_by-map_values}
use blockhain_core.Account.State.{UnbondingEntry, Validator, AccountState, modify_account, credit}
use blockhain_core.Account.Epoch.{
  is_released, is_waiting, release_all, process_unbonding, unjail, advance_epoch,
}
use blockhain_core.Account.Supply.{supply, validators-modify, queue-modify, balances-credit}

abbrev queue_sum : List UnbondingEntry → ℕ
queue_sum q = sum_by (λ e. e.amount) q

release_all-supply :
    (entries : List UnbondingEntry) (s : AccountState)
    → supply s + queue_sum entries < u64_mod
    → supply (release_all entries s) ≡ supply s + queue_sum entries
unfolding release_all
release_all-supply [] s h = omega arith
release_all-supply (entry ∷ entries) s h =
    let s1 = modify_account entry.address (credit entry.amount) s in
    omega (
      arith,
      balances-credit entry.address entry.amount s,
      ap (λ (m : Map String Validator). sum_by (λ v. v.stake) (values m))
          (validators-modify entry.address (credit entry.amount) s),
      ap queue_sum (queue-modify entry.address (credit entry.amount) s),
      release_all-supply entries s1,
    )

queue_sum-split :
    (epoch : ℕ) (q : List UnbondingEntry)
    → queue_sum (filter (is_released epoch) q) + queue_sum (filter (is_waiting epoch) q)
      ≡ queue_sum q
queue_sum-split epoch [] = refl
queue_sum-split epoch (e ∷ q) = ground (arith, queue_sum-split epoch q)

pub process_unbonding-supply :
    (s : AccountState) → supply s < u64_mod → supply (process_unbonding s) ≡ supply s
unfolding process_unbonding
process_unbonding-supply s h =
    let s1 : AccountState = record s {
      unbonding_queue = filter (is_waiting s.epoch_index) s.unbonding_queue;
    } in
    omega (
      arith,
      queue_sum-split s.epoch_index s.unbonding_queue,
      release_all-supply (filter (is_released s.epoch_index) s.unbonding_queue) s1,
    )

unjail-stake : (now : ℕ) (v : Validator) → (unjail now v).stake ≡ v.stake
unjail-stake now v = ground arith

-- An epoch change pays matured unbonding entries out and releases validators from jail: the supply is
-- unchanged, if it lies below 2^64.
pub advance_epoch-supply :
    (timestamp : ℕ) (s : AccountState)
    → supply s < u64_mod
    → supply (advance_epoch timestamp s) ≡ supply s
unfolding advance_epoch
advance_epoch-supply timestamp s h =
    let s0 : AccountState = record s {
      epoch_index = add64 s.epoch_index 1;
      last_epoch_time = timestamp % u64_mod;
    } in
    omega (
      arith,
      process_unbonding-supply s0,
      sum_by-map_values {K = String} (λ (v : Validator). v.stake)
          (unjail (timestamp / 1000 % u64_mod)) (process_unbonding s0).validators
          (unjail-stake (timestamp / 1000 % u64_mod)),
    )
