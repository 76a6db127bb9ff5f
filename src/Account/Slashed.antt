-- ===== src/Account/Slashed.antt =====
-- Slashing (account.rs) is permanent: whatever transactions, epochs and slashings follow, a slashed
-- validator is never counted as active, however much it stakes.
use blockhain_core.Prelude.{
  ℕ, ◌/◌, ◌%◌, String, ◌≡◌, refl, ap, inl, inr, Bool, true, false, Option, none, some, List, [],
  ◌∷◌, ◌++◌, arith, Option-cases, ◌==◌, ℕ-Eq, String-Eq, Bytes-Eq, Option-Eq, filter, u64_mod,
  add64,
}
use blockhain_core.Map.{Map, get, insert, get_or}
use blockhain_core.Map.Laws.{get-insert, get-insert_self, get-map_values, get_of_eq}
use blockhain_core.Transaction.{TransactionType, Transaction, total_cost}
use blockhain_core.Account.State.{
  unbonding_epochs, UnbondingEntry, Account, Validator, new_validator, is_eligible, AccountState,
  is_active, get_or_create, modify_account, credit, charge, add_balance,
}
use blockhain_core.Account.Apply.{
  apply_transfer, add_stake, apply_stake, sub_stake, queue_unstake, apply_unstake, apply_vote,
  apply_typed, apply_transaction,
}
use blockhain_core.Account.Epoch.{
  is_released, is_waiting, release_all, process_unbonding, unjail, advance_epoch, slash,
  slash_validator, apply_slashing,
}
use blockhain_core.Account.Supply.{validators-modify}
use mathlib.Core.Option

abbrev pub slashed_flag : Option Validator → Bool
slashed_flag none = false
slashed_flag (some v) = v.slashed

abbrev pub IsSlashed : String → AccountState → Type 0
IsSlashed a s = slashed_flag (get a s.validators) ≡ true

-- What can happen to the account state of a node: a transaction, successful or not, an epoch change,
-- evidence in a block, the payout of fees.
pub data Step (s : AccountState) : AccountState → Type 0 where
  transaction : (tx : Transaction) → Step s (apply_transaction tx s).0
  epoch : (timestamp : ℕ) → Step s (advance_epoch timestamp s)
  evidence :
      (penalty : ℕ → ℕ) (now : ℕ) (producers : List (Option String))
      → Step s (apply_slashing penalty now producers s)
  reward : (pk : String) (amount : ℕ) → Step s (add_balance pk amount s)

pub data Reach (s : AccountState) : AccountState → Type 0 where
  here : Reach s s
  next : {t u : AccountState} → Reach s t → Step t u → Reach s u

IsSlashed-modify :
    (a pk : String) (f : Account → Account) (s : AccountState)
    → IsSlashed a s
    → IsSlashed a (modify_account pk f s)
IsSlashed-modify a pk f s h = rw (validators-modify pk f s) h

slashed-insert :
    (a b : String) (v : Validator) (m : Map String Validator)
    → ((b == a) ≡ true → v.slashed ≡ true)
    → slashed_flag (get a m) ≡ true
    → slashed_flag (get a (insert b v m)) ≡ true
slashed-insert a b v m k h = ground (arith, get-insert b a v m)

IsSlashed-get_or_create :
    (a pk : String) (s : AccountState) → IsSlashed a s → IsSlashed a (get_or_create pk s).0
unfolding get_or_create
IsSlashed-get_or_create a pk s h = ground arith

slashed-add_stake :
    (a b : String) (amount : ℕ) (m : Map String Validator)
    → slashed_flag (get a m) ≡ true
    → slashed_flag (get a (add_stake b amount m)) ≡ true
slashed-add_stake a b amount m h =
    let v = get_or b (new_validator b 0) m in
    slashed-insert a b (record v { stake = add64 v.stake amount; active = true }) m
      (λ e. ground (arith, get_of_eq b a m)) h

IsSlashed-queue_unstake :
    (a : String) (tx : Transaction) (s : AccountState) (v : Validator)
    → IsSlashed a s
    → get tx.from s.validators ≡ some v
    → IsSlashed a (queue_unstake tx s v)
IsSlashed-queue_unstake a tx s v h e =
    let entry : UnbondingEntry = record {
      address = tx.from;
      amount = tx.amount;
      release_epoch = add64 s.epoch_index unbonding_epochs;
    } in
    IsSlashed-modify a tx.from (charge tx.fee)
      (record s {
        validators = insert tx.from (sub_stake tx.amount v) s.validators;
        unbonding_queue = s.unbonding_queue ++ entry ∷ [];
      })
      (slashed-insert a tx.from (sub_stake tx.amount v) s.validators
        (λ q. ground (arith, get_of_eq tx.from a s.validators)) h)

IsSlashed-apply_typed :
    (a : String) (kind : TransactionType) (tx : Transaction) (s : AccountState)
    → IsSlashed a s
    → IsSlashed a (apply_typed kind tx s).0
unfolding apply_transfer apply_stake apply_unstake apply_vote
IsSlashed-apply_typed a TransactionType.transfer tx s h =
    IsSlashed-modify a tx.to (credit tx.amount) (modify_account tx.from (charge (total_cost tx)) s)
      (IsSlashed-modify a tx.from (charge (total_cost tx)) s h)
IsSlashed-apply_typed a TransactionType.stake tx s h =
    let s1 = modify_account tx.from (charge (total_cost tx)) s in
    slashed-add_stake a tx.from tx.amount s1.validators
      (IsSlashed-modify a tx.from (charge (total_cost tx)) s h)
IsSlashed-apply_typed a TransactionType.vote tx s h = IsSlashed-modify a tx.from (charge tx.fee) s h
IsSlashed-apply_typed a TransactionType.unstake tx s h =
    elim (Option-cases (get tx.from s.validators)) [
      | inl e ↦ ground arith
      | inr (v, e) ↦ ground (arith, IsSlashed-queue_unstake a tx s v h)
    ]

IsSlashed-apply_transaction :
    (a : String) (tx : Transaction) (s : AccountState)
    → IsSlashed a s
    → IsSlashed a (apply_transaction tx s).0
unfolding apply_transaction
IsSlashed-apply_transaction a tx s h = ground (
  arith,
  IsSlashed-get_or_create a tx.from s h,
  IsSlashed-apply_typed a tx.tx_type tx (get_or_create tx.from s).0,
)

slashed-slash_validator :
    (a b : String) (penalty : ℕ → ℕ) (now : ℕ) (m : Map String Validator)
    → slashed_flag (get a m) ≡ true
    → slashed_flag (get a (slash_validator penalty now b m)) ≡ true
slashed-slash_validator a b penalty now m h = elim (Option-cases (get b m)) [
  | inl e ↦ ground arith
  | inr (v, e) ↦ ground (arith, slashed-insert a b (slash penalty now v) m (λ _. refl) h)
]

IsSlashed-apply_slashing :
    (a : String) (penalty : ℕ → ℕ) (now : ℕ) (producers : List (Option String)) (s : AccountState)
    → IsSlashed a s
    → IsSlashed a (apply_slashing penalty now producers s)
unfolding apply_slashing
IsSlashed-apply_slashing a penalty now [] s h = h
IsSlashed-apply_slashing a penalty now (none ∷ ps) s h =
    IsSlashed-apply_slashing a penalty now ps s h
IsSlashed-apply_slashing a penalty now (some p ∷ ps) s h =
    IsSlashed-apply_slashing a penalty now ps
      (record s { validators = slash_validator penalty now p s.validators })
      (slashed-slash_validator a p penalty now s.validators h)

IsSlashed-release_all :
    (a : String) (entries : List UnbondingEntry) (s : AccountState)
    → IsSlashed a s
    → IsSlashed a (release_all entries s)
unfolding release_all
IsSlashed-release_all a [] s h = h
IsSlashed-release_all a (e ∷ es) s h =
    IsSlashed-release_all a es (modify_account e.address (credit e.amount) s)
      (IsSlashed-modify a e.address (credit e.amount) s h)

slashed-unjail :
    (now : ℕ) (o : Option Validator)
    → slashed_flag o ≡ true
    → slashed_flag (Option.map (unjail now) o) ≡ true
slashed-unjail now none h = h
slashed-unjail now (some v) h = ground arith

IsSlashed-advance_epoch :
    (a : String) (timestamp : ℕ) (s : AccountState)
    → IsSlashed a s
    → IsSlashed a (advance_epoch timestamp s)
unfolding advance_epoch process_unbonding
IsSlashed-advance_epoch a timestamp s h =
    let now = timestamp / 1000 % u64_mod in
    let s0 : AccountState = record s {
      unbonding_queue = filter (is_waiting (add64 s.epoch_index 1)) s.unbonding_queue;
      epoch_index = add64 s.epoch_index 1;
      last_epoch_time = timestamp % u64_mod;
    } in
    let s1 = release_all (filter (is_released (add64 s.epoch_index 1)) s.unbonding_queue) s0 in
    rw (get-map_values (unjail now) a s1.validators) (
      slashed-unjail now (get a s1.validators) (
        IsSlashed-release_all a (filter (is_released (add64 s.epoch_index 1)) s.unbonding_queue) s0
          h))

IsSlashed-Step : (a : String) {s t : AccountState} → Step s t → IsSlashed a s → IsSlashed a t
IsSlashed-Step a {s} (transaction tx) h = IsSlashed-apply_transaction a tx s h
IsSlashed-Step a {s} (epoch timestamp) h = IsSlashed-advance_epoch a timestamp s h
IsSlashed-Step a {s} (evidence penalty now ps) h = IsSlashed-apply_slashing a penalty now ps s h
IsSlashed-Step a {s} (reward pk amount) h =
    unfold add_balance in IsSlashed-modify a pk (credit amount) s h

IsSlashed-Reach : (a : String) {s t : AccountState} → IsSlashed a s → Reach s t → IsSlashed a t
IsSlashed-Reach a h here = h
IsSlashed-Reach a h (next r st) = IsSlashed-Step a st (IsSlashed-Reach a h r)

-- A validator that is slashed in a state is slashed in every state that transactions, epoch changes,
-- evidence and rewards lead to; in these states it is neither active nor eligible at any block.
pub slashed_forever :
    (a : String) {s t : AccountState}
    → Reach s t
    → IsSlashed a s
    → (v : Validator) → get a t.validators ≡ some v
    → (is_active v ≡ false) × ((block : ℕ) → is_eligible v block ≡ false)
unfolding is_eligible
slashed_forever a r h v e =
    (ground (arith, IsSlashed-Reach a h r), λ block. ground (arith, IsSlashed-Reach a h r))

slash_validator_idem :
    (penalty : ℕ → ℕ) (now later : ℕ) (a : String) (m : Map String Validator)
    → slash_validator penalty later a (slash_validator penalty now a m)
      ≡ slash_validator penalty now a m
slash_validator_idem penalty now later a m = elim (Option-cases (get a m)) [
  | inl e ↦ ground arith
  | inr (v, e) ↦ ground (arith, get-insert_self a (slash penalty now v) m)
]

-- A validator pays for its first evidence only: further evidence against it, in the same block or a
-- later one, changes nothing.
pub slashed_once :
    (penalty : ℕ → ℕ) (now later : ℕ) (a : String) (s : AccountState)
    → let s' = apply_slashing penalty now (some a ∷ []) s in
      apply_slashing penalty later (some a ∷ []) s' ≡ s'
unfolding apply_slashing
slashed_once penalty now later a s =
    ap (λ m. record s { validators = m }) (slash_validator_idem penalty now later a s.validators)
