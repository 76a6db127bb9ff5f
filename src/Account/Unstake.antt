-- ===== src/Account/Unstake.antt =====
-- What `apply_transaction` does with an `Unstake` (account.rs) as a whole: it charges the fee alone, but
-- its test of the balance counts the amount too.
use blockhain_core.Prelude.{
  ℕ, ◌+◌, ◌≤◌, ◌<◌, String, ◌≡◌, ◌≢◌, ◌⊎◌, some, [], ◌∷◌, ◌++◌, ℕ-Eq, String-Eq, Bytes-Eq,
  Option-Eq, ok, err, add64,
}
use blockhain_core.Map.{get}
use blockhain_core.Transaction.{Transaction, total_cost}
use blockhain_core.Account.State.{UnbondingEntry, Validator, AccountState, get_balance, get_nonce}
use blockhain_core.Account.Apply.{Outcome}
use blockhain_core.Account.Effects.{SameView}

-- The amount, to be released seven epochs after the given one.
abbrev pub entry_of : Transaction → ℕ → UnbondingEntry
entry_of tx epoch = record { address = tx.from; amount = tx.amount; release_epoch = add64 epoch 7 }

-- What an accepted unstake of a validator does.
pub record Unstaked (tx : Transaction) (v : Validator) (s s' : AccountState) : Type 0 where
  pub charged : get_balance s' tx.from + tx.fee ≡ get_balance s tx.from
  pub counted : get_nonce s' tx.from ≡ add64 (get_nonce s tx.from) 1
  pub others : (pk : String) → pk ≢ tx.from → get_balance s' pk ≡ get_balance s pk
  pub lowered :
      (w : Validator) × ((get tx.from s'.validators ≡ some w) × (w.stake + tx.amount ≡ v.stake))
  pub rest : (pk : String) → pk ≢ tx.from → get pk s'.validators ≡ get pk s.validators
  pub queued : s'.unbonding_queue ≡ s.unbonding_queue ++ entry_of tx s.epoch_index ∷ []

-- Acceptance needs a balance of amount and fee, and a stake of the amount; refusal has one of the two
-- reasons and leaves what the getters read.
abbrev pub UnstakeOutcome : Transaction → Validator → AccountState → Outcome → Type 0
UnstakeOutcome tx v s (s', ok _) =
    (total_cost tx ≤ get_balance s tx.from) × (tx.amount ≤ v.stake) × Unstaked tx v s s'
UnstakeOutcome tx v s (s', err e) =
    ((get_balance s tx.from < total_cost tx) ⊎ (v.stake < tx.amount)) × SameView s' s
