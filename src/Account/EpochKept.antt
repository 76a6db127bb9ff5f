-- ===== src/Account/EpochKept.antt =====
-- Applying blocks (account.rs) keeps the epoch.
use blockhain_core.Prelude.{
  ℕ, String, ◌≡◌, refl, ◌∙◌, inl, inr, Option, none, some, List, [], ◌∷◌, ltb, Bool-cases, ◌==◌,
  ℕ-Eq, String-Eq, Bytes-Eq, Option-Eq, Result, ok, err, add64,
}
use blockhain_core.Map.{get}
use blockhain_core.Transaction.{TransactionType, Transaction, total_cost}
use blockhain_core.Account.State.{
  Account, Validator, AccountState, get_balance, get_or_create, modify_account, credit, charge,
}
use blockhain_core.Account.Validate.{TxError}
use blockhain_core.Account.Apply.{
  Outcome, apply_transfer, apply_stake, unstake_from, apply_unstake, apply_vote, apply_typed,
  apply_transaction, apply_all, pay_producer, apply_block,
}
use blockhain_core.Account.Effects.{get_or_create-SameView}

abbrev pub SameEpoch : AccountState → AccountState → Type 0
SameEpoch s t = (s.epoch_index ≡ t.epoch_index) × (s.last_epoch_time ≡ t.last_epoch_time)

pub SameEpoch-trans : (s t u : AccountState) → SameEpoch s t → SameEpoch t u → SameEpoch s u
SameEpoch-trans s t u (a, b) (a', b') = (a ∙ a', b ∙ b')

pub modify_account-SameEpoch :
    (pk : String) (f : Account → Account) (s : AccountState) → SameEpoch (modify_account pk f s) s
unfolding modify_account
modify_account-SameEpoch pk f s =
    let v = get_or_create-SameView pk s in (v.epoch_index, v.last_epoch_time)

unstake_from-SameEpoch :
    (o : Option Validator) (tx : Transaction) (s : AccountState)
    → SameEpoch (unstake_from o tx s).0 s
unstake_from-SameEpoch none tx s = (refl, refl)
unstake_from-SameEpoch (some v) tx s = elim (Bool-cases (ltb v.stake tx.amount)) [
  | inl t ↦ rw t (refl, refl)
  | inr t ↦ rw t (modify_account-SameEpoch tx.from (charge tx.fee) _)
]

apply_typed-SameEpoch :
    (kind : TransactionType) (tx : Transaction) (s : AccountState)
    → SameEpoch (apply_typed kind tx s).0 s
unfolding apply_transfer apply_stake apply_unstake apply_vote
apply_typed-SameEpoch TransactionType.transfer tx s =
    SameEpoch-trans (apply_transfer tx s).0 (modify_account tx.from (charge (total_cost tx)) s) s
      (modify_account-SameEpoch tx.to (credit tx.amount)
        (modify_account tx.from (charge (total_cost tx)) s))
      (modify_account-SameEpoch tx.from (charge (total_cost tx)) s)
apply_typed-SameEpoch TransactionType.stake tx s =
    modify_account-SameEpoch tx.from (charge (total_cost tx)) s
apply_typed-SameEpoch TransactionType.unstake tx s =
    elim (Bool-cases (ltb (get_balance s tx.from) tx.fee)) [
      | inl t ↦ rw t (refl, refl)
      | inr t ↦ rw t (unstake_from-SameEpoch (get tx.from s.validators) tx s)
    ]
apply_typed-SameEpoch TransactionType.vote tx s = modify_account-SameEpoch tx.from (charge tx.fee) s

apply_transaction-SameEpoch :
    (tx : Transaction) (s : AccountState) → SameEpoch (apply_transaction tx s).0 s
unfolding apply_transaction
apply_transaction-SameEpoch tx s =
    let v = get_or_create-SameView tx.from s in
    let (s1, sender) = get_or_create tx.from s in
    elim (Bool-cases (tx.from == "genesis")) [
      | inl t ↦ rw t (refl, refl)
      | inr t ↦ elim (Bool-cases (ltb sender.balance (total_cost tx))) [
        | inl u ↦ rw (t, u) (v.epoch_index, v.last_epoch_time)
        | inr u ↦
            rw (t, u)
              (SameEpoch-trans (apply_typed tx.tx_type tx s1).0 s1 s
                (apply_typed-SameEpoch tx.tx_type tx s1) (v.epoch_index, v.last_epoch_time))
      ]
    ]

apply_next-SameEpoch :
    (r : Result TxError (Unit {0})) (s1 s : AccountState) (rest : AccountState × Result TxError ℕ)
    → SameEpoch s1 s
    → SameEpoch rest.0 s
    → SameEpoch
        (elim r as (λ _. AccountState × Result TxError ℕ) [ err e ↦ (s1, err e) | ok _ ↦ rest ]).0
        s
apply_next-SameEpoch (err e) s1 s rest h h' = h
apply_next-SameEpoch (ok x) s1 s rest h h' = h'

apply_all-SameEpoch :
    (txs : List Transaction) (fees : ℕ) (s : AccountState) → SameEpoch (apply_all txs fees s).0 s
unfolding apply_all
apply_all-SameEpoch [] fees s = (refl, refl)
apply_all-SameEpoch (tx ∷ txs) fees s =
    let (s1, r) = apply_transaction tx s in
    let step = apply_transaction-SameEpoch tx s in
    elim (Bool-cases (tx.from == "genesis")) [
      | inl t ↦ rw t (apply_all-SameEpoch txs fees s)
      | inr t ↦ rw t (
          apply_next-SameEpoch r s1 s (apply_all txs (add64 fees tx.fee) s1) step (
            SameEpoch-trans (apply_all txs (add64 fees tx.fee) s1).0 s1 s
              (apply_all-SameEpoch txs (add64 fees tx.fee) s1) step))
    ]

pay_producer-SameEpoch :
    (producer : Option String) (fees : ℕ) (s : AccountState)
    → SameEpoch (pay_producer producer fees s) s
pay_producer-SameEpoch none fees s = (refl, refl)
pay_producer-SameEpoch (some p) fees s = elim (Bool-cases (ltb 0 fees)) [
  | inl t ↦ rw t (modify_account-SameEpoch p (credit fees) s)
  | inr t ↦ rw t (refl, refl)
]

paid-SameEpoch :
    (r : Result TxError ℕ) (producer : Option String) (s1 s : AccountState)
    → SameEpoch s1 s
    → SameEpoch
        (elim r as (λ _. Outcome) [
          | err e ↦ (s1, err e)
          | ok fees ↦ (pay_producer producer fees s1, ok tt)
        ]).0
        s
paid-SameEpoch (err e) producer s1 s h = h
paid-SameEpoch (ok fees) producer s1 s h =
    SameEpoch-trans (pay_producer producer fees s1) s1 s (pay_producer-SameEpoch producer fees s1) h

pub apply_block-SameEpoch :
    (txs : List Transaction) (producer : Option String) (s : AccountState)
    → SameEpoch (apply_block txs producer s).0 s
unfolding apply_block
apply_block-SameEpoch txs producer s =
    let (s1, r) = apply_all txs 0 s in paid-SameEpoch r producer s1 s (apply_all-SameEpoch txs 0 s)
